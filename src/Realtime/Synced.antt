-- ===== src/Realtime/Synced.antt =====
-- What the server has been asked for on an open connection.
pub mod Opening
pub mod Steps
use tinai_infra.Prelude.{
  ℕ, ◌≡◌, ◌≢◌, refl, ◌∙◌, sym, ap, subst, inl, inr, Bool, true, false, ◌||◌, Option, none, some,
  List, [], ◌∷◌, ◌++◌, map, arith, if◌then◌else◌, ◌==◌, is_some, find, delete_where, Bool-cases,
  Option-cases,
}
use tinai_infra.Realtime.{
  Client, Socket, Ready, connecting, ready, closing, Message, subscribe, unsubscribe, ping, post,
  post_on, post_all, flush_on, flush_queue, open_socket, if_ready, has_channel,
}

-- Whether a channel is asked for after some messages, where `b` says whether it was before.
abbrev pub wants : ℕ → List Message → Bool → Bool
wants ch [] b = b
wants ch (subscribe d ∷ ms) b = wants ch ms (if d == ch then true else b)
wants ch (unsubscribe d ∷ ms) b = wants ch ms (if d == ch then false else b)
wants ch (ping ∷ ms) b = wants ch ms b

pub wants-append :
    (ch : ℕ) (ms ns : List Message) (b : Bool) → wants ch (ms ++ ns) b ≡ wants ch ns (wants ch ms b)
wants-append ch [] ns b = refl
wants-append ch (subscribe d ∷ ms) ns b = wants-append ch ms ns _
wants-append ch (unsubscribe d ∷ ms) ns b = wants-append ch ms ns _
wants-append ch (ping ∷ ms) ns b = wants-append ch ms ns b

-- No message that waits asks for a channel that is not wanted.
abbrev pub IsQuiet : List Message → List ℕ → Type 0
IsQuiet q chs = (ch : ℕ) → has_channel ch chs ≡ false → wants ch q false ≡ false

abbrev pub StateOk : Ready → (sent q : List Message) → List ℕ → Type 0
StateOk connecting sent q chs = sent ≡ []
StateOk ready sent q chs = (q ≡ []) × ((ch : ℕ) → wants ch sent false ≡ has_channel ch chs)
StateOk closing sent q chs = Unit

abbrev pub SocketOk : Option Socket → List Message → List ℕ → Type 0
SocketOk none q chs = Unit
SocketOk (some w) q chs = StateOk w.state w.sent q chs

-- The queue is quiet; on an open socket nothing waits, and what was sent asks the server for just the
-- channels of the list.
abbrev pub IsSynced : Client → List ℕ → Type 0
IsSynced c chs = IsQuiet c.message_queue chs × SocketOk c.ws c.message_queue chs

-- The message takes the channels from the one list to the other.
abbrev pub Takes : Message → (chs chs' : List ℕ) → Type 0
Takes m chs chs' = (ch : ℕ) → wants ch (m ∷ []) (has_channel ch chs) ≡ has_channel ch chs'

IsQuiet-append :
    (m : Message) (q : List Message) (chs chs' : List ℕ)
    → Takes m chs chs'
    → IsQuiet q chs
    → IsQuiet (q ++ m ∷ []) chs'
IsQuiet-append (subscribe d) q chs chs' t h ch out =
    wants-append ch q (subscribe d ∷ []) false ∙ ground (arith, t ch, h ch)
IsQuiet-append (unsubscribe d) q chs chs' t h ch out =
    wants-append ch q (unsubscribe d ∷ []) false ∙ ground (arith, t ch, h ch)
IsQuiet-append ping q chs chs' t h ch out =
    wants-append ch q (ping ∷ []) false ∙ ground (arith, t ch, h ch)

post_state :
    (m : Message) (c : Client) (w : Socket) (r : Ready) (chs chs' : List ℕ)
    → Takes m chs chs'
    → c.ws ≡ some w
    → w.state ≡ r
    → IsQuiet c.message_queue chs
    → StateOk r w.sent c.message_queue chs
    → IsSynced (post m c) chs'
post_state m c w connecting chs chs' t e e' q ok =
    rw (e, e') (IsQuiet-append m c.message_queue chs chs' t q, ok)
post_state m c w ready chs chs' t e e' q ok =
    rw (e, e')
      (
        λ ch out. ap (λ ms. wants ch ms false) ok.0,
        (
          ok.0,
          λ ch. wants-append ch w.sent (m ∷ []) false ∙ ap (wants ch (m ∷ [])) (ok.1 ch) ∙ t ch,
        ),
      )
post_state m c w closing chs chs' t e e' q ok =
    rw (e, e') (IsQuiet-append m c.message_queue chs chs' t q, tt)

-- Sending a message that takes the channels along keeps the server in step.
pub post-IsSynced :
    (m : Message) (c : Client) (chs chs' : List ℕ)
    → Takes m chs chs'
    → IsSynced c chs
    → IsSynced (post m c) chs'
post-IsSynced m c chs chs' t h = elim (Option-cases c.ws) [
  | inl e ↦ rw e (IsQuiet-append m c.message_queue chs chs' t h.0, tt)
  | inr (w, e) ↦
      post_state m c w w.state chs chs' t e refl h.0
        (subst (λ x. SocketOk x c.message_queue chs) e h.1)
]
