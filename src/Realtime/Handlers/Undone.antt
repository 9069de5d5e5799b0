-- ===== src/Realtime/Handlers/Undone.antt =====
-- A channel that is subscribed and then unsubscribed.
use mathlib.Core.Option.{some-injective}
use mathlib.Core.List.{append_assoc, append-nil}
use tinai_infra.Prelude.{
  ℕ, suc, ◌≤◌, ◌<◌, ◌≡◌, refl, ◌∙◌, ap, sym, subst, Bool, true, false, Option, none, some, List, [],
  ◌∷◌, ◌++◌, arith, ◌==◌, ==_refl, All, delete_where, Bool-cases, inl, inr,
}
use tinai_infra.Realtime.{
  Subscription, Client, add_subscription, remove_subscription, is_same, listens, join,
  ensure_connected, has_channel, subscribe, unsubscribe,
}
use tinai_infra.Realtime.Channels.{post-SameLists, ensure_connected-SameLists}
use tinai_infra.Realtime.Handlers.{
  ServerMessage, ChannelEvent, Channel, records, add_all, remove_all, subscribe_channel,
  unsubscribe_channel, handle_message, calls_of, realtime_event,
}

join-subscriptions : (ch : ℕ) (c : Client) → (join ch c).subscriptions ≡ c.subscriptions
join-subscriptions ch c = elim (Bool-cases (has_channel ch c.subscribed_channels)) [
  | inl e ↦ rw e refl
  | inr e ↦
      rw e
        (post-SameLists (subscribe ch)
          (record c { subscribed_channels = c.subscribed_channels ++ ch ∷ [] })).1
]

add_subscription-subscriptions :
    (valid : Bool) (s : Subscription) (c : Client)
    → (add_subscription valid s c).subscriptions ≡ c.subscriptions ++ s ∷ []
add_subscription-subscriptions valid s c =
    let c' = record c { subscriptions = c.subscriptions ++ s ∷ [] } in
    join-subscriptions s.channel (ensure_connected valid c')
    ∙ (ensure_connected-SameLists valid c').1

add_all-subscriptions :
    (valid : Bool) (ss : List Subscription) (c : Client)
    → (add_all valid ss c).subscriptions ≡ c.subscriptions ++ ss
add_all-subscriptions valid [] c = sym (append-nil c.subscriptions)
add_all-subscriptions valid (s ∷ ss) c =
    add_all-subscriptions valid ss (add_subscription valid s c)
    ∙ ap (λ l. l ++ ss) (add_subscription-subscriptions valid s c)
    ∙ append_assoc c.subscriptions (s ∷ []) ss

remove_subscription-subscriptions :
    (s : Subscription) (c : Client)
    → (remove_subscription s c).subscriptions ≡ delete_where (is_same s) c.subscriptions
remove_subscription-subscriptions s c =
    let c' = record c { subscriptions = delete_where (is_same s) c.subscriptions } in
    elim (Bool-cases (listens s.channel c'.subscriptions)) [
      | inl e ↦ rw e refl
      | inr e ↦
          rw e
            (post-SameLists (unsubscribe s.channel) (record c' {
              subscribed_channels = delete_where (λ d. d == s.channel) c'.subscribed_channels;
            })).1
    ]

-- Records with keys below, and from, a number on.
abbrev pub AllBelow : ℕ → List Subscription → Type 0
AllBelow k ss = All (λ s. s.key < k) ss

abbrev AllFrom : ℕ → List Subscription → Type 0
AllFrom k ss = All (λ s. k ≤ s.key) ss

AllBelow-later : (k : ℕ) (ss : List Subscription) → AllBelow k ss → AllBelow (suc k) ss
AllBelow-later k [] h = tt
AllBelow-later k (s ∷ ss) (x, h) = (omega (arith, x), AllBelow-later k ss h)

AllFrom-earlier : (k : ℕ) (ss : List Subscription) → AllFrom (suc k) ss → AllFrom k ss
AllFrom-earlier k [] h = tt
AllFrom-earlier k (s ∷ ss) (x, h) = (omega (arith, x), AllFrom-earlier k ss h)

records-AllFrom : (k name : ℕ) (hs : List (ChannelEvent × ℕ)) → AllFrom k (records k name hs)
records-AllFrom k name [] = tt
records-AllFrom k name ((e, f) ∷ hs) =
    (omega arith, AllFrom-earlier k (records (suc k) name hs) (records-AllFrom (suc k) name hs))

delete_above :
    (s : Subscription) (ss : List Subscription)
    → AllFrom (suc s.key) ss
    → delete_where (is_same s) ss ≡ ss
delete_above s [] h = refl
delete_above s (t ∷ ss) (x, h) = ground (arith, x, delete_above s ss h)

-- The record behind those below its key and before those above it.
delete_between :
    (s : Subscription) (xs ss : List Subscription)
    → AllBelow s.key xs
    → AllFrom (suc s.key) ss
    → delete_where (is_same s) (xs ++ s ∷ ss) ≡ xs ++ ss
delete_between s [] ss h k = rw (==_refl s.key, ==_refl s.channel) (delete_above s ss k)
delete_between s (t ∷ xs) ss (x, h) k = ground (arith, x, delete_between s xs ss h k)

remove_all-subscriptions :
    (k name : ℕ) (hs : List (ChannelEvent × ℕ)) (xs : List Subscription) (c : Client)
    → AllBelow k xs
    → c.subscriptions ≡ xs ++ records k name hs
    → (remove_all (records k name hs) c).subscriptions ≡ xs
remove_all-subscriptions k name [] xs c h e = e ∙ append-nil xs
remove_all-subscriptions k name ((event, f) ∷ hs) xs c h e =
    let s : Subscription = record {
      key = k;
      channel = name;
      event = realtime_event event;
      callback = f;
    } in
    remove_all-subscriptions (suc k) name hs xs (remove_subscription s c) (AllBelow-later k xs h) (
      remove_subscription-subscriptions s c
      ∙ ap (delete_where (is_same s)) e
      ∙ delete_between s xs (records (suc k) name hs) h (records-AllFrom (suc k) name hs))

handle_message-subscriptions :
    (text : ℕ → List ℕ) (m : Option ServerMessage) (c d : Client)
    → c.subscriptions ≡ d.subscriptions
    → handle_message text m c ≡ handle_message text m d
unfolding handle_message
handle_message-subscriptions text none c d e = refl
handle_message-subscriptions text (some m) c d e = ap (calls_of text m) e

abbrev Undoes :
    (text : ℕ → List ℕ) → Option ServerMessage → Channel → Client → Channel × Client → Type 0
Undoes text m ch c p =
    ((unsubscribe_channel p.0 p.1).1.subscriptions ≡ c.subscriptions)
    × (handle_message text m (unsubscribe_channel p.0 p.1).1 ≡ handle_message text m c)
    × ((unsubscribe_channel p.0 p.1).0 ≡ ch)

subscribed-Undoes :
    (text : ℕ → List ℕ) (valid : Bool) (key : ℕ) (ch : Channel) (c : Client)
    (m : Option ServerMessage)
    → ch.cleanups ≡ []
    → ch.is_subscribed ≡ false
    → AllBelow key c.subscriptions
    → Undoes text m ch c (
      record ch { cleanups = ch.cleanups ++ records key ch.name ch.handlers; is_subscribed = true },
      add_all valid (records key ch.name ch.handlers) c,
    )
unfolding unsubscribe_channel
subscribed-Undoes text valid key ch c m none_left free below =
    let made = records key ch.name ch.handlers in
    let back : (remove_all (ch.cleanups ++ made) (add_all valid made c)).subscriptions
        ≡ c.subscriptions =
      ap (λ l. (remove_all (l ++ made) (add_all valid made c)).subscriptions) none_left
      ∙ remove_all-subscriptions key ch.name ch.handlers c.subscriptions (add_all valid made c)
          below (add_all-subscriptions valid made c) in
    (
      back,
      handle_message-subscriptions text m (remove_all (ch.cleanups ++ made) (add_all valid made c))
          c back,
      ap (λ l. record ch { cleanups = l; is_subscribed = false }) (sym none_left)
          ∙ ap (λ b. record ch { is_subscribed = b }) (sym free),
    )

-- A channel that is subscribed with keys of its own and unsubscribed leaves the client the
-- subscriptions that it had, so that every message then calls what it called before. The channel can be
-- subscribed again, with the handlers that it had.
pub unsubscribe_undoes :
    (text : ℕ → List ℕ) (valid : Bool) (key : ℕ) (ch ch' : Channel) (c c' : Client)
    (m : Option ServerMessage)
    → ch.cleanups ≡ []
    → AllBelow key c.subscriptions
    → subscribe_channel valid key ch c ≡ some (ch', c')
    → ((unsubscribe_channel ch' c').1.subscriptions ≡ c.subscriptions)
      × (handle_message text m (unsubscribe_channel ch' c').1 ≡ handle_message text m c)
      × ((unsubscribe_channel ch' c').0 ≡ ch)
unfolding subscribe_channel
unsubscribe_undoes text valid key ch ch' c c' m none_left below done =
    elim (Bool-cases ch.is_subscribed) [
      | inl twice ↦ absurd (ground (arith, rw twice at done))
      | inr free ↦
          let made = records key ch.name ch.handlers in
          let p : Channel × Client = (
            record ch { cleanups = ch.cleanups ++ made; is_subscribed = true },
            add_all valid made c,
          ) in
          let taken : some p ≡ some (ch', c') = rw free at done in
          subst (Undoes text m ch c) (some-injective p (ch', c') taken)
            (subscribed-Undoes text valid key ch c m none_left free below)
    ]
