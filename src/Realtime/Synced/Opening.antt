-- ===== src/Realtime/Synced/Opening.antt =====
-- What the handler of an opened socket sends.
use tinai_infra.Prelude.{
  ℕ, ◌≡◌, refl, ◌∙◌, sym, ap, subst, inl, inr, Bool, false, ◌||◌, Option, none, some, List, [], ◌∷◌,
  ◌++◌, arith, Bool-cases,
}
use tinai_infra.Realtime.{
  Client, Socket, Ready, connecting, ready, closing, Message, subscribe, post, post_on, post_all,
  flush_on, flush_queue, open_socket, if_ready, has_channel, on_open,
}
use tinai_infra.Realtime.Synced.{wants, wants-append, IsQuiet, StateOk, SocketOk, IsSynced}

append_one {ℓ} :
    {A : Type ℓ} (xs : List A) (y : A) (zs : List A) → (xs ++ y ∷ []) ++ zs ≡ xs ++ y ∷ zs
append_one [] y zs = refl
append_one (x ∷ xs) y zs = ap (λ ys. x ∷ ys) (append_one xs y zs)

append_nil {ℓ} : {A : Type ℓ} (xs : List A) → xs ++ [] ≡ xs
append_nil [] = refl
append_nil (x ∷ xs) = ap (λ ys. x ∷ ys) (append_nil xs)

abbrev asks : List ℕ → List Message
asks [] = []
asks (ch ∷ chs) = subscribe ch ∷ asks chs

wants-asks : (ch : ℕ) (chs : List ℕ) (b : Bool) → wants ch (asks chs) b ≡ (b || has_channel ch chs)
wants-asks ch [] b = ground arith
wants-asks ch (d ∷ chs) b = wants-asks ch chs _ ∙ ground arith

IsQuiet-asks : (chs : List ℕ) → IsQuiet (asks chs) chs
IsQuiet-asks chs ch out = wants-asks ch chs false ∙ ground arith

post_all_ready :
    (chs : List ℕ) (c : Client) (w : Socket)
    → c.ws ≡ some w
    → w.state ≡ ready
    → let d = post_all chs c in
      (d.ws ≡ some (record w { sent = w.sent ++ asks chs })) × (d.message_queue ≡ c.message_queue)
post_all_ready [] c w e r = (e ∙ rw (append_nil w.sent) refl, refl)
post_all_ready (ch ∷ chs) c w e r =
    let c' = post (subscribe ch) c in
    let w' = record w { sent = w.sent ++ subscribe ch ∷ [] } in
    let (a, b) = post_all_ready chs c' w' (rw (e, r) refl) r in
    (
      a ∙ ap (λ ms. some (record w { sent = ms })) (append_one w.sent (subscribe ch) (asks chs)),
      b ∙ rw (e, r) refl,
    )

post_all_waiting :
    (chs : List ℕ) (c : Client)
    → open_socket c.ws ≡ none
    → let d = post_all chs c in (d.ws ≡ c.ws) × (d.message_queue ≡ c.message_queue ++ asks chs)
post_all_waiting [] c e = (refl, sym (append_nil c.message_queue))
post_all_waiting (ch ∷ chs) c e =
    let c' = record c { message_queue = c.message_queue ++ subscribe ch ∷ [] } in
    let same : post (subscribe ch) c ≡ c' = ap (λ w. post_on w (subscribe ch) c) e in
    let (a, b) = post_all_waiting chs c' e in
    (
      ap (λ d. (post_all chs d).ws) same ∙ a,
      ap (λ d. (post_all chs d).message_queue) same
          ∙ b
          ∙ append_one c.message_queue (subscribe ch) (asks chs),
    )

-- What is sent and what waits ask for no channel that is not wanted.
abbrev pub Within : (sent q : List Message) → List ℕ → Type 0
Within sent q chs = IsQuiet (sent ++ q) chs

asked_for :
    (sent q : List Message) (chs : List ℕ) (ch : ℕ)
    → Within sent q chs
    → wants ch ((sent ++ q) ++ asks chs) false ≡ has_channel ch chs
asked_for sent q chs ch h =
    wants-append ch (sent ++ q) (asks chs) false
    ∙ wants-asks ch chs (wants ch (sent ++ q) false)
    ∙ elim (Bool-cases (has_channel ch chs)) [
      | inl there ↦ rw there (ground arith)
      | inr missing ↦ rw (missing, h ch missing) refl
    ]

IsSynced-by :
    (c : Client) (ws : Option Socket) (q : List Message) (chs : List ℕ)
    → c.ws ≡ ws
    → c.message_queue ≡ q
    → IsQuiet q chs
    → SocketOk ws q chs
    → IsSynced c chs
IsSynced-by c ws q chs e e' h ok = (
  subst (λ x. IsQuiet x chs) (sym e') h,
  subst (λ x. SocketOk x c.message_queue chs) (sym e) (subst (λ y. SocketOk ws y chs) (sym e') ok),
)

waiting_state :
    (r : Ready) (w : Socket) (sent q q' : List Message) (chs : List ℕ)
    → if_ready r w ≡ none
    → StateOk r sent q chs
    → StateOk r sent q' chs
waiting_state connecting w sent q q' chs e ok = ok
waiting_state ready w sent q q' chs e ok = ground arith
waiting_state closing w sent q q' chs e ok = tt

-- A socket that is not open says nothing of the queue.
pub waiting_socket :
    (ws : Option Socket) (q q' : List Message) (chs : List ℕ)
    → open_socket ws ≡ none
    → SocketOk ws q chs
    → SocketOk ws q' chs
waiting_socket none q q' chs e ok = tt
waiting_socket (some w) q q' chs e ok = waiting_state w.state w w.sent q q' chs e ok

-- The handler on an open socket.
pub on_open_ready :
    (c : Client) (w : Socket)
    → c.ws ≡ some w
    → w.state ≡ ready
    → Within w.sent c.message_queue c.subscribed_channels
    → IsSynced (on_open c) c.subscribed_channels
on_open_ready c w e r within =
    let chs = c.subscribed_channels in
    let c1 = record c {
      is_connecting = false;
      reconnect_attempts = 0;
      ws = some (record w { sent = w.sent ++ c.message_queue });
      message_queue = [];
    } in
    let flushed : flush_queue (record c { is_connecting = false; reconnect_attempts = 0 }) ≡ c1 =
      rw (e, r) refl in
    let (a, b) = post_all_ready chs c1 (record w { sent = w.sent ++ c.message_queue }) refl r in
    let open_ws : (on_open c).ws
        ≡ some (record w { sent = (w.sent ++ c.message_queue) ++ asks chs }) =
      ap (λ d. (post_all d.subscribed_channels d).ws) flushed ∙ a in
    let open_queue : (on_open c).message_queue ≡ [] =
      ap (λ d. (post_all d.subscribed_channels d).message_queue) flushed ∙ b in
    IsSynced-by (on_open c) _ [] chs open_ws open_queue (λ ch out. refl)
      (subst (λ x. StateOk x ((w.sent ++ c.message_queue) ++ asks chs) [] chs) (sym r)
        (refl, λ ch. asked_for w.sent c.message_queue chs ch within))

-- The handler of a stale socket where the client's own is not open.
pub on_open_waiting :
    (c : Client)
    → open_socket c.ws ≡ none
    → SocketOk c.ws c.message_queue c.subscribed_channels
    → IsSynced (on_open c) c.subscribed_channels
on_open_waiting c e ok =
    let chs = c.subscribed_channels in
    let c0 = record c { is_connecting = false; reconnect_attempts = 0 } in
    let c1 = record c0 { message_queue = [] } in
    let flushed : flush_queue c0 ≡ c1 = ap (λ w. flush_on w c0) e in
    let (a, b) = post_all_waiting chs c1 e in
    let same_ws : (on_open c).ws ≡ c.ws =
      ap (λ d. (post_all d.subscribed_channels d).ws) flushed ∙ a in
    let queue : (on_open c).message_queue ≡ asks chs =
      ap (λ d. (post_all d.subscribed_channels d).message_queue) flushed ∙ b in
    IsSynced-by (on_open c) c.ws (asks chs) chs same_ws queue (IsQuiet-asks chs)
      (waiting_socket c.ws c.message_queue (asks chs) chs e ok)
