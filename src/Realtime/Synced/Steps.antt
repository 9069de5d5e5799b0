-- ===== src/Realtime/Synced/Steps.antt =====
-- The client and the server stay in step.
use tinai_infra.Prelude.{
  ℕ, ◌≡◌, refl, ◌∙◌, sym, ap, subst, inl, inr, Bool, true, false, Option, none, some, List, [], ◌∷◌,
  ◌++◌, arith, if◌then◌else◌, ◌==◌, is_some, delete_where, Bool-cases, Option-cases,
  find-delete_where_apart, find-delete_where_gone,
}
use tinai_infra.Realtime.{
  Client, Socket, Ready, connecting, ready, closing, Message, subscribe, unsubscribe, ping, post,
  post_on, open_socket, if_ready, has_channel, on_open, Event, added, removed, token_set,
  disconnected, opened, stale_opened, dropped, closed, class_found, class_missing, timer_fired,
  heartbeat, make_socket, connect, ensure_connected, open_current, open_if, beat, beat_on, listens,
  is_same, join, leave_if_unused, reconnect_if_wanted, clear_timers, close_socket, differs, step,
  run, new_client,
}
use tinai_infra.Realtime.Channels.{is_some-append, post-SameLists, on_open-SameLists, run-Matched}
use tinai_infra.Realtime.Synced.{
  wants, wants-append, IsQuiet, StateOk, SocketOk, IsSynced, Takes, post-IsSynced,
}
use tinai_infra.Realtime.Synced.Opening.{on_open_ready, on_open_waiting, Within}

-- In step, for the client's own channels.
abbrev pub InStep : Client → Type 0
InStep c = IsSynced c c.subscribed_channels

Takes-join : (ch : ℕ) (chs : List ℕ) → Takes (subscribe ch) chs (chs ++ ch ∷ [])
Takes-join ch chs d = sym (is_some-append (λ x. x == d) chs ch ∙ ground arith)

Takes-leave : (ch : ℕ) (chs : List ℕ) → Takes (unsubscribe ch) chs (delete_where (λ d. d == ch) chs)
Takes-leave ch chs d = elim (Bool-cases (ch == d)) [
  | inl same ↦ rw same (
      sym (
        ap is_some (find-delete_where_gone (λ x. x == d) (λ x. x == ch) chs (λ a e. ground arith))))
  | inr other ↦ rw other (
      sym (
        ap is_some
          (find-delete_where_apart (λ x. x == d) (λ x. x == ch) chs (λ a e. ground arith))))
]

InStep-if : (b : Bool) (c d : Client) → InStep c → InStep d → InStep (if b then c else d)
InStep-if true c d h k = h
InStep-if false c d h k = k

reconnect_if_wanted-InStep : (c : Client) → InStep c → InStep (reconnect_if_wanted c)
reconnect_if_wanted-InStep c h = InStep-if c.should_reconnect _ _ h h

make_socket-InStep : (valid : Bool) (c : Client) → InStep c → InStep (make_socket valid c)
make_socket-InStep valid c h =
    InStep-if valid _ _ (h.0, refl)
      (reconnect_if_wanted-InStep (record c { is_connecting = false }) h)

connect-InStep : (valid : Bool) (c : Client) → InStep c → InStep (connect valid c)
connect-InStep valid c h =
    InStep-if c.has_class _ _ (make_socket-InStep valid (record c { is_connecting = true }) h) h

ensure_connected-InStep : (valid : Bool) (c : Client) → InStep c → InStep (ensure_connected valid c)
ensure_connected-InStep valid c h =
    InStep-if (is_some (open_socket c.ws)) _ _ h
      (InStep-if c.is_connecting _ _ h (connect-InStep valid c h))

if_ready-some : (r : Ready) (v w : Socket) → if_ready r v ≡ some w → (v ≡ w) × (r ≡ ready)
if_ready-some connecting v w e = ground arith
if_ready-some ready v w e = (ground arith, refl)
if_ready-some closing v w e = ground arith

open_socket-some :
    (ws : Option Socket) (w : Socket) → open_socket ws ≡ some w → (ws ≡ some w) × (w.state ≡ ready)
open_socket-some none w e = ground arith
open_socket-some (some v) w e =
    let (same, r) = if_ready-some v.state v w e in (ap some same, ap (λ x. x.state) (sym same) ∙ r)

post-InStep :
    (m : Message) (c : Client) (chs : List ℕ)
    → Takes m c.subscribed_channels chs
    → InStep c
    → InStep (post m (record c { subscribed_channels = chs }))
post-InStep m c chs t h =
    let c' = record c { subscribed_channels = chs } in
    subst (λ x. IsSynced (post m c') x) (sym (post-SameLists m c').0)
      (post-IsSynced m c' c.subscribed_channels chs t h)

join-InStep : (ch : ℕ) (c : Client) → InStep c → InStep (join ch c)
join-InStep ch c h =
    InStep-if (has_channel ch c.subscribed_channels) _ _ h
      (post-InStep (subscribe ch) c _ (Takes-join ch c.subscribed_channels) h)

leave_if_unused-InStep : (ch : ℕ) (c : Client) → InStep c → InStep (leave_if_unused ch c)
leave_if_unused-InStep ch c h =
    InStep-if (listens ch c.subscriptions) _ _ h
      (post-InStep (unsubscribe ch) c _ (Takes-leave ch c.subscribed_channels) h)

SocketOk-close :
    (b : Bool) (ws : Option Socket) (q : List Message) (chs : List ℕ)
    → SocketOk ws q chs
    → SocketOk (if b then close_socket ws else ws) q chs
SocketOk-close true none q chs h = tt
SocketOk-close true (some w) q chs h = tt
SocketOk-close false ws q chs h = h

on_open-InStep : (c : Client) → IsSynced (on_open c) c.subscribed_channels → InStep (on_open c)
on_open-InStep c h = subst (λ x. IsSynced (on_open c) x) (sym (on_open-SameLists c).0) h

open_if-InStep :
    (r : Ready) (w : Socket) (c : Client)
    → IsQuiet c.message_queue c.subscribed_channels
    → StateOk r w.sent c.message_queue c.subscribed_channels
    → InStep c
    → InStep (open_if r w c)
open_if-InStep connecting w c q ok h =
    let w' = record w { state = ready } in
    let c' = record c { ws = some w' } in
    on_open-InStep c' (
      on_open_ready c' w' refl refl
        (subst (λ ms. IsQuiet (ms ++ c.message_queue) c.subscribed_channels) (sym ok) q))
open_if-InStep ready w c q ok h = h
open_if-InStep closing w c q ok h = h

open_current-InStep :
    (ws : Option Socket) (c : Client)
    → SocketOk ws c.message_queue c.subscribed_channels
    → InStep c
    → InStep (open_current ws c)
open_current-InStep none c ok h = h
open_current-InStep (some w) c ok h = open_if-InStep w.state w c h.0 ok h

-- On an open socket nothing waits, and nothing was asked for but what is wanted.
Within-ready : (sent q : List Message) (chs : List ℕ) → StateOk ready sent q chs → Within sent q chs
Within-ready sent q chs ok ch out =
    wants-append ch sent q false ∙ ap (λ ms. wants ch ms (wants ch sent false)) ok.0 ∙ ok.1 ch ∙ out

state_of :
    (c : Client) (w : Socket)
    → c.ws ≡ some w
    → w.state ≡ ready
    → InStep c
    → StateOk ready w.sent c.message_queue c.subscribed_channels
state_of c w e r h =
    subst (λ x. StateOk x w.sent c.message_queue c.subscribed_channels) r
      (subst (λ x. SocketOk x c.message_queue c.subscribed_channels) e h.1)

stale_opened-InStep : (c : Client) → InStep c → InStep (on_open c)
stale_opened-InStep c h = elim (Option-cases (open_socket c.ws)) [
  | inl miss ↦ on_open-InStep c (on_open_waiting c miss h.1)
  | inr (w, e) ↦
      let (is, r) = open_socket-some c.ws w e in
      on_open-InStep c (
        on_open_ready c w is r
          (Within-ready w.sent c.message_queue c.subscribed_channels (state_of c w is r h)))
]

beat-InStep : (c : Client) → InStep c → InStep (beat c)
beat-InStep c h = elim (Option-cases (open_socket c.ws)) [
  | inl miss ↦ subst InStep (sym (ap (λ x. beat_on x c) miss)) h
  | inr (w, e) ↦
      subst InStep (ap (λ x. post_on x ping c) e ∙ sym (ap (λ x. beat_on x c) e))
        (post-InStep ping c c.subscribed_channels (λ ch. refl) h)
]

pub step-InStep : (valid : Bool) (e : Event) (c : Client) → InStep c → InStep (step valid e c)
unfolding step
step-InStep valid (added s) c h =
    join-InStep s.channel _
      (ensure_connected-InStep valid (record c { subscriptions = c.subscriptions ++ s ∷ [] }) h)
step-InStep valid (removed s) c h =
    leave_if_unused-InStep s.channel
      (record c { subscriptions = delete_where (is_same s) c.subscriptions }) h
step-InStep valid (token_set t) c h = (h.0, SocketOk-close (differs t c.token) c.ws _ _ h.1)
step-InStep valid disconnected c h = (h.0, tt)
step-InStep valid opened c h = open_current-InStep c.ws c h.1 h
step-InStep valid stale_opened c h = stale_opened-InStep c h
step-InStep valid dropped c h = (h.0, SocketOk-close true c.ws _ _ h.1)
step-InStep valid closed c h =
    reconnect_if_wanted-InStep
      (record (clear_timers (record c { is_connecting = false })) { ws = none }) (h.0, tt)
step-InStep valid class_found c h = make_socket-InStep valid (record c { has_class = true }) h
step-InStep valid class_missing c h =
    reconnect_if_wanted-InStep (record c { is_connecting = false }) h
step-InStep valid timer_fired c h = connect-InStep valid c h
step-InStep valid heartbeat c h = beat-InStep c h

run-InStep : (valid : Bool) (es : List Event) (c : Client) → InStep c → InStep (run valid es c)
unfolding run
run-InStep valid [] c h = h
run-InStep valid (e ∷ es) c h = run-InStep valid es (step valid e c) (step-InStep valid e c h)

-- Whatever happens to a new client, through closes, reconnections and sockets that come and go: while
-- its socket is open, the messages sent on it ask the server for exactly the channels that have a
-- listener, and none of them waits.
pub run-asked :
    (valid : Bool) (es : List Event) (token : Option ℕ) (w : Socket)
    → let c = run valid es (new_client token) in
      open_socket c.ws ≡ some w
      → (c.message_queue ≡ []) × ((ch : ℕ) → wants ch w.sent false ≡ listens ch c.subscriptions)
run-asked valid es token w e =
    let c = run valid es (new_client token) in
    let (is, r) = open_socket-some c.ws w e in
    let ok = state_of c w is r (run-InStep valid es (new_client token) (λ ch out. refl, tt)) in
    (ok.0, λ ch. ok.1 ch ∙ run-Matched valid es (new_client token) (λ d. refl) ch)
