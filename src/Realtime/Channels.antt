-- ===== src/Realtime/Channels.antt =====
-- The channels that the client asks for are those that it has listeners on.
use tinai_infra.Prelude.{
  ℕ, ==_refl, subst, ◌≡◌, refl, ◌∙◌, sym, ap, inl, inr, Bool, true, false, ◌||◌, Option, none, some,
  List, [], ◌∷◌, ◌++◌, arith, if◌then◌else◌, ◌==◌, is_some, find, delete_where, Bool-cases,
  find-delete_where_apart, find-delete_where_gone,
}
use tinai_infra.Realtime.{
  Client, Socket, Subscription, Message, subscribe, unsubscribe, Event, added, removed, token_set,
  disconnected, opened, stale_opened, dropped, closed, class_found, class_missing, timer_fired,
  heartbeat, Ready, connecting, ready, closing, post, post_on, flush_on, open_if, beat_on, post_all,
  flush_queue, on_open, make_socket, connect, ensure_connected, open_socket, open_current,
  has_channel, listens, is_same, join, reconnect_if_wanted, clear_timers, remove_subscription, step,
  run,
}

-- The two lists of a client.
abbrev pub SameLists : Client → Client → Type 0
SameLists c d =
    (d.subscribed_channels ≡ c.subscribed_channels) × (d.subscriptions ≡ c.subscriptions)

post_on-SameLists : (w : Option Socket) (m : Message) (c : Client) → SameLists c (post_on w m c)
post_on-SameLists (some w) m c = (refl, refl)
post_on-SameLists none m c = (refl, refl)

pub post-SameLists : (m : Message) (c : Client) → SameLists c (post m c)
post-SameLists m c = post_on-SameLists (open_socket c.ws) m c

pub post_all-SameLists : (chs : List ℕ) (c : Client) → SameLists c (post_all chs c)
post_all-SameLists [] c = (refl, refl)
post_all-SameLists (ch ∷ chs) c =
    let (a, b) = post_all-SameLists chs (post (subscribe ch) c) in
    let (a', b') = post-SameLists (subscribe ch) c in (a ∙ a', b ∙ b')

flush_on-SameLists : (w : Option Socket) (c : Client) → SameLists c (flush_on w c)
flush_on-SameLists (some w) c = (refl, refl)
flush_on-SameLists none c = (refl, refl)

pub on_open-SameLists : (c : Client) → SameLists c (on_open c)
on_open-SameLists c =
    let c' = record c { is_connecting = false; reconnect_attempts = 0 } in
    let flushed = flush_queue c' in
    let (a, b) = post_all-SameLists flushed.subscribed_channels flushed in
    let (a', b') = flush_on-SameLists (open_socket c'.ws) c' in (a ∙ a', b ∙ b')

if-SameLists :
    (b : Bool) (c d e : Client) → SameLists c d → SameLists c e → SameLists c (if b then d else e)
if-SameLists true c d e x y = x
if-SameLists false c d e x y = y

pub reconnect_if_wanted-SameLists : (c : Client) → SameLists c (reconnect_if_wanted c)
reconnect_if_wanted-SameLists c = if-SameLists c.should_reconnect c _ _ (refl, refl) (refl, refl)

pub make_socket-SameLists : (valid : Bool) (c : Client) → SameLists c (make_socket valid c)
make_socket-SameLists valid c =
    if-SameLists valid c _ _ (refl, refl) (reconnect_if_wanted-SameLists _)

pub connect-SameLists : (valid : Bool) (c : Client) → SameLists c (connect valid c)
connect-SameLists valid c =
    if-SameLists c.has_class c _ _ (make_socket-SameLists valid _) (refl, refl)

pub ensure_connected-SameLists :
    (valid : Bool) (c : Client) → SameLists c (ensure_connected valid c)
ensure_connected-SameLists valid c =
    if-SameLists (is_some (open_socket c.ws)) c _ _ (refl, refl)
      (if-SameLists c.is_connecting c _ _ (refl, refl) (connect-SameLists valid c))

open_if-SameLists : (r : Ready) (w : Socket) (c : Client) → SameLists c (open_if r w c)
open_if-SameLists connecting w c =
    on_open-SameLists (record c { ws = some (record w { state = ready }) })
open_if-SameLists ready w c = (refl, refl)
open_if-SameLists closing w c = (refl, refl)

open_current-SameLists : (w : Option Socket) (c : Client) → SameLists c (open_current w c)
open_current-SameLists none c = (refl, refl)
open_current-SameLists (some w) c = open_if-SameLists w.state w c

beat_on-SameLists : (w : Option Socket) (c : Client) → SameLists c (beat_on w c)
beat_on-SameLists (some w) c = (refl, refl)
beat_on-SameLists none c = (refl, refl)

-- A channel is asked for just where someone listens on it.
abbrev pub Matched : Client → Type 0
Matched c = (ch : ℕ) → has_channel ch c.subscribed_channels ≡ listens ch c.subscriptions

Matched-SameLists : (c d : Client) → SameLists c d → Matched c → Matched d
Matched-SameLists c d (a, b) h ch = rw (a, b) (h ch)

pub is_some-append {ℓ} :
    {A : Type ℓ} (p : A → Bool) (xs : List A) (y : A)
    → is_some (find p (xs ++ y ∷ [])) ≡ (is_some (find p xs) || p y)
is_some-append p [] y = ground arith
is_some-append p (x ∷ xs) y = ground (arith, is_some-append p xs y)

find-delete_where_none {ℓ} :
    {A : Type ℓ} (p q : A → Bool) (xs : List A)
    → is_some (find p (delete_where q xs)) ≡ true
    → is_some (find p xs) ≡ true
find-delete_where_none p q [] h = ground arith
find-delete_where_none p q (x ∷ xs) h = ground (arith, find-delete_where_none p q xs)

Matched-if :
    (b : Bool) (c d : Client)
    → (b ≡ true → Matched c)
    → (b ≡ false → Matched d)
    → Matched (if b then c else d)
Matched-if true c d x y = x refl
Matched-if false c d x y = y refl

-- Where the channel is there already, one more listener on it changes nothing.
joined :
    (s : Subscription) (c : Client) (ss : List Subscription) (ch : ℕ)
    → ((ch' : ℕ) → has_channel ch' c.subscribed_channels ≡ listens ch' ss)
    → has_channel s.channel c.subscribed_channels ≡ true
    → has_channel ch c.subscribed_channels ≡ (listens ch ss || s.channel == ch)
joined s c ss ch h there = elim (Bool-cases (s.channel == ch)) [
  | inl same ↦
      let is : s.channel ≡ ch = ground arith in
      subst (λ x. has_channel x c.subscribed_channels ≡ (listens x ss || s.channel == x)) is
        (there ∙ ground (arith, h s.channel, ==_refl s.channel))
  | inr other ↦ h ch ∙ rw other (ground arith)
]

join-Matched :
    (s : Subscription) (c : Client) (ss : List Subscription)
    → ((ch : ℕ) → has_channel ch c.subscribed_channels ≡ listens ch ss)
    → c.subscriptions ≡ ss ++ s ∷ []
    → Matched (join s.channel c)
join-Matched s c ss h e =
    Matched-if (has_channel s.channel c.subscribed_channels) c _
      (λ there ch.
        let l : listens ch c.subscriptions ≡ (listens ch ss || s.channel == ch) =
          ap (listens ch) e ∙ is_some-append (λ t. t.channel == ch) ss s in
        joined s c ss ch h there ∙ sym l)
      (λ missing.
        let c' = record c { subscribed_channels = c.subscribed_channels ++ s.channel ∷ [] } in
        Matched-SameLists c' (post (subscribe s.channel) c')
          (post-SameLists (subscribe s.channel) c')
          (λ ch.
            is_some-append (λ d. d == ch) c.subscribed_channels s.channel
            ∙ rw (h ch) refl
            ∙ sym (ap (listens ch) e ∙ is_some-append (λ t. t.channel == ch) ss s)))

left-Matched :
    (s : Subscription) (c : Client) (ch : ℕ)
    → Matched c
    → listens s.channel (delete_where (is_same s) c.subscriptions) ≡ true
    → has_channel ch c.subscribed_channels ≡ listens ch (delete_where (is_same s) c.subscriptions)
left-Matched s c ch h still = elim (Bool-cases (s.channel == ch)) [
  | inl same ↦
      let is : s.channel ≡ ch = ground arith in
      subst
        (λ x.
          has_channel x c.subscribed_channels
          ≡ listens x (delete_where (is_same s) c.subscriptions))
        is
        (h s.channel
          ∙ find-delete_where_none (λ t. t.channel == s.channel) (is_same s) c.subscriptions still
          ∙ sym still)
  | inr other ↦
      h ch
      ∙ sym (
          ap is_some (
            find-delete_where_apart (λ t. t.channel == ch) (is_same s) c.subscriptions
              (λ a e. ground arith)))
]

unused-Matched :
    (s : Subscription) (c : Client) (ch : ℕ)
    → Matched c
    → listens s.channel (delete_where (is_same s) c.subscriptions) ≡ false
    → has_channel ch (delete_where (λ d. d == s.channel) c.subscribed_channels)
      ≡ listens ch (delete_where (is_same s) c.subscriptions)
unused-Matched s c ch h none_left = elim (Bool-cases (s.channel == ch)) [
  | inl same ↦
      let is : s.channel ≡ ch = ground arith in
      subst
        (λ x.
          has_channel x (delete_where (λ d. d == s.channel) c.subscribed_channels)
          ≡ listens x (delete_where (is_same s) c.subscriptions))
        is
        (ap is_some (
            find-delete_where_gone (λ d. d == s.channel) (λ d. d == s.channel) c.subscribed_channels
              (λ a e. e))
          ∙ sym none_left)
  | inr other ↦
      ap is_some (
        find-delete_where_apart (λ d. d == ch) (λ d. d == s.channel) c.subscribed_channels
          (λ a e. ground arith))
      ∙ h ch
      ∙ sym (
          ap is_some (
            find-delete_where_apart (λ t. t.channel == ch) (is_same s) c.subscriptions
              (λ a e. ground arith)))
]

remove_subscription-Matched :
    (s : Subscription) (c : Client) → Matched c → Matched (remove_subscription s c)
remove_subscription-Matched s c h =
    Matched-if (listens s.channel (delete_where (is_same s) c.subscriptions)) _ _
      (λ still ch. left-Matched s c ch h still)
      (λ none_left.
        let c' = record c {
          subscriptions = delete_where (is_same s) c.subscriptions;
          subscribed_channels = delete_where (λ d. d == s.channel) c.subscribed_channels;
        } in
        Matched-SameLists c' (post (unsubscribe s.channel) c')
          (post-SameLists (unsubscribe s.channel) c') (λ ch. unused-Matched s c ch h none_left))

pub step-Matched : (valid : Bool) (e : Event) (c : Client) → Matched c → Matched (step valid e c)
unfolding step
step-Matched valid (added s) c h =
    let with_it = record c { subscriptions = c.subscriptions ++ s ∷ [] } in
    let (a, b) = ensure_connected-SameLists valid with_it in
    join-Matched s (ensure_connected valid with_it) c.subscriptions (λ ch. rw a (h ch)) b
step-Matched valid (removed s) c h = remove_subscription-Matched s c h
step-Matched valid (token_set t) c h = h
step-Matched valid disconnected c h = h
step-Matched valid opened c h =
    Matched-SameLists c (step valid opened c) (open_current-SameLists c.ws c) h
step-Matched valid stale_opened c h =
    Matched-SameLists c (step valid stale_opened c) (on_open-SameLists c) h
step-Matched valid dropped c h = h
step-Matched valid closed c h =
    Matched-SameLists c (step valid closed c)
      (reconnect_if_wanted-SameLists
        (record (clear_timers (record c { is_connecting = false })) { ws = none }))
      h
step-Matched valid class_found c h =
    Matched-SameLists c (step valid class_found c)
      (make_socket-SameLists valid (record c { has_class = true })) h
step-Matched valid class_missing c h =
    Matched-SameLists c (step valid class_missing c)
      (reconnect_if_wanted-SameLists (record c { is_connecting = false })) h
step-Matched valid timer_fired c h =
    Matched-SameLists c (step valid timer_fired c) (connect-SameLists valid c) h
step-Matched valid heartbeat c h =
    Matched-SameLists c (step valid heartbeat c) (beat_on-SameLists (open_socket c.ws) c) h

-- Where the channels that a client asks the server for are just those that have a listener, as with
-- a new client, they are so after any sequence of events.
pub run-Matched :
    (valid : Bool) (es : List Event) (c : Client) → Matched c → Matched (run valid es c)
unfolding run
run-Matched valid [] c h = h
run-Matched valid (e ∷ es) c h = run-Matched valid es (step valid e c) (step-Matched valid e c h)
