-- ===== src/Realtime.antt =====
-- The realtime client of platform/packages/tinai-js/src/realtime.ts as a machine of events. A socket
-- that `this.ws` no longer names may still fire its handlers, and they work on the client all the
-- same: those are the stale events. Channels, callbacks and tokens are numbers.
pub mod Channels
pub mod Synced
pub mod Backoff
pub mod Handlers
mod Tests
use tinai_infra.Prelude.{
  ℕ, ◌+◌, ◌*◌, ◌^◌, min, String, Bool, true, false, not, ◌&&◌, ◌||◌, Option, none, some, List, [],
  ◌∷◌, ◌++◌, map, if◌then◌else◌, ◌==◌, is_some, find, select, delete_where,
}

pub data EventType : Type 0 where
  any insert update delete : EventType

-- `SubscriptionRecord`; `key` tells the records apart that the code compares by identity.
pub record Subscription : Type 0 where
  pub key : ℕ
  pub channel : ℕ
  pub event : EventType
  pub callback : ℕ

pub data Message : Type 0 where
  subscribe unsubscribe : ℕ → Message
  ping : Message

-- `readyState`; a closed socket has fired `onclose`.
pub data Ready : Type 0 where
  connecting ready closing : Ready

-- The socket, its token and what was sent on it.
pub record Socket : Type 0 where
  pub state : Ready
  pub token : Option ℕ
  pub sent : List Message

pub record Client : Type 0 where
  pub token : Option ℕ
  pub ws : Option Socket
  pub has_class : Bool
  pub is_connecting : Bool
  pub should_reconnect : Bool
  pub reconnect_attempts : ℕ
  pub reconnect_timer : Option ℕ
  pub has_heartbeat : Bool
  pub message_queue : List Message
  pub subscriptions : List Subscription
  pub subscribed_channels : List ℕ

abbrev pub initial_backoff_ms : ℕ
initial_backoff_ms = 100

abbrev pub max_backoff_ms : ℕ
max_backoff_ms = 30_000

-- The constructor.
abbrev pub new_client : Option ℕ → Client
new_client token = record {
  token = token;
  ws = none;
  has_class = false;
  is_connecting = false;
  should_reconnect = true;
  reconnect_attempts = 0;
  reconnect_timer = none;
  has_heartbeat = false;
  message_queue = [];
  subscriptions = [];
  subscribed_channels = [];
}

-- `this.ws && this.ws.readyState === 1`: the socket, where it can send.
abbrev pub if_ready : Ready → Socket → Option Socket
if_ready ready w = some w
if_ready _ w = none

abbrev pub open_socket : Option Socket → Option Socket
open_socket none = none
open_socket (some w) = if_ready w.state w

-- `_send`, on the socket where it is open, or on the queue.
abbrev pub post_on : Option Socket → Message → Client → Client
post_on (some w) m c = record c { ws = some (record w { sent = w.sent ++ m ∷ [] }) }
post_on none m c = record c { message_queue = c.message_queue ++ m ∷ [] }

abbrev pub post : Message → Client → Client
post m c = post_on (open_socket c.ws) m c

-- `_flushQueue`: without an open socket the messages are dropped.
abbrev pub flush_on : Option Socket → Client → Client
flush_on (some w) c = record c {
  ws = some (record w { sent = w.sent ++ c.message_queue });
  message_queue = [];
}
flush_on none c = record c { message_queue = [] }

abbrev pub flush_queue : Client → Client
flush_queue c = flush_on (open_socket c.ws) c

-- `_resubscribeAll`
abbrev pub post_all : List ℕ → Client → Client
post_all [] c = c
post_all (ch ∷ chs) c = post_all chs (post (subscribe ch) c)

-- `_clearTimers`
abbrev pub clear_timers : Client → Client
clear_timers c = record c { has_heartbeat = false; reconnect_timer = none }

-- `_scheduleReconnect`, with the delay of the timer that it starts.
abbrev pub schedule_reconnect : Client → Client
schedule_reconnect c = record c {
  reconnect_timer = some (min (initial_backoff_ms * 2 ^ c.reconnect_attempts) max_backoff_ms);
  reconnect_attempts = c.reconnect_attempts + 1;
}

abbrev pub reconnect_if_wanted : Client → Client
reconnect_if_wanted c = if c.should_reconnect then schedule_reconnect c else c

-- `ws.onopen`
abbrev pub on_open : Client → Client
on_open c =
    let flushed = flush_queue (record c { is_connecting = false; reconnect_attempts = 0 }) in
    let resubscribed = post_all flushed.subscribed_channels flushed in
    record resubscribed { has_heartbeat = true }

-- `ws.onclose`
abbrev pub on_close : Client → Client
on_close c =
    reconnect_if_wanted (record (clear_timers (record c { is_connecting = false })) { ws = none })

-- The `catch` of `_connect`.
abbrev pub on_error : Client → Client
on_error c = reconnect_if_wanted (record c { is_connecting = false })

abbrev pub new_socket : Option ℕ → Socket
new_socket token = record { state = connecting; token = token; sent = [] }

abbrev pub has_channel : ℕ → List ℕ → Bool
has_channel ch chs = is_some (find (λ d. d == ch) chs)

-- `subscribedChannels.add` and `_send`, unless the channel is there.
abbrev pub join : ℕ → Client → Client
join ch c =
    if has_channel ch c.subscribed_channels
    then c
    else post (subscribe ch) (record c { subscribed_channels = c.subscribed_channels ++ ch ∷ [] })

-- The record itself: keys are not used again, so that the channel goes with the key.
abbrev pub is_same : Subscription → Subscription → Bool
is_same s t = t.key == s.key && t.channel == s.channel

abbrev pub listens : ℕ → List Subscription → Bool
listens ch ss = is_some (find (λ s. s.channel == ch) ss)

abbrev pub leave_if_unused : ℕ → Client → Client
leave_if_unused ch c =
    if listens ch c.subscriptions
    then c
    else post (unsubscribe ch)
        (record c { subscribed_channels = delete_where (λ d. d == ch) c.subscribed_channels })

-- The cleanup function that `addSubscription` returns.
abbrev pub remove_subscription : Subscription → Client → Client
remove_subscription s c =
    leave_if_unused s.channel
      (record c { subscriptions = delete_where (is_same s) c.subscriptions })

abbrev pub close_socket : Option Socket → Option Socket
close_socket none = none
close_socket (some w) = some (record w { state = closing })

-- `token !== this.token`
abbrev pub differs : Option ℕ → Option ℕ → Bool
differs none none = false
differs (some a) (some b) = not (a == b)
differs _ _ = true

-- `setToken`
abbrev pub set_token : Option ℕ → Client → Client
set_token t c = record c { token = t; ws = if differs t c.token then close_socket c.ws else c.ws }

-- `disconnect`
abbrev pub disconnect : Client → Client
disconnect c = record (clear_timers (record c { should_reconnect = false })) { ws = none }

-- The socket opens, where it has not yet; its handler follows.
abbrev pub open_if : Ready → Socket → Client → Client
open_if connecting w c = on_open (record c { ws = some (record w { state = ready }) })
open_if _ w c = c

abbrev pub open_current : Option Socket → Client → Client
open_current none c = c
open_current (some w) c = open_if w.state w c

pub data Event : Type 0 where
  added removed : Subscription → Event
  token_set : Option ℕ → Event
  disconnected opened stale_opened dropped closed class_found class_missing timer_fired heartbeat :
      Event

-- The turn of the heartbeat's interval.
abbrev pub beat_on : Option Socket → Client → Client
beat_on (some w) c = record c { ws = some (record w { sent = w.sent ++ ping ∷ [] }) }
beat_on none c = c

abbrev pub beat : Client → Client
beat c = beat_on (open_socket c.ws) c

-- `valid` says whether the WebSocket class takes the URL.
module _ (valid : Bool) where
  -- `_connect` once the class is there.
  abbrev pub make_socket : Client → Client
  make_socket c = if valid then record c { ws = some (new_socket c.token) } else on_error c

  -- `_connect` up to its first `await`.
  abbrev pub connect : Client → Client
  connect c =
      let c' = record c { is_connecting = true } in if c.has_class then make_socket c' else c'

  -- `_ensureConnected`
  abbrev pub ensure_connected : Client → Client
  ensure_connected c =
      if is_some (open_socket c.ws) then c else if c.is_connecting then c else connect c

  -- `addSubscription`
  abbrev pub add_subscription : Subscription → Client → Client
  add_subscription s c =
      join s.channel (ensure_connected (record c { subscriptions = c.subscriptions ++ s ∷ [] }))

  -- One turn of the event loop. The other end starts to close the socket (`dropped`); the socket
  -- closes, its own or a stale one; `_connect` comes back from
  -- its `await` with the class or with an error; a timer fires.
  unfoldable pub step : Event → Client → Client
  step (added s) c = add_subscription s c
  step (removed s) c = remove_subscription s c
  step (token_set t) c = set_token t c
  step disconnected c = disconnect c
  step opened c = open_current c.ws c
  step stale_opened c = on_open c
  step dropped c = record c { ws = close_socket c.ws }
  step closed c = on_close c
  step class_found c = make_socket (record c { has_class = true })
  step class_missing c = on_error c
  step timer_fired c = connect c
  step heartbeat c = beat c

  unfoldable pub run : List Event → Client → Client
  run [] c = c
  run (e ∷ es) c = run es (step e c)
