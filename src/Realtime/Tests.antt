-- ===== src/Realtime/Tests.antt =====
-- A client with a listener on channel 5.
use tinai_infra.Prelude.{
  ℕ, ◌+◌, ◌*◌, ◌^◌, min, ◌≡◌, refl, true, false, none, some, List, [], ◌∷◌, arith, if◌then◌else◌,
  ◌==◌,
}
use tinai_infra.Realtime.{
  closed, Subscription, any, Event, added, opened, class_found, Client, Socket, ready, new_client,
  step, run, subscribe, listens,
}
use tinai_infra.Realtime.Channels.{Matched, run-Matched}
use tinai_infra.Realtime.Synced.{wants}
use tinai_infra.Realtime.Synced.Steps.{run-asked}
use tinai_infra.Realtime.Backoff.{retries, run-retries-backoff}
use tinai_infra.Realtime.{insert, update}
use tinai_infra.Realtime.Handlers.{
  ServerMessage, Payload, Channel, broadcast, of_type, subscribe_channel, unsubscribe_channel,
  handle_message, records, add_all,
}
use tinai_infra.Realtime.Handlers.Undone.{unsubscribe_undoes}

abbrev listener : Subscription
listener = record { key = 1; channel = 5; event = any; callback = 9 }

abbrev start : List Event
start = added listener ∷ class_found ∷ opened ∷ []

abbrev started : Client
unfolding step run
started = run true start (new_client none)

-- The queue is flushed at the opening and the channel is then asked for a second time.
asked_twice : (w : Socket) × (started.ws ≡ some w) × (w.sent ≡ subscribe 5 ∷ subscribe 5 ∷ [])
unfolding step run
asked_twice = (_, refl, refl)

started-Matched : Matched (run true start (new_client none))
started-Matched = run-Matched true start (new_client none) (λ ch. refl)

run-retries-backoff_example :
    (run true (closed ∷ retries true 2) started).reconnect_timer
    ≡ some (min (100 * 2 ^ (0 + 2)) 30_000)
unfolding step run
run-retries-backoff_example = run-retries-backoff true 2 started refl refl

run-asked_example :
    (started.message_queue ≡ [])
    × ((ch : ℕ)
        → wants ch (subscribe 5 ∷ subscribe 5 ∷ []) false ≡ listens ch started.subscriptions)
unfolding step run
run-asked_example =
    run-asked true start none
      (record { state = ready; token = none; sent = subscribe 5 ∷ subscribe 5 ∷ [] }) refl

-- The names of the channel 5 and of the table 2 are `a:t` and `t`.
abbrev text : ℕ → List ℕ
text n = if n == 5 then 97 ∷ 58 ∷ 116 ∷ [] else if n == 2 then 116 ∷ [] else 120 ∷ []

abbrev news : ServerMessage
news = record { event = insert; table = 2; record_no = some 7; old_record = none }

abbrev room : Channel
room = record {
  name = 5;
  handlers = (broadcast, 30) ∷ (of_type update, 31) ∷ [];
  cleanups = [];
  is_subscribed = false;
}

abbrev joined : Channel
joined = record room { cleanups = records 2 5 room.handlers; is_subscribed = true }

abbrev joined_client : Client
joined_client = add_all true (records 2 5 room.handlers) started

abbrev callbacks : List (ℕ × Payload) → List ℕ
callbacks [] = []
callbacks (c ∷ cs) = c.0 ∷ callbacks cs

-- While the channel is subscribed, an insertion calls the listener and the handler of broadcasts.
called : callbacks (handle_message text (some news) joined_client) ≡ 9 ∷ 30 ∷ []
unfolding handle_message step run
called = refl

unsubscribe_undoes_example :
    ((unsubscribe_channel joined joined_client).1.subscriptions ≡ started.subscriptions)
    × (handle_message text (some news) (unsubscribe_channel joined joined_client).1
        ≡ handle_message text (some news) started)
    × ((unsubscribe_channel joined joined_client).0 ≡ room)
unfolding subscribe_channel step run
unsubscribe_undoes_example =
    unsubscribe_undoes text true 2 room joined started joined_client (some news) refl
      (omega arith, tt) refl
