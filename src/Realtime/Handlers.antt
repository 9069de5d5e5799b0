-- ===== src/Realtime/Handlers.antt =====
-- What happens to a message that arrives, `_handleMessage` of realtime.ts, and the named channels of
-- platform/packages/tinai-js/src/channel.ts. A callback that is called changes no subscription.
pub mod Undone
use tinai_infra.Prelude.{
  ℕ, suc, ◌+◌, Bool, true, false, ◌&&◌, ◌||◌, Option, none, some, List, [], ◌∷◌, ◌++◌,
  if◌then◌else◌, ◌==◌, select, map,
}
use tinai_infra.Realtime.{
  EventType, any, insert, update, delete, Subscription, Client, add_subscription,
  remove_subscription,
}

-- `ServerMessage`, where its event and its table are there; the records are numbers.
pub record ServerMessage : Type 0 where
  pub event : EventType
  pub table : ℕ
  pub record_no : Option ℕ
  pub old_record : Option ℕ

pub record Payload : Type 0 where
  pub event : EventType
  pub table : ℕ
  pub record_no : Option ℕ
  pub old_record : Option ℕ
  pub channel : ℕ

abbrev pub same_text : List ℕ → List ℕ → Bool
same_text [] [] = true
same_text (a ∷ xs) (b ∷ ys) = a == b && same_text xs ys
same_text _ _ = false

-- `endsWith`
abbrev pub ends_with : List ℕ → (suffix : List ℕ) → Bool
ends_with [] suffix = same_text [] suffix
ends_with (a ∷ xs) suffix = same_text (a ∷ xs) suffix || ends_with xs suffix

-- The code of `:`.
abbrev pub colon : ℕ
colon = 58

abbrev pub same_event : EventType → EventType → Bool
same_event any any = true
same_event insert insert = true
same_event update update = true
same_event delete delete = true
same_event _ _ = false

abbrev is_any : EventType → Bool
is_any any = true
is_any _ = false

-- `text` gives the characters of a channel's or a table's name.
module _ (text : ℕ → List ℕ) where
  abbrev pub is_for : ServerMessage → Subscription → Bool
  is_for m s =
      (ends_with (text s.channel) (colon ∷ text m.table)
        || same_text (text s.channel) (text m.table))
      && (is_any s.event || same_event s.event m.event)

  abbrev pub payload : ServerMessage → Subscription → Payload
  payload m s = record {
    event = m.event;
    table = m.table;
    record_no = m.record_no;
    old_record = m.old_record;
    channel = s.channel;
  }

  abbrev pub call : ServerMessage → Subscription → ℕ × Payload
  call m s = (s.callback, payload m s)

  abbrev pub calls_of : ServerMessage → List Subscription → List (ℕ × Payload)
  calls_of m [] = []
  calls_of m (s ∷ ss) = if is_for m s then call m s ∷ calls_of m ss else calls_of m ss

  -- `_handleMessage`: the callbacks that it calls, in order. What is no JSON, or has no event or no
  -- table, is none. A callback that throws is only logged.
  unfoldable pub handle_message : Option ServerMessage → Client → List (ℕ × Payload)
  handle_message none c = []
  handle_message (some m) c = calls_of m c.subscriptions

pub data ChannelEvent : Type 0 where
  broadcast : ChannelEvent
  of_type : EventType → ChannelEvent

-- `Channel`; the cleanup functions are known by the records that they remove.
pub record Channel : Type 0 where
  pub name : ℕ
  pub handlers : List (ChannelEvent × ℕ)
  pub cleanups : List Subscription
  pub is_subscribed : Bool

-- `on`: none where it throws.
abbrev pub on : ChannelEvent → (callback : ℕ) → Channel → Option Channel
on event callback ch =
    if ch.is_subscribed
    then none
    else some (record ch { handlers = ch.handlers ++ (event, callback) ∷ [] })

abbrev pub realtime_event : ChannelEvent → EventType
realtime_event broadcast = any
realtime_event (of_type e) = e

-- The records of the handlers, with keys from `key` on.
abbrev pub records : (key name : ℕ) → List (ChannelEvent × ℕ) → List Subscription
records key name [] = []
records key name ((event, callback) ∷ hs) =
    record { key = key; channel = name; event = realtime_event event; callback = callback }
    ∷ records (suc key) name hs

abbrev pub add_all : (valid : Bool) → List Subscription → Client → Client
add_all valid [] c = c
add_all valid (s ∷ ss) c = add_all valid ss (add_subscription valid s c)

-- `subscribe`: none where it throws.
unfoldable pub subscribe_channel :
    (valid : Bool) → (key : ℕ) → Channel → Client → Option (Channel × Client)
subscribe_channel valid key ch c =
    if ch.is_subscribed
    then none
    else some (
      record ch { cleanups = ch.cleanups ++ records key ch.name ch.handlers; is_subscribed = true },
      add_all valid (records key ch.name ch.handlers) c,
    )

abbrev pub remove_all : List Subscription → Client → Client
remove_all [] c = c
remove_all (s ∷ ss) c = remove_all ss (remove_subscription s c)

-- `unsubscribe`
unfoldable pub unsubscribe_channel : Channel → Client → Channel × Client
unsubscribe_channel ch c =
    (record ch { cleanups = []; is_subscribed = false }, remove_all ch.cleanups c)
