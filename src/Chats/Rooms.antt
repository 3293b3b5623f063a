-- ===== src/Chats/Rooms.antt =====
-- service-chats/src: the events of api/schemas.rs, the rooms of state.rs, `broadcast_to_room` and
-- `send_loop` of api/router.rs, and the events that lib.rs takes from Kafka.
use rust_service.Base.{
  ℕ, String, Bool, Option, none, some, List, [], ◌∷◌, ◌++◌, nat_beq, if◌then◌else◌,
  string_partial_eq, nat_partial_eq, pair_partial_eq, Map, lookup, insert, remove,
}

pub record MessagePayload : Type 0 where
  pub payload_id : ℕ
  pub author : ℕ
  pub username : String
  pub text : String
  pub ts : ℕ

pub data ServerEvent : Type 0 where
  message : MessagePayload → ServerEvent
  edited : (message_id : ℕ) (text : String) (ts : ℕ) → ServerEvent
  deleted : (message_id : ℕ) → ServerEvent
  typing : (user_id : ℕ) (username : String) → ServerEvent
  history : List MessagePayload → ServerEvent
  error : String → ServerEvent
  channel_deleted : ServerEvent
  kicked : (user_id : ℕ) → ServerEvent

-- A room by what was sent through its `sender`, the last event at the end. Its receivers take what
-- is sent from the time they subscribe.
pub record Room : Type 0 where
  pub sent : List ServerEvent
  pub receiver_count : ℕ

abbrev pub Rooms : Type 0
Rooms = Map String Room

-- `room.sender.send(event)`: an error is for a room without a receiver, and is not looked at.
unfoldable pub send_to : ServerEvent → Room → Room
send_to event room = record room { sent = room.sent ++ event ∷ [] }

unfoldable pub broadcast_to_room : Rooms → String → ServerEvent → Rooms
broadcast_to_room rooms room_id event = elim (lookup room_id rooms) [
  | none ↦ rooms
  | some room ↦ insert room_id (send_to event room) rooms
]

-- The events of service-channels, as Kafka brings them.
pub data ChannelEvent : Type 0 where
  on_channel_updated : (channel_id : String) → ChannelEvent
  on_channel_deleted : (channel_id : String) → ChannelEvent
  on_user_subscribed : (channel_id user_id : String) → ChannelEvent
  on_user_unsubscribed : (channel_id user_id : String) → ChannelEvent

-- One turn of the consumer's loop; `parse_uuid` is `str::parse::<Uuid>`.
unfoldable pub on_event : (parse_uuid : String → Option ℕ) → ChannelEvent → Rooms → Rooms
on_event parse_uuid (on_channel_deleted channel_id) rooms =
    remove channel_id (broadcast_to_room rooms channel_id channel_deleted)
on_event parse_uuid (on_user_unsubscribed channel_id user_id) rooms = elim (parse_uuid user_id) [
  | none ↦ rooms
  | some uid ↦ broadcast_to_room rooms channel_id (kicked uid)
]
on_event parse_uuid (on_channel_updated channel_id) rooms = rooms
on_event parse_uuid (on_user_subscribed channel_id user_id) rooms = rooms

-- What a turn of `send_loop` receives: an event from the room or from the socket's own channel, the
-- number of the events that were missed, or the end of the room's channel.
pub data Received : Type 0 where
  received : ServerEvent → Received
  lagged : ℕ → Received
  closed : Received

-- How a socket leaves the loop: after its last event, at the end of a channel, at an event that is
-- not sent, or not at all so far.
pub data Outcome : Type 0 where
  cut : Outcome
  ended : Outcome
  send_failed : Outcome
  open_still : Outcome

pub data Turn : Type 0 where
  skip : Turn
  last_one : Turn
  forward : Turn

-- The match of `send_loop`.
unfoldable pub turn : ℕ → ServerEvent → Turn
turn user_id (kicked kicked_id) = if nat_beq kicked_id user_id then last_one else skip
turn user_id channel_deleted = last_one
turn user_id (message payload) = forward
turn user_id (edited message_id text ts) = forward
turn user_id (deleted message_id) = forward
turn user_id (typing other username) = forward
turn user_id (history payloads) = forward
turn user_id (error text) = forward

-- `send` says whether an event reaches the socket; every event is serialised without an error. What
-- is sent, in order, and how the loop ends.
unfoldable pub send_loop :
    (send : ServerEvent → Bool) (user_id : ℕ) → List Received → List ServerEvent × Outcome
send_loop send user_id [] = ([], open_still)
send_loop send user_id (closed ∷ rest) = ([], ended)
send_loop send user_id (lagged n ∷ rest) = send_loop send user_id rest
send_loop send user_id (received e ∷ rest) =
    let (others, outcome) = send_loop send user_id rest in
    elim (turn user_id e) [
      | skip ↦ (others, outcome)
      | last_one ↦ (if send e then e ∷ [] else [], cut)
      | forward ↦ if send e then (e ∷ others, outcome) else ([], send_failed)
    ]
