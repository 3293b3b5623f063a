-- ===== src/Chats/Receive.antt =====
-- service-chats/src/api/router.rs: `recv_loop`, `send_history`, `websocket_handler` and what a
-- socket does to the rooms. `trim` and `parse` stand for `str::trim` and the JSON of a
-- `ClientEvent`; an `Answer` is what the clocks, `Uuid::new_v4` and the two statements give while an
-- event is handled.
use rust_service.Base.{
  ℕ, ◌+◌, ◌-◌, String, len, Bool, true, false, ◌&&◌, ◌||◌, Option, none, some, List, [], ◌∷◌, ◌++◌,
  ltb, leb, nat_beq, if◌then◌else◌, string_partial_eq, ◌==◌, nat_partial_eq, pair_partial_eq,
  Result, ok, err, lookup, insert, remove,
}
use rust_service.Chats.Messages.{
  ChatMessage, key_partial_eq, Db, ScyllaError, timestamp_millis, create_message, get_message,
  update_message, delete_message, get_chat_messages,
}
use rust_service.Chats.Rooms.{
  MessagePayload, ServerEvent, message, edited, deleted, typing, history, error, Rooms,
  broadcast_to_room,
}

pub data ClientEvent : Type 0 where
  chat : (text : String) → ClientEvent
  edit : (message_id : ℕ) (text : String) → ClientEvent
  delete : (message_id : ℕ) → ClientEvent
  typing_now : ClientEvent

pub record ServerData : Type 0 where
  pub db : Db
  pub rooms : Rooms

-- The socket of a user in a room; `chat_id` is the room's identifier.
pub record Socket : Type 0 where
  pub room_id : String
  pub chat_id : ℕ
  pub user_id : ℕ
  pub username : String

pub record Answer : Type 0 where
  pub new_id : ℕ
  pub now : ℕ
  pub now_millis : ℕ
  pub get_runs : Bool
  pub write_runs : Bool

abbrev pub max_message_length : ℕ
max_message_length = 5000

-- The state after an event, and what goes to the sender alone.
abbrev pub Handled : Type 0
Handled = ServerData × List ServerEvent

abbrev pub refuse : ServerData → String → Handled
refuse s text = (s, error text ∷ [])

unfoldable pub is_refused_text : String → Bool
is_refused_text text = nat_beq (len text) 0 || ltb max_message_length (len text)

unfoldable pub on_chat : Socket → Answer → String → ServerData → Handled
on_chat socket a text s =
    let (db, created) =
      create_message a.write_runs a.new_id a.now socket.chat_id socket.user_id text s.db in
    elim (is_refused_text text) [
      | true ↦ refuse s "Invalid message length"
      | false ↦ elim created [
        | err e ↦ refuse (record s { db = db }) "Failed to save message"
        | ok stored ↦
            let payload : MessagePayload = record {
              payload_id = stored.message_id;
              author = socket.user_id;
              username = socket.username;
              text = text;
              ts = timestamp_millis stored.created_at;
            } in
            (
              record {
                db = db;
                rooms = broadcast_to_room s.rooms socket.room_id (message payload);
              },
              [],
            )
      ]
    ]

-- The match on the message that an edit or a deletion is about: `write` runs for its author.
unfoldable pub as_author :
    Socket
    → (write : ChatMessage → Handled) → (failed : String) → Result (Option ChatMessage) ScyllaError
    → ServerData
    → Handled
as_author socket write failed (err e) s = refuse s failed
as_author socket write failed (ok none) s = refuse s "Message not found"
as_author socket write failed (ok (some msg)) s =
    if nat_beq msg.user_id socket.user_id then write msg else refuse s "Permission denied"

-- The write of a message, and the event for the room when it succeeds.
unfoldable pub finish_write :
    Socket
    → (failed : String) → ServerEvent
    → Db × Result (Unit {0}) ScyllaError
    → ServerData
    → Handled
finish_write socket failed event (db, err e) s = refuse (record s { db = db }) failed
finish_write socket failed event (db, ok done) s =
    (record { db = db; rooms = broadcast_to_room s.rooms socket.room_id event }, [])

unfoldable pub on_edit : Socket → Answer → ℕ → String → ServerData → Handled
on_edit socket a id text s =
    let write : ChatMessage → Handled = λ msg.
      finish_write socket "Failed to edit message" (edited id text a.now_millis)
        (update_message a.write_runs a.now socket.chat_id msg.created_at id text s.db) s in
    let handled =
      as_author socket write "Failed to edit message" (get_message a.get_runs id s.db) s in
    if is_refused_text text then refuse s "Invalid message length" else handled

unfoldable pub on_delete : Socket → Answer → ℕ → ServerData → Handled
on_delete socket a id s =
    let write : ChatMessage → Handled = λ msg.
      finish_write socket "Failed to delete message" (deleted id)
        (delete_message a.write_runs a.now socket.chat_id msg.created_at id s.db) s in
    as_author socket write "Failed to delete message" (get_message a.get_runs id s.db) s

-- The match of `recv_loop`, with the text trimmed.
unfoldable pub on_client_event :
    (trim : String → String) → Socket → Answer → ClientEvent → ServerData → Handled
on_client_event trim socket a (chat text) s = on_chat socket a (trim text) s
on_client_event trim socket a (edit id text) s = on_edit socket a id (trim text) s
on_client_event trim socket a (delete id) s = on_delete socket a id s
on_client_event trim socket a typing_now s = (
  record s {
    rooms = broadcast_to_room s.rooms socket.room_id (typing socket.user_id socket.username);
  },
  [],
)

-- A frame of the socket: text, another kind, or an error of the connection.
pub data Frame : Type 0 where
  text_frame : String → Frame
  other_frame : Frame
  broken : Frame

-- `recv_loop`: it ends at the end of the frames or at a broken one.
unfoldable pub recv_loop :
    (trim : String → String) (parse : String → Option ClientEvent)
    → Socket
    → List (Frame × Answer)
    → ServerData
    → Handled
recv_loop trim parse socket [] s = (s, [])
recv_loop trim parse socket ((broken, a) ∷ frames) s = (s, [])
recv_loop trim parse socket ((other_frame, a) ∷ frames) s = recv_loop trim parse socket frames s
recv_loop trim parse socket ((text_frame raw, a) ∷ frames) s =
    let (handled, direct) : Handled = elim (parse raw) [
      | none ↦ refuse s "Invalid message format"
      | some event ↦ on_client_event trim socket a event s
    ] in
    let (last, others) = recv_loop trim parse socket frames handled in (last, direct ++ others)

-- The payloads of `send_history`; `uuid_text` writes a `Uuid`.
unfoldable pub payloads : (uuid_text : ℕ → String) → List ChatMessage → List MessagePayload
payloads uuid_text [] = []
payloads uuid_text (m ∷ messages) =
    let rest = payloads uuid_text messages in
    let payload : MessagePayload = record {
      payload_id = m.message_id;
      author = m.user_id;
      username = uuid_text m.user_id;
      text = m.content;
      ts = timestamp_millis m.created_at;
    } in
    if m.is_deleted then rest else payload ∷ rest

-- What a new socket is sent before anything else; nothing when the history does not load.
unfoldable pub send_history :
    (uuid_text : ℕ → String) (runs : Bool) (chat_id : ℕ) → Db → List ServerEvent
send_history uuid_text runs chat_id db = elim (get_chat_messages runs chat_id 100 db) [
  | err e ↦ []
  | ok messages ↦ history (payloads uuid_text messages) ∷ []
]

-- `websocket` up to the loops: the room, made where there is none, has one more receiver.
unfoldable pub enter_room : String → Rooms → Rooms
enter_room room_id rooms = elim (lookup room_id rooms) [
  | none ↦ insert room_id (record { sent = []; receiver_count = 1 }) rooms
  | some room ↦ insert room_id (record room { receiver_count = room.receiver_count + 1 }) rooms
]

-- The end of `websocket`: a room without receivers is removed. `dropped` says whether the receiver
-- of this socket is gone when they are counted: after `send_task.abort()` it may not be yet.
unfoldable pub leave_room : (dropped : Bool) → String → Rooms → Rooms
leave_room dropped room_id rooms = elim (lookup room_id rooms) [
  | none ↦ rooms
  | some room ↦
      let left = room.receiver_count - 1 in
      elim ((if dropped then left else room.receiver_count) == 0) [
        | true ↦ remove room_id rooms
        | false ↦ insert room_id (record room { receiver_count = left }) rooms
      ]
]

-- What `websocket_handler` answers.
pub data Upgrade : Type 0 where
  rejected : (status : ℕ) (text : String) → Upgrade
  upgraded : (user_id : ℕ) (username : String) → Upgrade

-- The header, or the identifier where there is none or an empty one.
unfoldable pub username_of : (uuid_text : ℕ → String) → ℕ → Option String → String
username_of uuid_text user none = uuid_text user
username_of uuid_text user (some given) = if nat_beq (len given) 0 then uuid_text user else given

-- `x_user_id` and `x_username` are the headers as text, `check` the status of the request to
-- service-channels, if it was answered.
unfoldable pub websocket_handler :
    (parse_uuid : String → Option ℕ) (uuid_text : ℕ → String) (x_user_id x_username : Option String)
    → (check : Option ℕ) → Upgrade
websocket_handler parse_uuid uuid_text none x_username check = rejected 401 "Missing user identity"
websocket_handler parse_uuid uuid_text (some header) x_username check = elim (parse_uuid header) [
  | none ↦ rejected 401 "Missing user identity"
  | some user ↦ elim check [
    | none ↦ rejected 502 "Failed to verify subscription"
    | some status ↦
        if leb 200 status && ltb status 300
        then upgraded user (username_of uuid_text user x_username)
        else if nat_beq status 403
        then rejected 403 "Not subscribed to this channel"
        else rejected 502 "Failed to verify subscription"
  ]
]
