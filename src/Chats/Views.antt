-- ===== src/Chats/Views.antt =====
-- The store of service-chats as a map from identifiers to messages: what each event of a client does
-- to that map.
use rust_service.Base.{
  ℕ, String, ◌≡◌, refl, sym, ap, ◌∙◌, inl, inr, true, false, not, ◌&&◌, Option, none, some, arith,
  nat_beq, if◌then◌else◌, string_partial_eq, nat_partial_eq, pair_partial_eq, eq_of_==, Result, ok,
  err, Bool-cases, Option-cases, lookup, insert, lookup-insert,
}
use rust_service.Chats.Messages.{
  ChatMessage, Row, Key, key_partial_eq, Db, ScyllaError, timestamp_millis, from_millis,
  row_or_empty, message_of, read_row, get_message,
}
use rust_service.Chats.Receive.{
  ClientEvent, chat, edit, delete, typing_now, Socket, Answer, is_refused_text,
}

-- What an identifier leads to, with a database that answers.
abbrev pub View : Type 0
View = ℕ → Result (Option ChatMessage) ScyllaError

abbrev pub view : Db → View
view db id = get_message true id db

-- A change of a message, for its author and in its own chat.
abbrev pub changed :
    Socket
    → (ChatMessage → ChatMessage)
    → Result (Option ChatMessage) ScyllaError
    → Result (Option ChatMessage) ScyllaError
changed socket change (err e) = err e
changed socket change (ok none) = ok none
changed socket change (ok (some msg)) =
    if nat_beq msg.user_id socket.user_id && nat_beq msg.chat_id socket.chat_id
    then ok (some (change msg))
    else ok (some msg)

abbrev pub with_content : Answer → String → ChatMessage → ChatMessage
with_content a text msg = record msg {
  content = text;
  updated_at = some (from_millis (timestamp_millis a.now));
}

abbrev pub as_deleted : Answer → ChatMessage → ChatMessage
as_deleted a msg = record msg {
  is_deleted = true;
  updated_at = some (from_millis (timestamp_millis a.now));
}

abbrev pub created : Socket → Answer → String → ChatMessage
created socket a text = record {
  message_id = a.new_id;
  chat_id = socket.chat_id;
  user_id = socket.user_id;
  content = text;
  created_at = from_millis (timestamp_millis a.now);
  updated_at = none;
  is_deleted = false;
}

-- The abstract store: what an event makes of the map.
abbrev pub promised : (trim : String → String) → Socket → Answer → ClientEvent → View → View
promised trim socket a (chat text) v id =
    if not (is_refused_text (trim text)) && a.write_runs && nat_beq a.new_id id
    then ok (some (created socket a (trim text)))
    else v id
promised trim socket a (edit edited_id text) v id =
    if not (is_refused_text (trim text)) && a.get_runs && a.write_runs && nat_beq edited_id id
    then changed socket (with_content a (trim text)) (v id)
    else v id
promised trim socket a (delete deleted_id) v id =
    if a.get_runs && a.write_runs && nat_beq deleted_id id
    then changed socket (as_deleted a) (v id)
    else v id
promised trim socket a typing_now v id = v id

pub millis : (ms : ℕ) → timestamp_millis (from_millis ms) ≡ ms
millis ms = omega arith

pub message_of-ok :
    (key : Key) (row : Row) (msg : ChatMessage)
    → message_of key row ≡ some msg
    → (msg.chat_id ≡ key.0) × (msg.created_at ≡ from_millis key.1) × (msg.message_id ≡ key.2)
unfolding message_of
message_of-ok key row msg h = ground arith

-- The view of a message whose key is known.
pub view-known :
    (db : Db) (id room ms : ℕ)
    → lookup id db.message_by_id ≡ some (room, ms)
    → view db id ≡ read_row (room, ms, id) (lookup (room, ms, id) db.messages)
unfolding get_message
view-known db id room ms found = rw (get_message, found, millis ms) refl

-- A row of one message is not that of another.
pub view-other :
    (db : Db) (key : Key) (row : Row) (id : ℕ)
    → nat_beq key.2 id ≡ false
    → view (record db { messages = insert key row db.messages }) id ≡ view db id
unfolding get_message
view-other db (room, ms, other) row id apart = elim (Option-cases (lookup id db.message_by_id)) [
  | inl missing ↦ rw (get_message, missing) refl
  | inr ((at, when), found) ↦
      rw
        (
          get_message,
          found,
          millis when,
          lookup-insert (room, ms, other) (at, when, id) row db.messages,
        )
        (ground arith)
]

read_row-some :
    (key : Key) (found : Option Row) (msg : ChatMessage)
    → read_row key found ≡ ok (some msg)
    → (row : Row) × (found ≡ some row) × (message_of key row ≡ some msg)
read_row-some key none msg h = ground arith
read_row-some key (some row) msg h = elim (Option-cases (message_of key row)) [
  | inl unread ↦ ground arith
  | inr (m, whole) ↦ (row, refl, ground arith)
]

-- Where a message stands: under its chat and the time it was made.
abbrev StandsAt : Db → ℕ → ChatMessage → Type 0
StandsAt db id msg =
    (room : ℕ) × (ms : ℕ) × (row : Row) × (lookup id db.message_by_id ≡ some (room, ms))
    × (lookup (room, ms, id) db.messages ≡ some row)
    × (message_of (room, ms, id) row ≡ some msg)
    × (msg.chat_id ≡ room)
    × (timestamp_millis msg.created_at ≡ ms)

view-some : (db : Db) (id : ℕ) (msg : ChatMessage) → view db id ≡ ok (some msg) → StandsAt db id msg
unfolding get_message
view-some db id msg known = elim (Option-cases (lookup id db.message_by_id)) [
  | inl missing ↦ absurd (ground (arith, known))
  | inr ((at, when), found) ↦
      let (row, stored, whole) =
        read_row-some (at, when, id) (lookup (at, when, id) db.messages) msg
          (sym (view-known db id at when found) ∙ known) in
      let (its_chat, its_time, its_id) = message_of-ok (at, when, id) row msg whole in
      (at, when, row, found, stored, whole, its_chat, ap timestamp_millis its_time ∙ millis when)
]

-- The view after a write to a row with the time of the message, in some room.
view-insert :
    (db : Db) (id room at ms when : ℕ) (row written : Row)
    → lookup id db.message_by_id ≡ some (at, ms)
    → lookup (at, ms, id) db.messages ≡ some row
    → when ≡ ms
    → view (record db { messages = insert (room, when, id) written db.messages }) id
      ≡ read_row (at, ms, id) (some (if nat_beq at room then written else row))
view-insert db id room at ms when row written found stored its_time =
    rw
      (
        its_time,
        view-known (record db { messages = insert (room, ms, id) written db.messages }) id at ms
            found,
        lookup-insert (room, ms, id) (at, ms, id) written db.messages,
        stored,
      )
      (ground arith)

-- A write to the row of a message by its identifier and the time it was made: it changes the message
-- when the chat is that of the message, and nothing else.
pub view-write :
    (db : Db) (id room : ℕ) (msg : ChatMessage) (write : Row → Row)
    (change : ChatMessage → ChatMessage)
    → ((key : Key) (row : Row) (m : ChatMessage)
        → message_of key row ≡ some m
        → message_of key (write row) ≡ some (change m))
    → view db id ≡ ok (some msg)
    → let key : Key = (room, timestamp_millis msg.created_at, id) in
      view
        (record db {
          messages = insert key (write (row_or_empty (lookup key db.messages))) db.messages;
        })
        id
      ≡ (if nat_beq msg.chat_id room then ok (some (change msg)) else ok (some msg))
view-write db id room msg write change keeps known =
    let (at, ms, row, found, stored, whole, its_chat, its_time) = view-some db id msg known in
    let w : Row =
      write (row_or_empty (lookup (room, timestamp_millis msg.created_at, id) db.messages)) in
    view-insert db id room at ms (timestamp_millis msg.created_at) row w found stored its_time
    ∙ elim (Bool-cases (nat_beq at room)) [
      | inl here ↦
          ground (arith, eq_of_== at room here, stored, its_time, keeps (at, ms, id) row msg whole)
      | inr elsewhere ↦ ground arith
    ]
