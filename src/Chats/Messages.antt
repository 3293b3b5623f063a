-- ===== src/Chats/Messages.antt =====
-- scylladb-client/src/lib.rs: the tables of `migrate` and the statements of `prepare`, as the
-- operations of `ChatMessageStore` run them. A `Uuid` is a number, a time is a number of
-- nanoseconds. A statement that fails is one that was not carried out; a write that times out and is
-- carried out all the same is not modelled.
use rust_service.Base.{
  ℕ, ◌*◌, ◌/◌, String, ◌≡◌, ◌↔◌, Bool, true, false, ◌&&◌, ◌||◌, Option, none, some, List, [], ◌∷◌,
  arith, ltb, leb, nat_beq, if◌then◌else◌, nat_beq_iff, PartialEq, string_partial_eq,
  nat_partial_eq, pair_partial_eq, Result, ok, err, ◌>>=◌, take, Map, lookup, insert,
}
use mathlib.Core.Option

pub record ChatMessage : Type 0 where
  pub message_id : ℕ
  pub chat_id : ℕ
  pub user_id : ℕ
  pub content : String
  pub created_at : ℕ
  pub updated_at : Option ℕ
  pub is_deleted : Bool

-- A row of `messages` beside its primary key; a column that was never written is null.
pub record Row : Type 0 where
  pub row_user_id : Option ℕ
  pub row_content : Option String
  pub row_updated_at : Option ℕ
  pub row_is_deleted : Option Bool

-- The primary key of `messages`: chat, time in milliseconds, message.
abbrev pub Key : Type 0
Key = ℕ × ℕ × ℕ

abbrev pub key_same : Key → Key → Bool
key_same (a, b, c) (d, e, f) = nat_beq a d && nat_beq b e && nat_beq c f

pub key_same_iff : (x y : Key) → (key_same x y ≡ true) ↔ (x ≡ y)
key_same_iff (a, b, c) (d, e, f) = ground (arith, nat_beq_iff a d, nat_beq_iff b e, nat_beq_iff c f)

instance abbrev pub key_partial_eq : PartialEq Key
key_partial_eq = record { same = key_same; same_iff = key_same_iff }

-- `messages` and `message_by_id`; nothing reads `user_messages`.
pub record Db : Type 0 where
  pub messages : Map Key Row
  pub message_by_id : Map ℕ (ℕ × ℕ)

pub data ScyllaError : Type 0 where
  execution : ScyllaError
  first_row : ScyllaError
  deserialization : ScyllaError

-- `DateTime::timestamp_millis`, and a time read from a column.
abbrev pub timestamp_millis : ℕ → ℕ
timestamp_millis at = at / 1000000

abbrev pub from_millis : ℕ → ℕ
from_millis ms = ms * 1000000

abbrev pub empty_row : Row
empty_row = record {
  row_user_id = none;
  row_content = none;
  row_updated_at = none;
  row_is_deleted = none;
}

-- The row of a key before an `UPDATE`, which writes one where there is none.
abbrev pub row_or_empty : Option Row → Row
row_or_empty none = empty_row
row_or_empty (some row) = row

-- The batch of three inserts, and the message as it is answered.
unfoldable pub create_message :
    (runs : Bool) (message_id now chat_id user_id : ℕ)
    → String
    → Db
    → Db × Result ChatMessage ScyllaError
create_message runs message_id now chat_id user_id content db =
    let message : ChatMessage = record {
      message_id = message_id;
      chat_id = chat_id;
      user_id = user_id;
      content = content;
      created_at = now;
      updated_at = none;
      is_deleted = false;
    } in
    let row : Row = record {
      row_user_id = some user_id;
      row_content = some content;
      row_updated_at = none;
      row_is_deleted = some false;
    } in
    let ms = timestamp_millis now in
    if runs
    then (
      record {
        messages = insert (chat_id, ms, message_id) row db.messages;
        message_by_id = insert message_id (chat_id, ms) db.message_by_id;
      },
      ok message,
    )
    else (db, err execution)

-- A row as the tuple of the query: a null that the tuple has no place for is an error.
unfoldable pub message_of : Key → Row → Option ChatMessage
message_of (chat, ms, id) row = elim row.row_user_id [
  | none ↦ none
  | some user ↦ elim row.row_content [
    | none ↦ none
    | some text ↦ elim row.row_is_deleted [
      | none ↦ none
      | some deleted ↦ some (record {
        message_id = id;
        chat_id = chat;
        user_id = user;
        content = text;
        created_at = from_millis ms;
        updated_at = Option.map from_millis row.row_updated_at;
        is_deleted = deleted;
      })
    ]
  ]
]

-- The row that a key leads to, if any.
abbrev pub read_row : Key → Option Row → Result (Option ChatMessage) ScyllaError
read_row key none = ok none
read_row key (some row) = elim (message_of key row) [
  | none ↦ err first_row
  | some message ↦ ok (some message)
]

-- The second query of `get_message`, at what the first one found.
abbrev pub read_found : Map Key Row → ℕ → Option (ℕ × ℕ) → Result (Option ChatMessage) ScyllaError
read_found messages message_id none = ok none
read_found messages message_id (some (chat_id, created_ms)) =
    let key : Key = (chat_id, timestamp_millis (from_millis created_ms), message_id) in
    read_row key (lookup key messages)

-- The message of an identifier: two queries.
unfoldable pub get_message : (runs : Bool) → ℕ → Db → Result (Option ChatMessage) ScyllaError
get_message runs message_id db =
    if runs
    then read_found db.messages message_id (lookup message_id db.message_by_id)
    else err execution

-- `UPDATE messages SET content = ?, updated_at = ?`.
unfoldable pub update_message :
    (runs : Bool) (now chat_id created_at message_id : ℕ)
    → String
    → Db
    → Db × Result (Unit {0}) ScyllaError
update_message runs now chat_id created_at message_id new_content db =
    let key : Key = (chat_id, timestamp_millis created_at, message_id) in
    let row : Row = record (row_or_empty (lookup key db.messages)) {
      row_content = some new_content;
      row_updated_at = some (timestamp_millis now);
    } in
    if runs
    then (record db { messages = insert key row db.messages }, ok tt)
    else (db, err execution)

-- `UPDATE messages SET is_deleted = true, updated_at = ?`.
unfoldable pub delete_message :
    (runs : Bool) (now chat_id created_at message_id : ℕ) → Db → Db × Result (Unit {0}) ScyllaError
delete_message runs now chat_id created_at message_id db =
    let key : Key = (chat_id, timestamp_millis created_at, message_id) in
    let row : Row = record (row_or_empty (lookup key db.messages)) {
      row_is_deleted = some true;
      row_updated_at = some (timestamp_millis now);
    } in
    if runs
    then (record db { messages = insert key row db.messages }, ok tt)
    else (db, err execution)

-- `WHERE chat_id = ?`.
unfoldable pub partition : ℕ → Map Key Row → List (Key × Row)
partition chat [] = []
partition chat ((key, row) ∷ rows) =
    let rest = partition chat rows in if nat_beq key.0 chat then (key, row) ∷ rest else rest

-- `CLUSTERING ORDER BY (created_at DESC)`, then `message_id` ascending.
unfoldable pub is_before : Key → Key → Bool
is_before (chat, ms, id) (other_chat, other_ms, other_id) =
    ltb other_ms ms || (nat_beq other_ms ms && leb id other_id)

unfoldable pub place_row : Key × Row → List (Key × Row) → List (Key × Row)
place_row entry [] = entry ∷ []
place_row entry (other ∷ rows) =
    let rest = place_row entry rows in
    if is_before entry.0 other.0 then entry ∷ other ∷ rows else other ∷ rest

unfoldable pub newest_first : List (Key × Row) → List (Key × Row)
newest_first [] = []
newest_first (entry ∷ rows) = place_row entry (newest_first rows)

-- The loop over the rows: all of them as messages, or the first error.
unfoldable pub read_rows : List (Key × Row) → Result (List ChatMessage) ScyllaError
read_rows [] = ok []
read_rows ((key, row) ∷ rows) = elim (message_of key row) [
  | none ↦ err deserialization
  | some message ↦ do messages ← read_rows rows; ok (message ∷ messages)
]

-- `limit` is an `i32` above zero.
unfoldable pub get_chat_messages :
    (runs : Bool) (chat_id limit : ℕ) → Db → Result (List ChatMessage) ScyllaError
get_chat_messages runs chat_id limit db =
    if runs
    then read_rows (take limit (newest_first (partition chat_id db.messages)))
    else err execution
