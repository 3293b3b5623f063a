-- ===== src/Chats/Refine.antt =====
-- Every operation of `recv_loop` against the abstract store of Views.
use rust_service.Base.{
  ℕ, String, ◌≡◌, refl, inl, inr, Bool, true, false, ◌&&◌, Option, none, some, arith, nat_beq,
  nat_beq_iff, Map, if◌then◌else◌, string_partial_eq, nat_partial_eq, pair_partial_eq, eq_of_==,
  Result, ok, err, Bool-cases, lookup, insert, lookup-insert,
}
use rust_service.Chats.Messages.{
  ChatMessage, Row, Key, key_partial_eq, Db, ScyllaError, execution, timestamp_millis, row_or_empty,
  create_message, message_of, get_message, update_message, delete_message,
}
use rust_service.Chats.Rooms.{ServerEvent, edited, deleted}
use rust_service.Chats.Receive.{
  ClientEvent, chat, edit, delete, typing_now, ServerData, Socket, Answer, is_refused_text, on_chat,
  as_author, finish_write, on_edit, on_delete, on_client_event,
}
use rust_service.Chats.Views.{
  view, changed, with_content, as_deleted, created, promised, millis, view-other, view-write,
}

view-create :
    (socket : Socket) (a : Answer) (text : String) (db : Db) (id : ℕ)
    → view (create_message true a.new_id a.now socket.chat_id socket.user_id text db).0 id
      ≡ (if nat_beq a.new_id id then ok (some (created socket a text)) else view db id)
unfolding create_message get_message message_of
view-create socket a text db id = elim (Bool-cases (nat_beq a.new_id id)) [
  | inl new ↦
      rw
        (
          lookup-insert a.new_id id (socket.chat_id, timestamp_millis a.now) db.message_by_id,
          new,
          millis (timestamp_millis a.now),
          lookup-insert (socket.chat_id, timestamp_millis a.now, a.new_id)
              (socket.chat_id, timestamp_millis a.now, id) _ db.messages,
        )
        (ground (arith, eq_of_== a.new_id id new))
  | inr old ↦
      rw (lookup-insert a.new_id id (socket.chat_id, timestamp_millis a.now) db.message_by_id, old)
        (view-other db (socket.chat_id, timestamp_millis a.now, a.new_id) _ id old)
]

-- What a statement writes to a row of `messages`, if it runs.
abbrev statement : (runs : Bool) → Key → (Row → Row) → Db → Db × Result (Unit {0}) ScyllaError
statement runs key write db =
    if runs
    then (
      record db {
        messages = insert key (write (row_or_empty (lookup key db.messages))) db.messages;
      },
      ok tt,
    )
    else (db, err execution)

module _ (socket : Socket) (a : Answer) (failed : String) (event : ServerEvent) (write : Row → Row)
    (i : ℕ) (s : ServerData) where
  -- `as_author` with a statement about the message that was asked for.
  abbrev author_writes : Result (Option ChatMessage) ScyllaError → ServerData
  author_writes got =
      (as_author socket
        (λ msg.
          finish_write socket failed event
            (statement a.write_runs (socket.chat_id, timestamp_millis msg.created_at, i) write s.db)
            s)
        failed got s).0

  view-author_other :
      (id : ℕ) (got : Result (Option ChatMessage) ScyllaError)
      → nat_beq i id ≡ false
      → view (author_writes got).db id ≡ view s.db id
  unfolding as_author finish_write
  view-author_other id (err e) apart = refl
  view-author_other id (ok none) apart = refl
  view-author_other id (ok (some msg)) apart = ground (
    arith,
    view-other s.db (socket.chat_id, timestamp_millis msg.created_at, i)
        (write (
          row_or_empty (lookup (socket.chat_id, timestamp_millis msg.created_at, i) s.db.messages)))
        id apart,
  )

  view-author_same :
      (change : ChatMessage → ChatMessage) (got : Result (Option ChatMessage) ScyllaError)
      → ((key : Key) (row : Row) (m : ChatMessage)
          → message_of key row ≡ some m
          → message_of key (write row) ≡ some (change m))
      → view s.db i ≡ got
      → view (author_writes got).db i ≡ (if a.write_runs then changed socket change got else got)
  unfolding as_author finish_write
  view-author_same change (err e) keeps known = ground (arith, known)
  view-author_same change (ok none) keeps known = ground (arith, known)
  view-author_same change (ok (some msg)) keeps known =
      ground (arith, known, view-write s.db i socket.chat_id msg write change keeps known)

  view-author_own :
      (change : ChatMessage → ChatMessage)
      → ((key : Key) (row : Row) (m : ChatMessage)
          → message_of key row ≡ some m
          → message_of key (write row) ≡ some (change m))
      → view (author_writes (get_message a.get_runs i s.db)).db i
        ≡ (if a.get_runs && a.write_runs then changed socket change (view s.db i) else view s.db i)
  unfolding as_author get_message
  view-author_own change keeps = elim (Bool-cases a.get_runs) [
    | inr down ↦ rw (down, author_writes, as_author, get_message) refl
    | inl up ↦ rw (up, author_writes) (view-author_same change (view s.db i) keeps refl)
  ]

  view-author :
      (change : ChatMessage → ChatMessage) (id : ℕ)
      → ((key : Key) (row : Row) (m : ChatMessage)
          → message_of key row ≡ some m
          → message_of key (write row) ≡ some (change m))
      → view (author_writes (get_message a.get_runs i s.db)).db id ≡ (
          if a.get_runs && a.write_runs && nat_beq i id
          then changed socket change (view s.db id)
          else view s.db id)
  view-author change id keeps = elim (Bool-cases (nat_beq i id)) [
    | inr apart ↦
        rw (apart, view-author_other id (get_message a.get_runs i s.db) apart) (ground arith)
    | inl same ↦ ground (arith, eq_of_== i id same, view-author_own change keeps)
  ]

set_content-row :
    (a : Answer) (text : String) (key : Key) (row : Row) (m : ChatMessage)
    → message_of key row ≡ some m
    → message_of key
        (record row { row_content = some text; row_updated_at = some (timestamp_millis a.now) })
      ≡ some (with_content a text m)
unfolding message_of
set_content-row a text key row m h = ground (arith, h)

set_deleted-row :
    (a : Answer) (key : Key) (row : Row) (m : ChatMessage)
    → message_of key row ≡ some m
    → message_of key
        (record row { row_is_deleted = some true; row_updated_at = some (timestamp_millis a.now) })
      ≡ some (as_deleted a m)
unfolding message_of
set_deleted-row a key row m h = ground (arith, h)

event_refines-view :
    (trim : String → String) (socket : Socket) (a : Answer) (event : ClientEvent) (s : ServerData)
    (id : ℕ)
    → view (on_client_event trim socket a event s).0.db id
      ≡ promised trim socket a event (view s.db) id
unfolding on_client_event create_message on_chat on_edit on_delete update_message delete_message
event_refines-view trim socket a (chat text) s id =
    ground (arith, view-create socket a (trim text) s.db id)
event_refines-view trim socket a (edit edited_id text) s id =
    elim (Bool-cases (is_refused_text (trim text))) [
      | inl refused ↦ ground arith
      | inr accepted ↦ ground (
        arith,
        view-author socket a "Failed to edit message" (edited edited_id (trim text) a.now_millis)
            (λ row. record row {
              row_content = some (trim text);
              row_updated_at = some (timestamp_millis a.now);
            })
            edited_id s (with_content a (trim text)) id (set_content-row a (trim text)),
      )
    ]
event_refines-view trim socket a (delete deleted_id) s id =
    view-author socket a "Failed to delete message" (deleted deleted_id)
      (λ row. record row {
        row_is_deleted = some true;
        row_updated_at = some (timestamp_millis a.now);
      })
      deleted_id s (as_deleted a) id (set_deleted-row a)
event_refines-view trim socket a typing_now s id = refl

-- The rows that an event may write: those of the socket's chat under the identifier of the event.
abbrev pub may_write : Socket → Answer → ClientEvent → Key → Bool
may_write socket a (chat text) (room, ms, id) = nat_beq room socket.chat_id && nat_beq id a.new_id
may_write socket a (edit edited_id text) (room, ms, id) =
    nat_beq room socket.chat_id && nat_beq id edited_id
may_write socket a (delete deleted_id) (room, ms, id) =
    nat_beq room socket.chat_id && nat_beq id deleted_id
may_write socket a typing_now key = false

row-insert :
    (key other : Key) (row : Row) (messages : Map Key Row)
    → (nat_beq other.0 key.0 && nat_beq other.2 key.2) ≡ false
    → lookup other (insert key row messages) ≡ lookup other messages
row-insert key other row messages apart = ground (
  arith,
  lookup-insert key other row messages,
  key_partial_eq.same_iff key other,
  nat_beq_iff other.0 key.0,
  nat_beq_iff other.2 key.2,
)

author_writes-rows :
    (socket : Socket) (a : Answer) (failed : String) (event : ServerEvent) (write : Row → Row)
    (i : ℕ) (s : ServerData) (got : Result (Option ChatMessage) ScyllaError) (key : Key)
    → (nat_beq key.0 socket.chat_id && nat_beq key.2 i) ≡ false
    → lookup key (author_writes socket a failed event write i s got).db.messages
      ≡ lookup key s.db.messages
unfolding as_author finish_write
author_writes-rows socket a failed event write i s (err e) key apart = refl
author_writes-rows socket a failed event write i s (ok none) key apart = refl
author_writes-rows socket a failed event write i s (ok (some msg)) key apart = ground (
  arith,
  row-insert (socket.chat_id, timestamp_millis msg.created_at, i) key
      (write
        (row_or_empty (lookup (socket.chat_id, timestamp_millis msg.created_at, i) s.db.messages)))
      s.db.messages apart,
)

event-rows :
    (trim : String → String) (socket : Socket) (a : Answer) (event : ClientEvent) (s : ServerData)
    (key : Key)
    → may_write socket a event key ≡ false
    → lookup key (on_client_event trim socket a event s).0.db.messages ≡ lookup key s.db.messages
unfolding on_client_event create_message on_chat on_edit on_delete update_message delete_message
event-rows trim socket a (chat text) s key apart = ground (
  arith,
  row-insert (socket.chat_id, timestamp_millis a.now, a.new_id) key
      (record {
        row_user_id = some socket.user_id;
        row_content = some (trim text);
        row_updated_at = none;
        row_is_deleted = some false;
      })
      s.db.messages apart,
)
event-rows trim socket a (edit edited_id text) s key apart = ground (
  arith,
  author_writes-rows socket a "Failed to edit message" (edited edited_id (trim text) a.now_millis)
      (λ row. record row {
        row_content = some (trim text);
        row_updated_at = some (timestamp_millis a.now);
      })
      edited_id s (get_message a.get_runs edited_id s.db) key apart,
)
event-rows trim socket a (delete deleted_id) s key apart =
    author_writes-rows socket a "Failed to delete message" (deleted deleted_id)
      (λ row. record row {
        row_is_deleted = some true;
        row_updated_at = some (timestamp_millis a.now);
      })
      deleted_id s (get_message a.get_runs deleted_id s.db) key apart
event-rows trim socket a typing_now s key apart = refl

-- What an event of a socket does to the messages, read by their identifiers, is what the abstract
-- store promises: a message that is sent appears under its identifier; an edit or a deletion changes
-- what its identifier leads to, for the author of that message and where it is of the socket's chat,
-- and what no other identifier leads to; a text of the wrong length and a typing event change
-- nothing, nor does an event of which a statement is not carried out. No row is written but of the
-- socket's chat under the identifier of the event; where that message is of another chat, this is a
-- row that its identifier does not lead to.
pub event_refines :
    (trim : String → String) (socket : Socket) (a : Answer) (event : ClientEvent) (s : ServerData)
    → ((id : ℕ)
        → view (on_client_event trim socket a event s).0.db id
          ≡ promised trim socket a event (view s.db) id)
      × ((key : Key)
          → may_write socket a event key ≡ false
          → lookup key (on_client_event trim socket a event s).0.db.messages
            ≡ lookup key s.db.messages)
event_refines trim socket a event s =
    (event_refines-view trim socket a event s, event-rows trim socket a event s)
