-- ===== src/Chats/Authors.antt =====
-- What a whole socket can do to the messages of others, and what it is told.
use rust_service.Base.{
  ℕ, String, ◌++◌, ◌==◌, sym, subst, lookup, lookup-insert, lookup-insert_self, ◌≡◌, refl, ◌∙◌, ◌≢◌,
  ◌⊎◌, inl, inr, Bool, true, false, Option, none, some, List, [], ◌∷◌, arith, nat_beq,
  if◌then◌else◌, string_partial_eq, nat_partial_eq, pair_partial_eq, Result, ok, err, Bool-cases,
  Option-cases,
}
use mathlib.Core.Option
use rust_service.Chats.Messages.{
  ChatMessage, key_partial_eq, Db, ScyllaError, execution, timestamp_millis, create_message,
  get_message, update_message, delete_message,
}
use rust_service.Chats.Rooms.{
  ServerEvent, Room, Rooms, message, edited, deleted, typing, error, send_to, broadcast_to_room,
}
use rust_service.Chats.Receive.{
  ClientEvent, chat, edit, delete, typing_now, ServerData, Socket, Answer, Handled, is_refused_text,
  on_chat, as_author, finish_write, on_edit, on_delete, on_client_event, Frame, text_frame,
  other_frame, broken, recv_loop,
}
use rust_service.Chats.Views.{view, changed, with_content, as_deleted, promised}
use rust_service.Chats.Refine.{event_refines}

-- No message is made under an identifier.
abbrev pub NeverNew : ℕ → List (Frame × Answer) → Type 0
NeverNew id [] = Unit
NeverNew id ((frame, a) ∷ frames) = (nat_beq a.new_id id ≡ false) × NeverNew id frames

changed_by_other :
    (socket : Socket) (change : ChatMessage → ChatMessage) (msg : ChatMessage)
    (found : Result (Option ChatMessage) ScyllaError)
    → found ≡ ok (some msg)
    → nat_beq msg.user_id socket.user_id ≡ false
    → changed socket change found ≡ ok (some msg)
changed_by_other socket change msg found known other = rw known (ground arith)

event-others :
    (trim : String → String) (socket : Socket) (a : Answer) (event : ClientEvent) (s : ServerData)
    (id : ℕ) (msg : ChatMessage)
    → view s.db id ≡ ok (some msg)
    → nat_beq msg.user_id socket.user_id ≡ false
    → nat_beq a.new_id id ≡ false
    → view (on_client_event trim socket a event s).0.db id ≡ ok (some msg)
event-others trim socket a event s id msg known other fresh =
    (event_refines trim socket a event s).0 id ∙ kept event
  where
    kept : (event : ClientEvent) → promised trim socket a event (view s.db) id ≡ ok (some msg)
    kept (chat text) = ground (arith, known)
    kept (edit edited_id text) = ground (
      arith,
      known,
      changed_by_other socket (with_content a (trim text)) msg (view s.db id) known other,
    )
    kept (delete deleted_id) =
        ground (arith, known, changed_by_other socket (as_deleted a) msg (view s.db id) known other)
    kept typing_now = known

-- Whatever frames a socket sends, and whichever statements fail, a message of another user stays as
-- it is, when no new message is given its identifier.
pub others_untouched :
    (trim : String → String) (parse : String → Option ClientEvent) (socket : Socket)
    (frames : List (Frame × Answer)) (s : ServerData) (id : ℕ) (msg : ChatMessage)
    → view s.db id ≡ ok (some msg)
    → msg.user_id ≢ socket.user_id
    → NeverNew id frames
    → view (recv_loop trim parse socket frames s).0.db id ≡ ok (some msg)
unfolding recv_loop
others_untouched trim parse socket [] s id msg known other fresh = known
others_untouched trim parse socket ((broken, a) ∷ frames) s id msg known other fresh = known
others_untouched trim parse socket ((other_frame, a) ∷ frames) s id msg known other fresh =
    others_untouched trim parse socket frames s id msg known other fresh.1
others_untouched trim parse socket ((text_frame raw, a) ∷ frames) s id msg known other fresh =
    elim (Option-cases (parse raw)) [
      | inl invalid ↦
          rw invalid (others_untouched trim parse socket frames s id msg known other fresh.1)
      | inr (event, valid) ↦ rw valid (
          others_untouched trim parse socket frames (on_client_event trim socket a event s).0 id msg
            (event-others trim socket a event s id msg known (ground (arith, other)) fresh.0) other
            fresh.1)
    ]

-- The event that a client event is to bring to the room.
abbrev pub announcement : (trim : String → String) → Socket → Answer → ClientEvent → ServerEvent
announcement trim socket a (chat text) = message (record {
  payload_id = a.new_id;
  author = socket.user_id;
  username = socket.username;
  text = trim text;
  ts = timestamp_millis a.now;
})
announcement trim socket a (edit edited_id text) = edited edited_id (trim text) a.now_millis
announcement trim socket a (delete deleted_id) = deleted deleted_id
announcement trim socket a typing_now = typing socket.user_id socket.username

-- A room with one event more, the newest.
abbrev pub with_event : ServerEvent → Room → Room
with_event e room = record { sent = room.sent ++ e ∷ []; receiver_count = room.receiver_count }

-- The room has one event more, where it exists, and the other rooms are as they were.
abbrev pub IsSent : Rooms → String → ServerEvent → Rooms → Type 0
IsSent rooms room_id e next =
    (lookup room_id next ≡ Option.map (with_event e) (lookup room_id rooms))
    × ((other : String) → (room_id == other) ≡ false → lookup other next ≡ lookup other rooms)

broadcast_to_room-IsSent :
    (rooms : Rooms) (room_id : String) (e : ServerEvent)
    → IsSent rooms room_id e (broadcast_to_room rooms room_id e)
unfolding broadcast_to_room send_to
broadcast_to_room-IsSent rooms room_id e = elim (Option-cases (lookup room_id rooms)) [
  | inl absent ↦ rw (absent, broadcast_to_room) (absent, λ other apart. refl)
  | inr (room, there) ↦
      rw (there, broadcast_to_room, send_to)
        (
          lookup-insert_self room_id (with_event e room) rooms,
          λ other apart. rw (lookup-insert room_id other (with_event e room) rooms, apart) refl,
        )
]

-- One error to the sender and no change, or the event to the room and nothing to the sender.
abbrev pub IsAnswered : Socket → ServerData → ServerEvent → Handled → Type 0
IsAnswered socket s e handled =
    ((text : String) × (handled ≡ (s, error text ∷ [])))
    ⊎ ((handled.1 ≡ []) × IsSent s.rooms socket.room_id e handled.0.rooms)

finish_write-IsAnswered :
    (socket : Socket) (failed : String) (e : ServerEvent) (s : ServerData) (runs : Bool) (db : Db)
    → IsAnswered socket s e
        (finish_write socket failed e (if runs then (db, ok tt) else (s.db, err execution)) s)
unfolding finish_write
finish_write-IsAnswered socket failed e s true db =
    inr (refl, broadcast_to_room-IsSent s.rooms socket.room_id e)
finish_write-IsAnswered socket failed e s false db = inl (failed, refl)

as_author-IsAnswered :
    (socket : Socket) (write : ChatMessage → Handled) (failed : String) (e : ServerEvent)
    (got : Result (Option ChatMessage) ScyllaError) (s : ServerData)
    → ((msg : ChatMessage) → IsAnswered socket s e (write msg))
    → IsAnswered socket s e (as_author socket write failed got s)
unfolding as_author
as_author-IsAnswered socket write failed e (err x) s answered = inl (failed, refl)
as_author-IsAnswered socket write failed e (ok none) s answered = inl ("Message not found", refl)
as_author-IsAnswered socket write failed e (ok (some msg)) s answered =
    elim (Bool-cases (nat_beq msg.user_id socket.user_id)) [
      | inl own ↦ rw own (answered msg)
      | inr other ↦ rw other (inl ("Permission denied", refl))
    ]

-- Every event of a client is answered in one of two ways: with one error to its sender alone, and
-- everything stays as it was; or its sender is told nothing, and its room, where there is one, takes
-- as its newest event the one that tells of the message, the edit, the deletion or the typing, and
-- the other rooms stay as they were.
pub event-IsAnswered :
    (trim : String → String) (socket : Socket) (a : Answer) (event : ClientEvent) (s : ServerData)
    → IsAnswered socket s (announcement trim socket a event) (on_client_event trim socket a event s)
unfolding on_client_event on_chat on_edit on_delete create_message update_message delete_message
event-IsAnswered trim socket a (chat text) s = elim (Bool-cases (is_refused_text (trim text))) [
  | inl refused ↦ inl ("Invalid message length", ground arith)
  | inr accepted ↦ elim (Bool-cases a.write_runs) [
    | inl runs ↦
        let e = announcement trim socket a (chat text) in
        let sent : (on_chat socket a (trim text) s).0.rooms
            ≡ broadcast_to_room s.rooms socket.room_id e =
          ground arith in
        inr (
          ground arith,
          subst (IsSent s.rooms socket.room_id e) (sym sent)
              (broadcast_to_room-IsSent s.rooms socket.room_id e),
        )
    | inr fails ↦ inl ("Failed to save message", ground arith)
  ]
]
event-IsAnswered trim socket a (edit edited_id text) s =
    elim (Bool-cases (is_refused_text (trim text))) [
      | inl refused ↦ inl ("Invalid message length", ground arith)
      | inr accepted ↦ rw accepted (
          as_author-IsAnswered socket _ "Failed to edit message"
            (edited edited_id (trim text) a.now_millis) (get_message a.get_runs edited_id s.db) s
            (λ msg.
              finish_write-IsAnswered socket "Failed to edit message"
                (edited edited_id (trim text) a.now_millis) s a.write_runs _))
    ]
event-IsAnswered trim socket a (delete deleted_id) s =
    as_author-IsAnswered socket _ "Failed to delete message" (deleted deleted_id)
      (get_message a.get_runs deleted_id s.db) s
      (λ msg.
        finish_write-IsAnswered socket "Failed to delete message" (deleted deleted_id) s
          a.write_runs _)
event-IsAnswered trim socket a typing_now s =
    inr (
      refl,
      broadcast_to_room-IsSent s.rooms socket.room_id (typing socket.user_id socket.username),
    )
