-- ===== src/Chats/Tests.antt =====
-- Runs of service-chats on small inputs, and the theorems at such inputs.
use rust_service.Base.{
  ℕ, String, ◌≡◌, refl, true, false, Option, none, some, List, [], ◌∷◌, arith, if◌then◌else◌,
  string_partial_eq, ◌==◌, nat_partial_eq, pair_partial_eq, ok, err, lookup, insert, remove,
}
use rust_service.Channels.Routes
use rust_service.Channels.Store
use rust_service.Chats.Messages.{
  ChatMessage, key_partial_eq, deserialization, create_message, message_of, get_message,
  update_message, partition, place_row, newest_first, read_rows, get_chat_messages,
}
use rust_service.Chats.Rooms.{
  message, deleted, typing, history, error, channel_deleted, kicked, send_to, broadcast_to_room,
  on_user_unsubscribed, on_event, Received, received, lagged, closed, cut, turn, send_loop,
}
use rust_service.Chats.Receive.{
  ClientEvent, chat, edit, delete, ServerData, Socket, Answer, is_refused_text, on_chat, as_author,
  finish_write, on_edit, on_delete, on_client_event, text_frame, recv_loop, payloads, send_history,
  enter_room, leave_room, upgraded, username_of, websocket_handler,
}
use rust_service.Chats.Views.{view, promised}
use rust_service.Chats.Refine.{event_refines}
use rust_service.Chats.Sending.{leaving_ends}
use rust_service.Chats.Authors.{others_untouched, IsAnswered, event-IsAnswered}
use rust_service.Chats.Admission.{check_status, checked, membership_ignored}

-- User 1 in the room of chat 7, which is open, and in that of chat 8.
abbrev ann : Socket
ann = record { room_id = "7"; chat_id = 7; user_id = 1; username = "ann" }

abbrev ann_elsewhere : Socket
ann_elsewhere = record { room_id = "8"; chat_id = 8; user_id = 1; username = "ann" }

abbrev bob : Socket
bob = record { room_id = "7"; chat_id = 7; user_id = 2; username = "bob" }

-- All statements run; the new message is 100, made at 5 seconds.
abbrev at_five : Answer
at_five = record {
  new_id = 100;
  now = 5000000000;
  now_millis = 5000;
  get_runs = true;
  write_runs = true;
}

abbrev at_six : Answer
at_six = record at_five { new_id = 101; now = 6000000000; now_millis = 6000 }

abbrev begun : ServerData
begun = record {
  db = record { messages = []; message_by_id = [] };
  rooms = ("7", record { sent = []; receiver_count = 2 }) ∷ [];
}

abbrev same_text : String → String
same_text text = text

abbrev hello : ChatMessage
hello = record {
  message_id = 100;
  chat_id = 7;
  user_id = 1;
  content = "hello";
  created_at = 5000000000;
  updated_at = none;
  is_deleted = false;
}

-- The state after the message of user 1.
abbrev greeted : ServerData
greeted = record {
  db = record {
    messages =
        (
          (7, 5000, 100),
          record {
            row_user_id = some 1;
            row_content = some "hello";
            row_updated_at = none;
            row_is_deleted = some false;
          },
        )
        ∷ [];
    message_by_id = (100, (7, 5000)) ∷ [];
  };
  rooms =
      (
        "7",
        record {
          sent =
              message (record {
                payload_id = 100;
                author = 1;
                username = "ann";
                text = "hello";
                ts = 5000;
              })
              ∷ [];
          receiver_count = 2;
        },
      )
      ∷ [];
}

greets : on_client_event same_text ann at_five (chat "hello") begun ≡ (greeted, [])
unfolding on_client_event on_chat is_refused_text create_message broadcast_to_room send_to insert
    lookup
greets = refl

event_refines_example :
    view (on_client_event same_text ann at_six (edit 100 "bye") greeted).0.db 100
    ≡ promised same_text ann at_six (edit 100 "bye") (view greeted.db) 100
event_refines_example = (event_refines same_text ann at_six (edit 100 "bye") greeted).0 100

edited_text :
    promised same_text ann at_six (edit 100 "bye") (view greeted.db) 100
    ≡ ok (some (record hello { content = "bye"; updated_at = some 6000000000 }))
unfolding is_refused_text get_message message_of lookup
edited_text = refl

-- From the room of another chat the author is told that the message is edited, the message stays as
-- it was, and a row without an author appears in the other chat, whose history then fails.
edited_elsewhere :
    let after = (on_client_event same_text ann_elsewhere at_six (edit 100 "bye") greeted).0 in
    (get_message true 100 after.db ≡ ok (some hello))
    × (get_chat_messages true 8 100 after.db ≡ err deserialization)
unfolding on_client_event on_edit is_refused_text as_author get_message message_of finish_write
    update_message broadcast_to_room insert lookup get_chat_messages partition newest_first
    place_row read_rows
edited_elsewhere = (refl, refl)

abbrev parse_frame : String → Option ClientEvent
parse_frame text =
    if text == "delete"
    then some (delete 100)
    else if text == "edit"
    then some (edit 100 "mine")
    else none

others_untouched_example :
    view
      (recv_loop same_text parse_frame bob
        ((text_frame "edit", at_six)
          ∷ (text_frame "nonsense", at_six)
          ∷ (text_frame "delete", at_six)
          ∷ [])
        greeted).0.db
      100
    ≡ ok (some hello)
unfolding get_message message_of lookup
others_untouched_example =
    others_untouched same_text parse_frame bob
      ((text_frame "edit", at_six)
        ∷ (text_frame "nonsense", at_six)
        ∷ (text_frame "delete", at_six)
        ∷ [])
      greeted 100 hello refl (omega arith) (refl, (refl, (refl, tt)))

bob_is_told :
    (recv_loop same_text parse_frame bob
      ((text_frame "edit", at_six)
        ∷ (text_frame "nonsense", at_six)
        ∷ (text_frame "delete", at_six)
        ∷ [])
      greeted).1
    ≡ error "Permission denied" ∷ error "Invalid message format" ∷ error "Permission denied" ∷ []
unfolding recv_loop on_client_event on_edit on_delete is_refused_text as_author get_message
    message_of lookup
bob_is_told = refl

event-IsAnswered_example :
    IsAnswered bob greeted (deleted 100) (on_client_event same_text bob at_six (delete 100) greeted)
event-IsAnswered_example = event-IsAnswered same_text bob at_six (delete 100) greeted

-- What a loop receives: a typing event, the kick of user 1, a gap, and a deletion.
abbrev inputs : List Received
inputs =
    received (typing 2 "bob")
    ∷ received (kicked 1)
    ∷ lagged 3
    ∷ received (deleted 100)
    ∷ received channel_deleted
    ∷ received (typing 2 "bob")
    ∷ closed
    ∷ []

bob_receives :
    send_loop (λ e. true) 2 inputs ≡ (typing 2 "bob" ∷ deleted 100 ∷ channel_deleted ∷ [], cut)
unfolding send_loop turn
bob_receives = refl

ann_receives : send_loop (λ e. true) 1 inputs ≡ (typing 2 "bob" ∷ kicked 1 ∷ [], cut)
unfolding send_loop turn
ann_receives = refl

abbrev parse_user : String → Option ℕ
parse_user text = if text == "u1" then some 1 else none

-- The kick of user 1, who is in room 7.
leaving_ends_example :
    lookup "7" (on_event parse_user (on_user_unsubscribed "7" "u1") begun.rooms)
    ≡ some (record { sent = kicked 1 ∷ []; receiver_count = 2 })
unfolding lookup
leaving_ends_example =
    (leaving_ends parse_user begun.rooms "7" "u1" 1 (record { sent = []; receiver_count = 2 })
      (λ e. true) [] inputs refl refl).0

a_history :
    send_history (λ user. "user") true 7 greeted.db
    ≡ history
        (record { payload_id = 100; author = 1; username = "user"; text = "hello"; ts = 5000 } ∷ [])
      ∷ []
unfolding send_history payloads get_chat_messages partition newest_first place_row read_rows
    message_of
a_history = refl

-- A room is gone with its last receiver, when that is gone in time.
rooms_end :
    (leave_room true "7" (enter_room "7" []) ≡ [])
    × (leave_room false "7" (enter_room "7" [])
        ≡ ("7", record { sent = []; receiver_count = 0 }) ∷ [])
unfolding enter_room leave_room lookup insert remove
rooms_end = (refl, refl)

-- service-channels knows that user 1 is not subscribed to channel 7.
abbrev not_subscribed : Routes.ServerData
not_subscribed = record {
  tables = record { channels = []; subscribers = [] };
  channel_cache = [];
  sub_cache = ((1, 7), false) ∷ [];
  sent = [];
}

membership_ignored_example :
    websocket_handler parse_user
      (λ user. "u1")
      (some "u1")
      (some "ann")
      (some (
        check_status (
          checked parse_user
            (λ user. "u1")
            (λ id. "")
            (λ i. none)
            (λ i. true)
            not_subscribed
            "u1"
            (some "ann")
            7
            1)))
    ≡ upgraded 1 (username_of (λ user. "u1") 1 (some "ann"))
unfolding Routes.check_subscription Routes.extract_user_id Routes.get Store.ok_or lookup
membership_ignored_example =
    (membership_ignored parse_user (λ user. "u1") (λ id. "") (λ i. none) (λ i. true) not_subscribed
        "u1" (some "ann") 7 1 refl).0
      not_subscribed false refl
