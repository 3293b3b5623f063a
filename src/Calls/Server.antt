-- ===== src/Calls/Server.antt =====
-- service-calls as a whole: the shared state, the session counter, and what can happen to them, one
-- event at a time. A call that takes the locks of the map several times is several events: a text
-- frame touches the room and is then relayed, a cleanup and a deletion change the room and then
-- remove it. Any events may come in between, and a removal may come at any time.
use rust_service.Base.{
  ℕ, String, Option, List, [], ◌∷◌, nat_partial_eq, string_partial_eq, Result, ok, err, remove,
}
use rust_service.Calls.Signal.{ClientMessage, SignalMessage}
use rust_service.Calls.Room.{next_session_id}
use rust_service.Calls.State.{ServerData, new, cleanup_idle_rooms}
use rust_service.Calls.Ws.{admit, touch_room, handle_client_message, leave_room}
use rust_service.Calls.Routes.{create_room, close_room}

pub record Server (Tx : Type 0) : Type 0 where
  pub state : ServerData Tx
  pub counter : ℕ

pub data Event (Tx : Type 0) : Type 0 where
  -- POST /rooms: the header, the drawn id and the time
  create : Option String → String → ℕ → Event Tx
  -- a socket joins a room as a user, with its sender, at a time
  connect : String → String → Tx → ℕ → Event Tx
  -- the room of a text frame is touched
  touched : String → ℕ → Event Tx
  -- a text frame of a user in a room is handled
  frame : String → String → String → Event Tx
  -- either task of a socket runs the first part of its cleanup: room, user, session, time
  leave : String → String → ℕ → ℕ → Event Tx
  -- the cleanup task: timeout and time
  tick : ℕ → ℕ → Event Tx
  -- the first part of DELETE /rooms/{room_id}: room and user
  close : String → String → Event Tx
  -- `rooms.remove`, the last part of a cleanup or of a deletion
  remove_room : String → Event Tx

module _ {Tx : Type 0} where
  unfoldable pub start : ℕ → ℕ → ℕ → ℕ → Server Tx
  unfolding new
  start max_peers max_message_size channel_capacity heartbeat = record {
    state = new max_peers max_message_size channel_capacity heartbeat;
    counter = 0;
  }

  -- The state after a handler that may have refused, or panicked before a change.
  abbrev pub joined_or :
      ServerData Tx → Result (ServerData Tx × SignalMessage) String → ServerData Tx
  joined_or s (ok (joined, msg)) = joined
  joined_or s (err message) = s

module _ {Tx : Type 0} (try_send : Tx → SignalMessage → Option Tx)
    (from_str : String → Option ClientMessage) where
  unfoldable pub step : Server Tx → Event Tx → Server Tx
  unfolding next_session_id
  step s (create header room_id now) = record s {
    state = (create_room s.state header room_id now).0;
  }
  step s (connect room_id user_id tx now) =
      let (session_id, counter) = next_session_id s.counter in
      record {
        state = joined_or s.state (admit try_send s.state room_id user_id session_id tx now);
        counter = counter;
      }
  step s (touched room_id now) = record s {
    state = record s.state { rooms = touch_room s.state.rooms room_id now };
  }
  step s (frame room_id user_id text) = record s {
    state = record s.state {
      rooms =
          handle_client_message try_send from_str s.state.rooms room_id user_id text
            s.state.max_message_size;
    };
  }
  step s (leave room_id user_id session_id now) = record s {
    state = record s.state {
      rooms = (leave_room try_send s.state.rooms room_id user_id session_id now).0;
    };
  }
  step s (tick timeout_secs now) = record s {
    state = record s.state {
      rooms = (cleanup_idle_rooms try_send timeout_secs now s.state.rooms).0;
    };
  }
  step s (close room_id user_id) = record s {
    state = record s.state { rooms = close_room try_send s.state.rooms room_id user_id };
  }
  step s (remove_room room_id) = record s {
    state = record s.state { rooms = remove room_id s.state.rooms };
  }

  unfoldable pub run : Server Tx → List (Event Tx) → Server Tx
  run s [] = s
  run s (e ∷ es) = run (step s e) es
