-- ===== src/Calls/Ws.antt =====
-- service-calls/src/ws.rs: joining a room, relaying messages, and leaving.
-- `from_str` stands for `serde_json::from_str::<ClientMessage>`, `none` for its error.
use rust_service.Base.{
  ℕ, String, Bool, true, false, not, Option, none, some, List, [], ◌∷◌, if◌then◌else◌, ◌==◌,
  nat_partial_eq, string_partial_eq, Result, is_some, ok, err, keep, lookup, insert, remove,
  contains_key,
}
use rust_service.Calls.Signal.{ClientMessage, SignalMessage, validate_size, receiver, relayed}
use rust_service.Calls.Room.{
  Room, touch, is_empty, is_full_for, peer_ids, add_peer, remove_peer_by_session, send_to,
  broadcast,
}
use rust_service.Calls.State.{Rooms, ServerData}

-- A frame of the socket.
pub data Frame : Type 0 where
  text : String → Frame
  close other : Frame

-- The peers that the `Joined` message names.
unfoldable pub joined_peers : Bool → String → List String → List String
joined_peers is_reconnect user_id existing =
    if is_reconnect then keep (λ p. not (p == user_id)) existing else existing

module _ {Tx : Type 0} where
  -- `rooms.remove`, where the block says so.
  unfoldable pub removed_if : String → Rooms Tx × Bool → Rooms Tx
  removed_if room_id (rooms, should_remove) = if should_remove then remove room_id rooms else rooms

  -- `room.touch()` of the receive loop, under the lock of the room.
  unfoldable pub touch_room : Rooms Tx → String → ℕ → Rooms Tx
  touch_room rooms room_id now = elim (lookup room_id rooms) [
    | none ↦ rooms
    | some room ↦ insert room_id (touch now room) rooms
  ]

module _ {Tx : Type 0} (try_send : Tx → SignalMessage → Option Tx) where
  -- A room is told of a user who is not yet in it.
  unfoldable pub announce : String → Room Tx → Room Tx
  announce user_id room =
      let was_connected = contains_key user_id room.peers in
      if was_connected
      then room
      else broadcast try_send user_id (SignalMessage.user_joined user_id) room

  -- The block of `handle_socket` that admits a user to a room under the map's lock, and the
  -- `Joined` message that the socket is sent. The error is the text of `send_error_and_close`.
  unfoldable pub admit_to :
      ServerData Tx
      → String
      → String
      → ℕ
      → Tx
      → ℕ
      → Room Tx
      → Result (ServerData Tx × SignalMessage) String
  admit_to state room_id user_id session_id tx now room =
      if is_full_for room user_id
      then err "Room is full"
      else let peers = peer_ids room in
        let (joined, old_peer) = add_peer user_id session_id tx now (announce user_id room) in
        ok (
          record state { rooms = insert room_id joined state.rooms },
          SignalMessage.joined user_id (joined_peers (is_some old_peer) user_id peers),
        )

  unfoldable pub admit :
      ServerData Tx → String → String → ℕ → Tx → ℕ → Result (ServerData Tx × SignalMessage) String
  admit state room_id user_id session_id tx now = elim (lookup room_id state.rooms) [
    | none ↦ err "Room not found"
    | some room ↦ admit_to state room_id user_id session_id tx now room
  ]

  -- The rooms after a peer has left, and `should_remove`.
  unfoldable pub leave : Rooms Tx → String → String → Room Tx × Bool → Rooms Tx × Bool
  leave rooms room_id user_id (room, false) = (rooms, false)
  leave rooms room_id user_id (room, true) =
      let told = broadcast try_send user_id (SignalMessage.user_left user_id) room in
      (insert room_id told rooms, is_empty told)

  -- The block of `cleanup_peer` under the lock of the room.
  unfoldable pub leave_room : Rooms Tx → String → String → ℕ → ℕ → Rooms Tx × Bool
  leave_room rooms room_id user_id session_id now = elim (lookup room_id rooms) [
    | none ↦ (rooms, false)
    | some room ↦ leave rooms room_id user_id (remove_peer_by_session user_id session_id now room)
  ]

  -- `cleanup_peer` with no other call between its block and the removal.
  unfoldable pub cleanup_peer : Rooms Tx → String → String → ℕ → ℕ → Rooms Tx
  cleanup_peer rooms room_id user_id session_id now =
      removed_if room_id (leave_room rooms room_id user_id session_id now)

  -- The relay of a message that has parsed.
  unfoldable pub relay : Rooms Tx → String → String → ℕ → ClientMessage → Rooms Tx
  relay rooms room_id from max_message_size msg = elim (validate_size msg max_message_size) [
    | err reason ↦ rooms
    | ok _ ↦ elim (lookup room_id rooms) [
      | none ↦ rooms
      | some room ↦ insert room_id (send_to try_send (receiver msg) (relayed from msg) room) rooms
    ]
  ]

  unfoldable pub handle_client_message :
      (String → Option ClientMessage) → Rooms Tx → String → String → String → ℕ → Rooms Tx
  handle_client_message from_str rooms room_id from body max_message_size = elim (from_str body) [
    | none ↦ rooms
    | some msg ↦ relay rooms room_id from max_message_size msg
  ]

  -- The body of the receive loop for a text frame: the room is touched, then the message handled,
  -- with no other call in between.
  unfoldable pub on_text :
      (String → Option ClientMessage) → Rooms Tx → String → String → String → ℕ → ℕ → Rooms Tx
  on_text from_str rooms room_id user_id body max_message_size now =
      handle_client_message from_str (touch_room rooms room_id now) room_id user_id body
        max_message_size

  -- The receive loop: it ends at a close frame, or where the frames end.
  unfoldable pub receive :
      (String → Option ClientMessage) → Rooms Tx → String → String → ℕ → List (ℕ × Frame) → Rooms Tx
  receive from_str rooms room_id user_id max_message_size [] = rooms
  receive from_str rooms room_id user_id max_message_size ((now, text t) ∷ frames) =
      receive from_str (on_text from_str rooms room_id user_id t max_message_size now) room_id
        user_id max_message_size frames
  receive from_str rooms room_id user_id max_message_size ((now, close) ∷ frames) = rooms
  receive from_str rooms room_id user_id max_message_size ((now, other) ∷ frames) =
      receive from_str rooms room_id user_id max_message_size frames

  -- `handle_socket` of one socket, with no other socket between its steps: `sent` is whether the
  -- `Joined` message goes out, and `left` the time of the last cleanup.
  unfoldable pub handle_socket :
      (String → Option ClientMessage)
      → ServerData Tx
      → String
      → String
      → ℕ
      → Tx
      → ℕ
      → Bool
      → List (ℕ × Frame)
      → ℕ
      → Result (Rooms Tx) String
  handle_socket from_str state room_id user_id session_id tx now sent frames left =
      elim (admit state room_id user_id session_id tx now) [
        | err message ↦ err message
        | ok (joined, msg) ↦
            if sent
            then ok (
                cleanup_peer
                  (receive from_str joined.rooms room_id user_id joined.max_message_size frames)
                  room_id user_id session_id left)
            else ok (cleanup_peer joined.rooms room_id user_id session_id left)
      ]
