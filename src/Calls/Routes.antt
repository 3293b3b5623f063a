-- ===== src/Calls/Routes.antt =====
-- service-calls/src/routes.rs: the HTTP handlers and their extractors. Status codes are numbers.
-- A header is `none` where it is missing or is no text, a path parameter where it is rejected.
use rust_service.Base.{
  ℕ, min, String, not, Option, none, some, List, map, if◌then◌else◌, ◌==◌, nat_partial_eq,
  string_partial_eq, Result, ok, err, length, take, drop, lookup, insert, remove, contains_key,
}
use rust_service.Calls.Signal.{SignalMessage}
use rust_service.Calls.Room
use rust_service.Calls.Room.{Room, peer_ids, broadcast_all}
use rust_service.Calls.State.{Rooms, ServerData}

-- The extractor `UserId`.
unfoldable pub user_id_from_header : Option String → Result String ℕ
user_id_from_header none = err 401
user_id_from_header (some s) = if s == "" then err 401 else ok s

pub record RoomResponse : Type 0 where
  pub id : String
  pub created_by : String
  pub peers : List String
  pub max_peers : ℕ

pub record RoomSummary : Type 0 where
  pub id : String
  pub created_by : String
  pub peer_count : ℕ
  pub max_peers : ℕ

pub record ListRoomsResponse : Type 0 where
  pub rooms : List RoomSummary
  pub total : ℕ

abbrev pub default_limit : ℕ
default_limit = 20

-- `#[serde(default)]`.
abbrev pub or_default : ℕ → Option ℕ → ℕ
or_default d none = d
or_default d (some n) = n

module _ {Tx : Type 0} where
  -- The extractor `RoomId`.
  unfoldable pub room_id_from_path : ServerData Tx → Option String → Result String ℕ
  room_id_from_path state none = err 400
  room_id_from_path state (some room_id) =
      if contains_key room_id state.rooms then ok room_id else err 404

  -- The closure of the `map` in `list_rooms`.
  unfoldable pub summary : String × Room Tx → RoomSummary
  summary (key, room) = record {
    id = room.id;
    created_by = room.created_by;
    peer_count = length room.peers;
    max_peers = room.max_peers;
  }

  unfoldable pub list_rooms : ServerData Tx → Option ℕ → Option ℕ → ListRoomsResponse
  list_rooms state offset limit = record {
    rooms =
        map summary (
          take (min (or_default default_limit limit) 100) (drop (or_default 0 offset) state.rooms));
    total = length state.rooms;
  }

  -- `room_id` is what `new_room_id` drew.
  unfoldable pub create_room :
      ServerData Tx → Option String → String → ℕ → ServerData Tx × Result String ℕ
  create_room state header room_id now = elim (user_id_from_header header) [
    | err status ↦ (state, err status)
    | ok user_id ↦
        let room = Room.new room_id user_id state.max_peers now in
        (record state { rooms = insert room_id room state.rooms }, ok room_id)
  ]

  -- `none` is the panic of the `expect`.
  unfoldable pub get_room : ServerData Tx → Option String → Option (Result RoomResponse ℕ)
  get_room state path = elim (room_id_from_path state path) [
    | err status ↦ some (err status)
    | ok room_id ↦ elim (lookup room_id state.rooms) [
      | none ↦ none
      | some room ↦ some (
          ok (record {
            id = room.id;
            created_by = room.created_by;
            peers = peer_ids room;
            max_peers = room.max_peers;
          }))
    ]
  ]

abbrev pub closed_by_owner : SignalMessage
closed_by_owner = SignalMessage.error "Room closed by owner"

module _ {Tx : Type 0} (try_send : Tx → SignalMessage → Option Tx) where
  -- The part of `delete_room` under the lock of the room, for its owner.
  unfoldable pub close_room : Rooms Tx → String → String → Rooms Tx
  close_room rooms room_id user_id = elim (lookup room_id rooms) [
    | none ↦ rooms
    | some room ↦
        if not (room.created_by == user_id)
        then rooms
        else insert room_id (broadcast_all try_send closed_by_owner room) rooms
  ]

  -- The body of `delete_room` on the room that the map holds: the new state, the status, and the
  -- dropped room as its peers saw it last.
  unfoldable pub delete_held :
      ServerData Tx → String → String → Room Tx → ServerData Tx × ℕ × Option (Room Tx)
  delete_held state room_id user_id room =
      if not (room.created_by == user_id) then (state, 403, none) else (
        record state { rooms = remove room_id state.rooms },
        204,
        some (broadcast_all try_send closed_by_owner room),
      )

  -- The extractors run in the order of the handler's arguments. The outer `none` is the panic of
  -- the `expect`. It is `delete_room` with no other call between its checks, the broadcast and the
  -- removal.
  unfoldable pub delete_room :
      ServerData Tx → Option String → Option String → Option (ServerData Tx × ℕ × Option (Room Tx))
  delete_room state path header = elim (room_id_from_path state path) [
    | err status ↦ some (state, status, none)
    | ok room_id ↦ elim (user_id_from_header header) [
      | err status ↦ some (state, status, none)
      | ok user_id ↦ elim (lookup room_id state.rooms) [
        | none ↦ none
        | some room ↦ some (delete_held state room_id user_id room)
      ]
    ]
  ]
