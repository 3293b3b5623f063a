-- ===== src/Calls/State.antt =====
-- service-calls/src/state.rs: the shared state and the periodic cleanup of idle rooms.
use rust_service.Base.{
  ℕ, String, Bool, not, Option, [], ltb, if◌then◌else◌, nat_partial_eq, string_partial_eq, Map,
  map_values, retain,
}
use rust_service.Calls.Signal.{SignalMessage}
use rust_service.Calls.Room.{Room, idle_secs, is_empty, broadcast_all}

-- `Rooms`: the `DashMap` from room ids to rooms.
abbrev pub Rooms : Type 0 → Type 0
Rooms Tx = Map String (Room Tx)

pub record ServerData (Tx : Type 0) : Type 0 where
  pub rooms : Rooms Tx
  pub max_peers : ℕ
  pub max_message_size : ℕ
  pub channel_capacity : ℕ
  pub heartbeat_interval_secs : ℕ

module _ {Tx : Type 0} where
  -- `ServerData::new` without the spawn of the cleanup task, which is `cleanup_idle_rooms` below.
  unfoldable pub new : ℕ → ℕ → ℕ → ℕ → ServerData Tx
  new max_peers max_message_size channel_capacity heartbeat_interval_secs = record {
    rooms = [];
    max_peers = max_peers;
    max_message_size = max_message_size;
    channel_capacity = channel_capacity;
    heartbeat_interval_secs = heartbeat_interval_secs;
  }

  -- The answer of the closure of `retain`.
  unfoldable pub stays : ℕ → ℕ → Room Tx → Bool
  stays timeout_secs now room = ltb (idle_secs now room) timeout_secs

abbrev pub closed_for_inactivity : SignalMessage
closed_for_inactivity = SignalMessage.error "Room closed due to inactivity"

module _ {Tx : Type 0} (try_send : Tx → SignalMessage → Option Tx) where
  -- What the closure does to a room before it is dropped: a room with peers tells them.
  unfoldable pub close_idle : Room Tx → Room Tx
  close_idle room =
      if is_empty room then room else broadcast_all try_send closed_for_inactivity room

  -- `cleanup_idle_rooms`: the rooms that stay, and the dropped ones as they were left.
  unfoldable pub cleanup_idle_rooms : ℕ → ℕ → Rooms Tx → Rooms Tx × Rooms Tx
  cleanup_idle_rooms timeout_secs now rooms = (
    retain (λ room_id room. stays timeout_secs now room) rooms,
    map_values (λ room_id room. close_idle room)
        (retain (λ room_id room. not (stays timeout_secs now room)) rooms),
  )
