-- ===== src/Calls/Idle.antt =====
-- The periodic cleanup of idle rooms.
use rust_service.Base.{
  ℕ, ◌-◌, ◌≤◌, ◌<◌, String, ◌≡◌, not, Option, none, some, arith, if◌then◌else◌, nat_partial_eq,
  string_partial_eq, retain, lookup, Unique, lookup-map_values, lookup-retain,
}
use mathlib.Core.Option
use rust_service.Calls.Signal.{SignalMessage}
use rust_service.Calls.Room.{Room, idle_secs, is_empty, deliver}
use rust_service.Calls.State.{Rooms, stays, closed_for_inactivity, close_idle, cleanup_idle_rooms}
use rust_service.Calls.Delivery.{lookup-broadcast_all}

module _ {Tx : Type 0} (try_send : Tx → SignalMessage → Option Tx) where
  lookup-close_idle :
      (r : Room Tx) (k : String)
      → lookup k (close_idle try_send r).peers
        ≡ Option.map (deliver try_send closed_for_inactivity) (lookup k r.peers)
  unfolding close_idle is_empty lookup
  lookup-close_idle r k = ground (arith, lookup-broadcast_all try_send closed_for_inactivity r k)

  kept_rooms :
      (timeout now : ℕ) (rooms : Rooms Tx) (id : String) (r : Room Tx)
      → Unique rooms
      → lookup id rooms ≡ some r
      → lookup id (cleanup_idle_rooms try_send timeout now rooms).0
        ≡ (if stays timeout now r then some r else none)
  unfolding cleanup_idle_rooms
  kept_rooms timeout now rooms id r u e =
      rw (lookup-retain (λ room_id room. stays timeout now room) id rooms u, e)

  dropped_rooms :
      (timeout now : ℕ) (rooms : Rooms Tx) (id : String) (r : Room Tx)
      → Unique rooms
      → lookup id rooms ≡ some r
      → lookup id (cleanup_idle_rooms try_send timeout now rooms).1
        ≡ (if stays timeout now r then none else some (close_idle try_send r))
  unfolding cleanup_idle_rooms
  dropped_rooms timeout now rooms id r u e =
      rw
        (
          lookup-map_values (λ room_id room. close_idle try_send room) id
              (retain (λ room_id room. not (stays timeout now room)) rooms),
          lookup-retain (λ room_id room. not (stays timeout now room)) id rooms u,
          e,
        )
        (ground arith)

  -- One round of the cleanup keeps a room as it is while it has been idle for less than the
  -- timeout; otherwise it drops the room, and each peer of it is told.
  pub cleanup_idle :
      (timeout now : ℕ) (rooms : Rooms Tx) (id : String) (r : Room Tx)
      → Unique rooms
      → lookup id rooms ≡ some r
      → let (left, dropped) = cleanup_idle_rooms try_send timeout now rooms in
        (now - r.last_activity < timeout → (lookup id left ≡ some r) × (lookup id dropped ≡ none))
        × (timeout ≤ now - r.last_activity
            → (lookup id left ≡ none)
              × ((r' : Room Tx) × (lookup id dropped ≡ some r')
                  × ((k : String)
                      → lookup k r'.peers
                        ≡ Option.map (deliver try_send closed_for_inactivity) (lookup k r.peers))))
  unfolding stays idle_secs
  cleanup_idle timeout now rooms id r u e =
      let k = kept_rooms timeout now rooms id r u e in
      let d = dropped_rooms timeout now rooms id r u e in
      (
        λ fresh. (ground (arith, k), ground (arith, d)),
        λ idle. (
          ground (arith, k),
          (close_idle try_send r, ground (arith, d), λ key. lookup-close_idle r key),
        ),
      )
