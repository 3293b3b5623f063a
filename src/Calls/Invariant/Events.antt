-- ===== src/Calls/Invariant/Events.antt =====
-- Every event keeps the well-formedness of the signalling server.
use rust_service.Base.{
  ℕ, ◌<◌, String, ◌≡◌, refl, ◌∙◌, inl, inr, Bool, true, false, Option, none, some, arith, ◌==◌,
  nat_partial_eq, string_partial_eq, Bool-cases, Option-cases, Result-cases, lookup, insert, remove,
  insert-Unique, remove-Unique, insert-Entries, remove-Entries, lookup-Entries,
}
use rust_service.Calls.Signal.{ClientMessage, SignalMessage, validate_size, receiver, relayed}
use rust_service.Calls.Room
use rust_service.Calls.Room.{
  Room, touch, is_empty, is_full_for, peer_ids, add_peer, remove_peer_by_session, send_to,
  broadcast,
}
use rust_service.Calls.State.{Rooms, ServerData}
use rust_service.Calls.Ws.{
  admit_to, admit, announce, leave, leave_room, relay, handle_client_message, touch_room,
}
use rust_service.Calls.Routes.{create_room, close_room, closed_by_owner, user_id_from_header}
use rust_service.Calls.Server.{joined_or}
use rust_service.Calls.Invariant.{
  announce-IsRoom, is_full_for-announce, IsRoom, AreRooms, touch-IsRoom, add_peer-IsRoom,
  remove_peer-IsRoom, broadcast-IsRoom, send_to-IsRoom, broadcast_all-IsRoom,
}

module _ {Tx : Type 0} where
  insert-AreRooms :
      (most c : ℕ) (id : String) (r : Room Tx) (rooms : Rooms Tx)
      → AreRooms most c rooms
      → IsRoom most c id r
      → AreRooms most c (insert id r rooms)
  insert-AreRooms most c id r rooms v ok_room = record {
    unique = insert-Unique id r rooms v.unique;
    each = insert-Entries (IsRoom most c) id r rooms v.each ok_room;
  }

  pub remove-AreRooms :
      (most c : ℕ) (id : String) (rooms : Rooms Tx)
      → AreRooms most c rooms
      → AreRooms most c (remove id rooms)
  remove-AreRooms most c id rooms v = record {
    unique = remove-Unique id rooms v.unique;
    each = remove-Entries (IsRoom most c) id rooms v.each;
  }

  held :
      (most c : ℕ) (id : String) (rooms : Rooms Tx) {r : Room Tx}
      → AreRooms most c rooms
      → lookup id rooms ≡ some r
      → IsRoom most c id r
  held most c id rooms v e = lookup-Entries (IsRoom most c) id rooms v.each e

  pub create-AreRooms :
      (s : ServerData Tx) (c : ℕ) (header : Option String) (id : String) (now : ℕ)
      → AreRooms s.max_peers c s.rooms
      → AreRooms s.max_peers c (create_room s header id now).0.rooms
  unfolding create_room user_id_from_header Room.new
  create-AreRooms s c none id now v = v
  create-AreRooms s c (some h) id now v = elim (Bool-cases (h == "")) [
    | inl e ↦ rw (e, create_room) v
    | inr e ↦
        rw (e, create_room)
          (insert-AreRooms s.max_peers c id (Room.new id h s.max_peers now) s.rooms v
            (record { stored = refl; limit = refl; fits = omega arith; unique = tt; named = tt }))
  ]

module _ {Tx : Type 0} (try_send : Tx → SignalMessage → Option Tx) where
  admit_to-AreRooms :
      (s : ServerData Tx) (c session now : ℕ) (id user : String) (tx : Tx) (r : Room Tx)
      → AreRooms s.max_peers c s.rooms
      → session < c
      → IsRoom s.max_peers c id r
      → AreRooms s.max_peers c (joined_or s (admit_to try_send s id user session tx now r)).rooms
  unfolding admit_to
  admit_to-AreRooms s c session now id user tx r v h vr = elim (Bool-cases (is_full_for r user)) [
    | inl e ↦ rw e v
    | inr e ↦ rw e (
        insert-AreRooms s.max_peers c id _ s.rooms v (
          add_peer-IsRoom s.max_peers c session now id user tx (announce try_send user r)
            (announce-IsRoom try_send s.max_peers c id user r vr)
            (is_full_for-announce try_send user r ∙ e) h))
  ]

  pub admit-AreRooms :
      (s : ServerData Tx) (c session now : ℕ) (id user : String) (tx : Tx)
      → AreRooms s.max_peers c s.rooms
      → session < c
      → AreRooms s.max_peers c (joined_or s (admit try_send s id user session tx now)).rooms
  unfolding admit
  admit-AreRooms s c session now id user tx v h = elim (Option-cases (lookup id s.rooms)) [
    | inl e ↦ rw (e, admit) v
    | inr (r, e) ↦
        rw (e, admit)
          (admit_to-AreRooms s c session now id user tx r v h (held s.max_peers c id s.rooms v e))
  ]

  pub admit-max_peers :
      (s : ServerData Tx) (session now : ℕ) (id user : String) (tx : Tx)
      → (joined_or s (admit try_send s id user session tx now)).max_peers ≡ s.max_peers
  unfolding admit admit_to
  admit-max_peers s session now id user tx = ground arith

  leave-AreRooms :
      (most c : ℕ) (id user : String) (rooms : Rooms Tx) (r : Room Tx) (b : Bool)
      → AreRooms most c rooms
      → IsRoom most c id r
      → AreRooms most c (leave try_send rooms id user (r, b)).0
  unfolding leave
  leave-AreRooms most c id user rooms r false v vr = v
  leave-AreRooms most c id user rooms r true v vr =
      insert-AreRooms most c id _ rooms v
        (broadcast-IsRoom try_send most c id user (SignalMessage.user_left user) r vr)

  pub leave_room-AreRooms :
      (most c : ℕ) (id user : String) (session now : ℕ) (rooms : Rooms Tx)
      → AreRooms most c rooms
      → AreRooms most c (leave_room try_send rooms id user session now).0
  unfolding leave_room
  leave_room-AreRooms most c id user session now rooms v = elim (Option-cases (lookup id rooms)) [
    | inl e ↦ rw (e, leave_room) v
    | inr (r, e) ↦
        rw (e, leave_room)
          (leave-AreRooms most c id user rooms _ _ v
            (remove_peer-IsRoom most c session now id user r (held most c id rooms v e)))
  ]

  relay-AreRooms :
      (most c : ℕ) (id from : String) (max_size : ℕ) (msg : ClientMessage) (rooms : Rooms Tx)
      → AreRooms most c rooms
      → AreRooms most c (relay try_send rooms id from max_size msg)
  unfolding relay
  relay-AreRooms most c id from max_size msg rooms v =
      elim (Result-cases (validate_size msg max_size)) [
        | inr (reason, e) ↦ rw (e, relay) v
        | inl (_, e) ↦ elim (Option-cases (lookup id rooms)) [
          | inl absent ↦ rw (e, absent, relay) v
          | inr (r, found) ↦
              rw (e, found, relay)
                (insert-AreRooms most c id _ rooms v (
                  send_to-IsRoom try_send most c id (receiver msg) (relayed from msg) r
                    (held most c id rooms v found)))
        ]
      ]

  pub handle-AreRooms :
      (from_str : String → Option ClientMessage) (most c : ℕ) (id from body : String) (max_size : ℕ)
      (rooms : Rooms Tx)
      → AreRooms most c rooms
      → AreRooms most c (handle_client_message try_send from_str rooms id from body max_size)
  unfolding handle_client_message
  handle-AreRooms from_str most c id from body max_size rooms v =
      elim (Option-cases (from_str body)) [
        | inl e ↦ rw (e, handle_client_message) v
        | inr (msg, e) ↦
            rw (e, handle_client_message) (relay-AreRooms most c id from max_size msg rooms v)
      ]

  pub touch_room-AreRooms :
      (most c : ℕ) (id : String) (now : ℕ) (rooms : Rooms Tx)
      → AreRooms most c rooms
      → AreRooms most c (touch_room rooms id now)
  unfolding touch_room
  touch_room-AreRooms most c id now rooms v = elim (Option-cases (lookup id rooms)) [
    | inl e ↦ rw (e, touch_room) v
    | inr (r, e) ↦
        rw (e, touch_room)
          (insert-AreRooms most c id (touch now r) rooms v
            (touch-IsRoom most c now id r (held most c id rooms v e)))
  ]

  pub close_room-AreRooms :
      (most c : ℕ) (id user : String) (rooms : Rooms Tx)
      → AreRooms most c rooms
      → AreRooms most c (close_room try_send rooms id user)
  unfolding close_room
  close_room-AreRooms most c id user rooms v = elim (Option-cases (lookup id rooms)) [
    | inl e ↦ rw (e, close_room) v
    | inr (r, e) ↦ elim (Bool-cases (r.created_by == user)) [
      | inr other ↦ rw (e, other, close_room) v
      | inl own ↦
          rw (e, own, close_room)
            (insert-AreRooms most c id _ rooms v (
              broadcast_all-IsRoom try_send most c id closed_by_owner r (held most c id rooms v e)))
    ]
  ]
