-- ===== src/Calls/Owner.antt =====
-- The HTTP handlers of a room: deletion by its owner, and handlers that do not panic.
use rust_service.Base.{
  ℕ, String, ◌≡◌, refl, ap, ◌≢◌, ◌⊎◌, inl, inr, true, false, Option, none, some, arith, ◌==◌,
  nat_partial_eq, string_partial_eq, eq_of_==, Result, Bool-cases, Option-cases, Result-cases, ok,
  err, lookup, remove, lookup-remove, lookup-remove_self,
}
use rust_service.Calls.Signal.{SignalMessage}
use rust_service.Calls.Room.{Room, broadcast_all}
use rust_service.Calls.State.{ServerData}
use rust_service.Calls.Routes.{
  RoomResponse, user_id_from_header, room_id_from_path, get_room, closed_by_owner, delete_held,
  delete_room,
}

user_id_from_header_found :
    (header : Option String) {user : String}
    → user_id_from_header header ≡ ok user
    → header ≡ some user
unfolding user_id_from_header
user_id_from_header_found none h = cc
user_id_from_header_found (some name) h = ground arith

user_id_from_header_refused :
    (header : Option String) {status : ℕ} → user_id_from_header header ≡ err status → status ≢ 204
unfolding user_id_from_header
user_id_from_header_refused none h e = ground arith
user_id_from_header_refused (some name) h e = ground arith

module _ {Tx : Type 0} where
  room_id_from_path_refused :
      (s : ServerData Tx) (path : Option String) {status : ℕ}
      → room_id_from_path s path ≡ err status
      → status ≢ 204
  unfolding room_id_from_path
  room_id_from_path_refused s none h e = ground arith
  room_id_from_path_refused s (some i) h e = ground arith

  -- The extractor finds a room only where the map has it.
  room_id_from_path_found :
      (s : ServerData Tx) (path : Option String) {id : String}
      → room_id_from_path s path ≡ ok id
      → (r : Room Tx) × (path ≡ some id) × (lookup id s.rooms ≡ some r)
  unfolding room_id_from_path
  room_id_from_path_found s none h = cc
  room_id_from_path_found s (some i) {id} h = elim (Option-cases (lookup i s.rooms)) [
    | inl e ↦ cc (rw e at h)
    | inr (r, e) ↦ let same : i ≡ id = ground (arith, e) in (r, ap some same, rw (← same) e)
  ]

  -- The handlers of a room answer on every input: the `expect` behind the extractor never panics.
  pub handlers_answer :
      (try_send : Tx → SignalMessage → Option Tx) (s : ServerData Tx) (path header : Option String)
      → ((answer : Result RoomResponse ℕ) × (get_room s path ≡ some answer))
        × ((answer : ServerData Tx × ℕ × Option (Room Tx)) × (delete_room try_send s path header
              ≡ some answer))
  unfolding get_room delete_room
  handlers_answer try_send s path header = elim (Result-cases (room_id_from_path s path)) [
    | inr (status, e) ↦ rw (e, get_room, delete_room) ((err status, refl), (_, refl))
    | inl (id, e) ↦
        let (r, _, g) = room_id_from_path_found s path e in
        elim (Result-cases (user_id_from_header header)) [
          | inr (status, f) ↦ rw (e, f, g, get_room, delete_room) ((_, refl), (_, refl))
          | inl (user, f) ↦ rw (e, f, g, get_room, delete_room) ((_, refl), (_, refl))
        ]
  ]

module _ {Tx : Type 0} (try_send : Tx → SignalMessage → Option Tx) where
  delete_held_lem :
      (s : ServerData Tx) (id user : String) (r : Room Tx)
      → ((r.created_by == user) ≡ true
          → delete_held try_send s id user r ≡ (
            record s { rooms = remove id s.rooms },
            204,
            some (broadcast_all try_send closed_by_owner r),
          ))
        × ((r.created_by == user) ≡ false → delete_held try_send s id user r ≡ (s, 403, none))
  unfolding delete_held
  delete_held_lem s id user r = (λ e. rw e, λ ne. rw ne)

  -- A request to delete a room either changes nothing and is answered with another status than 204,
  -- or it names a room and comes from the user who created it; then the room alone is removed, and
  -- its peers are told.
  pub only_owner_deletes :
      (s : ServerData Tx) (path header : Option String) {s' : ServerData Tx} {status : ℕ}
      {dropped : Option (Room Tx)}
      → delete_room try_send s path header ≡ some (s', status, dropped)
      → ((s' ≡ s) × (status ≢ 204))
        ⊎ ((id user : String) × (r : Room Tx) × (path ≡ some id)
            × (header ≡ some user)
            × (lookup id s.rooms ≡ some r)
            × (r.created_by ≡ user)
            × (status ≡ 204)
            × (dropped ≡ some (broadcast_all try_send closed_by_owner r))
            × (lookup id s'.rooms ≡ none)
            × ((j : String) → (id == j) ≡ false → lookup j s'.rooms ≡ lookup j s.rooms))
  unfolding delete_room
  only_owner_deletes s path header {s'} {status} {dropped} h =
      elim (Result-cases (room_id_from_path s path)) [
        | inr (st, e) ↦
            let refused = room_id_from_path_refused s path e in
            let out = rw (e, delete_room) at h in inl (ground arith, ground arith)
        | inl (id, e) ↦ elim (Result-cases (user_id_from_header header)) [
          | inr (st, f) ↦
              let refused = user_id_from_header_refused header f in
              let out = rw (e, f, delete_room) at h in inl (ground arith, ground arith)
          | inl (user, f) ↦
              let (r, at_path, g) = room_id_from_path_found s path e in
              let out = rw (e, f, g, delete_room) at h in
              elim (Bool-cases (r.created_by == user)) [
                | inr other ↦
                    let o = (delete_held_lem s id user r).1 other in
                    inl (ground (arith, o), ground (arith, o))
                | inl owner ↦
                    let o = (delete_held_lem s id user r).0 owner in
                    let rest : s'.rooms ≡ remove id s.rooms = ground (arith, o) in
                    inr (
                      id,
                      user,
                      r,
                      at_path,
                      user_id_from_header_found header f,
                      g,
                      eq_of_== r.created_by user owner,
                      ground (arith, o),
                      ground (arith, o),
                      rw rest (lookup-remove_self id s.rooms),
                      λ j ne. rw (rest, lookup-remove id j s.rooms, ne),
                    )
              ]
        ]
      ]
