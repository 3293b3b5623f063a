-- ===== src/Calls/Invariant/Runs.antt =====
-- The signalling server is well-formed after every history of events.
use rust_service.Base.{
  ℕ, ◌+◌, ◌%◌, ◌^◌, ◌≤◌, ◌<◌, String, ◌≡◌, Option, List, [], ◌∷◌, arith, nat_partial_eq,
  string_partial_eq, length, retain-Unique, retain-Entries,
}
use rust_service.Calls.Signal.{ClientMessage, SignalMessage}
use rust_service.Calls.State.{Rooms, ServerData, cleanup_idle_rooms}
use rust_service.Calls.Routes.{create_room}
use rust_service.Calls.Server.{
  Server, Event, create, connect, touched, frame, leave, tick, close, remove_room, step, run,
}
use rust_service.Calls.Invariant.{IsRoom, AreRooms, IsValid, rooms_mono}
use rust_service.Calls.Invariant.Events.{
  create-AreRooms, admit-AreRooms, admit-max_peers, leave_room-AreRooms, touch_room-AreRooms,
  handle-AreRooms, close_room-AreRooms, remove-AreRooms,
}

module _ {Tx : Type 0} (try_send : Tx → SignalMessage → Option Tx) where
  tick-AreRooms :
      (most c timeout now : ℕ) (rooms : Rooms Tx)
      → AreRooms most c rooms
      → AreRooms most c (cleanup_idle_rooms try_send timeout now rooms).0
  unfolding cleanup_idle_rooms
  tick-AreRooms most c timeout now rooms v = record {
    unique = retain-Unique _ rooms v.unique;
    each = retain-Entries (IsRoom most c) _ rooms v.each;
  }

  AreRooms-mono :
      (most c d : ℕ) (rooms : Rooms Tx) → c ≤ d → AreRooms most c rooms → AreRooms most d rooms
  AreRooms-mono most c d rooms h v = record {
    unique = v.unique;
    each = rooms_mono most c d rooms h v.each;
  }

module _ {Tx : Type 0} (try_send : Tx → SignalMessage → Option Tx)
    (from_str : String → Option ClientMessage) where
  connect-IsValid :
      (s : Server Tx) (id user : String) (tx : Tx) (now : ℕ)
      → s.counter + 1 < 2 ^ 64
      → IsValid s
      → IsValid (step try_send from_str s (connect id user tx now))
  unfolding step
  connect-IsValid s id user tx now h v =
      let wrap : (s.counter + 1) % 2 ^ 64 ≡ s.counter + 1 = omega arith in
      rw (wrap, admit-max_peers try_send s.state s.counter now id user tx)
        (admit-AreRooms try_send s.state (s.counter + 1) s.counter now id user tx
          (AreRooms-mono try_send s.state.max_peers s.counter (s.counter + 1) s.state.rooms
            (omega arith) v)
          (omega arith))

  create-max_peers :
      (s : ServerData Tx) (header : Option String) (id : String) (now : ℕ)
      → (create_room s header id now).0.max_peers ≡ s.max_peers
  unfolding create_room
  create-max_peers s header id now = ground arith

  step-IsValid :
      (s : Server Tx) (e : Event Tx)
      → s.counter + 1 < 2 ^ 64
      → IsValid s
      → IsValid (step try_send from_str s e)
  unfolding step
  step-IsValid s (create header id now) h v =
      rw (create-max_peers s.state header id now)
        (create-AreRooms s.state s.counter header id now v)
  step-IsValid s (connect id user tx now) h v = connect-IsValid s id user tx now h v
  step-IsValid s (touched id now) h v =
      touch_room-AreRooms try_send s.state.max_peers s.counter id now s.state.rooms v
  step-IsValid s (frame id user body) h v =
      handle-AreRooms try_send from_str s.state.max_peers s.counter id user body
        s.state.max_message_size s.state.rooms v
  step-IsValid s (leave id user session now) h v =
      leave_room-AreRooms try_send s.state.max_peers s.counter id user session now s.state.rooms v
  step-IsValid s (tick timeout now) h v =
      tick-AreRooms try_send s.state.max_peers s.counter timeout now s.state.rooms v
  step-IsValid s (close id user) h v =
      close_room-AreRooms try_send s.state.max_peers s.counter id user s.state.rooms v
  step-IsValid s (remove_room id) h v =
      remove-AreRooms s.state.max_peers s.counter id s.state.rooms v

  counter-step :
      (s : Server Tx) (e : Event Tx) → (step try_send from_str s e).counter ≤ s.counter + 1
  unfolding step
  counter-step s (connect id user tx now) = omega arith
  counter-step s (create header id now) = omega arith
  counter-step s (touched id now) = omega arith
  counter-step s (frame id user body) = omega arith
  counter-step s (leave id user session now) = omega arith
  counter-step s (tick timeout now) = omega arith
  counter-step s (close id user) = omega arith
  counter-step s (remove_room id) = omega arith

  -- Any history of events whose length does not let the 64-bit session counter wrap keeps a valid
  -- server valid: no room is over the limit of peers, no room or peer is listed twice, every peer is
  -- stored under its own name, and every session is one that was handed out.
  pub run-IsValid :
      (s : Server Tx) (es : List (Event Tx))
      → s.counter + length es < 2 ^ 64
      → IsValid s
      → IsValid (run try_send from_str s es)
  unfolding run
  run-IsValid s [] h v = v
  run-IsValid s (e ∷ es) h v =
      run-IsValid (step try_send from_str s e) es (omega (arith, counter-step s e))
        (step-IsValid s e (omega arith) v)
