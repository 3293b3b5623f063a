-- ===== src/Calls/Tests.antt =====
-- Runs of the signalling server on small inputs, and the theorems at such inputs.
use rust_service.Base.{
  ℕ, String, ◌≡◌, refl, ◌≢◌, ◌⊎◌, true, false, Option, none, some, List, [], ◌∷◌, ◌++◌, arith, ltb,
  if◌then◌else◌, ◌==◌, nat_partial_eq, string_partial_eq, length, map_values, lookup, insert,
  remove,
}
use rust_service.Calls.Signal.{ClientMessage, SignalMessage}
use rust_service.Calls.Room.{
  Room, Peer, touch, remove_peer_by_session, is_full_for, is_empty, peer_ids, add_peer, deliver,
  broadcast, broadcast_all,
}
use rust_service.Calls.State.{ServerData}
use rust_service.Calls.Ws.{
  close, joined_peers, announce, admit_to, admit, leave, leave_room, removed_if, cleanup_peer,
  receive, handle_socket, handle_client_message,
}
use rust_service.Calls.Routes.{
  closed_by_owner, delete_room, delete_held, room_id_from_path, user_id_from_header,
}
use rust_service.Calls.Server.{
  Server, Event, connect, touched, frame, leave as leaves, remove_room, step, run,
}
use rust_service.Calls.Invariant.{IsValid}
use rust_service.Calls.Invariant.Runs.{run-IsValid}
use rust_service.Calls.Sessions.Leave.{HasNoSession, handle_socket_ends}
use rust_service.Calls.Relay.{relays}
use rust_service.Calls.Owner.{only_owner_deletes}

-- A sender is its queue, of at most four messages.
abbrev Queue : Type 0
Queue = List SignalMessage

abbrev push : Queue → SignalMessage → Option Queue
push q msg = if ltb (length q) 4 then some (q ++ msg ∷ []) else none

-- Any text is an offer to bob.
abbrev parse : String → Option ClientMessage
parse body = if body == "" then none else some (ClientMessage.offer "bob" body)

abbrev empty_state : ServerData Queue
empty_state = record {
  rooms = [];
  max_peers = 2;
  max_message_size = 8;
  channel_capacity = 4;
  heartbeat_interval_secs = 15;
}

abbrev peer : String → ℕ → Peer Queue
peer name session = record { user_id = name; session_id = session; tx = [] }

abbrev room : Room Queue
room = record {
  id = "r";
  created_by = "ann";
  peers = ("ann", peer "ann" 0) ∷ ("bob", peer "bob" 1) ∷ [];
  max_peers = 2;
  last_activity = 10;
}

abbrev busy : ServerData Queue
busy = record empty_state { rooms = ("r", room) ∷ [] }

abbrev server : Server Queue
server = record { state = busy; counter = 2 }

server-IsValid : IsValid server
unfolding lookup
server-IsValid = record {
  unique = (refl, tt);
  each = (
    record {
      stored = refl;
      limit = refl;
      fits = omega arith;
      unique = (refl, (refl, tt));
      named = ((refl, omega arith), ((refl, omega arith), tt));
    },
    tt,
  );
}

abbrev history : List (Event Queue)
history =
    connect "r" "ann" [] 11 ∷ touched "r" 12 ∷ frame "r" "ann" "sdp" ∷ leaves "r" "ann" 0 13 ∷ []

run-IsValid_example : IsValid (run push parse server history)
run-IsValid_example = run-IsValid push parse server history (omega arith) server-IsValid

-- The rooms and the answer when ann comes back under session 2.
abbrev back : ServerData Queue
back = record busy {
  rooms = insert "r" (add_peer "ann" 2 [] 11 (announce push "ann" room)).0 busy.rooms;
}

-- bob alone in the room, told that ann has left.
abbrev alone : Room Queue
alone = record room {
  peers = ("bob", record (peer "bob" 1) { tx = SignalMessage.user_left "ann" ∷ [] }) ∷ [];
  last_activity = 20;
}

handle_socket_ends_example : HasNoSession "ann" 2 alone
unfolding handle_socket admit admit_to is_full_for lookup joined_peers peer_ids announce add_peer
    receive cleanup_peer leave_room removed_if remove_peer_by_session touch leave broadcast deliver
    map_values insert remove is_empty
handle_socket_ends_example =
    handle_socket_ends push parse busy "r" "ann" 2 [] 11 true ((12, close) ∷ []) 20
      (("r", alone) ∷ []) alone refl refl

relays_example :
    lookup "q" (handle_client_message push parse busy.rooms "r" "ann" "sdp" 8)
    ≡ lookup "q" busy.rooms
unfolding lookup
relays_example =
    (relays push parse busy.rooms "r" "ann" "sdp" 8 (ClientMessage.offer "bob" "sdp") room refl
        (omega arith) refl).3
      "q" refl

-- eve may not delete ann's room.
only_owner_deletes_example :
    ((busy ≡ busy) × (◌≢◌ {A = ℕ} 403 204))
    ⊎ ((id user : String) × (r : Room Queue) × (some "r" ≡ some id)
        × (some "eve" ≡ some user)
        × (lookup id busy.rooms ≡ some r)
        × (r.created_by ≡ user)
        × (◌≡◌ {A = ℕ} 403 204)
        × (none ≡ some (broadcast_all push closed_by_owner r))
        × (lookup id busy.rooms ≡ none)
        × ((j : String) → (id == j) ≡ false → lookup j busy.rooms ≡ lookup j busy.rooms))
unfolding delete_room room_id_from_path user_id_from_header delete_held lookup
only_owner_deletes_example =
    only_owner_deletes push busy (some "r") (some "eve") {s' = busy} {status = 403} {dropped = none}
      refl

-- ann alone in a room under session 0.
abbrev only_ann : Server Queue
only_ann = record {
  state = record empty_state {
    rooms = ("r", record room { peers = ("ann", peer "ann" 0) ∷ [] }) ∷ [];
  };
  counter = 1;
}

-- When ann comes back between the two parts of the cleanup of her old socket, her room is removed
-- with her new session in it.
rejoin_lost :
    (run push parse only_ann
      (leaves "r" "ann" 0 11 ∷ connect "r" "ann" [] 12 ∷ remove_room "r" ∷ [])).state.rooms
    ≡ []
unfolding run step leave_room leave remove_peer_by_session touch broadcast map_values insert remove
    lookup admit admit_to is_full_for announce add_peer peer_ids
rejoin_lost = refl
