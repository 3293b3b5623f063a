-- ===== src/Calls/Relay.antt =====
-- Relaying a message of one peer to another through their room.
use rust_service.Base.{
  ℕ, ◌≤◌, ◌<◌, String, len, ◌≡◌, refl, ◌⊎◌, inl, inr, false, Option, none, some, arith,
  if◌then◌else◌, ◌==◌, nat_partial_eq, string_partial_eq, Option-cases, Result-cases, ok, err,
  lookup, lookup-insert, lookup-insert_self,
}
use mathlib.Core.Option
use rust_service.Calls.Signal.{
  ClientMessage, SignalMessage, validate_size, receiver, payload, relayed,
}
use rust_service.Calls.Room.{Room, Peer, deliver, send_to}
use rust_service.Calls.State.{Rooms}
use rust_service.Calls.Ws.{relay, handle_client_message}
use rust_service.Calls.Delivery.{lookup-send_to}

-- A payload is refused exactly when it is longer than the limit.
validate_size_fits :
    (msg : ClientMessage) (most : ℕ) → len (payload msg) ≤ most → validate_size msg most ≡ ok tt
unfolding validate_size
validate_size_fits (ClientMessage.offer to sdp) most h = ground arith
validate_size_fits (ClientMessage.answer to sdp) most h = ground arith
validate_size_fits (ClientMessage.ice_candidate to candidate) most h = ground arith

validate_size_exceeds :
    (msg : ClientMessage) (most : ℕ)
    → most < len (payload msg)
    → (reason : String) × (validate_size msg most ≡ err reason)
unfolding validate_size
validate_size_exceeds (ClientMessage.offer to sdp) most h = ("SDP payload too large", ground arith)
validate_size_exceeds (ClientMessage.answer to sdp) most h = ("SDP payload too large", ground arith)
validate_size_exceeds (ClientMessage.ice_candidate to candidate) most h =
    ("ICE candidate payload too large", ground arith)

module _ {Tx : Type 0} (try_send : Tx → SignalMessage → Option Tx)
    (from_str : String → Option ClientMessage) where
  -- A peer with a message in its queue, where the queue takes it.
  abbrev pub queued : SignalMessage → Peer Tx → Peer Tx
  queued msg p = record {
    user_id = p.user_id;
    session_id = p.session_id;
    tx = elim (try_send p.tx msg) [ none ↦ p.tx | some tx ↦ tx ];
  }

  -- What becomes of a peer when a message is sent to one name.
  abbrev pub sent_to : String → SignalMessage → String → Peer Tx → Peer Tx
  sent_to to msg other p = if to == other then queued msg p else p

  -- The peer of a name after a message: an offer, an answer or a candidate goes to the name that it
  -- has, as the same kind, with the name of its sender and its own text.
  abbrev pub relayed_to : String → ClientMessage → String → Peer Tx → Peer Tx
  relayed_to from (ClientMessage.offer to sdp) = sent_to to (SignalMessage.offer from sdp)
  relayed_to from (ClientMessage.answer to sdp) = sent_to to (SignalMessage.answer from sdp)
  relayed_to from (ClientMessage.ice_candidate to candidate) =
      sent_to to (SignalMessage.ice_candidate from candidate)

  deliver-queued : (msg : SignalMessage) (p : Peer Tx) → deliver try_send msg p ≡ queued msg p
  unfolding deliver
  deliver-queued msg p = elim (Option-cases (try_send p.tx msg)) [
    | inl full ↦ rw (full, deliver) refl
    | inr (tx, taken) ↦ rw (taken, deliver) refl
  ]

  send_to-queued :
      (to : String) (msg : SignalMessage) (r : Room Tx) (other : String)
      → lookup other (send_to try_send to msg r).peers
        ≡ Option.map (sent_to to msg other) (lookup other r.peers)
  send_to-queued to msg r other = elim (Option-cases (lookup other r.peers)) [
    | inl absent ↦ ground (arith, absent, lookup-send_to try_send to msg r other)
    | inr (p, there) ↦
        ground (arith, there, lookup-send_to try_send to msg r other, deliver-queued msg p)
  ]

  relayed-queued :
      (from : String) (msg : ClientMessage) (r : Room Tx) (other : String)
      → lookup other (send_to try_send (receiver msg) (relayed from msg) r).peers
        ≡ Option.map (relayed_to from msg other) (lookup other r.peers)
  unfolding relayed
  relayed-queued from (ClientMessage.offer to sdp) r other =
      send_to-queued to (SignalMessage.offer from sdp) r other
  relayed-queued from (ClientMessage.answer to sdp) r other =
      send_to-queued to (SignalMessage.answer from sdp) r other
  relayed-queued from (ClientMessage.ice_candidate to candidate) r other =
      send_to-queued to (SignalMessage.ice_candidate from candidate) r other

  -- A message that parses and fits is put into the queue of the one peer of the sender's room that
  -- it names, where the queue takes it, as a message of the same kind with the sender's own name and
  -- the same text, and into no other queue; no other room changes.
  pub relays :
      (rooms : Rooms Tx) (id from body : String) (most : ℕ) (msg : ClientMessage) (r : Room Tx)
      → from_str body ≡ some msg
      → len (payload msg) ≤ most
      → lookup id rooms ≡ some r
      → let rooms' = handle_client_message try_send from_str rooms id from body most in
        (r' : Room Tx) × (lookup id rooms' ≡ some r')
        × ((other : String)
            → lookup other r'.peers ≡ Option.map (relayed_to from msg other) (lookup other r.peers))
        × ((j : String) → (id == j) ≡ false → lookup j rooms' ≡ lookup j rooms)
  unfolding handle_client_message relay
  relays rooms id from body most msg r parsed fits e =
      let sent = send_to try_send (receiver msg) (relayed from msg) r in
      rw (parsed, validate_size_fits msg most fits, e, handle_client_message, relay)
        (
          sent,
          lookup-insert_self id sent rooms,
          λ other. relayed-queued from msg r other,
          λ j ne. rw (lookup-insert id j sent rooms, ne),
        )

  -- A text that does not parse, a payload over the limit, and a message in a room that is gone
  -- change nothing.
  pub relay_rejects :
      (rooms : Rooms Tx) (id from body : String) (most : ℕ)
      → ((from_str body ≡ none)
          ⊎ ((msg : ClientMessage) × (from_str body ≡ some msg) × (most < len (payload msg)))
          ⊎ (lookup id rooms ≡ none))
      → handle_client_message try_send from_str rooms id from body most ≡ rooms
  unfolding handle_client_message relay
  relay_rejects rooms id from body most (inl e) = rw (e, handle_client_message)
  relay_rejects rooms id from body most (inr (inl (msg, e, h))) =
      rw (e, (validate_size_exceeds msg most h).1, handle_client_message, relay)
  relay_rejects rooms id from body most (inr (inr absent)) = elim (Option-cases (from_str body)) [
    | inl e ↦ rw (e, handle_client_message)
    | inr (msg, e) ↦ elim (Result-cases (validate_size msg most)) [
      | inr (reason, f) ↦ rw (e, f, handle_client_message, relay)
      | inl (_, f) ↦ rw (e, f, absent, handle_client_message, relay)
    ]
  ]
