-- ===== src/Calls/Delivery.antt =====
-- Who gets a message: the peers of a room after `send_to` and `broadcast`, peer by peer.
use rust_service.Base.{
  String, ◌≡◌, inl, inr, not, Option, arith, if◌then◌else◌, ◌==◌, nat_partial_eq, string_partial_eq,
  Option-cases, lookup, lookup-insert, lookup-map_values,
}
use mathlib.Core.Option
use rust_service.Calls.Signal.{SignalMessage}
use rust_service.Calls.Room.{Room, Peer, deliver, send_to, broadcast, broadcast_all}

module _ {Tx : Type 0} (try_send : Tx → SignalMessage → Option Tx) where
  pub lookup-broadcast :
      (from : String) (msg : SignalMessage) (r : Room Tx) (id : String)
      → lookup id (broadcast try_send from msg r).peers
        ≡ Option.map
            (λ p. if not (id == from) then deliver try_send msg p else p)
            (lookup id r.peers)
  unfolding broadcast
  lookup-broadcast from msg r id = lookup-map_values _ id r.peers

  pub lookup-broadcast_all :
      (msg : SignalMessage) (r : Room Tx) (id : String)
      → lookup id (broadcast_all try_send msg r).peers
        ≡ Option.map (deliver try_send msg) (lookup id r.peers)
  unfolding broadcast_all
  lookup-broadcast_all msg r id = lookup-map_values _ id r.peers

  pub lookup-send_to :
      (to : String) (msg : SignalMessage) (r : Room Tx) (id : String)
      → lookup id (send_to try_send to msg r).peers
        ≡ Option.map (λ p. if to == id then deliver try_send msg p else p) (lookup id r.peers)
  unfolding send_to
  lookup-send_to to msg r id = elim (Option-cases (lookup to r.peers)) [
    | inl e ↦ rw (e, send_to) (ground (arith, string_partial_eq.same_iff to id, e))
    | inr (p, e) ↦
        rw (e, send_to)
          (ground (
            arith,
            string_partial_eq.same_iff to id,
            lookup-insert to id (deliver try_send msg p) r.peers,
            e,
          ))
  ]

  -- A delivery changes nothing of a peer but its queue.
  pub deliver_keeps :
      (msg : SignalMessage) (p : Peer Tx)
      → ((deliver try_send msg p).user_id ≡ p.user_id)
        × ((deliver try_send msg p).session_id ≡ p.session_id)
  unfolding deliver
  deliver_keeps msg p = ground arith
