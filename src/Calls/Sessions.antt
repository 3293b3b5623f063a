-- ===== src/Calls/Sessions.antt =====
-- Sessions of the signalling server: joining, reconnecting and leaving, as the peers of a room see it.
pub mod Join
pub mod Leave
use rust_service.Base.{
  ℕ, zero, suc, ◌+◌, ◌-◌, ◌*◌, ◌/◌, ◌%◌, ◌^◌, ◌≤◌, ◌<◌, min, max, String, len, ◌≡◌, refl, sym, ap,
  ◌∙◌, subst, ◌≢◌, ◌↔◌, ◌⊎◌, inl, inr, Bool, true, false, not, ◌&&◌, ◌||◌, Option, none, some, List,
  [], ◌∷◌, ◌++◌, map, arith, ltb, leb, nat_beq, if◌then◌else◌, nat_beq_iff, leb→le, le→leb,
  PartialEq, ◌==◌, nat_partial_eq, string_partial_eq, ==-refl, eq_of_==, Result, Bool-cases,
  Option-cases, Result-cases, is_some, ok, err, length, take, drop, keep, length-append,
  length-take-le, length-keep-le, All, All-append, All-keep, Map, keys, map_values, retain, Entries,
  lookup, insert, remove, contains_key, Unique, lookup-insert, lookup-remove, lookup-map_values,
  contains_key-map_values, lookup-insert_self, lookup-remove_self, kept, lookup-retain,
  insert-Unique, remove-Unique, map_values-Unique, retain-Unique, length-insert, length-remove-le,
  remove_absent, length-remove, insert-Entries, remove-Entries, lookup-Entries, map_values-Entries,
  retain-Entries, length-map_values, keys-map_values, map_laws,
}
use mathlib.Core.Option
use rust_service.Calls.Signal.{ClientMessage, SignalMessage}
use rust_service.Calls.Room.{
  Room, Peer, touch, is_full_for, is_empty, peer_ids, add_peer, remove_peer_by_session, deliver,
  broadcast,
}
use rust_service.Calls.State.{Rooms, ServerData}
use rust_service.Calls.Ws.{
  Frame, joined_peers, announce, admit_to, admit, leave, cleanup_peer, handle_socket,
}
use rust_service.Calls.Delivery.{lookup-broadcast, deliver_keeps}

module _ {V : Type 0} where
  -- The names of a map without one that it does not have.
  keep-keys_absent :
      (k : String) (m : Map String V)
      → lookup k m ≡ none
      → keep (λ p. not (p == k)) (keys m) ≡ keys m
  unfolding lookup
  keep-keys_absent k [] h = refl
  keep-keys_absent k ((j, v) ∷ m) h = ground (arith, keep-keys_absent k m)

module _ {Tx : Type 0} where
  -- The names that a newcomer is sent are those of the room but its own.
  pub joined_peers_lem :
      (user : String) (r : Room Tx)
      → joined_peers (contains_key user r.peers) user (peer_ids r)
        ≡ keep (λ p. not (p == user)) (keys r.peers)
  unfolding joined_peers peer_ids
  joined_peers_lem user r = elim (Option-cases (lookup user r.peers)) [
    | inl e ↦ rw e (sym (keep-keys_absent user r.peers e))
    | inr (p, e) ↦ rw e
  ]

module _ {Tx : Type 0} (try_send : Tx → SignalMessage → Option Tx) where
  pub contains_key-announce :
      (user : String) (r : Room Tx)
      → contains_key user (announce try_send user r).peers ≡ contains_key user r.peers
  unfolding announce broadcast
  contains_key-announce user r = elim (Bool-cases (contains_key user r.peers)) [
    | inl e ↦ rw (e, e)
    | inr e ↦ rw e (contains_key-map_values _ user r.peers ∙ e)
  ]

  -- What a newcomer's arrival does to another peer.
  abbrev pub greeted : String → Room Tx → Peer Tx → Peer Tx
  greeted user r p =
      if contains_key user r.peers then p else deliver try_send (SignalMessage.user_joined user) p

  pub lookup-announce :
      (user other : String) (r : Room Tx)
      → (other == user) ≡ false
      → lookup other (announce try_send user r).peers
        ≡ Option.map (greeted user r) (lookup other r.peers)
  unfolding announce
  lookup-announce user other r ne =
      ground (arith, lookup-broadcast try_send user (SignalMessage.user_joined user) r other)
