-- ===== src/Calls/Invariant.antt =====
-- The well-formedness of the signalling server, kept by every event.
pub mod Events
pub mod Runs
use rust_service.Base.{
  ℕ, zero, suc, ◌+◌, ◌-◌, ◌*◌, ◌/◌, ◌%◌, ◌^◌, ◌≤◌, ◌<◌, min, max, String, len, ◌≡◌, refl, sym, ap,
  ◌∙◌, subst, ◌≢◌, ◌↔◌, ◌⊎◌, inl, inr, Bool, true, false, not, ◌&&◌, ◌||◌, Option, none, some, List,
  [], ◌∷◌, ◌++◌, map, arith, ltb, leb, nat_beq, if◌then◌else◌, nat_beq_iff, leb→le, le→leb,
  PartialEq, ◌==◌, nat_partial_eq, string_partial_eq, ==-refl, eq_of_==, Result, Bool-cases,
  Option-cases, Result-cases, is_some, ok, err, length, take, drop, keep, length-append,
  length-take-le, length-keep-le, All, All-append, All-keep, Map, keys, map_values, retain, Entries,
  lookup, insert, remove, contains_key, Unique, lookup-insert, lookup-remove, lookup-map_values,
  contains_key-map_values, lookup-insert_self, lookup-remove_self, kept, lookup-retain,
  insert-Unique, remove-Unique, map_values-Unique, retain-Unique, length-insert, length-remove-le,
  remove_absent, length-remove, insert-Entries, remove-Entries, lookup-Entries, map_values-Entries,
  retain-Entries, length-map_values, keys-map_values, map_laws,
}
use rust_service.Calls.Signal.{ClientMessage, SignalMessage, validate_size, receiver, relayed}
use rust_service.Calls.Room.{
  Room, Peer, touch, is_full_for, peer_ids, add_peer, remove_peer_by_session, deliver, send_to,
  broadcast, broadcast_all,
}
use rust_service.Calls.State.{Rooms, ServerData, cleanup_idle_rooms, stays}
use rust_service.Calls.Ws.{announce}
use rust_service.Calls.Server.{
  Server, Event, create, connect, frame, leave as leaves, tick, step, run, start,
}
use rust_service.Calls.Delivery.{deliver_keeps}

-- A peer is stored under its own name, with a session that has been handed out.
module _ {Tx : Type 0} where
  abbrev pub IsNamed : ℕ → String → Peer Tx → Type 0
  IsNamed counter k p = (p.user_id ≡ k) × (p.session_id < counter)

  pub record IsRoom (most counter : ℕ) (id : String) (r : Room Tx) : Type 0 where
    pub stored : r.id ≡ id
    pub limit : r.max_peers ≡ most
    pub fits : length r.peers ≤ most
    pub unique : Unique r.peers
    pub named : Entries (IsNamed counter) r.peers

  -- The rooms of a valid server, with the limit and the counter that they are held to.
  pub record AreRooms (most counter : ℕ) (rooms : Rooms Tx) : Type 0 where
    pub unique : Unique rooms
    pub each : Entries (IsRoom most counter) rooms

  -- No room is listed twice, none holds more peers than the limit, and every peer is listed once,
  -- under its own name, with a session that was handed out.
  abbrev pub IsValid : Server Tx → Type 0
  IsValid s = AreRooms s.state.max_peers s.counter s.state.rooms

  IsNamed-mono :
      (c d : ℕ) (m : Map String (Peer Tx)) → c ≤ d → Entries (IsNamed c) m → Entries (IsNamed d) m
  IsNamed-mono c d [] h n = tt
  IsNamed-mono c d ((k, p) ∷ m) h n = ((n.0.0, omega arith), IsNamed-mono c d m h n.1)

  IsRoom-mono :
      (most c d : ℕ) (id : String) (r : Room Tx) → c ≤ d → IsRoom most c id r → IsRoom most d id r
  IsRoom-mono most c d id r h v = record {
    stored = v.stored;
    limit = v.limit;
    fits = v.fits;
    unique = v.unique;
    named = IsNamed-mono c d r.peers h v.named;
  }

  pub rooms_mono :
      (most c d : ℕ) (m : Rooms Tx) → c ≤ d → Entries (IsRoom most c) m → Entries (IsRoom most d) m
  rooms_mono most c d [] h n = tt
  rooms_mono most c d ((k, r) ∷ m) h n =
      (IsRoom-mono most c d k r h n.0, rooms_mono most c d m h n.1)

  pub touch-IsRoom :
      (most c now : ℕ) (id : String) (r : Room Tx)
      → IsRoom most c id r
      → IsRoom most c id (touch now r)
  unfolding touch
  touch-IsRoom most c now id r v = record {
    stored = v.stored;
    limit = v.limit;
    fits = v.fits;
    unique = v.unique;
    named = v.named;
  }

  pub add_peer-IsRoom :
      (most c session now : ℕ) (id user : String) (tx : Tx) (r : Room Tx)
      → IsRoom most c id r
      → is_full_for r user ≡ false
      → session < c
      → IsRoom most c id (add_peer user session tx now r).0
  unfolding add_peer is_full_for
  add_peer-IsRoom most c session now id user tx r v free h =
      let peer : Peer Tx = record { user_id = user; session_id = session; tx = tx } in
      record {
        stored = v.stored;
        limit = v.limit;
        fits = ground (arith, length-insert user peer r.peers, v.limit, v.fits);
        unique = insert-Unique user peer r.peers v.unique;
        named = insert-Entries (IsNamed c) user peer r.peers v.named (refl, h);
      }

  pub remove_peer-IsRoom :
      (most c session now : ℕ) (id user : String) (r : Room Tx)
      → IsRoom most c id r
      → IsRoom most c id (remove_peer_by_session user session now r).0
  unfolding remove_peer_by_session
  remove_peer-IsRoom most c session now id user r v = elim (Option-cases (lookup user r.peers)) [
    | inl e ↦ rw (e, remove_peer_by_session) v
    | inr (p, e) ↦
        rw (e, remove_peer_by_session)
          (ground (
            arith,
            length-remove-le user r.peers,
            remove-Unique user r.peers v.unique,
            remove-Entries (IsNamed c) user r.peers v.named,
          ))
  ]

module _ {Tx : Type 0} (try_send : Tx → SignalMessage → Option Tx) where
  deliver-IsNamed :
      (c : ℕ) (msg : SignalMessage) (k : String) (p : Peer Tx)
      → IsNamed c k p
      → IsNamed c k (deliver try_send msg p)
  deliver-IsNamed c msg k p n = ground (arith, deliver_keeps try_send msg p)

  pub broadcast-IsRoom :
      (most c : ℕ) (id from : String) (msg : SignalMessage) (r : Room Tx)
      → IsRoom most c id r
      → IsRoom most c id (broadcast try_send from msg r)
  unfolding broadcast
  broadcast-IsRoom most c id from msg r v = record {
    stored = v.stored;
    limit = v.limit;
    fits = rw (length-map_values _ r.peers) v.fits;
    unique = map_values-Unique _ r.peers v.unique;
    named =
        map_values-Entries (IsNamed c) _ r.peers
          (λ k p n. ground (arith, deliver-IsNamed c msg k p n)) v.named;
  }

  pub broadcast_all-IsRoom :
      (most c : ℕ) (id : String) (msg : SignalMessage) (r : Room Tx)
      → IsRoom most c id r
      → IsRoom most c id (broadcast_all try_send msg r)
  unfolding broadcast_all
  broadcast_all-IsRoom most c id msg r v = record {
    stored = v.stored;
    limit = v.limit;
    fits = rw (length-map_values _ r.peers) v.fits;
    unique = map_values-Unique _ r.peers v.unique;
    named =
        map_values-Entries (IsNamed c) _ r.peers
          (λ k p n. ground (arith, deliver-IsNamed c msg k p n)) v.named;
  }

  pub send_to-IsRoom :
      (most c : ℕ) (id to : String) (msg : SignalMessage) (r : Room Tx)
      → IsRoom most c id r
      → IsRoom most c id (send_to try_send to msg r)
  unfolding send_to
  send_to-IsRoom most c id to msg r v = elim (Option-cases (lookup to r.peers)) [
    | inl e ↦ rw (e, send_to) v
    | inr (p, e) ↦
        rw (e, send_to)
          (record {
            stored = v.stored;
            limit = v.limit;
            fits = ground (arith, length-insert to (deliver try_send msg p) r.peers, v.fits, e);
            unique = insert-Unique to (deliver try_send msg p) r.peers v.unique;
            named =
                insert-Entries (IsNamed c) to (deliver try_send msg p) r.peers v.named
                  (deliver-IsNamed c msg to p (lookup-Entries (IsNamed c) to r.peers v.named e));
          })
  ]

  pub announce-IsRoom :
      (most c : ℕ) (id user : String) (r : Room Tx)
      → IsRoom most c id r
      → IsRoom most c id (announce try_send user r)
  unfolding announce
  announce-IsRoom most c id user r v = elim (Bool-cases (contains_key user r.peers)) [
    | inl e ↦ rw e v
    | inr e ↦ rw e (broadcast-IsRoom most c id user (SignalMessage.user_joined user) r v)
  ]

  is_full_for-broadcast :
      (user from : String) (msg : SignalMessage) (r : Room Tx)
      → is_full_for (broadcast try_send from msg r) user ≡ is_full_for r user
  unfolding broadcast is_full_for
  is_full_for-broadcast user from msg r =
      rw (length-map_values _ r.peers, contains_key-map_values _ user r.peers)

  -- The news of a newcomer leaves the room as full as it was.
  pub is_full_for-announce :
      (user : String) (r : Room Tx)
      → is_full_for (announce try_send user r) user ≡ is_full_for r user
  unfolding announce
  is_full_for-announce user r = elim (Bool-cases (contains_key user r.peers)) [
    | inl e ↦ rw e
    | inr e ↦ rw e (is_full_for-broadcast user user (SignalMessage.user_joined user) r)
  ]
