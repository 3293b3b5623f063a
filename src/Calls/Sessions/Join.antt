-- ===== src/Calls/Sessions/Join.antt =====
-- Joining a room: who is admitted, what the room becomes, and what the newcomer is told.
use rust_service.Base.{
  ℕ, ◌≤◌, String, ◌≡◌, refl, ◌↔◌, inl, inr, true, false, not, Option, none, some, List, arith, ◌==◌,
  nat_partial_eq, string_partial_eq, Bool-cases, ok, err, length, keep, keys, lookup, insert,
  lookup-insert, lookup-insert_self,
}
use mathlib.Core.Option
use rust_service.Calls.Signal.{SignalMessage}
use rust_service.Calls.Room.{Room, Peer, is_full_for, add_peer}
use rust_service.Calls.State.{ServerData}
use rust_service.Calls.Ws.{announce, admit_to, admit}
use rust_service.Calls.Sessions.{greeted, lookup-announce, contains_key-announce, joined_peers_lem}

module _ {Tx : Type 0} where
  -- A room refuses a user: it is at its limit and the user is not one of its peers.
  abbrev pub Refuses : Room Tx → String → Type 0
  Refuses r user = (r.max_peers ≤ length r.peers) × (lookup user r.peers ≡ none)

  -- The room `r` became `r'` when the user joined it under the session.
  pub record HasJoined (try_send : Tx → SignalMessage → Option Tx) (user : String) (session : ℕ)
      (tx : Tx) (r r' : Room Tx) : Type 0 where
    pub self :
        lookup user r'.peers ≡ some (record { user_id = user; session_id = session; tx = tx })
    pub others :
        (other : String)
        → (other == user) ≡ false
        → lookup other r'.peers ≡ Option.map (greeted try_send user r) (lookup other r.peers)

module _ {Tx : Type 0} (try_send : Tx → SignalMessage → Option Tx) where
  full_for_iff :
      (r : Room Tx) (user : String)
      → (is_full_for r user ≡ true → Refuses r user) × (Refuses r user → is_full_for r user ≡ true)
  unfolding is_full_for
  full_for_iff r user = (λ h. ground arith, λ h. ground arith)

  admit_to-Refuses :
      (s : ServerData Tx) (id user : String) (session now : ℕ) (tx : Tx) (r : Room Tx)
      → (admit_to try_send s id user session tx now r ≡ err "Room is full") ↔ Refuses r user
  unfolding admit_to
  admit_to-Refuses s id user session now tx r = elim (Bool-cases (is_full_for r user)) [
    | inl e ↦ rw e (λ _. (full_for_iff r user).0 e, λ _. refl)
    | inr e ↦ rw e (λ h. cc h, λ h. cc ((full_for_iff r user).1 h))
  ]

  -- The room after a user has joined it.
  abbrev welcomed : String → ℕ → ℕ → Tx → Room Tx → Room Tx
  welcomed user session now tx r = (add_peer user session tx now (announce try_send user r)).0

  -- The peers that a newcomer is to call: all of the room but the newcomer.
  abbrev pub peers_for : String → Room Tx → List String
  peers_for user r = keep (λ p. not (p == user)) (keys r.peers)

  admit_to-accepts :
      (s : ServerData Tx) (id user : String) (session now : ℕ) (tx : Tx) (r : Room Tx)
      → is_full_for r user ≡ false
      → admit_to try_send s id user session tx now r
        ≡ ok (
          record s { rooms = insert id (welcomed user session now tx r) s.rooms },
          SignalMessage.joined user (peers_for user r),
        )
  unfolding admit_to add_peer
  admit_to-accepts s id user session now tx r e =
      rw (e, contains_key-announce try_send user r, joined_peers_lem user r)

  accepted :
      (s : ServerData Tx) (id user : String) (session now : ℕ) (tx : Tx) (r : Room Tx)
      → ¬ Refuses r user
      → (s' : ServerData Tx) × (msg : SignalMessage) × (admit_to try_send s id user session tx now r
          ≡ ok (s', msg))
  accepted s id user session now tx r h = elim (Bool-cases (is_full_for r user)) [
    | inl e ↦ absurd (h ((full_for_iff r user).0 e))
    | inr e ↦ (_, _, admit_to-accepts s id user session now tx r e)
  ]

  -- A user is turned away from a room that does not exist, and from a room at its limit where they
  -- are no peer already, each with its own message; every other user is admitted.
  pub admit_refusals :
      (s : ServerData Tx) (id user : String) (session now : ℕ) (tx : Tx)
      → ((lookup id s.rooms ≡ none)
          → admit try_send s id user session tx now ≡ err "Room not found")
        × ((r : Room Tx)
            → lookup id s.rooms ≡ some r
            → (admit try_send s id user session tx now ≡ err "Room is full") ↔ Refuses r user)
        × ((r : Room Tx)
            → lookup id s.rooms ≡ some r
            → ¬ Refuses r user
            → (s' : ServerData Tx) × (msg : SignalMessage) × (admit try_send s id user session tx
                  now
                ≡ ok (s', msg)))
  unfolding admit
  admit_refusals s id user session now tx = (
    λ e. rw (e, admit),
    λ r e. rw (e, admit) (admit_to-Refuses s id user session now tx r),
    λ r e h. rw (e, admit) (accepted s id user session now tx r h),
  )

  joins :
      (user : String) (session now : ℕ) (tx : Tx) (r : Room Tx)
      → HasJoined try_send user session tx r
          (add_peer user session tx now (announce try_send user r)).0
  unfolding add_peer
  joins user session now tx r =
      let peer : Peer Tx = record { user_id = user; session_id = session; tx = tx } in
      record {
        self = lookup-insert_self user peer (announce try_send user r).peers;
        others = λ other ne. ground (
          arith,
          string_partial_eq.same_iff user other,
          string_partial_eq.same_iff other user,
          lookup-insert user other peer (announce try_send user r).peers,
          lookup-announce try_send user other r ne,
        );
      }

  admit_to-joins :
      (s : ServerData Tx) (id user : String) (session now : ℕ) (tx : Tx) (r : Room Tx)
      {s' : ServerData Tx} {msg : SignalMessage}
      → admit_to try_send s id user session tx now r ≡ ok (s', msg)
      → (s'.rooms ≡ insert id (welcomed user session now tx r) s.rooms)
        × (msg ≡ SignalMessage.joined user (peers_for user r))
  admit_to-joins s id user session now tx r h = elim (Bool-cases (is_full_for r user)) [
    | inl e ↦ cc ((admit_to-Refuses s id user session now tx r).1 ((full_for_iff r user).0 e))
    | inr e ↦ ground (arith, admit_to-accepts s id user session now tx r e)
  ]

  -- When a user is admitted to a room, the room holds the new session under the user's name; every
  -- other peer stays, told of the newcomer exactly when the user was not connected before; the
  -- other rooms are as they were; and the newcomer is sent the names of all the others.
  pub admit_joins :
      (s : ServerData Tx) (id user : String) (session now : ℕ) (tx : Tx) (r : Room Tx)
      {s' : ServerData Tx} {msg : SignalMessage}
      → lookup id s.rooms ≡ some r
      → admit try_send s id user session tx now ≡ ok (s', msg)
      → (r' : Room Tx) × (lookup id s'.rooms ≡ some r')
        × HasJoined try_send user session tx r r'
        × ((j : String) → (id == j) ≡ false → lookup j s'.rooms ≡ lookup j s.rooms)
        × (msg ≡ SignalMessage.joined user (peers_for user r))
  unfolding admit
  admit_joins s id user session now tx r {s'} {msg} e h =
      let entered = admit_to-joins s id user session now tx r (rw (e, admit) at h) in
      (
        welcomed user session now tx r,
        rw (entered.0) (lookup-insert_self id (welcomed user session now tx r) s.rooms),
        joins user session now tx r,
        λ j ne. rw (entered.0, lookup-insert id j (welcomed user session now tx r) s.rooms, ne),
        entered.1,
      )
