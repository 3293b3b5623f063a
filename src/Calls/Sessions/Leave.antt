-- ===== src/Calls/Sessions/Leave.antt =====
-- Leaving a room: the cleanup of one session, run by either of its two tasks, early or late.
use rust_service.Base.{
  ℕ, String, ◌≡◌, refl, sym, ap, ◌∙◌, subst, ◌⊎◌, inl, inr, Bool, true, false, Option, none, some,
  List, [], ◌∷◌, arith, if◌then◌else◌, ◌==◌, nat_partial_eq, string_partial_eq, ==-refl, Bool-cases,
  Option-cases, Result-cases, ok, Map, lookup, insert, remove, lookup-insert, lookup-remove,
  lookup-insert_self, lookup-remove_self,
}
use mathlib.Core.Option
use rust_service.Calls.Signal.{ClientMessage, SignalMessage}
use rust_service.Calls.Room.{
  Room, Peer, is_empty, touch, remove_peer_by_session, deliver, broadcast,
}
use rust_service.Calls.State.{Rooms, ServerData}
use rust_service.Calls.Ws.{
  Frame, admit, receive, leave, leave_room, removed_if, cleanup_peer, handle_socket,
}
use rust_service.Calls.Delivery.{lookup-broadcast}

module _ {Tx : Type 0} where
  -- No peer of the room has the session under the user's name.
  abbrev pub HasNoSession : String → ℕ → Room Tx → Type 0
  HasNoSession user session r =
      (p : Peer Tx) → lookup user r.peers ≡ some p → (p.session_id == session) ≡ false

  lookup-nil : (k : String) → lookup {V = Peer Tx} k [] ≡ none
  unfolding lookup
  lookup-nil k = refl

  is_empty-nil : (r : Room Tx) → is_empty r ≡ true → r.peers ≡ []
  unfolding is_empty
  is_empty-nil r h = ground arith

  nil_of_no_keys : (m : Map String (Peer Tx)) → ((k : String) → lookup k m ≡ none) → m ≡ []
  unfolding lookup
  nil_of_no_keys [] h = refl
  nil_of_no_keys ((k, p) ∷ m) h = ground (arith, h k, ==-refl k)

module _ {Tx : Type 0} (try_send : Tx → SignalMessage → Option Tx) where
  -- The room that a user has left, the others told.
  abbrev left : String → ℕ → Room Tx → Room Tx
  left user now r =
      broadcast try_send user (SignalMessage.user_left user)
        (touch now (record r { peers = remove user r.peers }))

  lookup-left :
      (user : String) (now : ℕ) (r : Room Tx) (other : String)
      → lookup other (left user now r).peers ≡ (
          if other == user
          then none
          else Option.map (deliver try_send (SignalMessage.user_left user)) (lookup other r.peers))
  unfolding touch
  lookup-left user now r other = ground (
    arith,
    lookup-broadcast try_send user (SignalMessage.user_left user)
        (touch now (record r { peers = remove user r.peers })) other,
    lookup-remove user other r.peers,
    string_partial_eq.same_iff user other,
    string_partial_eq.same_iff other user,
  )

  -- A session that the room does not hold leaves it as it is, and the room is not to be removed.
  leave_room-absent :
      (rooms : Rooms Tx) (id user : String) (session now : ℕ)
      → ((r : Room Tx) → lookup id rooms ≡ some r → HasNoSession user session r)
      → leave_room try_send rooms id user session now ≡ (rooms, false)
  unfolding leave_room remove_peer_by_session leave
  leave_room-absent rooms id user session now h = elim (Option-cases (lookup id rooms)) [
    | inl e ↦ rw (e, leave_room)
    | inr (r, e) ↦ elim (Option-cases (lookup user r.peers)) [
      | inl f ↦ rw (e, f, leave_room, remove_peer_by_session) refl
      | inr (p, f) ↦ rw (e, f, h r e p f, leave_room, remove_peer_by_session) refl
    ]
  ]

  pub cleanup_peer-absent :
      (rooms : Rooms Tx) (id user : String) (session now : ℕ)
      → ((r : Room Tx) → lookup id rooms ≡ some r → HasNoSession user session r)
      → cleanup_peer try_send rooms id user session now ≡ rooms
  unfolding cleanup_peer removed_if
  cleanup_peer-absent rooms id user session now h =
      ap (removed_if id) (leave_room-absent rooms id user session now h)

  cleanup_peer-present :
      (rooms : Rooms Tx) (id user : String) (session now : ℕ) (r : Room Tx) (p : Peer Tx)
      → lookup id rooms ≡ some r
      → lookup user r.peers ≡ some p
      → (p.session_id == session) ≡ true
      → cleanup_peer try_send rooms id user session now ≡ (
          if is_empty (left user now r)
          then remove id (insert id (left user now r) rooms)
          else insert id (left user now r) rooms)
  unfolding cleanup_peer leave_room removed_if remove_peer_by_session leave
  cleanup_peer-present rooms id user session now r p e f h =
      rw (e, f, h, cleanup_peer, leave_room, remove_peer_by_session) refl

  -- A map of rooms holds a session, or it does not.
  held_or_not :
      (rooms : Rooms Tx) (id user : String) (session : ℕ)
      → ((r : Room Tx) × (p : Peer Tx) × (lookup id rooms ≡ some r)
          × (lookup user r.peers ≡ some p)
          × ((p.session_id == session) ≡ true))
        ⊎ ((r : Room Tx) → lookup id rooms ≡ some r → HasNoSession user session r)
  held_or_not rooms id user session = elim (Option-cases (lookup id rooms)) [
    | inl e ↦ inr (λ r' e' p' f'. cc)
    | inr (r, e) ↦ elim (Option-cases (lookup user r.peers)) [
      | inl f ↦ inr (λ r' e' p' f'. ground arith)
      | inr (p, f) ↦ elim (Bool-cases (p.session_id == session)) [
        | inl same ↦ inl (r, p, e, f, same)
        | inr differs ↦ inr (λ r' e' p' f'. ground arith)
      ]
    ]
  ]

  left-HasNoSession :
      (user : String) (session now : ℕ) (r : Room Tx) → HasNoSession user session (left user now r)
  left-HasNoSession user session now r p f = cc (lookup-left user now r user, ==-refl user, f)

  -- After a cleanup no room of that name holds the session under the user's name.
  pub cleanup_peer-HasNoSession :
      (rooms : Rooms Tx) (id user : String) (session now : ℕ) (r' : Room Tx)
      → lookup id (cleanup_peer try_send rooms id user session now) ≡ some r'
      → HasNoSession user session r'
  cleanup_peer-HasNoSession rooms id user session now r' g =
      elim (held_or_not rooms id user session) [
        | inr absent ↦ absent r' (rw (cleanup_peer-absent rooms id user session now absent) at g)
        | inl (r, p, e, f, same) ↦
            let done = cleanup_peer-present rooms id user session now r p e f same in
            elim (Bool-cases (is_empty (left user now r))) [
              | inl bare ↦ λ p' f'.
                  cc (
                    lookup-remove_self id (insert id (left user now r) rooms),
                    rw (done, bare) at g,
                  )
              | inr peopled ↦
                  let same_room : some (left user now r) ≡ some r' =
                    sym (lookup-insert_self id (left user now r) rooms)
                    ∙ (rw (done, peopled) at g) in
                  let same_left : left user now r ≡ r' = cc same_room in
                  subst (HasNoSession user session) same_left (left-HasNoSession user session now r)
            ]
      ]

  -- A second cleanup of the session, by its other task and at any later time, changes nothing.
  pub cleanup_twice :
      (rooms : Rooms Tx) (id user : String) (session now later : ℕ)
      → cleanup_peer try_send
          (cleanup_peer try_send rooms id user session now)
          id
          user
          session
          later
        ≡ cleanup_peer try_send rooms id user session now
  cleanup_twice rooms id user session now later =
      cleanup_peer-absent (cleanup_peer try_send rooms id user session now) id user session later
        (cleanup_peer-HasNoSession rooms id user session now)

  -- A socket that was admitted has, when its handler returns, no session left in the room, whether
  -- or not its first message could be sent and whatever frames it received.
  pub handle_socket_ends :
      (from_str : String → Option ClientMessage) (s : ServerData Tx) (id user : String)
      (session : ℕ) (tx : Tx) (now : ℕ) (sent : Bool) (frames : List (ℕ × Frame)) (last : ℕ)
      (rooms' : Rooms Tx) (r' : Room Tx)
      → handle_socket try_send from_str s id user session tx now sent frames last ≡ ok rooms'
      → lookup id rooms' ≡ some r'
      → HasNoSession user session r'
  unfolding handle_socket
  handle_socket_ends from_str s id user session tx now sent frames last rooms' r' h g =
      elim (Result-cases (admit try_send s id user session tx now)) [
        | inr (message, e) ↦ cc (rw (e, handle_socket) at h)
        | inl ((joined, msg), e) ↦ elim (Bool-cases sent) [
          | inl b ↦
              cleanup_peer-HasNoSession
                (receive try_send from_str joined.rooms id user joined.max_message_size frames) id
                user session last r' (ground (arith, e))
          | inr b ↦
              cleanup_peer-HasNoSession joined.rooms id user session last r' (ground (arith, e))
        ]
      ]

  left_peopled :
      (user : String) (now : ℕ) (r : Room Tx) (other : String) {q : Peer Tx}
      → (other == user) ≡ false
      → lookup other r.peers ≡ some q
      → is_empty (left user now r) ≡ false
  left_peopled user now r other {q} ne f = elim (Bool-cases (is_empty (left user now r))) [
    | inr peopled ↦ peopled
    | inl bare ↦
        let gone : lookup other (left user now r).peers ≡ none =
          rw (is_empty-nil (left user now r) bare) (lookup-nil other) in
        cc (lookup-left user now r other, ne, f, gone)
  ]

  left_bare :
      (user : String) (now : ℕ) (r : Room Tx)
      → ((other : String) → (other == user) ≡ false → lookup other r.peers ≡ none)
      → is_empty (left user now r) ≡ true
  unfolding is_empty
  left_bare user now r alone = rw (
    nil_of_no_keys (left user now r).peers (λ k. elim (Bool-cases (k == user)) [
      | inl e ↦ ground (arith, lookup-left user now r k)
      | inr e ↦ ground (arith, lookup-left user now r k, alone k e)
    ]),
    is_empty,
  )

  -- When a session leaves a room that holds it: each other peer stays in the room and is told; the
  -- room is dropped if there is no other peer; and the other rooms are as they were.
  pub leave_tells :
      (rooms : Rooms Tx) (id user : String) (session now : ℕ) (r : Room Tx) (p : Peer Tx)
      → lookup id rooms ≡ some r
      → lookup user r.peers ≡ some p
      → p.session_id ≡ session
      → let rooms' = cleanup_peer try_send rooms id user session now in
        ((other : String) (q : Peer Tx)
          → (other == user) ≡ false
          → lookup other r.peers ≡ some q
          → (r' : Room Tx) × (lookup id rooms' ≡ some r')
            × (lookup other r'.peers ≡ some (deliver try_send (SignalMessage.user_left user) q)))
        × (((other : String) → (other == user) ≡ false → lookup other r.peers ≡ none)
            → lookup id rooms' ≡ none)
        × ((j : String) → (id == j) ≡ false → lookup j rooms' ≡ lookup j rooms)
  leave_tells rooms id user session now r p e f same =
      let done =
        cleanup_peer-present rooms id user session now r p e f
          ((nat_partial_eq.same_iff p.session_id session).1 same) in
      (
        λ other q ne g. (
          left user now r,
          rw (done, left_peopled user now r other ne g)
              (lookup-insert_self id (left user now r) rooms),
          rw (lookup-left user now r other, ne, g),
        ),
        λ alone.
            rw (done, left_bare user now r alone)
              (lookup-remove_self id (insert id (left user now r) rooms)),
        λ j ne. rw done (
            ground (
              arith,
              lookup-insert id j (left user now r) rooms,
              lookup-remove id j (insert id (left user now r) rooms),
            )),
      )
