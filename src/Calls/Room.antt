-- ===== src/Calls/Room.antt =====
-- service-calls/src/room.rs: one room and its peers. The clock is the argument `now`, in seconds.
-- A peer's `mpsc::Sender` is a value of the type `Tx`, and `try_send` gives the sender with the
-- message queued, or `none` where the queue is full or its receiver is gone.
use rust_service.Base.{
  ℕ, ◌+◌, ◌-◌, ◌%◌, ◌^◌, String, Bool, true, false, not, ◌&&◌, Option, none, some, List, [], leb,
  if◌then◌else◌, ◌==◌, nat_partial_eq, string_partial_eq, length, Map, keys, map_values, lookup,
  insert, remove, contains_key,
}
use rust_service.Calls.Signal.{SignalMessage}

-- `next_session_id`: the `fetch_add` of a `u64` returns the old value and wraps.
unfoldable pub next_session_id : ℕ → ℕ × ℕ
next_session_id counter = (counter, (counter + 1) % 2 ^ 64)

pub record Peer (Tx : Type 0) : Type 0 where
  pub user_id : String
  pub session_id : ℕ
  pub tx : Tx

pub record Room (Tx : Type 0) : Type 0 where
  pub id : String
  pub created_by : String
  pub peers : Map String (Peer Tx)
  pub max_peers : ℕ
  pub last_activity : ℕ

module _ {Tx : Type 0} where
  unfoldable pub new : String → String → ℕ → ℕ → Room Tx
  new id created_by max_peers now = record {
    id = id;
    created_by = created_by;
    peers = [];
    max_peers = max_peers;
    last_activity = now;
  }

  unfoldable pub touch : ℕ → Room Tx → Room Tx
  touch now r = record r { last_activity = now }

  -- `saturating_sub` is the subtraction of ℕ.
  unfoldable pub idle_secs : ℕ → Room Tx → ℕ
  idle_secs now r = now - r.last_activity

  unfoldable pub is_full : Room Tx → Bool
  is_full r = leb r.max_peers (length r.peers)

  unfoldable pub is_full_for : Room Tx → String → Bool
  is_full_for r user_id = leb r.max_peers (length r.peers) && not (contains_key user_id r.peers)

  unfoldable pub is_empty : Room Tx → Bool
  is_empty r = elim r.peers [ [] ↦ true | _ ↦ false ]

  unfoldable pub peer_ids : Room Tx → List String
  peer_ids r = keys r.peers

  -- The room with the peer, and the peer that it replaces.
  unfoldable pub add_peer : String → ℕ → Tx → ℕ → Room Tx → Room Tx × Option (Peer Tx)
  unfolding touch
  add_peer user_id session_id tx now r =
      let touched = touch now r in
      let peer : Peer Tx = record { user_id = user_id; session_id = session_id; tx = tx } in
      (record touched { peers = insert user_id peer r.peers }, lookup user_id r.peers)

  unfoldable pub remove_peer : String → ℕ → Room Tx → Room Tx × Option (Peer Tx)
  unfolding touch
  remove_peer user_id now r =
      (record (touch now r) { peers = remove user_id r.peers }, lookup user_id r.peers)

  unfoldable pub remove_peer_by_session : String → ℕ → ℕ → Room Tx → Room Tx × Bool
  unfolding touch
  remove_peer_by_session user_id session_id now r = elim (lookup user_id r.peers) [
    | none ↦ (r, false)
    | some peer ↦
        if peer.session_id == session_id
        then (touch now (record r { peers = remove user_id r.peers }), true)
        else (r, false)
  ]

module _ {Tx : Type 0} (try_send : Tx → SignalMessage → Option Tx) where
  -- A failed `try_send` is logged, and the message is lost.
  unfoldable pub deliver : SignalMessage → Peer Tx → Peer Tx
  deliver msg peer = elim (try_send peer.tx msg) [ none ↦ peer | some tx ↦ record peer { tx = tx } ]

  unfoldable pub send_to : String → SignalMessage → Room Tx → Room Tx
  unfolding deliver
  send_to user_id msg r = elim (lookup user_id r.peers) [
    | none ↦ r
    | some peer ↦ record r { peers = insert user_id (deliver msg peer) r.peers }
  ]

  unfoldable pub broadcast : String → SignalMessage → Room Tx → Room Tx
  unfolding deliver
  broadcast from msg r = record r {
    peers = map_values (λ id peer. if not (id == from) then deliver msg peer else peer) r.peers;
  }

  unfoldable pub broadcast_all : SignalMessage → Room Tx → Room Tx
  unfolding deliver
  broadcast_all msg r = record r { peers = map_values (λ id peer. deliver msg peer) r.peers }
