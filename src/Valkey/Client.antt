-- ===== src/Valkey/Client.antt =====
-- valkey-client/src/lib.rs: texts under a key and whole keys. `to_string` and `from_str` are those
-- of `serde_json` for the type of the values.
use rust_service.Base.{
  ℕ, ◌%◌, ◌^◌, String, Bool, false, Option, none, some, List, [], ◌∷◌, ltb, string_partial_eq,
  nat_partial_eq, pair_partial_eq, Result, ok, err, Bytes, bytes_of, same_bytes, bytes_partial_eq,
  keys,
}
use rust_service.Valkey.Query.{Command, Query, Redis, pure, ◌>>=◌, send, serde}

-- The values that serde makes of texts, one after another, up to the first error.
unfoldable pub from_all :
    {A : Type 0} → (Bytes → Result A String) → List Bytes → Result (List A) String
from_all from_str [] = ok []
from_all from_str (json ∷ raw) =
    let rest = from_all from_str raw in
    elim (from_str json) [
      | err e ↦ err e
      | ok a ↦ elim rest [ err e ↦ err e | ok items ↦ ok (a ∷ items) ]
    ]

-- The same for texts that may be missing.
unfoldable pub from_present :
    {A : Type 0} → (Bytes → Result A String) → List (Option Bytes) → Result (List (Option A)) String
from_present from_str [] = ok []
from_present from_str (none ∷ raw) = elim (from_present from_str raw) [
  | err e ↦ err e
  | ok items ↦ ok (none ∷ items)
]
from_present from_str (some json ∷ raw) =
    let rest = from_present from_str raw in
    elim (from_str json) [
      | err e ↦ err e
      | ok a ↦ elim rest [ err e ↦ err e | ok items ↦ ok (some a ∷ items) ]
    ]

-- The pairs of a key and a value with the value as JSON.
unfoldable pub serialized :
    {A : Type 0}
    → (A → Result Bytes String)
    → List (Bytes × A)
    → Result (List (Bytes × Bytes)) String
serialized to_string [] = ok []
serialized to_string ((k, v) ∷ pairs) =
    let rest = serialized to_string pairs in
    elim (to_string v) [
      | err e ↦ err e
      | ok json ↦ elim rest [ err e ↦ err e | ok refs ↦ ok ((k, json) ∷ refs) ]
    ]

-- `match raw`: the value of a text that may be missing.
unfoldable pub decoded :
    {S A : Type 0} → (Bytes → Result A String) → Option Bytes → Query S (Option A)
decoded from_str none = pure none
decoded from_str (some json) = do value ← serde (from_str json); pure (some value)

-- `unwrap_or(false)`.
unfoldable pub or_false : {S : Type 0} → Command S Bool → Query S Bool
or_false command s =
    let (s', reply) = command s in elim reply [ ok value ↦ (s', ok value) | err e ↦ (s', ok false) ]

module _ {S Int Score : Type 0} (redis : Redis S Int Score) where
  unfoldable pub get : {A : Type 0} → (Bytes → Result A String) → Bytes → Query S (Option A)
  get from_str key = do raw ← send (redis.get key); decoded from_str raw

  unfoldable pub set : {A : Type 0} → (A → Result Bytes String) → Bytes → A → Query S (Unit {0})
  set to_string key value = do json ← serde (to_string value); send (redis.set key json)

  unfoldable pub set_ex :
      {A : Type 0} → (A → Result Bytes String) → Bytes → A → (ttl_secs : ℕ) → Query S (Unit {0})
  set_ex to_string key value ttl_secs = do
    json ← serde (to_string value)
    send (redis.set_ex key json ttl_secs)

  -- An error of the command is `false`.
  unfoldable pub set_nx :
      {A : Type 0} → (A → Result Bytes String) → Bytes → A → (ttl_secs : ℕ) → Query S Bool
  set_nx to_string key value ttl_secs = do
    json ← serde (to_string value)
    or_false (redis.set_nx_ex key json ttl_secs)

  unfoldable pub mget :
      {A : Type 0} → (Bytes → Result A String) → List Bytes → Query S (List (Option A))
  mget from_str [] = pure []
  mget from_str (key ∷ keys) = do
    raw ← send (redis.mget (key ∷ keys))
    serde (from_present from_str raw)

  unfoldable pub mset :
      {A : Type 0} → (A → Result Bytes String) → List (Bytes × A) → Query S (Unit {0})
  mset to_string [] = pure tt
  mset to_string (pair ∷ pairs) = do
    refs ← serde (serialized to_string (pair ∷ pairs))
    send (redis.mset refs)

  unfoldable pub get_raw : Bytes → Query S (Option Bytes)
  get_raw key = send (redis.get key)

  unfoldable pub set_raw : Bytes → Bytes → Query S (Unit {0})
  set_raw key value = send (redis.set key value)

  unfoldable pub set_raw_ex : Bytes → Bytes → ℕ → Query S (Unit {0})
  set_raw_ex key value ttl_secs = send (redis.set_ex key value ttl_secs)

  unfoldable pub del : Bytes → Query S Bool
  del key = do removed ← send (redis.del (key ∷ [])); pure (ltb 0 removed)

  unfoldable pub del_many : List Bytes → Query S ℕ
  del_many [] = pure 0
  del_many (key ∷ keys) = send (redis.del (key ∷ keys))

  unfoldable pub exists : Bytes → Query S Bool
  exists key = send (redis.exists key)

  unfoldable pub expire : Bytes → ℕ → Query S Bool
  expire key ttl_secs = send (redis.expire key (ttl_secs % 2 ^ 64))

  unfoldable pub ttl : Bytes → Query S Int
  ttl key = send (redis.ttl key)

  unfoldable pub incr : Bytes → Int → Query S Int
  incr key delta = send (redis.incr key delta)

  unfoldable pub publish : Bytes → Bytes → Query S ℕ
  publish channel message = send (redis.publish channel message)

  unfoldable pub ping : Query S Bool
  ping = do pong ← send redis.ping; pure (same_bytes pong (bytes_of "PONG"))
