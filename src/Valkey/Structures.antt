-- ===== src/Valkey/Structures.antt =====
-- valkey-client/src/lib.rs: hashes, lists, sorted sets and sets. A call with no fields or members
-- sends nothing.
use rust_service.Base.{
  ℕ, String, Bool, Option, List, [], ◌∷◌, ltb, string_partial_eq, nat_partial_eq, pair_partial_eq,
  Result, ok, err, Bytes, bytes_partial_eq,
}
use rust_service.Valkey.Query.{Query, Redis, pure, ◌>>=◌, send, serde}
use rust_service.Valkey.Client.{from_all, serialized, decoded}

-- The fields of a hash with their values.
unfoldable pub from_fields :
    {A : Type 0}
    → (Bytes → Result A String)
    → List (Bytes × Bytes)
    → Result (List (Bytes × A)) String
from_fields from_str [] = ok []
from_fields from_str ((k, v) ∷ raw) =
    let rest = from_fields from_str raw in
    elim (from_str v) [
      | err e ↦ err e
      | ok a ↦ elim rest [ err e ↦ err e | ok fields ↦ ok ((k, a) ∷ fields) ]
    ]

module _ {S Int Score : Type 0} (redis : Redis S Int Score) where
  unfoldable pub hset :
      {A : Type 0} → (A → Result Bytes String) → Bytes → Bytes → A → Query S (Unit {0})
  hset to_string key field value = do
    json ← serde (to_string value)
    send (redis.hset key field json)

  unfoldable pub hget :
      {A : Type 0} → (Bytes → Result A String) → Bytes → Bytes → Query S (Option A)
  hget from_str key field = do raw ← send (redis.hget key field); decoded from_str raw

  unfoldable pub hgetall :
      {A : Type 0} → (Bytes → Result A String) → Bytes → Query S (List (Bytes × A))
  hgetall from_str key = do raw ← send (redis.hgetall key); serde (from_fields from_str raw)

  unfoldable pub hmset :
      {A : Type 0} → (A → Result Bytes String) → Bytes → List (Bytes × A) → Query S (Unit {0})
  hmset to_string key [] = pure tt
  hmset to_string key (field ∷ fields) = do
    refs ← serde (serialized to_string (field ∷ fields))
    send (redis.hset_multiple key refs)

  unfoldable pub hdel : Bytes → List Bytes → Query S ℕ
  hdel key [] = pure 0
  hdel key (field ∷ fields) = send (redis.hdel key (field ∷ fields))

  unfoldable pub hexists : Bytes → Bytes → Query S Bool
  hexists key field = send (redis.hexists key field)

  unfoldable pub hincr : Bytes → Bytes → Int → Query S Int
  hincr key field delta = send (redis.hincr key field delta)

  unfoldable pub lpush : {A : Type 0} → (A → Result Bytes String) → Bytes → A → Query S ℕ
  lpush to_string key value = do json ← serde (to_string value); send (redis.lpush key json)

  unfoldable pub rpush : {A : Type 0} → (A → Result Bytes String) → Bytes → A → Query S ℕ
  rpush to_string key value = do json ← serde (to_string value); send (redis.rpush key json)

  unfoldable pub lpop : {A : Type 0} → (Bytes → Result A String) → Bytes → Query S (Option A)
  lpop from_str key = do raw ← send (redis.lpop key); decoded from_str raw

  unfoldable pub rpop : {A : Type 0} → (Bytes → Result A String) → Bytes → Query S (Option A)
  rpop from_str key = do raw ← send (redis.rpop key); decoded from_str raw

  unfoldable pub lrange :
      {A : Type 0} → (Bytes → Result A String) → Bytes → Int → Int → Query S (List A)
  lrange from_str key start stop = do
    raw ← send (redis.lrange key start stop)
    serde (from_all from_str raw)

  unfoldable pub llen : Bytes → Query S ℕ
  llen key = send (redis.llen key)

  unfoldable pub zadd : Bytes → Bytes → Score → Query S Bool
  zadd key member score = do added ← send (redis.zadd key member score); pure (ltb 0 added)

  unfoldable pub zrem : Bytes → List Bytes → Query S ℕ
  zrem key [] = pure 0
  zrem key (member ∷ members) = send (redis.zrem key (member ∷ members))

  unfoldable pub zscore : Bytes → Bytes → Query S (Option Score)
  zscore key member = send (redis.zscore key member)

  unfoldable pub zcard : Bytes → Query S ℕ
  zcard key = send (redis.zcard key)

  unfoldable pub sadd : Bytes → List Bytes → Query S ℕ
  sadd key [] = pure 0
  sadd key (member ∷ members) = send (redis.sadd key (member ∷ members))

  unfoldable pub srem : Bytes → List Bytes → Query S ℕ
  srem key [] = pure 0
  srem key (member ∷ members) = send (redis.srem key (member ∷ members))

  unfoldable pub smembers : Bytes → Query S (List Bytes)
  smembers key = send (redis.smembers key)

  unfoldable pub sismember : Bytes → Bytes → Query S Bool
  sismember key member = send (redis.sismember key member)

  unfoldable pub scard : Bytes → Query S ℕ
  scard key = send (redis.scard key)
