-- ===== src/Valkey/Query.antt =====
-- valkey-client/src/error.rs and the commands that valkey-client/src/lib.rs sends. A command runs in
-- a state of the server and leaves one, also where its reply is an error.
use rust_service.Base.{
  ℕ, String, ◌≡◌, refl, ap, Bool, Option, List, string_partial_eq, nat_partial_eq, pair_partial_eq,
  Result, ok, err, Bytes, bytes_partial_eq,
}

-- The two errors carry the texts of the crates' own.
pub data ValkeyError : Type 0 where
  redis serialization : String → ValkeyError

abbrev pub Command : Type 0 → Type 0 → Type 0
Command S A = S → S × Result A String

abbrev pub ValkeyResult : Type 0 → Type 0
ValkeyResult A = Result A ValkeyError

-- A call of the client.
abbrev pub Query : Type 0 → Type 0 → Type 0
Query S A = S → S × ValkeyResult A

-- The commands of the `redis` crate; `Int` is `i64` and `Score` is `f64`. The seconds of `expire` are
-- the 64 bits of an `i64`.
pub record Redis (S Int Score : Type 0) : Type 0 where
  pub get : Bytes → Command S (Option Bytes)
  pub set : Bytes → Bytes → Command S (Unit {0})
  pub set_ex : Bytes → Bytes → ℕ → Command S (Unit {0})
  pub set_nx_ex : Bytes → Bytes → ℕ → Command S Bool
  pub mget : List Bytes → Command S (List (Option Bytes))
  pub mset : List (Bytes × Bytes) → Command S (Unit {0})
  pub del : List Bytes → Command S ℕ
  pub exists : Bytes → Command S Bool
  pub expire : Bytes → ℕ → Command S Bool
  pub ttl : Bytes → Command S Int
  pub incr : Bytes → Int → Command S Int
  pub hset : Bytes → Bytes → Bytes → Command S (Unit {0})
  pub hget : Bytes → Bytes → Command S (Option Bytes)
  pub hgetall : Bytes → Command S (List (Bytes × Bytes))
  pub hset_multiple : Bytes → List (Bytes × Bytes) → Command S (Unit {0})
  pub hdel : Bytes → List Bytes → Command S ℕ
  pub hexists : Bytes → Bytes → Command S Bool
  pub hincr : Bytes → Bytes → Int → Command S Int
  pub lpush : Bytes → Bytes → Command S ℕ
  pub rpush : Bytes → Bytes → Command S ℕ
  pub lpop : Bytes → Command S (Option Bytes)
  pub rpop : Bytes → Command S (Option Bytes)
  pub lrange : Bytes → Int → Int → Command S (List Bytes)
  pub llen : Bytes → Command S ℕ
  pub zadd : Bytes → Bytes → Score → Command S ℕ
  pub zrem : Bytes → List Bytes → Command S ℕ
  pub zscore : Bytes → Bytes → Command S (Option Score)
  pub zcard : Bytes → Command S ℕ
  pub sadd : Bytes → List Bytes → Command S ℕ
  pub srem : Bytes → List Bytes → Command S ℕ
  pub smembers : Bytes → Command S (List Bytes)
  pub sismember : Bytes → Bytes → Command S Bool
  pub scard : Bytes → Command S ℕ
  pub publish : Bytes → Bytes → Command S ℕ
  pub ping : Command S Bytes

module _ {S : Type 0} where
  abbrev pub pure : {A : Type 0} → A → Query S A
  pure a s = (s, ok a)

  abbrev pub resume : {A B : Type 0} → (A → Query S B) → S × ValkeyResult A → S × ValkeyResult B
  resume next (s, ok a) = next a s
  resume next (s, err e) = (s, err e)

  infixl 5 ◌>>=◌
  -- `?`, and the rest of the function.
  abbrev pub ◌>>=◌ : {A B : Type 0} → Query S A → (A → Query S B) → Query S B
  ◌>>=◌ query next s = resume next (query s)

  -- `.await?` on a command.
  abbrev pub send : {A : Type 0} → Command S A → Query S A
  send command s =
      let (s', reply) = command s in elim reply [ ok a ↦ (s', ok a) | err e ↦ (s', err (redis e)) ]

  -- `?` on a result of `serde_json`.
  abbrev pub serde : {A : Type 0} → Result A String → Query S A
  serde (ok a) s = (s, ok a)
  serde (err e) s = (s, err (serialization e))

  send-ok :
      {A : Type 0} (command : Command S A) (s : S) (a : A)
      → (command s).1 ≡ ok a
      → send command s ≡ ((command s).0, ok a)
  send-ok command s a h = rw (send, h) refl

  send-err :
      {A : Type 0} (command : Command S A) (s : S) (e : String)
      → (command s).1 ≡ err e
      → send command s ≡ ((command s).0, err (redis e))
  send-err command s e h = rw (send, h) refl

  -- What follows a command goes on in the state that it leaves.
  pub then-ok :
      {A B : Type 0} (command : Command S A) (next : A → Query S B) (s : S) (a : A)
      → (command s).1 ≡ ok a
      → (send command >>= next) s ≡ next a (command s).0
  then-ok command next s a h = ap (resume next) (send-ok command s a h)

  pub then-err :
      {A B : Type 0} (command : Command S A) (next : A → Query S B) (s : S) (e : String)
      → (command s).1 ≡ err e
      → (send command >>= next) s ≡ ((command s).0, err (redis e))
  then-err command next s e h = ap (resume next) (send-err command s e h)
