-- ===== src/Valkey/Caches.antt =====
-- The caches of service-channels in a Redis server: what the calls of valkey-client do to the two
-- maps of Channels/Routes.antt. `V` is the type of a cached channel.
use rust_service.Base.{
  ℕ, String, ◌≡◌, ◌⊎◌, Bool, Option, none, some, List, [], ◌∷◌, if◌then◌else◌, string_partial_eq,
  nat_partial_eq, pair_partial_eq, Result, ok, err, Bytes, same_bytes, bytes_partial_eq, Map,
  remove,
}
use rust_service.Channels.Routes.{get, set_ex, del}
use rust_service.Valkey.Query.{Redis}

-- What a value is written as is read as the value.
pub record IsJson {A : Type 0} (to_string : A → Result Bytes String)
    (from_str : Bytes → Result A String) : Type 0 where
  pub json : A → Bytes
  pub written : (a : A) → to_string a ≡ ok (json a)
  pub read : (a : A) → from_str (json a) ≡ ok a

-- The keys and the texts under them after a write of one key, or before it.
abbrev pub Wrote : (before after : Bytes → Option Bytes) → Bytes → Option Bytes → Type 0
Wrote before after key value =
    (k : Bytes) → after k ≡ (if same_bytes key k then value else before k)

-- What the documentation of Redis says of the three commands. `stored` is the text under a key that
-- has not expired. A command whose reply is an error was carried out or not.
pub record IsRedis {S Int Score : Type 0} (redis : Redis S Int Score)
    (stored : S → Bytes → Option Bytes) : Type 0 where
  pub get_reads :
      (key : Bytes) (s : S) (raw : Option Bytes) → (redis.get key s).1 ≡ ok raw → raw ≡ stored s key
  pub get_keeps : (key : Bytes) (s : S) (k : Bytes) → stored (redis.get key s).0 k ≡ stored s k
  pub set_ex_done :
      (key value : Bytes) (ttl : ℕ) (s : S)
      → (redis.set_ex key value ttl s).1 ≡ ok tt
      → Wrote (stored s) (stored (redis.set_ex key value ttl s).0) key (some value)
  pub set_ex_failed :
      (key value : Bytes) (ttl : ℕ) (s : S) (e : String)
      → (redis.set_ex key value ttl s).1 ≡ err e
      → ((k : Bytes) → stored (redis.set_ex key value ttl s).0 k ≡ stored s k)
        ⊎ Wrote (stored s) (stored (redis.set_ex key value ttl s).0) key (some value)
  pub del_done :
      (key : Bytes) (s : S) (removed : ℕ)
      → (redis.del (key ∷ []) s).1 ≡ ok removed
      → Wrote (stored s) (stored (redis.del (key ∷ []) s).0) key none
  pub del_failed :
      (key : Bytes) (s : S) (e : String)
      → (redis.del (key ∷ []) s).1 ≡ err e
      → ((k : Bytes) → stored (redis.del (key ∷ []) s).0 k ≡ stored s k)
        ⊎ Wrote (stored s) (stored (redis.del (key ∷ []) s).0) key none

-- The two caches of `ServerData`.
pub record Caches (V : Type 0) : Type 0 where
  pub channel_cache : Map ℕ V
  pub sub_cache : Map (ℕ × ℕ) Bool

-- The calls of the handlers, and the end of an entry's time.
pub data CacheCall (V : Type 0) : Type 0 where
  get_channel drop_channel expire_channel : (id : ℕ) → CacheCall V
  set_channel : (id : ℕ) → V → CacheCall V
  get_sub drop_sub expire_sub : (user channel : ℕ) → CacheCall V
  set_sub : (user channel : ℕ) → Bool → CacheCall V

pub data Answer (V : Type 0) : Type 0 where
  a_channel : Option V → Answer V
  a_sub : Option Bool → Answer V
  nothing : Answer V

-- A call of the handlers' model, with whether the cache answers it.
abbrev pub model_call : {V : Type 0} → Bool → CacheCall V → Caches V → Caches V × Answer V
model_call works (get_channel id) c = (c, a_channel (get works id c.channel_cache))
model_call works (drop_channel id) c =
    (record c { channel_cache = del works id c.channel_cache }, nothing)
model_call works (expire_channel id) c =
    (record c { channel_cache = remove id c.channel_cache }, nothing)
model_call works (set_channel id read) c =
    (record c { channel_cache = set_ex works id read c.channel_cache }, nothing)
model_call works (get_sub u ch) c = (c, a_sub (get works (u, ch) c.sub_cache))
model_call works (drop_sub u ch) c =
    (record c { sub_cache = del works (u, ch) c.sub_cache }, nothing)
model_call works (expire_sub u ch) c =
    (record c { sub_cache = remove (u, ch) c.sub_cache }, nothing)
model_call works (set_sub u ch b) c =
    (record c { sub_cache = set_ex works (u, ch) b c.sub_cache }, nothing)

-- The answers and the caches that the model allows for a list of calls.
abbrev pub Allowed :
    {V : Type 0} → List (CacheCall V) → Caches V → List (Answer V) → Caches V → Type 0
Allowed [] c answers last = (answers ≡ []) × (last ≡ c)
Allowed {V} (call ∷ calls) c answers last =
    (works : Bool) × (rest : List (Answer V)) × (answers ≡ (model_call works call c).1 ∷ rest)
    × Allowed calls (model_call works call c).0 rest last
