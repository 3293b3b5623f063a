-- ===== src/Valkey/Tests.antt =====
-- A server that holds texts alone, and the theorem on the caches there.
use rust_service.Base.{
  ℕ, zero, suc, String, ◌≡◌, refl, Bool, true, false, Option, none, some, List, [], ◌∷◌, arith,
  if◌then◌else◌, string_partial_eq, nat_partial_eq, pair_partial_eq, Result, ok, err, Bytes, length,
  bytes_of, bytes_partial_eq, Map, keys, lookup, insert, remove, lookup-insert, lookup-remove,
}
use rust_service.Valkey.Query.{Command, Redis}
use rust_service.Valkey.Client
use rust_service.Valkey.Client.{decoded, or_false}
use rust_service.Valkey.Keys.{channel_key, sub_key}
use rust_service.Valkey.Caches.{
  IsJson, IsRedis, Caches, CacheCall, get_channel, set_channel, get_sub, drop_sub, set_sub,
  a_channel, a_sub, nothing, Allowed,
}
use rust_service.Valkey.Refine.{Setting, IsSetting, client_calls, Represents, caches_refine}

abbrev Server : Type 0
Server = Map Bytes Bytes

abbrev refuse : {A : Type 0} → Command Server A
refuse s = (s, err "ERR unknown command")

abbrev remove_all : List Bytes → Server → Server
remove_all [] s = s
remove_all (key ∷ keys) s = remove_all keys (remove key s)

abbrev server : Redis Server ℕ ℕ
server = record {
  get = λ key s. (s, ok (lookup key s));
  set = λ key value s. (insert key value s, ok tt);
  set_ex = λ key value ttl s. (insert key value s, ok tt);
  set_nx_ex = λ key value ttl. refuse;
  mget = λ keys. refuse;
  mset = λ pairs. refuse;
  del = λ keys s. (remove_all keys s, ok (length keys));
  exists = λ key. refuse;
  expire = λ key secs. refuse;
  ttl = λ key. refuse;
  incr = λ key delta. refuse;
  hset = λ key field value. refuse;
  hget = λ key field. refuse;
  hgetall = λ key. refuse;
  hset_multiple = λ key fields. refuse;
  hdel = λ key fields. refuse;
  hexists = λ key field. refuse;
  hincr = λ key field delta. refuse;
  lpush = λ key value. refuse;
  rpush = λ key value. refuse;
  lpop = λ key. refuse;
  rpop = λ key. refuse;
  lrange = λ key start stop. refuse;
  llen = λ key. refuse;
  zadd = λ key member score. refuse;
  zrem = λ key members. refuse;
  zscore = λ key member. refuse;
  zcard = λ key. refuse;
  sadd = λ key members. refuse;
  srem = λ key members. refuse;
  smembers = λ key. refuse;
  sismember = λ key member. refuse;
  scard = λ key. refuse;
  publish = λ channel message. refuse;
  ping = λ s. (s, ok (bytes_of "PONG"));
}

-- A Uuid is its number before 35 zeros.
abbrev zeros : ℕ → Bytes
zeros zero = []
zeros (suc n) = 0 ∷ zeros n

abbrev parse : Bytes → Option ℕ
parse [] = none
parse (n ∷ rest) = some n

abbrev bool_from : Bytes → Result Bool String
bool_from (zero ∷ rest) = ok false
bool_from (suc n ∷ rest) = ok true
bool_from [] = err "EOF while parsing a value"

abbrev number_from : Bytes → Result ℕ String
number_from (n ∷ rest) = ok n
number_from [] = err "EOF while parsing a value"

abbrev toy : Setting Server ℕ ℕ ℕ
toy = record {
  redis = server;
  stored = λ s key. lookup key s;
  expired = λ key s. remove key s;
  show = λ n. n ∷ zeros 35;
  parse = parse;
  read_to_string = λ n. ok (n ∷ []);
  read_from_str = number_from;
  bool_to_string = λ b. ok (if b then 1 ∷ [] else 0 ∷ []);
  bool_from_str = bool_from;
  cache_ttl = 300;
}

server-IsRedis : IsRedis toy.redis toy.stored
server-IsRedis = record {
  get_reads = λ key s raw e. ground (arith, e);
  get_keeps = λ key s k. refl;
  set_ex_done = λ key value ttl s e k. lookup-insert key k value s;
  set_ex_failed = λ key value ttl s e h. absurd (ground (arith, h));
  del_done = λ key s removed e k. lookup-remove key k s;
  del_failed = λ key s e h. absurd (ground (arith, h));
}

-- Projections of these laws stand in statements.
abbrev number_json : IsJson toy.read_to_string toy.read_from_str
number_json = record { json = λ n. n ∷ []; written = λ n. refl; read = λ n. refl }

bool_reads : (b : Bool) → bool_from (if b then 1 ∷ [] else 0 ∷ []) ≡ ok b
bool_reads true = refl
bool_reads false = refl

abbrev bool_json : IsJson toy.bool_to_string toy.bool_from_str
bool_json = record {
  json = λ b. if b then 1 ∷ [] else 0 ∷ [];
  written = λ b. refl;
  read = bool_reads;
}

abbrev toy-IsSetting : IsSetting toy
toy-IsSetting = record {
  server = server-IsRedis;
  expires = λ key s k. lookup-remove key k s;
  uuid = record { parses = λ n. refl; wide = λ n. refl };
  reads = number_json;
  bools = bool_json;
}

abbrev calls : List (CacheCall ℕ)
calls = set_channel 7 5 ∷ set_sub 1 7 true ∷ get_channel 7 ∷ drop_sub 1 7 ∷ get_sub 1 7 ∷ []

abbrev no_entries : Caches ℕ
no_entries = record { channel_cache = []; sub_cache = [] }

answers_run :
    (client_calls toy calls []).1
    ≡ nothing ∷ nothing ∷ a_channel (some 5) ∷ nothing ∷ a_sub none ∷ []
unfolding Client.get Client.set_ex Client.del decoded channel_key sub_key lookup insert remove
answers_run = refl

nothing_stored : Represents toy toy-IsSetting [] no_entries
unfolding lookup
nothing_stored = (λ id. refl, λ u ch. refl)

caches_refine_example :
    (last : Caches ℕ) × Allowed calls no_entries (client_calls toy calls []).1 last
    × Represents toy toy-IsSetting (client_calls toy calls []).0 last
caches_refine_example = caches_refine toy toy-IsSetting calls [] no_entries nothing_stored

-- A refused command reads as a key that is taken.
refused_lock : (Client.set_nx server toy.bool_to_string (bytes_of "lock") true 5 []).1 ≡ ok false
unfolding Client.set_nx or_false
refused_lock = refl
