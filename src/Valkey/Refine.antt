-- ===== src/Valkey/Refine.antt =====
-- The caches of service-channels through valkey-client behave as the two maps of its model.
use rust_service.Base.{
  ℕ, String, ◌≡◌, refl, ap, ◌∙◌, ◌⊎◌, inl, inr, Bool, true, false, Option, none, some, List, [],
  ◌∷◌, arith, ltb, string_partial_eq, nat_partial_eq, pair_partial_eq, Result, ok, err,
  Option-cases, Result-cases, Bytes, bytes_partial_eq, lookup, insert, remove, lookup-insert,
  lookup-remove, kept,
}
use mathlib.Core.Option
use rust_service.Channels.Routes.{get, set_ex, del}
use rust_service.Valkey.Query.{then-ok, then-err, ValkeyResult, Redis, pure, send}
use rust_service.Valkey.Client
use rust_service.Valkey.Client.{decoded}
use rust_service.Valkey.Keys.{
  channel_key, sub_key, IsUuidText, same-channel_key, same-sub_key, apart-channel_key,
}
use rust_service.Valkey.Caches.{
  IsJson, Wrote, IsRedis, Caches, CacheCall, get_channel, drop_channel, expire_channel, set_channel,
  get_sub, drop_sub, expire_sub, set_sub, Answer, a_channel, a_sub, nothing, model_call, Allowed,
}

-- `if let Ok(Some(value))`.
abbrev pub ok_some : {A : Type 0} → ValkeyResult (Option A) → Option A
ok_some (ok value) = value
ok_some (err e) = none

-- How the texts of the two types of values are written and read, for how long they are kept, and
-- what the server forgets when an entry's time is over.
pub record Setting (S Int Score V : Type 0) : Type 0 where
  pub redis : Redis S Int Score
  pub stored : S → Bytes → Option Bytes
  pub expired : Bytes → S → S
  pub show : ℕ → Bytes
  pub parse : Bytes → Option ℕ
  pub read_to_string : V → Result Bytes String
  pub read_from_str : Bytes → Result V String
  pub bool_to_string : Bool → Result Bytes String
  pub bool_from_str : Bytes → Result Bool String
  pub cache_ttl : ℕ

pub record IsSetting {S Int Score V : Type 0} (w : Setting S Int Score V) : Type 0 where
  pub server : IsRedis w.redis w.stored
  pub expires : (key : Bytes) (s : S) → Wrote (w.stored s) (w.stored (w.expired key s)) key none
  pub uuid : IsUuidText w.show w.parse
  pub reads : IsJson w.read_to_string w.read_from_str
  pub bools : IsJson w.bool_to_string w.bool_from_str

module _ {S Int Score V : Type 0} (w : Setting S Int Score V) where
  -- A call as the handlers make it, on the server.
  abbrev pub client_call : CacheCall V → S → S × Answer V
  client_call (get_channel id) s =
      let (s', reply) = Client.get w.redis w.read_from_str (channel_key w.show id) s in
      (s', a_channel (ok_some reply))
  client_call (drop_channel id) s = ((Client.del w.redis (channel_key w.show id) s).0, nothing)
  client_call (expire_channel id) s = (w.expired (channel_key w.show id) s, nothing)
  client_call (set_channel id read) s = (
    (Client.set_ex w.redis w.read_to_string (channel_key w.show id) read w.cache_ttl s).0,
    nothing,
  )
  client_call (get_sub u ch) s =
      let (s', reply) = Client.get w.redis w.bool_from_str (sub_key w.show u ch) s in
      (s', a_sub (ok_some reply))
  client_call (drop_sub u ch) s = ((Client.del w.redis (sub_key w.show u ch) s).0, nothing)
  client_call (expire_sub u ch) s = (w.expired (sub_key w.show u ch) s, nothing)
  client_call (set_sub u ch b) s =
      ((Client.set_ex w.redis w.bool_to_string (sub_key w.show u ch) b w.cache_ttl s).0, nothing)

  abbrev pub client_calls : List (CacheCall V) → S → S × List (Answer V)
  client_calls [] s = (s, [])
  client_calls (call ∷ calls) s =
      let next = client_call call s in
      let rest = client_calls calls next.0 in (rest.0, next.1 ∷ rest.1)

  module _ (laws : IsSetting w) where
    open laws use {server, expires, uuid, reads, bools}

    -- The server holds the entries of the caches, as JSON under their keys.
    abbrev pub Represents : S → Caches V → Type 0
    Represents s c =
        ((id : ℕ)
          → w.stored s (channel_key w.show id) ≡ Option.map reads.json (lookup id c.channel_cache))
        × ((u ch : ℕ)
            → w.stored s (sub_key w.show u ch) ≡ Option.map bools.json (lookup (u, ch) c.sub_cache))

    unchanged :
        (s s' : S) (c : Caches V)
        → ((k : Bytes) → w.stored s' k ≡ w.stored s k)
        → Represents s c
        → Represents s' c
    unchanged s s' c same held = (
      λ id. same (channel_key w.show id) ∙ held.0 id,
      λ u ch. same (sub_key w.show u ch) ∙ held.1 u ch,
    )

    set_channel-Represents :
        (s s' : S) (c : Caches V) (id : ℕ) (read : V)
        → Wrote (w.stored s) (w.stored s') (channel_key w.show id) (some (reads.json read))
        → Represents s c
        → Represents s' (record c { channel_cache = insert id read c.channel_cache })
    set_channel-Represents s s' c id read wrote held = (
      λ j. ground (
        arith,
        wrote (channel_key w.show j),
        held.0 j,
        same-channel_key w.show w.parse uuid id j,
        lookup-insert id j read c.channel_cache,
      ),
      λ u ch.
          ground
            (arith, wrote (sub_key w.show u ch), held.1 u ch, (apart-channel_key w.show id u ch).0),
    )

    drop_channel-Represents :
        (s s' : S) (c : Caches V) (id : ℕ)
        → Wrote (w.stored s) (w.stored s') (channel_key w.show id) none
        → Represents s c
        → Represents s' (record c { channel_cache = remove id c.channel_cache })
    drop_channel-Represents s s' c id wrote held = (
      λ j. ground (
        arith,
        wrote (channel_key w.show j),
        held.0 j,
        same-channel_key w.show w.parse uuid id j,
        lookup-remove id j c.channel_cache,
      ),
      λ u ch.
          ground
            (arith, wrote (sub_key w.show u ch), held.1 u ch, (apart-channel_key w.show id u ch).0),
    )

    set_sub-Represents :
        (s s' : S) (c : Caches V) (u ch : ℕ) (b : Bool)
        → Wrote (w.stored s) (w.stored s') (sub_key w.show u ch) (some (bools.json b))
        → Represents s c
        → Represents s' (record c { sub_cache = insert (u, ch) b c.sub_cache })
    set_sub-Represents s s' c u ch b wrote held = (
      λ j.
          ground
            (arith, wrote (channel_key w.show j), held.0 j, (apart-channel_key w.show j u ch).1),
      λ v d. ground (
        arith,
        wrote (sub_key w.show v d),
        held.1 v d,
        same-sub_key w.show w.parse uuid u ch v d,
        lookup-insert (u, ch) (v, d) b c.sub_cache,
      ),
    )

    drop_sub-Represents :
        (s s' : S) (c : Caches V) (u ch : ℕ)
        → Wrote (w.stored s) (w.stored s') (sub_key w.show u ch) none
        → Represents s c
        → Represents s' (record c { sub_cache = remove (u, ch) c.sub_cache })
    drop_sub-Represents s s' c u ch wrote held = (
      λ j.
          ground
            (arith, wrote (channel_key w.show j), held.0 j, (apart-channel_key w.show j u ch).1),
      λ v d. ground (
        arith,
        wrote (sub_key w.show v d),
        held.1 v d,
        same-sub_key w.show w.parse uuid u ch v d,
        lookup-remove (u, ch) (v, d) c.sub_cache,
      ),
    )

    get-stored :
        {A : Type 0} (to_string : A → Result Bytes String) (from_str : Bytes → Result A String)
        (law : IsJson to_string from_str) (key : Bytes) (s : S) (found : Option A)
        → w.stored s key ≡ Option.map law.json found
        → ((ok_some (Client.get w.redis from_str key s).1 ≡ found)
            ⊎ (ok_some (Client.get w.redis from_str key s).1 ≡ none))
          × ((k : Bytes) → w.stored (Client.get w.redis from_str key s).0 k ≡ w.stored s k)
    unfolding Client.get decoded
    get-stored to_string from_str law key s found held = elim (Result-cases (w.redis.get key s).1) [
      | inr (e, failed) ↦
          rw (then-err (w.redis.get key) (decoded from_str) s e failed)
            (inr refl, server.get_keeps key s)
      | inl (raw, done) ↦ elim (Option-cases found) [
        | inl empty ↦
            let missing : raw ≡ none =
              ground (arith, server.get_reads key s raw done, held, empty) in
            rw (then-ok (w.redis.get key) (decoded from_str) s raw done, missing)
              (inr refl, server.get_keeps key s)
        | inr (a, full) ↦
            let present : raw ≡ some (law.json a) =
              ground (arith, server.get_reads key s raw done, held, full) in
            rw (then-ok (w.redis.get key) (decoded from_str) s raw done, present, law.read a, full)
              (inl refl, server.get_keeps key s)
      ]
    ]

    set_ex-stored :
        {A : Type 0} (to_string : A → Result Bytes String) (from_str : Bytes → Result A String)
        (law : IsJson to_string from_str) (key : Bytes) (s : S) (a : A)
        → ((k : Bytes)
            → w.stored (Client.set_ex w.redis to_string key a w.cache_ttl s).0 k ≡ w.stored s k)
          ⊎ Wrote
              (w.stored s)
              (w.stored (Client.set_ex w.redis to_string key a w.cache_ttl s).0)
              key
              (some (law.json a))
    unfolding Client.set_ex
    set_ex-stored to_string from_str law key s a =
        elim (Result-cases (w.redis.set_ex key (law.json a) w.cache_ttl s).1) [
          | inr (e, failed) ↦
              rw (law.written a, send, failed)
                (server.set_ex_failed key (law.json a) w.cache_ttl s e failed)
          | inl (tt, done) ↦
              rw (law.written a, send, done)
                (inr (server.set_ex_done key (law.json a) w.cache_ttl s done))
        ]

    del-stored :
        (key : Bytes) (s : S)
        → ((k : Bytes) → w.stored (Client.del w.redis key s).0 k ≡ w.stored s k)
          ⊎ Wrote (w.stored s) (w.stored (Client.del w.redis key s).0) key none
    unfolding Client.del
    del-stored key s = elim (Result-cases (w.redis.del (key ∷ []) s).1) [
      | inr (e, failed) ↦
          rw (then-err (w.redis.del (key ∷ [])) (λ removed. pure (ltb 0 removed)) s e failed)
            (server.del_failed key s e failed)
      | inl (removed, done) ↦
          rw (then-ok (w.redis.del (key ∷ [])) (λ removed. pure (ltb 0 removed)) s removed done)
            (inr (server.del_done key s removed done))
    ]

    call-Represents :
        (call : CacheCall V) (s : S) (c : Caches V)
        → Represents s c
        → (works : Bool) × ((client_call call s).1 ≡ (model_call works call c).1)
          × Represents (client_call call s).0 (model_call works call c).0
    unfolding get set_ex del
    call-Represents (get_channel id) s c held =
        let (answer, same) =
          get-stored w.read_to_string w.read_from_str reads (channel_key w.show id) s
            (lookup id c.channel_cache) (held.0 id) in
        let kept =
          unchanged s (Client.get w.redis w.read_from_str (channel_key w.show id) s).0 c same
            held in
        elim answer [
          | inl hit ↦ (true, ap a_channel hit, kept)
          | inr miss ↦ (false, ap a_channel miss, kept)
        ]
    call-Represents (get_sub u ch) s c held =
        let (answer, same) =
          get-stored w.bool_to_string w.bool_from_str bools (sub_key w.show u ch) s
            (lookup (u, ch) c.sub_cache) (held.1 u ch) in
        let kept =
          unchanged s (Client.get w.redis w.bool_from_str (sub_key w.show u ch) s).0 c same held in
        elim answer [
          | inl hit ↦ (true, ap a_sub hit, kept)
          | inr miss ↦ (false, ap a_sub miss, kept)
        ]
    call-Represents (set_channel id read) s c held =
        let s' =
          (Client.set_ex w.redis w.read_to_string (channel_key w.show id) read w.cache_ttl s).0 in
        elim (set_ex-stored w.read_to_string w.read_from_str reads (channel_key w.show id) s read) [
          | inl same ↦ (false, refl, unchanged s s' c same held)
          | inr wrote ↦ (true, refl, set_channel-Represents s s' c id read wrote held)
        ]
    call-Represents (set_sub u ch b) s c held =
        let s' = (Client.set_ex w.redis w.bool_to_string (sub_key w.show u ch) b w.cache_ttl s).0 in
        elim (set_ex-stored w.bool_to_string w.bool_from_str bools (sub_key w.show u ch) s b) [
          | inl same ↦ (false, refl, unchanged s s' c same held)
          | inr wrote ↦ (true, refl, set_sub-Represents s s' c u ch b wrote held)
        ]
    call-Represents (drop_channel id) s c held =
        let s' = (Client.del w.redis (channel_key w.show id) s).0 in
        elim (del-stored (channel_key w.show id) s) [
          | inl same ↦ (false, refl, unchanged s s' c same held)
          | inr wrote ↦ (true, refl, drop_channel-Represents s s' c id wrote held)
        ]
    call-Represents (drop_sub u ch) s c held =
        let s' = (Client.del w.redis (sub_key w.show u ch) s).0 in
        elim (del-stored (sub_key w.show u ch) s) [
          | inl same ↦ (false, refl, unchanged s s' c same held)
          | inr wrote ↦ (true, refl, drop_sub-Represents s s' c u ch wrote held)
        ]
    call-Represents (expire_channel id) s c held = (
      true,
      refl,
      drop_channel-Represents s (w.expired (channel_key w.show id) s) c id
          (expires (channel_key w.show id) s) held,
    )
    call-Represents (expire_sub u ch) s c held = (
      true,
      refl,
      drop_sub-Represents s (w.expired (sub_key w.show u ch) s) c u ch
          (expires (sub_key w.show u ch) s) held,
    )

    -- Whatever cache calls the handlers make through the client, one after another and with entries
    -- that expire between them, the answers are ones that the two maps of the handlers' model give,
    -- where each call of the cache answers or not, and the server then holds the entries of these
    -- maps. It needs a server that represents them at the start and behaves as Redis documents, also
    -- where a reply is an error, JSON that reads back, and Uuid texts of 36 bytes that parse back.
    pub caches_refine :
        (calls : List (CacheCall V)) (s : S) (c : Caches V)
        → Represents s c
        → (last : Caches V) × Allowed calls c (client_calls calls s).1 last
          × Represents (client_calls calls s).0 last
    caches_refine [] s c held = (c, (refl, refl), held)
    caches_refine (call ∷ calls) s c held =
        let (works, answered, kept) = call-Represents call s c held in
        let next = client_call call s in
        let (last, allowed, end) = caches_refine calls next.0 (model_call works call c).0 kept in
        (
          last,
          (
            works,
            (client_calls calls next.0).1,
            ap (λ a. a ∷ (client_calls calls next.0).1) answered,
            allowed,
          ),
          end,
        )
