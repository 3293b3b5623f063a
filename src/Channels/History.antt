-- ===== src/Channels/History.antt =====
-- Histories of service-channels in which the cache answers.
use rust_service.Base.{
  ℕ, String, Bool, true, Option, List, [], ◌∷◌, string_partial_eq, nat_partial_eq, pair_partial_eq,
  lookup,
}
use rust_service.Channels.Store.{Faults}
use rust_service.Channels.Routes.{ServerData}
use rust_service.Channels.Ownership.{IsValid}
use rust_service.Channels.Server.{
  Request, create, read, check, update, delete, subscribe, unsubscribe, transfer, expire_channel,
  expire_sub, serve, run,
}
use rust_service.Channels.Runs.{started, started-IsValid, serve-IsValid}
use rust_service.Channels.Coherence.{IsCoherent}
use rust_service.Channels.Fresh.{
  after_create, after_read, after_check, after_update, after_delete, after_subscribe,
  after_unsubscribe, after_transfer, after_expiry,
}

-- The history in which every call of the cache answers.
abbrev pub with_cache : List (Faults × Request) → List (Faults × (ℕ → Bool) × Request)
with_cache [] = []
with_cache ((faults, request) ∷ requests) = (faults, λ i. true, request) ∷ with_cache requests

module _ (parse_uuid : String → Option ℕ) (text : ℕ → String) where
  serve-IsCoherent :
      (faults : Faults) (state : ServerData) (request : Request)
      → IsValid state.tables
      → IsCoherent state
      → IsCoherent (serve parse_uuid text faults (λ i. true) state request)
  serve-IsCoherent faults state (create h request channel sub now) v a =
      after_create parse_uuid text faults state v a h request channel sub now
  serve-IsCoherent faults state (read channel) v a =
      after_read parse_uuid text faults state v a channel
  serve-IsCoherent faults state (check h channel) v a =
      after_check parse_uuid text faults state v a h channel
  serve-IsCoherent faults state (update h channel patch now) v a =
      after_update parse_uuid text faults state v a h channel patch now
  serve-IsCoherent faults state (delete h channel) v a =
      after_delete parse_uuid text faults state v a h channel
  serve-IsCoherent faults state (subscribe h channel sub) v a =
      after_subscribe parse_uuid text faults state v a h channel sub
  serve-IsCoherent faults state (unsubscribe h channel) v a =
      after_unsubscribe parse_uuid text faults state v a h channel
  serve-IsCoherent faults state (transfer h channel target) v a =
      after_transfer parse_uuid text faults state v a h channel target
  serve-IsCoherent faults state (expire_channel channel) v a =
      (after_expiry parse_uuid text faults state v a 0 channel).0
  serve-IsCoherent faults state (expire_sub user channel) v a =
      (after_expiry parse_uuid text faults state v a user channel).1

  run-Coherent :
      (state : ServerData) (requests : List (Faults × Request))
      → IsValid state.tables
      → IsCoherent state
      → IsCoherent (run parse_uuid text state (with_cache requests))
  unfolding run
  run-Coherent state [] v a = a
  run-Coherent state ((faults, request) ∷ requests) v a =
      run-Coherent (serve parse_uuid text faults (λ i. true) state request) requests
        (serve-IsValid parse_uuid text faults (λ i. true) state request v)
        (serve-IsCoherent faults state request v a)

  -- In every history of requests, one after another, that starts with empty tables and caches and
  -- in which the calls of the cache answer, a cached channel is the stored one and a cached
  -- subscription says whether the user has a row, also where statements of the database fail.
  pub cache_agrees :
      (requests : List (Faults × Request))
      → IsCoherent (run parse_uuid text started (with_cache requests))
  unfolding lookup
  cache_agrees requests = run-Coherent started requests started-IsValid (λ c r e. cc, λ u c b e. cc)
