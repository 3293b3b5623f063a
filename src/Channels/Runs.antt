-- ===== src/Channels/Runs.antt =====
-- The tables stay valid in every history of service-channels.
use rust_service.Base.{
  ℕ, ◌+◌, String, inl, inr, Bool, Option, List, [], ◌∷◌, string_partial_eq, nat_partial_eq,
  pair_partial_eq, Result-cases,
}
use rust_service.Channels.Tables.{find_channel}
use rust_service.Channels.Store.{Faults}
use rust_service.Channels.Routes.{Header, ServerData}
use rust_service.Channels.Routes
use rust_service.Channels.Ownership.{IsValid}
use rust_service.Channels.Invariant.{
  subscribe-IsValid, create_channel-IsValid, unsubscribe-IsValid, delete_channel-IsValid,
  update_channel-IsValid, transfer_ownership-IsValid,
}
use rust_service.Channels.Handlers.{
  create_channel-ok, update_channel-ok, delete_channel-ok, subscribe-ok, unsubscribe-done,
  transfer_ownership-done, get_channel-ok, check_subscription-ok,
}
use rust_service.Channels.Server.{
  Request, create, read, check, update, delete, subscribe, unsubscribe, transfer, expire_channel,
  expire_sub, after, after_answer, serve, run,
}

-- A state with no channel and no entry in its caches.
abbrev pub started : ServerData
started = record {
  tables = record { channels = []; subscribers = [] };
  channel_cache = [];
  sub_cache = [];
  sent = [];
}

pub started-IsValid : IsValid started.tables
unfolding find_channel
started-IsValid = (tt, tt, λ c e. cc)

module _ (parse_uuid : String → Option ℕ) (text : ℕ → String) where
  pub serve-IsValid :
      (faults : Faults) (cached : ℕ → Bool) (state : ServerData) (request : Request)
      → IsValid state.tables
      → IsValid (serve parse_uuid text faults cached state request).tables
  unfolding serve after_answer after
  serve-IsValid faults cached state (create h request channel sub now) valid =
      elim (Result-cases
        (Routes.create_channel parse_uuid text faults cached state h request channel sub now)) [
          | inr (e, f) ↦ rw f valid
          | inl ((next, answer), f) ↦
              let (user, made, named, stored, same) =
                create_channel-ok parse_uuid text faults cached state next h request channel sub now
                  answer f in
              rw (f, same)
                (create_channel-IsValid faults state.tables user request channel sub now made valid
                  stored)
        ]
  serve-IsValid faults cached state (read channel) valid =
      elim (Result-cases (Routes.get_channel parse_uuid text faults cached state channel)) [
        | inr (e, f) ↦ rw f valid
        | inl ((next, answer), f) ↦
            elim (get_channel-ok parse_uuid text faults cached state next Header.absent channel
              answer f) [
                | inl (same, hit) ↦ rw (f, same) valid
                | inr (c, stored, shown, same) ↦ rw (f, same) valid
              ]
      ]
  serve-IsValid faults cached state (check h channel) valid =
      elim (Result-cases
        (Routes.check_subscription parse_uuid text faults cached state h channel)) [
          | inr (e, f) ↦ rw f valid
          | inl ((next, answer), f) ↦
              let (user, named, outcome) =
                check_subscription-ok parse_uuid text faults cached state next h channel answer f in
              elim outcome [
                | inl (same, hit) ↦ rw (f, same) valid
                | inr (stored, same) ↦ rw (f, same) valid
              ]
        ]
  serve-IsValid faults cached state (update h channel patch now) valid =
      elim (Result-cases
        (Routes.update_channel parse_uuid text faults cached state h channel patch now)) [
          | inr (e, f) ↦ rw f valid
          | inl ((next, answer), f) ↦
              let (user, done, named, owner, stored, same) =
                update_channel-ok parse_uuid text faults cached state next h channel patch now
                  answer f in
              rw (f, same)
                (update_channel-IsValid text (λ i. faults (i + 1)) state.tables channel patch now
                  done valid stored)
        ]
  serve-IsValid faults cached state (delete h channel) valid =
      elim (Result-cases (Routes.delete_channel parse_uuid text faults cached state h channel)) [
        | inr (e, f) ↦ rw f valid
        | inl (next, f) ↦
            let (user, users, left, named, owner, listed, stored, same) =
              delete_channel-ok parse_uuid text faults cached state next h channel f in
            rw (f, same)
              (delete_channel-IsValid text (λ i. faults (i + 2)) state.tables left channel valid
                stored)
      ]
  serve-IsValid faults cached state (subscribe h channel sub) valid =
      elim (Result-cases (Routes.subscribe parse_uuid text faults cached state h channel sub)) [
        | inr (e, f) ↦ rw f valid
        | inl (next, f) ↦
            let (user, joined, named, stored, same) =
              subscribe-ok parse_uuid text faults cached state next h channel sub f in
            rw (f, same)
              (subscribe-IsValid faults state.tables joined user channel sub valid stored)
      ]
  serve-IsValid faults cached state (unsubscribe h channel) valid =
      elim (Result-cases (Routes.unsubscribe parse_uuid text faults cached state h channel)) [
        | inr (e, f) ↦ rw f valid
        | inl (next, f) ↦
            let (user, left, named, stored, same) =
              unsubscribe-done parse_uuid text faults cached state next h channel f in
            rw (f, same) (unsubscribe-IsValid faults state.tables left user channel valid stored)
      ]
  serve-IsValid faults cached state (transfer h channel target) valid =
      elim (Result-cases
        (Routes.transfer_ownership parse_uuid text faults cached state h channel target)) [
          | inr (e, f) ↦ rw f valid
          | inl (next, f) ↦
              let (user, moved, named, stored, same) =
                transfer_ownership-done parse_uuid text faults cached state next h channel target
                  f in
              rw (f, same)
                (transfer_ownership-IsValid faults state.tables moved channel user target valid
                  stored)
        ]
  serve-IsValid faults cached state (expire_channel channel) valid = valid
  serve-IsValid faults cached state (expire_sub user channel) valid = valid

  run-Valid :
      (state : ServerData) (requests : List (Faults × (ℕ → Bool) × Request))
      → IsValid state.tables
      → IsValid (run parse_uuid text state requests).tables
  unfolding run
  run-Valid state [] valid = valid
  run-Valid state ((faults, cached, request) ∷ requests) valid =
      run-Valid (serve parse_uuid text faults cached state request) requests
        (serve-IsValid faults cached state request valid)

  -- In every history of requests, one after another, that starts with empty tables, with any
  -- statements of the database and calls of the cache failing, each channel has exactly one owner, a
  -- user has one row in a channel, no two rows of subscribers have one id, and a row refers to a
  -- channel that exists.
  pub one_owner :
      (requests : List (Faults × (ℕ → Bool) × Request))
      → IsValid (run parse_uuid text started requests).tables
  one_owner requests = run-Valid started requests started-IsValid
