-- ===== src/Channels/Indexed.antt =====
-- The search index of service-channels over its histories, and what a search finds there.
use rust_service.Base.{
  ℕ, ◌+◌, String, ◌≡◌, Bool, Option, some, List, [], ◌∷◌, arith, string_partial_eq, nat_partial_eq,
  pair_partial_eq, inl, inr, Result-cases, lookup, refl,
}
use rust_service.Channels.Schemas.{CreateChannel, UpdateChannel}
use rust_service.Channels.Tables.{find_channel, delete_cascade}
use rust_service.Channels.Store.{Faults}
use rust_service.Channels.Routes.{Header, ServerData}
use rust_service.Channels.Routes
use rust_service.Channels.Invariant.{unsubscribe-ok}
use rust_service.Channels.Handlers.{
  create_channel-ok, update_channel-ok, delete_channel-ok, subscribe-ok, unsubscribe-done,
  transfer_ownership-done, get_channel-ok, check_subscription-ok,
}
use rust_service.Channels.Server.{
  Request, create, read, check, update, delete, subscribe, unsubscribe, transfer, expire_channel,
  expire_sub, after, after_answer, serve, run,
}
use rust_service.Channels.Cache.{
  subscribe-Changed, create-rows, update-rows, delete-rows, transfer-same,
}
use rust_service.Channels.Runs.{started}
use rust_service.Channels.Search.{replay}
use rust_service.Channels.Index.{
  all_answered, IsMirror, IsMirror-insert, IsMirror-updated, IsMirror-removed,
}

module _ (show : ℕ → String) (parse_uuid : String → Option ℕ)
    (parses : (n : ℕ) → parse_uuid (show n) ≡ some n) (text : ℕ → String) where
  -- The index that the calls made so far have left.
  abbrev pub IsIndexed : ServerData → Type 0
  IsIndexed state = IsMirror show (replay show all_answered state.sent) state.tables.channels

  module _ (faults : Faults) (cached : ℕ → Bool) (state : ServerData)
      (indexed : IsIndexed state) where
    step_create :
        (h : Header) (request : CreateChannel) (channel sub now : ℕ)
        → IsIndexed (serve parse_uuid text faults cached state (create h request channel sub now))
    unfolding serve after_answer
    step_create h request channel sub now =
        elim (Result-cases
          (Routes.create_channel parse_uuid text faults cached state h request channel sub now)) [
            | inr (e, f) ↦ rw f indexed
            | inl ((next, answer), f) ↦
                let (user, made, named, stored, same) =
                  create_channel-ok parse_uuid text faults cached state next h request channel sub
                    now answer f in
                rw
                  (
                    f,
                    same,
                    (create-rows faults state.tables user request channel sub now made stored).0,
                  )
                  (IsMirror-insert show parse_uuid parses made.1 state.tables.channels state.sent
                    indexed)
          ]

    step_read : (channel : ℕ) → IsIndexed (serve parse_uuid text faults cached state (read channel))
    unfolding serve after_answer
    step_read channel =
        elim (Result-cases (Routes.get_channel parse_uuid text faults cached state channel)) [
          | inr (e, f) ↦ rw f indexed
          | inl ((next, answer), f) ↦
              elim (get_channel-ok parse_uuid text faults cached state next Header.absent channel
                answer f) [
                  | inl (same, hit) ↦ rw (f, same) indexed
                  | inr (ch, stored, shown, same) ↦ rw (f, same) indexed
                ]
        ]

    step_check :
        (h : Header) (channel : ℕ)
        → IsIndexed (serve parse_uuid text faults cached state (check h channel))
    unfolding serve after_answer
    step_check h channel =
        elim (Result-cases
          (Routes.check_subscription parse_uuid text faults cached state h channel)) [
            | inr (e, f) ↦ rw f indexed
            | inl ((next, answer), f) ↦
                elim (check_subscription-ok parse_uuid text faults cached state next h channel
                  answer f).2 [
                    | inl (same, hit) ↦ rw (f, same) indexed
                    | inr (stored, same) ↦ rw (f, same) indexed
                  ]
          ]

    step_update :
        (h : Header) (channel : ℕ) (patch : UpdateChannel) (now : ℕ)
        → IsIndexed (serve parse_uuid text faults cached state (update h channel patch now))
    unfolding serve after_answer replay
    step_update h channel patch now =
        elim (Result-cases
          (Routes.update_channel parse_uuid text faults cached state h channel patch now)) [
            | inr (e, f) ↦ rw f indexed
            | inl ((next, answer), f) ↦
                let (user, done, named, owner, stored, same) =
                  update_channel-ok parse_uuid text faults cached state next h channel patch now
                    answer f in
                let (ch, found, e) =
                  update-rows text (λ i. faults (i + 1)) state.tables channel patch now done
                    stored in
                rw (f, same, e)
                  (IsMirror-updated show parse_uuid parses channel now patch ch
                    state.tables.channels state.sent found indexed)
          ]

    step_delete :
        (h : Header) (channel : ℕ)
        → IsIndexed (serve parse_uuid text faults cached state (delete h channel))
    unfolding serve after delete_cascade replay
    step_delete h channel =
        elim (Result-cases (Routes.delete_channel parse_uuid text faults cached state h channel)) [
          | inr (e, f) ↦ rw f indexed
          | inl (next, f) ↦
              let (user, users, left, named, owner, all, stored, same) =
                delete_channel-ok parse_uuid text faults cached state next h channel f in
              rw (f, same, delete-rows text (λ i. faults (i + 2)) state.tables left channel stored)
                (IsMirror-removed show parse_uuid parses channel state.tables.channels state.sent
                  indexed)
        ]

    step_subscribe :
        (h : Header) (channel sub : ℕ)
        → IsIndexed (serve parse_uuid text faults cached state (subscribe h channel sub))
    unfolding serve after replay
    step_subscribe h channel sub =
        elim (Result-cases (Routes.subscribe parse_uuid text faults cached state h channel sub)) [
          | inr (e, f) ↦ rw f indexed
          | inl (next, f) ↦
              let (user, joined, named, stored, same) =
                subscribe-ok parse_uuid text faults cached state next h channel sub f in
              rw (f, same, (subscribe-Changed faults state.tables joined user channel sub stored).0)
                indexed
        ]

    step_unsubscribe :
        (h : Header) (channel : ℕ)
        → IsIndexed (serve parse_uuid text faults cached state (unsubscribe h channel))
    unfolding serve after replay
    step_unsubscribe h channel =
        elim (Result-cases (Routes.unsubscribe parse_uuid text faults cached state h channel)) [
          | inr (e, f) ↦ rw f indexed
          | inl (next, f) ↦
              let (user, left, named, stored, same) =
                unsubscribe-done parse_uuid text faults cached state next h channel f in
              let (r, found, plain, e) =
                unsubscribe-ok faults state.tables left user channel stored in
              rw (f, same, e) indexed
        ]

    step_transfer :
        (h : Header) (channel target : ℕ)
        → IsIndexed (serve parse_uuid text faults cached state (transfer h channel target))
    unfolding serve after
    step_transfer h channel target =
        elim (Result-cases
          (Routes.transfer_ownership parse_uuid text faults cached state h channel target)) [
            | inr (e, f) ↦ rw f indexed
            | inl (next, f) ↦
                let (user, moved, named, stored, same) =
                  transfer_ownership-done parse_uuid text faults cached state next h channel target
                    f in
                rw (f, same, (transfer-same faults state.tables moved channel user target stored).0)
                  indexed
          ]

    serve-IsIndexed :
        (request : Request) → IsIndexed (serve parse_uuid text faults cached state request)
    unfolding serve
    serve-IsIndexed (create h request channel sub now) = step_create h request channel sub now
    serve-IsIndexed (read channel) = step_read channel
    serve-IsIndexed (check h channel) = step_check h channel
    serve-IsIndexed (update h channel patch now) = step_update h channel patch now
    serve-IsIndexed (delete h channel) = step_delete h channel
    serve-IsIndexed (subscribe h channel sub) = step_subscribe h channel sub
    serve-IsIndexed (unsubscribe h channel) = step_unsubscribe h channel
    serve-IsIndexed (transfer h channel target) = step_transfer h channel target
    serve-IsIndexed (expire_channel channel) = indexed
    serve-IsIndexed (expire_sub user channel) = indexed

  run-IsIndexed :
      (state : ServerData) (requests : List (Faults × (ℕ → Bool) × Request))
      → IsIndexed state
      → IsIndexed (run parse_uuid text state requests)
  unfolding run
  run-IsIndexed state [] i = i
  run-IsIndexed state ((faults, cached, request) ∷ requests) i =
      run-IsIndexed (serve parse_uuid text faults cached state request) requests
        (serve-IsIndexed faults cached state i request)

  -- In every history of requests, one after another, that starts with empty tables and an empty
  -- index and in which the search engine carries out every call, its documents are those of the
  -- stored channels and no others, also where statements of the database or calls of the cache fail.
  pub index_mirrors :
      (requests : List (Faults × (ℕ → Bool) × Request))
      → IsMirror show
          (replay show all_answered (run parse_uuid text started requests).sent)
          (run parse_uuid text started requests).tables.channels
  unfolding replay find_channel lookup
  index_mirrors requests =
      run-IsIndexed started requests (λ c. refl, λ key doc h. absurd (ground (arith, h)))
