-- ===== src/Channels/Fresh.antt =====
-- The caches of service-channels in every history in which the cache answers.
use rust_service.Base.{
  ℕ, ◌+◌, String, ◌≡◌, inl, inr, Bool, true, false, Option, some, List, arith, string_partial_eq,
  nat_partial_eq, pair_partial_eq, ok, Result-cases, is_some, lookup-remove,
}
use rust_service.Channels.Schemas.{Channel, CreateChannel, UpdateChannel}
use rust_service.Channels.Tables.{
  Tables, find_channel, find_subscriber, users_of, delete_id, delete_cascade,
}
use rust_service.Channels.Store.{Faults, statement, ok_or, reject_if}
use rust_service.Channels.Store
use rust_service.Channels.Routes.{Header, ServerData, set_ex, del, del_all, get}
use rust_service.Channels.Routes
use rust_service.Channels.Ownership.{IsValid}
use rust_service.Channels.Invariant.{unsubscribe-ok}
use rust_service.Channels.Handlers.{
  create_channel-ok, update_channel-ok, delete_channel-ok, subscribe-ok, unsubscribe-done,
  transfer_ownership-done, get_channel-ok, check_subscription-ok,
}
use rust_service.Channels.Server.{
  create, read, check, update, delete, subscribe, unsubscribe, transfer, expire_channel, expire_sub,
  after, after_answer, serve,
}
use rust_service.Channels.Coherence.{
  IsCoherent, ChannelsAgree-insert, find_subscriber-delete, ChannelsAgree-set,
  ChannelsAgree-updated, ChannelsAgree-removed, ChannelsAgree-expired, SubsAgree-set,
  SubsAgree-removed, SubsAgree-cascade, SubsAgree-same,
}
use rust_service.Channels.Cache.{
  Changed-same, subscribe-Changed, create-rows, update-rows, delete-rows, transfer-same,
}

get_channel-found :
    (text : ℕ → String) (faults : Faults) (t : Tables) (channel : ℕ) (ch : Channel)
    → Store.get_channel text faults t channel ≡ ok ch
    → find_channel channel t.channels ≡ some ch
unfolding Store.get_channel statement ok_or
get_channel-found text faults t channel ch h = ground arith

is_subscriber-found :
    (faults : Faults) (t : Tables) (user channel : ℕ) (b : Bool)
    → Store.is_subscriber faults t user channel ≡ ok b
    → is_some (find_subscriber user channel t.subscribers) ≡ b
unfolding Store.is_subscriber statement
is_subscriber-found faults t user channel b h = ground arith

listed :
    (faults : Faults) (t : Tables) (channel : ℕ) (users : List ℕ)
    → Store.get_all_subscriber_ids faults t channel ≡ ok users
    → users ≡ users_of channel t.subscribers
unfolding Store.get_all_subscriber_ids statement
listed faults t channel users h = ground arith

abbrev answers : ℕ → Bool
answers i = true

module _ (parse_uuid : String → Option ℕ) (text : ℕ → String) (faults : Faults) (state : ServerData)
    (valid : IsValid state.tables) (agree : IsCoherent state) where
  pub after_create :
      (h : Header) (request : CreateChannel) (channel sub now : ℕ)
      → IsCoherent (serve parse_uuid text faults answers state (create h request channel sub now))
  unfolding serve after_answer set_ex
  after_create h request channel sub now =
      elim (Result-cases
        (Routes.create_channel parse_uuid text faults answers state h request channel sub now)) [
          | inr (e, f) ↦ rw f agree
          | inl ((next, answer), f) ↦
              let (user, made, named, stored, same) =
                create_channel-ok parse_uuid text faults answers state next h request channel sub
                  now answer f in
              let rows = create-rows faults state.tables user request channel sub now made stored in
              rw (f, same)
                (
                  rw rows.0 (
                      ChannelsAgree-insert made.1 state.tables.channels state.channel_cache
                        agree.0),
                  SubsAgree-set user made.1.id true state.tables.subscribers made.0.subscribers
                      state.sub_cache rows.1 agree.1,
                )
        ]

  pub after_read :
      (channel : ℕ) → IsCoherent (serve parse_uuid text faults answers state (read channel))
  unfolding serve after_answer set_ex
  after_read channel =
      elim (Result-cases (Routes.get_channel parse_uuid text faults answers state channel)) [
        | inr (e, f) ↦ rw f agree
        | inl ((next, answer), f) ↦
            elim (get_channel-ok parse_uuid text faults answers state next Header.absent channel
              answer f) [
                | inl (same, hit) ↦ rw (f, same) agree
                | inr (ch, stored, shown, same) ↦
                    rw (f, same)
                      (
                        ChannelsAgree-set channel ch state.tables.channels state.channel_cache
                            (get_channel-found text faults state.tables channel ch stored) agree.0,
                        agree.1,
                      )
              ]
      ]

  pub after_check :
      (h : Header) (channel : ℕ)
      → IsCoherent (serve parse_uuid text faults answers state (check h channel))
  unfolding serve after_answer set_ex
  after_check h channel =
      elim (Result-cases
        (Routes.check_subscription parse_uuid text faults answers state h channel)) [
          | inr (e, f) ↦ rw f agree
          | inl ((next, answer), f) ↦
              let (user, named, outcome) =
                check_subscription-ok parse_uuid text faults answers state next h channel answer
                  f in
              elim outcome [
                | inl (same, hit) ↦ rw (f, same) agree
                | inr (stored, same) ↦
                    rw (f, same)
                      (
                        agree.0,
                        SubsAgree-set user channel answer state.tables.subscribers
                            state.tables.subscribers state.sub_cache
                            (Changed-same user channel answer state.tables.subscribers
                              (is_subscriber-found faults state.tables user channel answer stored))
                            agree.1,
                      )
              ]
        ]

  pub after_update :
      (h : Header) (channel : ℕ) (patch : UpdateChannel) (now : ℕ)
      → IsCoherent (serve parse_uuid text faults answers state (update h channel patch now))
  unfolding serve after_answer set_ex
  after_update h channel patch now =
      elim (Result-cases
        (Routes.update_channel parse_uuid text faults answers state h channel patch now)) [
          | inr (e, f) ↦ rw f agree
          | inl ((next, answer), f) ↦
              let (user, done, named, owner, stored, same) =
                update_channel-ok parse_uuid text faults answers state next h channel patch now
                  answer f in
              let (ch, found, e) =
                update-rows text (λ i. faults (i + 1)) state.tables channel patch now done stored in
              rw (f, same, e)
                (
                  ChannelsAgree-updated channel now patch ch state.tables.channels
                      state.channel_cache found agree.0,
                  agree.1,
                )
        ]

  pub after_delete :
      (h : Header) (channel : ℕ)
      → IsCoherent (serve parse_uuid text faults answers state (delete h channel))
  unfolding serve after del delete_cascade
  after_delete h channel =
      elim (Result-cases (Routes.delete_channel parse_uuid text faults answers state h channel)) [
        | inr (e, f) ↦ rw f agree
        | inl (next, f) ↦
            let (user, users, left, named, owner, all, stored, same) =
              delete_channel-ok parse_uuid text faults answers state next h channel f in
            rw
              (
                f,
                same,
                delete-rows text (λ i. faults (i + 2)) state.tables left channel stored,
                listed (λ i. faults (i + 1)) state.tables channel users all,
              )
              (
                ChannelsAgree-removed channel state.tables.channels state.channel_cache agree.0,
                SubsAgree-cascade channel state.tables.subscribers state.sub_cache agree.1,
              )
      ]

  pub after_subscribe :
      (h : Header) (channel sub : ℕ)
      → IsCoherent (serve parse_uuid text faults answers state (subscribe h channel sub))
  unfolding serve after set_ex
  after_subscribe h channel sub =
      elim (Result-cases (Routes.subscribe parse_uuid text faults answers state h channel sub)) [
        | inr (e, f) ↦ rw f agree
        | inl (next, f) ↦
            let (user, joined, named, stored, same) =
              subscribe-ok parse_uuid text faults answers state next h channel sub f in
            let rows = subscribe-Changed faults state.tables joined user channel sub stored in
            rw (f, same)
              (
                rw rows.0 agree.0,
                SubsAgree-set user channel true state.tables.subscribers joined.subscribers
                    state.sub_cache rows.1 agree.1,
              )
      ]

  pub after_unsubscribe :
      (h : Header) (channel : ℕ)
      → IsCoherent (serve parse_uuid text faults answers state (unsubscribe h channel))
  unfolding serve after del
  after_unsubscribe h channel =
      elim (Result-cases (Routes.unsubscribe parse_uuid text faults answers state h channel)) [
        | inr (e, f) ↦ rw f agree
        | inl (next, f) ↦
            let (user, left, named, stored, same) =
              unsubscribe-done parse_uuid text faults answers state next h channel f in
            let (r, found, plain, e) =
              unsubscribe-ok faults state.tables left user channel stored in
            let rows = state.tables.subscribers in
            rw (f, same, e)
              (
                agree.0,
                SubsAgree-removed user channel false rows (delete_id r.id rows) state.sub_cache
                    (λ u c. find_subscriber-delete user channel u c rows r valid.0 found) agree.1,
              )
      ]

  pub after_transfer :
      (h : Header) (channel target : ℕ)
      → IsCoherent (serve parse_uuid text faults answers state (transfer h channel target))
  unfolding serve after
  after_transfer h channel target =
      elim (Result-cases
        (Routes.transfer_ownership parse_uuid text faults answers state h channel target)) [
          | inr (e, f) ↦ rw f agree
          | inl (next, f) ↦
              let (user, moved, named, stored, same) =
                transfer_ownership-done parse_uuid text faults answers state next h channel target
                  f in
              let rows = transfer-same faults state.tables moved channel user target stored in
              rw (f, same)
                (
                  rw rows.0 agree.0,
                  SubsAgree-same state.tables.subscribers moved.subscribers state.sub_cache rows.1
                      agree.1,
                )
        ]

  pub after_expiry :
      (user channel : ℕ)
      → IsCoherent (serve parse_uuid text faults answers state (expire_channel channel))
        × IsCoherent (serve parse_uuid text faults answers state (expire_sub user channel))
  unfolding serve
  after_expiry user channel = (
    (ChannelsAgree-expired channel state.tables.channels state.channel_cache agree.0, agree.1),
    (
      agree.0,
      λ u c b e.
          agree.1 u c b (ground (arith, lookup-remove (user, channel) (u, c) state.sub_cache)),
    ),
  )
