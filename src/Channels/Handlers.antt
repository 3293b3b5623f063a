-- ===== src/Channels/Handlers.antt =====
-- What a handler of service-channels/src/routes.rs has done where it returns `Ok`.
use rust_service.Base.{
  ℕ, ◌+◌, String, ◌≡◌, ◌⊎◌, inl, inr, Bool, true, Option, some, List, ◌∷◌, arith, string_partial_eq,
  nat_partial_eq, pair_partial_eq, ok, Option-cases,
}
use rust_service.Channels.Schemas.{
  Channel, CreateChannel, UpdateChannel, ChannelRead, channel_updated, channel_deleted,
  user_subscribed, user_unsubscribed, read_of,
}
use rust_service.Channels.Tables.{Tables}
use rust_service.Channels.Store.{Faults, ok_or, reject_if}
use rust_service.Channels.Store
use rust_service.Channels.Routes.{
  Header, ServerData, Sent, check_title, check_description, set_ex, del, del_all, extract_user_id,
  get, get_channel_stored, check_stored,
}
use rust_service.Channels.Routes

module _ (parse_uuid : String → Option ℕ) (text : ℕ → String) (faults : Faults) (cached : ℕ → Bool)
    (state next : ServerData) (h : Header) where
  pub create_channel-ok :
      (request : CreateChannel) (channel sub now : ℕ) (answer : ChannelRead)
      → Routes.create_channel parse_uuid text faults cached state h request channel sub now
        ≡ ok (next, answer)
      → (user : ℕ) × (made : Tables × Channel) × (extract_user_id parse_uuid h ≡ ok user)
        × (Store.create_channel faults state.tables user request channel sub now ≡ ok made)
        × (next ≡ record state {
          tables = made.0;
          channel_cache = set_ex (cached 0) made.1.id (read_of made.1) state.channel_cache;
          sub_cache = set_ex (cached 1) (user, made.1.id) true state.sub_cache;
          sent = Sent.indexed (read_of made.1) ∷ state.sent;
        })
  unfolding Routes.create_channel read_of
  create_channel-ok request channel sub now answer e = ground arith

  pub update_channel-ok :
      (channel : ℕ) (patch : UpdateChannel) (now : ℕ) (answer : ChannelRead)
      → Routes.update_channel parse_uuid text faults cached state h channel patch now
        ≡ ok (next, answer)
      → (user : ℕ) × (done : Tables × Channel) × (extract_user_id parse_uuid h ≡ ok user)
        × (Store.is_owner faults state.tables user channel ≡ ok true)
        × (Store.update_channel text (λ i. faults (i + 1)) state.tables channel patch now ≡ ok done)
        × (next ≡ record state {
          tables = done.0;
          channel_cache = set_ex (cached 0) channel (read_of done.1) state.channel_cache;
          sent = Sent.event (channel_updated channel) ∷ Sent.indexed (read_of done.1) ∷ state.sent;
        })
  unfolding Routes.update_channel reject_if
  update_channel-ok channel patch now answer e = ground arith

  pub delete_channel-ok :
      (channel : ℕ)
      → Routes.delete_channel parse_uuid text faults cached state h channel ≡ ok next
      → (user : ℕ) × (users : List ℕ) × (left : Tables) × (extract_user_id parse_uuid h ≡ ok user)
        × (Store.is_owner faults state.tables user channel ≡ ok true)
        × (Store.get_all_subscriber_ids (λ i. faults (i + 1)) state.tables channel ≡ ok users)
        × (Store.delete_channel text (λ i. faults (i + 2)) state.tables channel ≡ ok left)
        × (next ≡ record state {
          tables = left;
          channel_cache = del (cached 0) channel state.channel_cache;
          sub_cache = del_all (λ i. cached (i + 1)) channel users state.sub_cache;
          sent = Sent.event (channel_deleted channel) ∷ Sent.unindexed channel ∷ state.sent;
        })
  unfolding Routes.delete_channel reject_if
  delete_channel-ok channel e = ground arith

  pub subscribe-ok :
      (channel sub : ℕ)
      → Routes.subscribe parse_uuid text faults cached state h channel sub ≡ ok next
      → (user : ℕ) × (joined : Tables) × (extract_user_id parse_uuid h ≡ ok user)
        × (Store.subscribe faults state.tables user channel sub ≡ ok joined)
        × (next ≡ record state {
          tables = joined;
          sub_cache = set_ex (cached 0) (user, channel) true state.sub_cache;
          sent = Sent.event (user_subscribed channel user) ∷ state.sent;
        })
  unfolding Routes.subscribe
  subscribe-ok channel sub e = ground arith

  pub unsubscribe-done :
      (channel : ℕ)
      → Routes.unsubscribe parse_uuid text faults cached state h channel ≡ ok next
      → (user : ℕ) × (left : Tables) × (extract_user_id parse_uuid h ≡ ok user)
        × (Store.unsubscribe faults state.tables user channel ≡ ok left)
        × (next ≡ record state {
          tables = left;
          sub_cache = del (cached 0) (user, channel) state.sub_cache;
          sent = Sent.event (user_unsubscribed channel user) ∷ state.sent;
        })
  unfolding Routes.unsubscribe
  unsubscribe-done channel e = ground arith

  pub transfer_ownership-done :
      (channel target : ℕ)
      → Routes.transfer_ownership parse_uuid text faults cached state h channel target ≡ ok next
      → (user : ℕ) × (moved : Tables) × (extract_user_id parse_uuid h ≡ ok user)
        × (Store.transfer_ownership faults state.tables channel user target ≡ ok moved)
        × (next ≡ record state { tables = moved })
  unfolding Routes.transfer_ownership
  transfer_ownership-done channel target e = ground arith

  -- The readers change a cache alone.
  pub get_channel-ok :
      (channel : ℕ) (answer : ChannelRead)
      → Routes.get_channel parse_uuid text faults cached state channel ≡ ok (next, answer)
      → ((next ≡ state) × (get (cached 0) channel state.channel_cache ≡ some answer))
        ⊎ ((c : Channel) × (Store.get_channel text faults state.tables channel ≡ ok c)
            × (answer ≡ read_of c)
            × (next ≡ record state {
              channel_cache = set_ex (cached 1) channel (read_of c) state.channel_cache;
            }))
  unfolding Routes.get_channel get_channel_stored
  get_channel-ok channel answer e =
      elim (Option-cases (get (cached 0) channel state.channel_cache)) [
        | inl n ↦ inr (ground arith)
        | inr (r, f) ↦ inl (ground arith)
      ]

  pub check_subscription-ok :
      (channel : ℕ) (answer : Bool)
      → Routes.check_subscription parse_uuid text faults cached state h channel ≡ ok (next, answer)
      → (user : ℕ) × (extract_user_id parse_uuid h ≡ ok user)
        × (((next ≡ state) × (get (cached 0) (user, channel) state.sub_cache ≡ some answer))
            ⊎ ((Store.is_subscriber faults state.tables user channel ≡ ok answer)
                × (next ≡ record state {
                  sub_cache = set_ex (cached 1) (user, channel) answer state.sub_cache;
                })))
  unfolding Routes.check_subscription check_stored
  check_subscription-ok channel answer e = ground arith
