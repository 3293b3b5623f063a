-- ===== src/Channels/Server.antt =====
-- A history of service-channels: requests one after another, and cache entries that expire.
use rust_service.Base.{
  ℕ, String, Bool, Option, List, [], ◌∷◌, string_partial_eq, nat_partial_eq, pair_partial_eq,
  Result, ok, err, remove,
}
use rust_service.Channels.Schemas.{CreateChannel, UpdateChannel, ApiError}
use rust_service.Channels.Store.{Faults}
use rust_service.Channels.Routes.{Header, ServerData}
use rust_service.Channels.Routes

pub data Request : Type 0 where
  -- the ids and the time are those that the handler draws
  create : Header → CreateChannel → (channel_id sub_id now : ℕ) → Request
  read : (channel_id : ℕ) → Request
  check : Header → (channel_id : ℕ) → Request
  update : Header → (channel_id : ℕ) → UpdateChannel → (now : ℕ) → Request
  delete : Header → (channel_id : ℕ) → Request
  subscribe : Header → (channel_id sub_id : ℕ) → Request
  unsubscribe : Header → (channel_id : ℕ) → Request
  transfer : Header → (channel_id target_user_id : ℕ) → Request
  expire_channel : (channel_id : ℕ) → Request
  expire_sub : (user_id channel_id : ℕ) → Request

-- The state after a handler: an error leaves it as it was.
unfoldable pub after : ServerData → Result ServerData ApiError → ServerData
after state (ok next) = next
after state (err e) = state

unfoldable pub after_answer :
    {A : Type 0} → ServerData → Result (ServerData × A) ApiError → ServerData
after_answer state (ok (next, answer)) = next
after_answer state (err e) = state

module _ (parse_uuid : String → Option ℕ) (text : ℕ → String) where
  unfoldable pub serve : Faults → (ℕ → Bool) → ServerData → Request → ServerData
  serve faults cached state (create h request channel sub now) =
      after_answer state
        (Routes.create_channel parse_uuid text faults cached state h request channel sub now)
  serve faults cached state (read channel) =
      after_answer state (Routes.get_channel parse_uuid text faults cached state channel)
  serve faults cached state (check h channel) =
      after_answer state (Routes.check_subscription parse_uuid text faults cached state h channel)
  serve faults cached state (update h channel patch now) =
      after_answer state
        (Routes.update_channel parse_uuid text faults cached state h channel patch now)
  serve faults cached state (delete h channel) =
      after state (Routes.delete_channel parse_uuid text faults cached state h channel)
  serve faults cached state (subscribe h channel sub) =
      after state (Routes.subscribe parse_uuid text faults cached state h channel sub)
  serve faults cached state (unsubscribe h channel) =
      after state (Routes.unsubscribe parse_uuid text faults cached state h channel)
  serve faults cached state (transfer h channel target) =
      after state (Routes.transfer_ownership parse_uuid text faults cached state h channel target)
  serve faults cached state (expire_channel channel) = record state {
    channel_cache = remove channel state.channel_cache;
  }
  serve faults cached state (expire_sub user channel) = record state {
    sub_cache = remove (user, channel) state.sub_cache;
  }

  unfoldable pub run : ServerData → List (Faults × (ℕ → Bool) × Request) → ServerData
  run state [] = state
  run state ((faults, cached, request) ∷ requests) =
      run (serve faults cached state request) requests
