-- ===== src/Channels/Routes.antt =====
-- service-channels/src/routes.rs: the handlers that write, and the two that read through the
-- cache. `parse_uuid` and `uuid_text` stand for the `uuid` crate, `cached` says which call of the
-- cache answers, in the order of the handler. The keys `channel:{id}` and `sub:{user}:{channel}`
-- differ in their prefix, so the cache is two maps; an entry that expires is dropped.
use rust_service.Base.{
  ℕ, ◌+◌, String, len, Bool, true, false, not, ◌||◌, Option, none, some, List, [], ◌∷◌, ltb,
  PartialEq, string_partial_eq, ◌==◌, nat_partial_eq, pair_partial_eq, Result, ok, err, ◌>>=◌, Map,
  lookup, insert, remove,
}
use rust_service.Channels.Schemas.{
  CreateChannel, UpdateChannel, ChannelRead, ChannelEvent, channel_updated, channel_deleted,
  user_subscribed, user_unsubscribed, ApiError, read_of,
}
use rust_service.Channels.Tables.{Tables}
use rust_service.Channels.Store
use rust_service.Channels.Store.{Faults, ok_or, reject_if}

-- A call of the search index or of the event producer; a failed one is logged only.
pub data Sent : Type 0 where
  indexed : ChannelRead → Sent
  unindexed : ℕ → Sent
  event : ChannelEvent → Sent

pub record ServerData : Type 0 where
  pub tables : Tables
  pub channel_cache : Map ℕ ChannelRead
  pub sub_cache : Map (ℕ × ℕ) Bool
  pub sent : List Sent

-- `extract_user_id`: no header, a header that is no text, or its text.
pub data Header : Type 0 where
  absent unreadable : Header
  readable : String → Header

-- `set_ex` and `del`, whose errors are dropped.
unfoldable pub set_ex {ℓ} : {K V : Type ℓ} ⦃e : PartialEq K⦄ → Bool → K → V → Map K V → Map K V
set_ex true key value cache = insert key value cache
set_ex false key value cache = cache

unfoldable pub del {ℓ} : {K V : Type ℓ} ⦃e : PartialEq K⦄ → Bool → K → Map K V → Map K V
del true key cache = remove key cache
del false key cache = cache

-- `if let Ok(Some(cached)) = cache.get(...)`.
unfoldable pub get {ℓ} : {K V : Type ℓ} ⦃e : PartialEq K⦄ → Bool → K → Map K V → Option V
get true key cache = lookup key cache
get false key cache = none

-- The loop of `delete_channel` over the subscribers.
unfoldable pub del_all : (ℕ → Bool) → ℕ → List ℕ → Map (ℕ × ℕ) Bool → Map (ℕ × ℕ) Bool
del_all cached channel_id [] cache = cache
del_all cached channel_id (user ∷ users) cache =
    del_all (λ i. cached (i + 1)) channel_id users (del (cached 0) (user, channel_id) cache)

-- The title and the description, measured in bytes.
unfoldable pub check_title : Option String → Result (Unit {0}) ApiError
check_title none = ok tt
check_title (some title) =
    reject_if (len title == 0 || ltb 255 (len title))
      (ApiError.bad_request "Title must be between 1 and 255 characters")

unfoldable pub check_description : Option String → Result (Unit {0}) ApiError
check_description none = ok tt
check_description (some description) =
    reject_if (len description == 0 || ltb 300 (len description))
      (ApiError.bad_request "Description must be between 1 and 300 characters")

module _ (parse_uuid : String → Option ℕ) where
  unfoldable pub extract_user_id : Header → Result ℕ ApiError
  extract_user_id absent = err (ApiError.bad_request "Missing X-User-Id header")
  extract_user_id unreadable = err (ApiError.bad_request "Invalid X-User-Id header")
  extract_user_id (readable text) =
      ok_or (ApiError.bad_request "X-User-Id is not a valid UUID") (parse_uuid text)

  module _ (not_found_text : ℕ → String) (faults : Faults) (cached : ℕ → Bool) where
    unfoldable pub create_channel :
        ServerData → Header → CreateChannel → ℕ → ℕ → ℕ → Result (ServerData × ChannelRead) ApiError
    create_channel state headers request channel_id sub_id now = do
      user_id ← extract_user_id headers
      checked_title ← check_title (some request.title)
      checked_description ← check_description request.description
      made ← Store.create_channel faults state.tables user_id request channel_id sub_id now
      let read = read_of made.1
      ok (
        record state {
          tables = made.0;
          channel_cache = set_ex (cached 0) read.id read state.channel_cache;
          sub_cache = set_ex (cached 1) (user_id, read.id) true state.sub_cache;
          sent = indexed read ∷ state.sent;
        },
        read,
      )

    -- The case of `get_channel` that the cache does not answer.
    unfoldable pub get_channel_stored : ServerData → ℕ → Result (ServerData × ChannelRead) ApiError
    get_channel_stored state channel_id = do
      channel ← Store.get_channel not_found_text faults state.tables channel_id
      let read = read_of channel
      ok (
        record state { channel_cache = set_ex (cached 1) channel_id read state.channel_cache },
        read,
      )

    unfoldable pub get_channel : ServerData → ℕ → Result (ServerData × ChannelRead) ApiError
    get_channel state channel_id = elim (get (cached 0) channel_id state.channel_cache) [
      | some read ↦ ok (state, read)
      | none ↦ get_channel_stored state channel_id
    ]

    -- The case of `check_subscription` that the cache does not answer.
    unfoldable pub check_stored : ServerData → ℕ → ℕ → Result (ServerData × Bool) ApiError
    check_stored state user_id channel_id = do
      is_sub ← Store.is_subscriber faults state.tables user_id channel_id
      ok (
        record state { sub_cache = set_ex (cached 1) (user_id, channel_id) is_sub state.sub_cache },
        is_sub,
      )

    unfoldable pub check_subscription :
        ServerData → Header → ℕ → Result (ServerData × Bool) ApiError
    check_subscription state headers channel_id = do
      user_id ← extract_user_id headers
      elim (get (cached 0) (user_id, channel_id) state.sub_cache) [
        | some is_sub ↦ ok (state, is_sub)
        | none ↦ check_stored state user_id channel_id
      ]

    -- `faults` numbers the statements of the handler: the first is that of `is_owner`.
    unfoldable pub update_channel :
        ServerData → Header → ℕ → UpdateChannel → ℕ → Result (ServerData × ChannelRead) ApiError
    update_channel state headers channel_id patch now = do
      user_id ← extract_user_id headers
      checked_title ← check_title patch.title
      checked_description ← check_description patch.description
      owner ← Store.is_owner faults state.tables user_id channel_id
      allowed ←
          reject_if (not owner)
            (ApiError.forbidden "Only the channel owner can update this channel")
      done ←
          Store.update_channel not_found_text (λ i. faults (i + 1)) state.tables channel_id patch
            now
      let read = read_of done.1
      ok (
        record state {
          tables = done.0;
          channel_cache = set_ex (cached 0) channel_id read state.channel_cache;
          sent = event (channel_updated channel_id) ∷ indexed read ∷ state.sent;
        },
        read,
      )

    unfoldable pub delete_channel : ServerData → Header → ℕ → Result ServerData ApiError
    delete_channel state headers channel_id = do
      user_id ← extract_user_id headers
      owner ← Store.is_owner faults state.tables user_id channel_id
      allowed ←
          reject_if (not owner)
            (ApiError.forbidden "Only the channel owner can delete this channel")
      users ← Store.get_all_subscriber_ids (λ i. faults (i + 1)) state.tables channel_id
      left ← Store.delete_channel not_found_text (λ i. faults (i + 2)) state.tables channel_id
      ok (record state {
        tables = left;
        channel_cache = del (cached 0) channel_id state.channel_cache;
        sub_cache = del_all (λ i. cached (i + 1)) channel_id users state.sub_cache;
        sent = event (channel_deleted channel_id) ∷ unindexed channel_id ∷ state.sent;
      })

    unfoldable pub subscribe : ServerData → Header → ℕ → ℕ → Result ServerData ApiError
    subscribe state headers channel_id sub_id = do
      user_id ← extract_user_id headers
      joined ← Store.subscribe faults state.tables user_id channel_id sub_id
      ok (record state {
        tables = joined;
        sub_cache = set_ex (cached 0) (user_id, channel_id) true state.sub_cache;
        sent = event (user_subscribed channel_id user_id) ∷ state.sent;
      })

    unfoldable pub unsubscribe : ServerData → Header → ℕ → Result ServerData ApiError
    unsubscribe state headers channel_id = do
      user_id ← extract_user_id headers
      left ← Store.unsubscribe faults state.tables user_id channel_id
      ok (record state {
        tables = left;
        sub_cache = del (cached 0) (user_id, channel_id) state.sub_cache;
        sent = event (user_unsubscribed channel_id user_id) ∷ state.sent;
      })

    unfoldable pub transfer_ownership : ServerData → Header → ℕ → ℕ → Result ServerData ApiError
    transfer_ownership state headers channel_id target_user_id = do
      user_id ← extract_user_id headers
      moved ← Store.transfer_ownership faults state.tables channel_id user_id target_user_id
      ok (record state { tables = moved })
