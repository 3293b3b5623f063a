-- ===== src/Channels/Listing.antt =====
-- The handlers of service-channels/src/routes.rs that list, and the join of `get_user_subscriptions`
-- in store.rs. `by_title` and `by_created_at` are the orders of the database, which answers an
-- error to a negative offset.
use rust_service.Base.{
  ℕ, ◌+◌, ◌*◌, String, ◌&&◌, Option, List, [], ◌∷◌, map, nat_partial_eq, ◌==◌, Result, ok, err,
  ◌>>=◌, length, take, drop, keep, if◌then◌else◌,
}
use rust_service.Channels.Schemas.{
  Channel, ChannelSubscriber, ChannelRead, ApiError, I64, PaginationParams, SqlxError, other_error,
  limit, offset, read_of,
}
use rust_service.Channels.Tables.{Tables, users_of}
use rust_service.Channels.Store.{Faults, statement}
use rust_service.Channels.Store
use rust_service.Channels.Search.{PaginatedResponse}

pub record Subscription : Type 0 where
  pub id : ℕ
  pub title : String
  pub description : Option String
  pub avatar_url : Option String
  pub subscribers_count : ℕ

-- The rows that the join on the channel and the user finds.
unfoldable pub own_rows : ℕ → ℕ → List ChannelSubscriber → List ChannelSubscriber
own_rows user channel rows = keep (λ s. s.user_id == user && s.channel_id == channel) rows

-- `COUNT(*)` of the channels joined with the rows of the user.
unfoldable pub count_joined : ℕ → List ChannelSubscriber → List Channel → ℕ
count_joined user rows [] = 0
count_joined user rows (c ∷ channels) =
    length (own_rows user c.id rows) + count_joined user rows channels

-- One group for each channel with a row of the user, in which each such row meets every row of the
-- channel.
unfoldable pub grouped : ℕ → List ChannelSubscriber → List Channel → List Subscription
grouped user rows [] = []
grouped user rows (c ∷ channels) =
    let rest = grouped user rows channels in
    let own = length (own_rows user c.id rows) in
    if own == 0
    then rest
    else record {
      id = c.id;
      title = c.title;
      description = c.description;
      avatar_url = c.avatar_url;
      subscribers_count = own * length (users_of c.id rows);
    }
      ∷ rest

abbrev pub negative_offset : SqlxError
negative_offset = other_error "OFFSET must not be negative"

-- The rows of the page at an offset, where it is not negative.
unfoldable pub page_at :
    {A : Type 0} → Option SqlxError → I64 → ℕ → List A → Result (List A) ApiError
page_at fault (I64.pos n) limit rows = statement fault (ok (take limit (drop n rows)))
page_at fault (I64.negsuc n) limit rows = statement fault (err negative_offset)

module _ (faults : Faults) where
  unfoldable pub get_user_subscriptions :
      (List Subscription → List Subscription)
      → Tables
      → ℕ
      → ℕ
      → I64
      → Result (List Subscription × ℕ) ApiError
  get_user_subscriptions by_title t user_id limit offset = do
    total ← statement (faults 0) (ok (count_joined user_id t.subscribers t.channels))
    items ← page_at (faults 1) offset limit (by_title (grouped user_id t.subscribers t.channels))
    ok (items, total)

  -- The handler `get_user_subscriptions`.
  unfoldable pub user_subscriptions :
      (List Subscription → List Subscription)
      → Tables
      → ℕ
      → PaginationParams
      → Result (PaginatedResponse Subscription) ApiError
  user_subscriptions by_title t user_id pagination = do
    found ← get_user_subscriptions by_title t user_id (limit pagination) (offset pagination)
    ok (record {
      items = found.0;
      total = found.1;
      limit = limit pagination;
      offset = offset pagination;
    })

  unfoldable pub get_channels :
      (List Channel → List Channel)
      → Tables
      → PaginationParams
      → Result (PaginatedResponse ChannelRead) ApiError
  get_channels by_title t pagination = do
    found ← elim (offset pagination) [
      | I64.pos n ↦ Store.list_channels by_title faults t (limit pagination) n
      | I64.negsuc n ↦ statement (faults 0) (err negative_offset)
    ]
    ok (record {
      items = map read_of found.0;
      total = found.1;
      limit = limit pagination;
      offset = offset pagination;
    })

  -- The handler `get_channel_subscribers`.
  unfoldable pub channel_subscribers :
      (List ℕ → List ℕ) → Tables → ℕ → PaginationParams → Result (PaginatedResponse ℕ) ApiError
  channel_subscribers by_created_at t channel_id pagination = do
    found ← elim (offset pagination) [
      | I64.pos n ↦
          Store.get_channel_subscribers faults by_created_at t channel_id (limit pagination) n
      | I64.negsuc n ↦ do
        total ← statement (faults 0) (ok (length (users_of channel_id t.subscribers)))
        statement (faults 1) (err negative_offset)
    ]
    ok (record {
      items = found.0;
      total = found.1;
      limit = limit pagination;
      offset = offset pagination;
    })
