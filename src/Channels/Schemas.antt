-- ===== src/Channels/Schemas.antt =====
-- service-channels/src/models.rs, schemas.rs, error.rs and events.rs: rows, requests, pages,
-- errors and events. A `Uuid` is a number, a time is a number of seconds.
use rust_service.Base.{
  ℕ, ◌-◌, ◌*◌, ◌%◌, ◌^◌, min, max, String, Bool, Option, ltb, if◌then◌else◌, string_partial_eq,
  nat_partial_eq,
}

pub record Channel : Type 0 where
  pub id : ℕ
  pub title : String
  pub description : Option String
  pub avatar_url : Option String
  pub created_at : ℕ
  pub updated_at : ℕ

pub record ChannelSubscriber : Type 0 where
  pub id : ℕ
  pub user_id : ℕ
  pub channel_id : ℕ
  pub is_owner : Bool

pub record CreateChannel : Type 0 where
  pub title : String
  pub description : Option String
  pub avatar_url : Option String

pub record UpdateChannel : Type 0 where
  pub title : Option String
  pub description : Option String
  pub avatar_url : Option String

pub record ChannelRead : Type 0 where
  pub id : ℕ
  pub title : String
  pub description : Option String
  pub avatar_url : Option String

pub data ChannelEvent : Type 0 where
  channel_updated channel_deleted : ℕ → ChannelEvent
  user_subscribed user_unsubscribed : ℕ → ℕ → ChannelEvent

pub data ApiError : Type 0 where
  bad_request not_found forbidden conflict internal : String → ApiError

-- The status and the message of the JSON answer.
unfoldable pub into_response : ApiError → ℕ × String
into_response (ApiError.bad_request e) = (400, e)
into_response (ApiError.not_found e) = (404, e)
into_response (ApiError.forbidden e) = (403, e)
into_response (ApiError.conflict e) = (409, e)
into_response (ApiError.internal e) = (500, "Internal Server Error")

-- The kinds of `sqlx::Error` that the conversion tells apart; the text is that of the error.
pub data SqlxError : Type 0 where
  row_not_found unique_violation : SqlxError
  other_error : String → SqlxError

unfoldable pub from_sqlx : SqlxError → ApiError
from_sqlx row_not_found = ApiError.not_found "Resource not found"
from_sqlx unique_violation = ApiError.conflict "Resource already exists"
from_sqlx (other_error e) = ApiError.internal e

-- An `i64`.
pub data I64 : Type 0 where
  pos negsuc : ℕ → I64

-- The `i64` whose two's complement is `n` modulo 2^64.
unfoldable pub wrapped : ℕ → I64
wrapped n = let r = n % 2 ^ 64 in if ltb r (2 ^ 63) then I64.pos r else I64.negsuc (2 ^ 64 - 1 - r)

pub record PaginationParams : Type 0 where
  pub current_page : I64
  pub page_size : I64

unfoldable pub default_page : ℕ
default_page = 1

unfoldable pub default_page_size : ℕ
default_page_size = 10

-- `clamp(1, 100)`.
unfoldable pub limit : PaginationParams → ℕ
limit params = elim params.page_size [ I64.pos n ↦ min (max n 1) 100 | I64.negsuc n ↦ 1 ]

-- `max(1) - 1`: the number of pages before the current one.
unfoldable pub pages_before : PaginationParams → ℕ
pages_before params = elim params.current_page [ I64.pos n ↦ max n 1 - 1 | I64.negsuc n ↦ 0 ]

-- The product wraps, as it does in a release build.
unfoldable pub offset : PaginationParams → I64
offset params = wrapped (limit params * pages_before params)

unfoldable pub read_of : Channel → ChannelRead
read_of c = record {
  id = c.id;
  title = c.title;
  description = c.description;
  avatar_url = c.avatar_url;
}
