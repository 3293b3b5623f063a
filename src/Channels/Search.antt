-- ===== src/Channels/Search.antt =====
-- service-channels/src/search.rs and the handler `search_channels` of routes.rs: the documents of
-- the search index, the calls that write it, and what a search answers. `show` is `Uuid::to_string`;
-- `execute` is a search of the engine with its limit and offset, and an error is its text.
use rust_service.Base.{
  ℕ, ◌-◌, ◌^◌, String, Bool, Option, none, some, List, [], ◌∷◌, string_partial_eq, Result, ok, err,
  ◌>>=◌, length, Map, insert, remove, if◌then◌else◌,
}
use rust_service.Channels.Schemas.{ChannelRead, ApiError, I64, PaginationParams, limit, offset}
use rust_service.Channels.Routes.{Sent, indexed, unindexed, event}

pub record ChannelDocument : Type 0 where
  pub id : String
  pub title : String
  pub description : Option String
  pub avatar_url : Option String

-- A document replaces the one with its id; a call that fails is logged only.
unfoldable pub index_channel :
    (show : ℕ → String) (answers : Bool)
    → ℕ
    → String
    → Option String
    → Option String
    → Map String ChannelDocument
    → Map String ChannelDocument
index_channel show answers id title description avatar_url index =
    if answers
    then insert (show id)
        (record { id = show id; title = title; description = description; avatar_url = avatar_url })
        index
    else index

unfoldable pub delete_channel :
    (show : ℕ → String) (answers : Bool)
    → ℕ
    → Map String ChannelDocument
    → Map String ChannelDocument
delete_channel show answers id index = if answers then remove (show id) index else index

-- The index after the calls that the handlers have made, the newest first; `answers` says which
-- of them the engine carries out, by the number of calls and events before.
unfoldable pub replay :
    (show : ℕ → String) (answers : ℕ → Bool) → List Sent → Map String ChannelDocument
replay show answers [] = []
replay show answers (indexed read ∷ sent) =
    index_channel show (answers (length sent)) read.id read.title read.description read.avatar_url
      (replay show answers sent)
replay show answers (unindexed id ∷ sent) =
    delete_channel show (answers (length sent)) id (replay show answers sent)
replay show answers (event e ∷ sent) = replay show answers sent

pub record SearchParams : Type 0 where
  pub q : String
  pub current_page : I64
  pub page_size : I64

-- `limit` and `offset` are those of `PaginationParams`.
unfoldable pub paging : SearchParams → PaginationParams
paging params = record { current_page = params.current_page; page_size = params.page_size }

pub record PaginatedResponse (A : Type 0) : Type 0 where
  pub items : List A
  pub total : ℕ
  pub limit : ℕ
  pub offset : I64

-- `as usize`.
unfoldable pub as_usize : I64 → ℕ
as_usize (I64.pos n) = n
as_usize (I64.negsuc n) = 2 ^ 64 - 1 - n

unfoldable pub unwrap_or : ℕ → Option ℕ → ℕ
unwrap_or default none = default
unwrap_or default (some n) = n

abbrev pub Engine : Type 0
Engine = String → (limit offset : ℕ) → Result (List ChannelDocument × Option ℕ) String

unfoldable pub search : Engine → String → ℕ → I64 → Result (List ChannelDocument × ℕ) ApiError
search execute query limit offset = elim (execute query limit (as_usize offset)) [
  | err e ↦ err (ApiError.internal e)
  | ok (hits, total) ↦ ok (hits, unwrap_or (length hits) total)
]

-- The documents whose id is that of a channel.
unfoldable pub reads : (String → Option ℕ) → List ChannelDocument → List ChannelRead
reads parse_uuid [] = []
reads parse_uuid (doc ∷ docs) =
    let rest = reads parse_uuid docs in
    elim (parse_uuid doc.id) [
      | none ↦ rest
      | some id ↦
          record {
            id = id;
            title = doc.title;
            description = doc.description;
            avatar_url = doc.avatar_url;
          }
          ∷ rest
    ]

unfoldable pub search_channels :
    (String → Option ℕ) → Engine → SearchParams → Result (PaginatedResponse ChannelRead) ApiError
search_channels parse_uuid execute params = do
  found ← search execute params.q (limit (paging params)) (offset (paging params))
  ok (record {
    items = reads parse_uuid found.0;
    total = found.1;
    limit = limit (paging params);
    offset = offset (paging params);
  })
