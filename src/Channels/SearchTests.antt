-- ===== src/Channels/SearchTests.antt =====
-- Runs of the search index of service-channels, and the theorems at such inputs.
use rust_service.Base.{
  ℕ, zero, suc, String, ◌≡◌, refl, ap, Bool, true, false, Option, none, some, List, [], ◌∷◌, arith,
  insert, ok, map, lookup, All, string_partial_eq, nat_partial_eq, pair_partial_eq,
}
use rust_service.Channels.Schemas.{
  CreateChannel, UpdateChannel, ChannelRead, I64, limit, offset, pages_before, wrapped, read_of,
  other_error,
}
use rust_service.Channels.Tables.{
  find_channel, find_id, find_subscriber, find_owner, title_taken, insert_channel,
  insert_subscriber, updating, updated, update_rows, coalesce, coalesce_null,
}
use rust_service.Channels.Store.{Faults}
use rust_service.Channels.Store
use rust_service.Channels.Routes.{Header, ServerData, extract_user_id, Sent, set_ex, indexed}
use rust_service.Channels.Routes
use rust_service.Channels.Server.{Request, create, update, delete, serve, run, after, after_answer}
use rust_service.Channels.Runs.{started}
use rust_service.Channels.Search.{
  ChannelDocument, Engine, SearchParams, PaginatedResponse, replay, index_channel, paging, as_usize,
  unwrap_or, search, reads, search_channels,
}
use rust_service.Channels.Index.{all_answered, IsMirror}
use rust_service.Channels.Indexed.{index_mirrors}
use rust_service.Channels.Found.{IsCurrent, found-IsCurrent}

-- The identifiers are written in unary.
abbrev show : ℕ → String
show zero = String.[]
show (suc n) = String.◌∷◌ "1" (show n)

abbrev count : String → ℕ
count String.[] = 0
count (String.◌∷◌ c rest) = suc (count rest)

abbrev parse : String → Option ℕ
parse s = some (count s)

count-show : (n : ℕ) → count (show n) ≡ n
count-show zero = refl
count-show (suc n) = ap suc (count-show n)

parses : (n : ℕ) → parse (show n) ≡ some n
parses n = ap some (count-show n)

abbrev missing : ℕ → String
missing id = "Channel not found"

abbrev ann : Header
ann = Header.readable "1"

abbrev fine : Faults
fine i = none

abbrev broken : Faults
broken i = some (other_error "connection reset")

abbrev news : CreateChannel
news = record { title = "news"; description = some "daily"; avatar_url = none }

abbrev patch : UpdateChannel
patch = record { title = some "sport"; description = none; avatar_url = none }

abbrev requests : List (Faults × (ℕ → Bool) × Request)
requests =
    (fine, λ i. true, create ann news 3 20 5)
    ∷ (broken, λ i. true, delete ann 3)
    ∷ (fine, λ i. false, update ann 3 patch 6)
    ∷ []

abbrev sport : ChannelDocument
sport = record { id = "111"; title = "sport"; description = some "daily"; avatar_url = none }

abbrev engine : Engine
engine query limit offset = ok (sport ∷ [], none)

abbrev params : SearchParams
params = record { q = "spo"; current_page = I64.pos 1; page_size = I64.pos 10 }

abbrev answer : PaginatedResponse ChannelRead
answer = record {
  items = record { id = 3; title = "sport"; description = some "daily"; avatar_url = none } ∷ [];
  total = 1;
  limit = 10;
  offset = I64.pos 0;
}

index_runs :
    replay show all_answered (run parse missing started requests).sent ≡ ("111", sport) ∷ []
unfolding replay index_channel run serve after_answer after Routes.create_channel
    Routes.update_channel Routes.delete_channel extract_user_id Store.ok_or Store.reject_if
    Routes.check_title Routes.check_description Store.create_channel Store.update_channel
    Store.statement Store.is_owner updating updated update_rows coalesce coalesce_null
    insert_channel insert_subscriber find_channel find_id find_subscriber find_owner title_taken
    read_of insert
index_runs = refl

search_runs : search_channels parse engine params ≡ ok answer
unfolding search_channels search reads paging limit offset pages_before wrapped as_usize unwrap_or
search_runs = refl

index_mirrors_example :
    IsMirror show
      (replay show all_answered (run parse missing started requests).sent)
      (run parse missing started requests).tables.channels
index_mirrors_example = index_mirrors show parse parses missing requests

sport_listed :
    (hits : List ChannelDocument) (total : Option ℕ)
    → engine params.q (limit (paging params)) (as_usize (offset (paging params))) ≡ ok (hits, total)
    → All (λ doc. lookup doc.id (("111", sport) ∷ []) ≡ some doc) hits
unfolding lookup
sport_listed hits total e = let same : hits ≡ sport ∷ [] = ground (arith, e) in rw same (refl, tt)

found-IsCurrent_example :
    (hits : List ChannelDocument) × (total : Option ℕ) × (engine params.q
        (limit (paging params))
        (as_usize (offset (paging params)))
      ≡ ok (hits, total))
    × (map (λ r. show r.id) answer.items ≡ map (λ doc. doc.id) hits)
    × All (IsCurrent (run parse missing started requests).tables.channels) answer.items
found-IsCurrent_example =
    found-IsCurrent show parse parses missing requests engine params answer
      (λ hits total e. rw index_runs (sport_listed hits total e)) search_runs
