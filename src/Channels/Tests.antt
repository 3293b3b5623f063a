-- ===== src/Channels/Tests.antt =====
-- Runs of service-channels on small inputs, and the theorems at such inputs.
use rust_service.Base.{
  ◌&&◌, take, drop, length, All, ℕ, String, ◌≡◌, refl, Bool, true, false, Option, none, some, List,
  [], ◌∷◌, arith, if◌then◌else◌, string_partial_eq, ◌==◌, nat_partial_eq, pair_partial_eq, ok,
  is_some, is_ok,
}
use rust_service.Channels.Search.{PaginatedResponse}
use rust_service.Channels.Listing.{
  Subscription, own_rows, count_joined, grouped, page_at, get_user_subscriptions,
  user_subscriptions,
}
use rust_service.Channels.Listed.{lists, subscriptions_listed}
use rust_service.Channels.Schemas.{
  I64, PaginationParams, limit, offset, pages_before, wrapped, Channel, ChannelSubscriber,
  CreateChannel, UpdateChannel, other_error,
}
use rust_service.Channels.Tables.{
  users_of, Tables, find_channel, find_id, find_subscriber, find_owner, title_taken, insert_channel,
  insert_subscriber, insert_or_keep, delete_id, set_owner, coalesce, updating,
}
use rust_service.Channels.Store.{Faults, unsubscribe_row, unsubscribe_delete}
use rust_service.Channels.Store
use rust_service.Channels.Routes.{Header, ServerData, extract_user_id}
use rust_service.Channels.Routes
use rust_service.Channels.Ownership.{owners, IsValid}
use rust_service.Channels.Server.{
  Request, create, read, check, update, subscribe, unsubscribe, transfer, run,
}
use rust_service.Channels.Runs.{started, one_owner}
use rust_service.Channels.Coherence.{IsCoherent}
use rust_service.Channels.History.{with_cache, cache_agrees}
use rust_service.Channels.Promises.{transfer_moves, only_owner_writes, unsubscribe_race}

-- Two users.
abbrev parse : String → Option ℕ
parse s = if s == "ann" then some 1 else if s == "bob" then some 2 else none

abbrev missing : ℕ → String
missing id = "Channel not found"

abbrev ann : Header
ann = Header.readable "ann"

abbrev bob : Header
bob = Header.readable "bob"

abbrev fine : Faults
fine i = none

-- The second statement fails.
abbrev broken : Faults
broken i = if i == 1 then some (other_error "connection reset") else none

abbrev news : CreateChannel
news = record { title = "news"; description = some "daily"; avatar_url = none }

abbrev patch : UpdateChannel
patch = record { title = some "sport"; description = none; avatar_url = none }

abbrev requests : List (Faults × Request)
requests =
    (fine, create ann news 10 20 5)
    ∷ (fine, subscribe bob 10 21)
    ∷ (fine, check bob 10)
    ∷ (broken, transfer ann 10 2)
    ∷ (fine, transfer ann 10 2)
    ∷ (fine, read 10)
    ∷ (fine, update bob 10 patch 6)
    ∷ (fine, unsubscribe ann 10)
    ∷ []

-- The same, with every other call of the cache failing.
abbrev shaky : List (Faults × (ℕ → Bool) × Request)
shaky =
    (fine, λ i. i == 0, create ann news 10 20 5)
    ∷ (fine, λ i. i == 1, subscribe bob 10 21)
    ∷ (fine, λ i. false, transfer ann 10 2)
    ∷ []

abbrev channel : Channel
channel = record {
  id = 10;
  title = "news";
  description = some "daily";
  avatar_url = none;
  created_at = 5;
  updated_at = 5;
}

abbrev ann_row : ChannelSubscriber
ann_row = record { id = 20; user_id = 1; channel_id = 10; is_owner = true }

abbrev bob_row : ChannelSubscriber
bob_row = record { id = 21; user_id = 2; channel_id = 10; is_owner = false }

abbrev tables : Tables
tables = record { channels = channel ∷ []; subscribers = bob_row ∷ ann_row ∷ [] }

abbrev transferred : Tables
transferred = record tables {
  subscribers = record bob_row { is_owner = true } ∷ record ann_row { is_owner = false } ∷ [];
}

abbrev state : ServerData
state = record { tables = tables; channel_cache = []; sub_cache = []; sent = [] }

abbrev empty_state : ServerData
empty_state = started

tables-IsValid : IsValid tables
unfolding find_id find_subscriber find_channel owners
tables-IsValid = ((refl, refl, (refl, refl, tt)), (refl, (refl, tt)), λ c e. ground arith)

transfer_runs : Store.transfer_ownership fine tables 10 1 2 ≡ ok transferred
unfolding Store.transfer_ownership Store.statement Store.ok_or Store.reject_if find_owner
    find_subscriber set_owner
transfer_runs = refl

row_runs : unsubscribe_row fine tables 2 10 ≡ ok bob_row
unfolding unsubscribe_row Store.statement Store.ok_or Store.reject_if find_subscriber
row_runs = refl

delete_runs :
    unsubscribe_delete fine transferred bob_row
    ≡ ok (record transferred { subscribers = record ann_row { is_owner = false } ∷ [] })
unfolding unsubscribe_delete Store.statement delete_id
delete_runs = refl

unsubscribe_runs :
    Store.unsubscribe fine tables 2 10 ≡ ok (record tables { subscribers = ann_row ∷ [] })
unfolding Store.unsubscribe unsubscribe_row unsubscribe_delete Store.statement Store.ok_or
    Store.reject_if find_subscriber delete_id
unsubscribe_runs = refl

subscribe_runs : Store.subscribe fine tables 2 10 30 ≡ ok tables
unfolding Store.subscribe Store.statement Store.reject_if insert_or_keep find_channel
    find_subscriber
subscribe_runs = refl

bob_named : extract_user_id parse bob ≡ ok 2
unfolding extract_user_id Store.ok_or
bob_named = refl

bob_owns_nothing : is_some (find_owner 2 10 tables.subscribers) ≡ false
unfolding find_owner
bob_owns_nothing = refl

one_owner_example : IsValid (run parse missing started shaky).tables
one_owner_example = one_owner parse missing shaky

cache_agrees_example : IsCoherent (run parse missing started (with_cache requests))
cache_agrees_example = cache_agrees parse missing requests

transfer_moves_example :
    (transferred.channels ≡ tables.channels)
    × ((u d : ℕ)
        → is_some (find_owner u d transferred.subscribers)
          ≡ (if d == 10 then u == 2 else is_some (find_owner u d tables.subscribers)))
    × ((u d : ℕ)
        → is_some (find_subscriber u d transferred.subscribers)
          ≡ is_some (find_subscriber u d tables.subscribers))
transfer_moves_example = transfer_moves fine tables transferred 10 1 2 tables-IsValid transfer_runs

only_owner_writes_example :
    (is_ok (Routes.update_channel parse missing fine (λ i. true) state bob 10 patch 6) ≡ false)
    × (is_ok (Routes.delete_channel parse missing fine (λ i. true) state bob 10) ≡ false)
only_owner_writes_example =
    only_owner_writes parse missing fine (λ i. true) state bob 2 10 patch 6 bob_named
      bob_owns_nothing

unsubscribe_race_example :
    (is_some (find_channel 10 transferred.channels) ≡ true)
    × (owners 10 (record ann_row { is_owner = false } ∷ []) ≡ 0)
unsubscribe_race_example =
    unsubscribe_race fine tables transferred
      (record transferred { subscribers = record ann_row { is_owner = false } ∷ [] }) bob_row 10 1 2
      tables-IsValid row_runs transfer_runs delete_runs

creation_runs :
    is_ok (Routes.create_channel parse missing fine (λ i. true) empty_state ann news 10 20 5) ≡ true
unfolding Routes.create_channel extract_user_id Store.ok_or Store.reject_if Routes.check_title
    Routes.check_description Store.create_channel Store.statement insert_channel insert_subscriber
    find_channel find_id find_subscriber title_taken
creation_runs = refl

update_runs :
    is_ok (Routes.update_channel parse missing fine (λ i. true) state ann 10 patch 5) ≡ true
unfolding Routes.update_channel extract_user_id Store.ok_or Store.reject_if Routes.check_title
    Routes.check_description Store.update_channel Store.statement Store.is_owner updating
    find_channel find_owner title_taken coalesce
update_runs = refl

abbrev first_page : PaginationParams
first_page = record { current_page = I64.pos 1; page_size = I64.pos 10 }

abbrev of_bob : PaginatedResponse Subscription
of_bob = record {
  items =
      record {
        id = 10;
        title = "news";
        description = some "daily";
        avatar_url = none;
        subscribers_count = 2;
      }
      ∷ [];
  total = 1;
  limit = 10;
  offset = I64.pos 0;
}

listing_runs : user_subscriptions fine (λ items. items) tables 2 first_page ≡ ok of_bob
unfolding user_subscriptions get_user_subscriptions page_at Store.statement own_rows count_joined
    grouped users_of limit offset pages_before wrapped
listing_runs = refl

subscriptions_listed_example :
    (all : List Subscription) × (n : ℕ) × (offset first_page ≡ I64.pos n)
    × (of_bob.items ≡ take (limit first_page) (drop n all))
    × (of_bob.total ≡ length all)
    × ((c : ℕ)
        → lists c all ≡ (
            is_some (find_channel c tables.channels)
            && is_some (find_subscriber 2 c tables.subscribers)))
    × All (λ s. s.subscribers_count ≡ length (users_of s.id tables.subscribers)) all
subscriptions_listed_example =
    subscriptions_listed fine (λ items. items) tables 2 first_page of_bob tables-IsValid
      listing_runs
