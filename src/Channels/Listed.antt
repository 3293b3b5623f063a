-- ===== src/Channels/Listed.antt =====
-- What the listing of a user's subscriptions holds.
use rust_service.Base.{
  ℕ, ◌≡◌, ◌∙◌, refl, Bool, false, ◌&&◌, ◌||◌, List, [], ◌∷◌, arith, nat_beq_iff, nat_partial_eq,
  ◌==◌, ok, length, take, drop, if◌then◌else◌, All, is_some, Bool-cases, inl, inr,
  string_partial_eq,
}
use rust_service.Channels.Schemas.{Channel, ChannelSubscriber, I64, PaginationParams, limit, offset}
use rust_service.Channels.Tables.{Tables, users_of, find_channel, find_subscriber}
use rust_service.Channels.Store.{Faults, statement}
use rust_service.Channels.Ownership.{Keyed, IsValid}
use rust_service.Channels.Search.{PaginatedResponse}
use rust_service.Channels.Listing.{
  Subscription, own_rows, count_joined, grouped, page_at, get_user_subscriptions,
  user_subscriptions,
}

-- A user has one row in a channel, or none.
length-own_rows :
    (user channel : ℕ) (rows : List ChannelSubscriber)
    → Keyed rows
    → length (own_rows user channel rows)
      ≡ (if is_some (find_subscriber user channel rows) then 1 else 0)
unfolding own_rows find_subscriber
length-own_rows user channel [] keyed = ground arith
length-own_rows user channel (s ∷ rows) keyed = ground (
  arith,
  keyed.1,
  length-own_rows user channel rows keyed.2,
  nat_beq_iff s.user_id user,
  nat_beq_iff s.channel_id channel,
)

-- Whether a channel is among the subscriptions.
abbrev pub lists : ℕ → List Subscription → Bool
lists c [] = false
lists c (s ∷ items) = s.id == c || lists c items

module _ (user : ℕ) (rows : List ChannelSubscriber) (keyed : Keyed rows) where
  lists-grouped :
      (c : ℕ) (channels : List Channel)
      → lists c (grouped user rows channels)
        ≡ (is_some (find_channel c channels) && is_some (find_subscriber user c rows))
  unfolding grouped find_channel
  lists-grouped c [] = ground arith
  lists-grouped c (ch ∷ channels) =
      ground (
        arith,
        lists-grouped c channels,
        length-own_rows user ch.id rows keyed,
        nat_beq_iff ch.id c,
      )

  count_joined-length :
      (channels : List Channel)
      → count_joined user rows channels ≡ length (grouped user rows channels)
  unfolding count_joined grouped
  count_joined-length [] = refl
  count_joined-length (ch ∷ channels) =
      ground (arith, count_joined-length channels, length-own_rows user ch.id rows keyed)

  -- The count of a listed channel is the number of its rows.
  grouped-counts :
      (channels : List Channel)
      → All (λ s. s.subscribers_count ≡ length (users_of s.id rows)) (grouped user rows channels)
  unfolding grouped
  grouped-counts [] = tt
  grouped-counts (ch ∷ channels) = elim (Bool-cases (is_some (find_subscriber user ch.id rows))) [
    | inl has ↦
        let one : length (own_rows user ch.id rows) ≡ 1 =
          ground (arith, length-own_rows user ch.id rows keyed, has) in
        rw (All, one) (ground arith, grouped-counts channels)
    | inr has_not ↦
        let no_row : length (own_rows user ch.id rows) ≡ 0 =
          ground (arith, length-own_rows user ch.id rows keyed, has_not) in
        rw (All, no_row) (grouped-counts channels)
  ]

-- In valid tables a user's subscriptions are listed page by page out of one list in the order of
-- the titles: it has the channels that are stored and in which the user has a row, each with the
-- number of its subscribers, and the total of the answer is its length.
pub subscriptions_listed :
    (faults : Faults) (by_title : List Subscription → List Subscription) (t : Tables) (user : ℕ)
    (pagination : PaginationParams) (answer : PaginatedResponse Subscription)
    → IsValid t
    → user_subscriptions faults by_title t user pagination ≡ ok answer
    → (all : List Subscription) × (n : ℕ) × (offset pagination ≡ I64.pos n)
      × (answer.items ≡ take (limit pagination) (drop n (by_title all)))
      × (answer.total ≡ length all)
      × ((c : ℕ)
          → lists c all ≡ (
              is_some (find_channel c t.channels)
              && is_some (find_subscriber user c t.subscribers)))
      × All (λ s. s.subscribers_count ≡ length (users_of s.id t.subscribers)) all
unfolding user_subscriptions get_user_subscriptions page_at statement
subscriptions_listed faults by_title t user pagination answer valid done =
    let all = grouped user t.subscribers t.channels in
    let paged : (n : ℕ) × (offset pagination ≡ I64.pos n)
        × (answer.items ≡ take (limit pagination) (drop n (by_title all)))
        × (answer.total ≡ count_joined user t.subscribers t.channels) =
      ground arith in
    (
      all,
      paged.0,
      paged.1,
      paged.2,
      paged.3 ∙ count_joined-length user t.subscribers valid.0 t.channels,
      λ c. lists-grouped user t.subscribers valid.0 c t.channels,
      grouped-counts user t.subscribers valid.0 t.channels,
    )
