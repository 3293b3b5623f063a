-- ===== src/Channels/Rows.antt =====
-- How the statements of service-channels/src/store.rs change what the tables hold.
use rust_service.Base.{
  ℕ, ◌+◌, ◌≡◌, refl, Bool, true, false, not, ◌||◌, none, some, List, [], ◌∷◌, arith, if◌then◌else◌,
  nat_beq_iff, string_partial_eq, ◌==◌, nat_partial_eq, pair_partial_eq, is_some, keep, All,
}
use rust_service.Channels.Schemas.{Channel, ChannelSubscriber, UpdateChannel}
use rust_service.Channels.Tables.{
  find_channel, find_id, find_subscriber, delete_id, updated, update_rows,
}
use rust_service.Channels.Ownership.{owns, owners, Keyed, Linked}

pub find_id-keep :
    (p : ChannelSubscriber → Bool) (i : ℕ) (rows : List ChannelSubscriber)
    → find_id i rows ≡ none
    → find_id i (keep p rows) ≡ none
unfolding find_id
find_id-keep p i [] h = refl
find_id-keep p i (s ∷ rows) h = ground (arith, find_id-keep p i rows)

pub find_subscriber-keep :
    (p : ChannelSubscriber → Bool) (u c : ℕ) (rows : List ChannelSubscriber)
    → find_subscriber u c rows ≡ none
    → find_subscriber u c (keep p rows) ≡ none
unfolding find_subscriber
find_subscriber-keep p u c [] h = refl
find_subscriber-keep p u c (s ∷ rows) h = ground (arith, find_subscriber-keep p u c rows)

pub keep-Keyed :
    (p : ChannelSubscriber → Bool) (rows : List ChannelSubscriber)
    → Keyed rows
    → Keyed (keep p rows)
keep-Keyed p [] k = tt
keep-Keyed p (s ∷ rows) k = ground (
  arith,
  find_id-keep p s.id rows,
  find_subscriber-keep p s.user_id s.channel_id rows,
  keep-Keyed p rows k.2,
)

pub delete_id_absent :
    (i : ℕ) (rows : List ChannelSubscriber) → find_id i rows ≡ none → delete_id i rows ≡ rows
unfolding find_id delete_id
delete_id_absent i [] h = refl
delete_id_absent i (s ∷ rows) h = ground (arith, delete_id_absent i rows)

-- The count changes by the row that is deleted.
pub owners-delete_id :
    (i c : ℕ) (rows : List ChannelSubscriber) (r : ChannelSubscriber)
    → Keyed rows
    → find_id i rows ≡ some r
    → owners c (delete_id i rows) + owns c r ≡ owners c rows
unfolding find_id delete_id owners
owners-delete_id i c [] r k h = cc
owners-delete_id i c (s ∷ rows) r k h =
    ground (arith, owners-delete_id i c rows r k.2, delete_id_absent i rows, nat_beq_iff s.id i)

pub owners-cascade :
    (id c : ℕ) (rows : List ChannelSubscriber)
    → (c == id) ≡ false
    → owners c (keep (λ s. not (s.channel_id == id)) rows) ≡ owners c rows
unfolding owners
owners-cascade id c [] h = refl
owners-cascade id c (s ∷ rows) h =
    ground
      (arith, owners-cascade id c rows h, nat_beq_iff s.channel_id id, nat_beq_iff s.channel_id c)

pub find_channel-cascade :
    (id c : ℕ) (channels : List Channel)
    → find_channel c (keep (λ ch. not (ch.id == id)) channels)
      ≡ (if c == id then none else find_channel c channels)
unfolding find_channel
find_channel-cascade id c [] = ground arith
find_channel-cascade id c (ch ∷ channels) = ground (
  arith,
  find_channel-cascade id c channels,
  nat_beq_iff ch.id id,
  nat_beq_iff ch.id c,
  nat_beq_iff c id,
)

pub cascade-Linked :
    (id : ℕ) (channels : List Channel) (rows : List ChannelSubscriber)
    → All (Linked channels) rows
    → All
        (Linked (keep (λ ch. not (ch.id == id)) channels))
        (keep (λ s. not (s.channel_id == id)) rows)
cascade-Linked id channels [] a = tt
cascade-Linked id channels (s ∷ rows) a =
    ground
      (arith, cascade-Linked id channels rows a.1, find_channel-cascade id s.channel_id channels)

pub find_channel-update :
    (id c now : ℕ) (patch : UpdateChannel) (channels : List Channel)
    → is_some (find_channel c (update_rows id patch now channels))
      ≡ is_some (find_channel c channels)
unfolding find_channel update_rows updated
find_channel-update id c now patch [] = refl
find_channel-update id c now patch (ch ∷ channels) =
    ground (arith, find_channel-update id c now patch channels)

pub All-weaken :
    (old new : List Channel) (rows : List ChannelSubscriber)
    → ((c : ℕ) → is_some (find_channel c old) ≡ true → is_some (find_channel c new) ≡ true)
    → All (Linked old) rows
    → All (Linked new) rows
All-weaken old new [] step a = tt
All-weaken old new (s ∷ rows) step a = (step s.channel_id a.0, All-weaken old new rows step a.1)

pub owners_unlinked :
    (c : ℕ) (channels : List Channel) (rows : List ChannelSubscriber)
    → is_some (find_channel c channels) ≡ false
    → All (Linked channels) rows
    → owners c rows ≡ 0
unfolding owners
owners_unlinked c channels [] n a = refl
owners_unlinked c channels (s ∷ rows) n a =
    ground (arith, owners_unlinked c channels rows n a.1, nat_beq_iff s.channel_id c)

pub find_channel-cons :
    (ch : Channel) (channels : List Channel) (c : ℕ)
    → is_some (find_channel c (ch ∷ channels)) ≡ (ch.id == c || is_some (find_channel c channels))
unfolding find_channel
find_channel-cons ch channels c = ground arith
