-- ===== src/Channels/Ownership.antt =====
-- The owners of a channel, counted over the table of subscribers.
use rust_service.Base.{
  ℕ, ◌+◌, ◌≤◌, ◌≡◌, refl, inl, inr, Bool, true, false, ◌&&◌, none, some, List, [], ◌∷◌, arith,
  if◌then◌else◌, nat_beq_iff, string_partial_eq, ◌==◌, nat_partial_eq, pair_partial_eq, eq_of_==,
  Bool-cases, is_some, All,
}
use rust_service.Channels.Schemas.{Channel, ChannelSubscriber}
use rust_service.Channels.Tables.{
  Tables, find_channel, find_id, find_subscriber, find_owner, set_owner,
}

-- 1 for a row that owns the channel, 0 for any other.
abbrev pub owns : ℕ → ChannelSubscriber → ℕ
owns channel s = if s.channel_id == channel && s.is_owner then 1 else 0

unfoldable pub owners : ℕ → List ChannelSubscriber → ℕ
owners channel [] = 0
owners channel (s ∷ rows) = owns channel s + owners channel rows

-- The primary key, and one row for a user and a channel.
abbrev pub Keyed : List ChannelSubscriber → Type 0
Keyed [] = Unit
Keyed (s ∷ rows) =
    (find_id s.id rows ≡ none) × (find_subscriber s.user_id s.channel_id rows ≡ none) × Keyed rows

-- The foreign key.
abbrev pub Linked : List Channel → ChannelSubscriber → Type 0
Linked channels s = is_some (find_channel s.channel_id channels) ≡ true

-- What the schema and the service keep of the tables: keys, references, one owner for a channel.
abbrev pub IsValid : Tables → Type 0
IsValid t =
    Keyed t.subscribers
    × All (Linked t.channels) t.subscribers
    × ((c : ℕ) → is_some (find_channel c t.channels) ≡ true → owners c t.subscribers ≡ 1)

pub find_id-set_owner :
    (id i : ℕ) (b : Bool) (rows : List ChannelSubscriber)
    → find_id i rows ≡ none
    → find_id i (set_owner id b rows) ≡ none
unfolding find_id set_owner
find_id-set_owner id i b [] h = refl
find_id-set_owner id i b (s ∷ rows) h = ground (arith, find_id-set_owner id i b rows)

find_subscriber-set_owner :
    (id u c : ℕ) (b : Bool) (rows : List ChannelSubscriber)
    → find_subscriber u c rows ≡ none
    → find_subscriber u c (set_owner id b rows) ≡ none
unfolding find_subscriber set_owner
find_subscriber-set_owner id u c b [] h = refl
find_subscriber-set_owner id u c b (s ∷ rows) h =
    ground (arith, find_subscriber-set_owner id u c b rows)

pub set_owner-Keyed :
    (id : ℕ) (b : Bool) (rows : List ChannelSubscriber) → Keyed rows → Keyed (set_owner id b rows)
unfolding set_owner
set_owner-Keyed id b [] h = tt
set_owner-Keyed id b (s ∷ rows) h = ground (
  arith,
  find_id-set_owner id s.id b rows h.0,
  find_subscriber-set_owner id s.user_id s.channel_id b rows h.1,
  set_owner-Keyed id b rows h.2,
)

pub set_owner-Linked :
    (channels : List Channel) (id : ℕ) (b : Bool) (rows : List ChannelSubscriber)
    → All (Linked channels) rows
    → All (Linked channels) (set_owner id b rows)
unfolding set_owner
set_owner-Linked channels id b [] h = tt
set_owner-Linked channels id b (s ∷ rows) h =
    ground (arith, set_owner-Linked channels id b rows h.1)

set_owner_absent :
    (id : ℕ) (b : Bool) (rows : List ChannelSubscriber)
    → find_id id rows ≡ none
    → set_owner id b rows ≡ rows
unfolding find_id set_owner
set_owner_absent id b [] h = refl
set_owner_absent id b (s ∷ rows) h = ground (arith, set_owner_absent id b rows)

-- The count changes by the row that is written.
pub owners-set_owner :
    (id : ℕ) (b : Bool) (c : ℕ) (rows : List ChannelSubscriber) (r : ChannelSubscriber)
    → Keyed rows
    → find_id id rows ≡ some r
    → owners c (set_owner id b rows) + owns c r ≡ owners c rows + owns c (record r { is_owner = b })
unfolding find_id set_owner owners
owners-set_owner id b c [] r k h = cc
owners-set_owner id b c (s ∷ rows) r k h = elim (Bool-cases (s.id == id)) [
  | inl hit ↦
      let same : s ≡ r = ground arith in
      rw hit
        (rw same (ground (arith, set_owner_absent id b rows (rw (eq_of_== s.id id hit) at k.0))))
  | inr miss ↦ (ground (arith, owners-set_owner id b c rows r k.2))
]

pub owns-le-owners :
    (id c : ℕ) (rows : List ChannelSubscriber) (r : ChannelSubscriber)
    → find_id id rows ≡ some r
    → owns c r ≤ owners c rows
unfolding find_id owners
owns-le-owners id c [] r h = cc
owns-le-owners id c (s ∷ rows) r h = ground (arith, owns-le-owners id c rows r)

pub find_subscriber-found :
    (u c : ℕ) (rows : List ChannelSubscriber) (r : ChannelSubscriber)
    → find_subscriber u c rows ≡ some r
    → (r.user_id ≡ u) × (r.channel_id ≡ c)
unfolding find_subscriber
find_subscriber-found u c [] r h = cc
find_subscriber-found u c (s ∷ rows) r h = ground (arith, find_subscriber-found u c rows r)

-- A row found by user and channel is the one with its id.
find_id-absent :
    (u c i : ℕ) (rows : List ChannelSubscriber) (r : ChannelSubscriber)
    → find_subscriber u c rows ≡ some r
    → find_id i rows ≡ none
    → (r.id == i) ≡ false
unfolding find_subscriber find_id
find_id-absent u c i [] r h n = cc
find_id-absent u c i (s ∷ rows) r h n = ground (arith, find_id-absent u c i rows r)

pub find_subscriber-id :
    (u c : ℕ) (rows : List ChannelSubscriber) (r : ChannelSubscriber)
    → Keyed rows
    → find_subscriber u c rows ≡ some r
    → find_id r.id rows ≡ some r
unfolding find_subscriber find_id
find_subscriber-id u c [] r k h = cc
find_subscriber-id u c (s ∷ rows) r k h = ground (
  arith,
  find_subscriber-id u c rows r k.2,
  find_id-absent u c s.id rows r,
  nat_beq_iff r.id s.id,
)

-- An owner is found where the user's only row of the channel is an owner's.
pub find_owner-subscriber :
    (u c : ℕ) (rows : List ChannelSubscriber) (r : ChannelSubscriber)
    → Keyed rows
    → find_owner u c rows ≡ some r
    → (find_subscriber u c rows ≡ some r) × (r.is_owner ≡ true)
unfolding find_subscriber find_owner
find_owner-subscriber u c [] r k h = cc
find_owner-subscriber u c (s ∷ rows) r k h = ground (
  arith,
  find_owner-subscriber u c rows r k.2,
  nat_beq_iff s.user_id u,
  nat_beq_iff s.channel_id c,
)
