-- ===== src/Channels/Transfer.antt =====
-- What `transfer_ownership` of service-channels/src/store.rs does to the owners of a channel.
use rust_service.Base.{
  ℕ, ◌≡◌, refl, sym, ◌∙◌, inl, inr, Bool, true, false, ◌&&◌, Option, none, some, List, [], ◌∷◌,
  arith, if◌then◌else◌, nat_beq_iff, string_partial_eq, ◌==◌, nat_partial_eq, pair_partial_eq, ok,
  err, Bool-cases, Option-cases, is_some, All,
}
use mathlib.Core.Option
use rust_service.Channels.Schemas.{Channel, ChannelSubscriber, ApiError}
use rust_service.Channels.Tables.{
  Tables, find_channel, find_id, find_subscriber, find_owner, set_owner,
}
use rust_service.Channels.Store.{Faults, statement, ok_or, reject_if, transfer_ownership}
use rust_service.Channels.Ownership.{
  owners, Keyed, Linked, IsValid, set_owner-Keyed, set_owner-Linked, owners-set_owner,
  owns-le-owners, find_subscriber-found, find_subscriber-id, find_owner-subscriber,
}

-- The row that the update writes, where its id is the one given.
abbrev pub marked : ℕ → Bool → ChannelSubscriber → ChannelSubscriber
marked id b r = if r.id == id then record r { is_owner = b } else r

pub find_subscriber-mark :
    (id u c : ℕ) (b : Bool) (rows : List ChannelSubscriber)
    → find_subscriber u c (set_owner id b rows)
      ≡ Option.map (marked id b) (find_subscriber u c rows)
unfolding find_subscriber set_owner
find_subscriber-mark id u c b [] = refl
find_subscriber-mark id u c b (s ∷ rows) = ground (arith, find_subscriber-mark id u c b rows)

find_id-other :
    (id i : ℕ) (b : Bool) (rows : List ChannelSubscriber)
    → (id == i) ≡ false
    → find_id i (set_owner id b rows) ≡ find_id i rows
unfolding find_id set_owner
find_id-other id i b [] h = refl
find_id-other id i b (s ∷ rows) h =
    ground (
      arith,
      find_id-other id i b rows h,
      nat_beq_iff s.id i,
      nat_beq_iff s.id id,
      nat_beq_iff id i,
    )

abbrev pub flag : Option ChannelSubscriber → Bool
flag none = false
flag (some r) = r.is_owner

find_owner-absent :
    (u c : ℕ) (rows : List ChannelSubscriber)
    → find_subscriber u c rows ≡ none
    → find_owner u c rows ≡ none
unfolding find_subscriber find_owner
find_owner-absent u c [] h = refl
find_owner-absent u c (s ∷ rows) h = ground (arith, find_owner-absent u c rows)

-- Ownership is the flag of the user's row.
pub find_owner-flag :
    (u c : ℕ) (rows : List ChannelSubscriber)
    → Keyed rows
    → is_some (find_owner u c rows) ≡ flag (find_subscriber u c rows)
unfolding find_subscriber find_owner
find_owner-flag u c [] k = refl
find_owner-flag u c (s ∷ rows) k = ground (
  arith,
  find_owner-flag u c rows k.2,
  find_owner-absent u c rows,
  nat_beq_iff s.user_id u,
  nat_beq_iff s.channel_id c,
)

pub find_subscriber-Linked :
    (channels : List Channel) (u c : ℕ) (rows : List ChannelSubscriber) (r : ChannelSubscriber)
    → All (Linked channels) rows
    → find_subscriber u c rows ≡ some r
    → is_some (find_channel c channels) ≡ true
unfolding find_subscriber
find_subscriber-Linked channels u c [] r a h = cc
find_subscriber-Linked channels u c (s ∷ rows) r a h =
    ground (arith, find_subscriber-Linked channels u c rows r a.1, nat_beq_iff s.channel_id c)

-- Two rows have one id exactly when they are of one user and one channel.
same_row :
    (u d v c : ℕ) (rows : List ChannelSubscriber) (r g : ChannelSubscriber)
    → Keyed rows
    → find_subscriber u d rows ≡ some r
    → find_subscriber v c rows ≡ some g
    → (r.id == g.id) ≡ (d == c && u == v)
same_row u d v c rows r g k hr hg = ground (
  arith,
  find_subscriber-id u d rows r k hr,
  find_subscriber-id v c rows g k hg,
  find_subscriber-found u d rows r hr,
  find_subscriber-found v c rows g hg,
  nat_beq_iff r.id g.id,
  nat_beq_iff u v,
  nat_beq_iff d c,
)

module _ (t : Tables) (c from to : ℕ) (o g : ChannelSubscriber) (valid : IsValid t)
    (differ : (from == to) ≡ false) (from_owner : find_owner from c t.subscribers ≡ some o)
    (to_subscriber : find_subscriber to c t.subscribers ≡ some g) where
  abbrev pub moved : List ChannelSubscriber
  moved = set_owner g.id true (set_owner o.id false t.subscribers)

  pub moved-Keyed : Keyed moved
  moved-Keyed =
      set_owner-Keyed g.id true (set_owner o.id false t.subscribers)
        (set_owner-Keyed o.id false t.subscribers valid.0)

  -- Every channel has as many owners as before.
  pub owners-moved : (d : ℕ) → owners d moved ≡ owners d t.subscribers
  owners-moved d =
      let rows = t.subscribers in
      let from_row = find_owner-subscriber from c rows o valid.0 from_owner in
      let apart = same_row from c to c rows o g valid.0 from_row.0 to_subscriber in
      let found_g = find_subscriber-id to c rows g valid.0 to_subscriber in
      let still_g = sym (find_id-other o.id g.id false rows (ground (arith, apart))) in
      let found_g' : find_id g.id (set_owner o.id false rows) ≡ some g = cc in
      ground (
        arith,
        owners-set_owner o.id false d rows o valid.0
            (find_subscriber-id from c rows o valid.0 from_row.0),
        owners-set_owner g.id true d (set_owner o.id false rows) g
            (set_owner-Keyed o.id false rows valid.0) found_g',
        owns-le-owners g.id d (set_owner o.id false rows) g found_g',
        find_subscriber-found from c rows o from_row.0,
        find_subscriber-found to c rows g to_subscriber,
        valid.2 c (find_subscriber-Linked t.channels to c rows g valid.1 to_subscriber),
        nat_beq_iff c d,
        from_row.1,
      )

  pub moved-IsValid : IsValid (record t { subscribers = moved })
  moved-IsValid = (
    moved-Keyed,
    set_owner-Linked t.channels g.id true (set_owner o.id false t.subscribers)
        (set_owner-Linked t.channels o.id false t.subscribers valid.1),
    λ d e. owners-moved d ∙ valid.2 d e,
  )

  -- Who owns what afterwards.
  pub owner-moved :
      (u d : ℕ)
      → is_some (find_owner u d moved) ≡ (
          if d == c && u == to
          then true
          else if d == c && u == from
          then false
          else is_some (find_owner u d t.subscribers))
  owner-moved u d =
      let rows = t.subscribers in
      let from_row = find_owner-subscriber from c rows o valid.0 from_owner in
      rw
        (
          find_owner-flag u d moved moved-Keyed,
          find_owner-flag u d rows valid.0,
          find_subscriber-mark g.id u d true (set_owner o.id false rows),
          find_subscriber-mark o.id u d false rows,
        )
        (elim (Option-cases (find_subscriber u d rows)) [
          | inl none_there ↦ ground (
            arith,
            to_subscriber,
            from_row.0,
            nat_beq_iff d c,
            nat_beq_iff u to,
            nat_beq_iff u from,
          )
          | inr (r, e) ↦ ground (
            arith,
            same_row u d to c rows r g valid.0 e to_subscriber,
            same_row u d from c rows r o valid.0 e from_row.0,
            nat_beq_iff u to,
            nat_beq_iff u from,
          )
        ])

-- A transfer answers as follows where the database does, and then no more than one row of the
-- channel is an owner's.
pub transfer_ownership-cases :
    (t : Tables) (c from to : ℕ)
    → transfer_ownership (λ i. none) t c from to ≡ (
        if from == to
        then err (ApiError.bad_request "Cannot transfer ownership to yourself")
        else elim (find_owner from c t.subscribers) [
          | none ↦ err (ApiError.not_found "You are not the owner of this channel")
          | some o ↦ elim (find_subscriber to c t.subscribers) [
            | none ↦ err (ApiError.not_found "Target user is not a subscriber of this channel")
            | some g ↦ ok (record t {
              subscribers = set_owner g.id true (set_owner o.id false t.subscribers);
            })
          ]
        ])
unfolding transfer_ownership statement ok_or reject_if
transfer_ownership-cases t c from to = elim (Bool-cases (from == to)) [
  | inl e ↦ rw e
  | inr e ↦ elim (Option-cases (find_owner from c t.subscribers)) [
    | inl n ↦ rw (e, n)
    | inr (o, f) ↦ elim (Option-cases (find_subscriber to c t.subscribers)) [
      | inl n ↦ rw (e, f, n)
      | inr (g, h) ↦ rw (e, f, h)
    ]
  ]
]

-- A transfer that returns tables has found both rows.
pub transfer_ownership-ok :
    (faults : Faults) (t : Tables) (c from to : ℕ) (t' : Tables)
    → transfer_ownership faults t c from to ≡ ok t'
    → ((from == to) ≡ false)
      × ((o : ChannelSubscriber) × (g : ChannelSubscriber) × (find_owner from c t.subscribers
            ≡ some o)
          × (find_subscriber to c t.subscribers ≡ some g)
          × (t' ≡ record t {
            subscribers = set_owner g.id true (set_owner o.id false t.subscribers);
          }))
unfolding transfer_ownership statement ok_or reject_if
transfer_ownership-ok faults t c from to t' h = ground arith
