-- ===== src/Channels/Promises.antt =====
-- What the single operations of service-channels promise.
use rust_service.Base.{
  ℕ, ◌≤◌, String, ◌≡◌, refl, Bool, true, false, not, ◌&&◌, Option, none, some, List, [], ◌∷◌, arith,
  if◌then◌else◌, nat_beq_iff, string_partial_eq, ◌==◌, nat_partial_eq, pair_partial_eq, ==-refl, ok,
  is_some, is_ok,
}
use rust_service.Channels.Schemas.{ChannelSubscriber, UpdateChannel}
use rust_service.Channels.Tables.{
  Tables, find_channel, find_subscriber, find_owner, insert_or_keep, delete_id, set_owner,
}
use rust_service.Channels.Store.{
  Faults, statement, ok_or, reject_if, unsubscribe_row, unsubscribe_delete,
}
use rust_service.Channels.Store
use rust_service.Channels.Routes.{
  Header, ServerData, extract_user_id, check_title, check_description,
}
use rust_service.Channels.Routes
use rust_service.Channels.Ownership.{owners, IsValid, find_subscriber-found, find_subscriber-id}
use rust_service.Channels.Transfer.{
  find_subscriber-mark, find_owner-flag, find_subscriber-Linked, moved, moved-Keyed, owners-moved,
  owner-moved, transfer_ownership-cases, transfer_ownership-ok,
}
use rust_service.Channels.Rows.{owners-delete_id}
use rust_service.Channels.Invariant.{unsubscribe-ok}
use rust_service.Channels.Coherence.{find_subscriber-delete}
use rust_service.Channels.Cache.{subscribe-Changed}

owners_nobody :
    (c v : ℕ) (rows : List ChannelSubscriber) → owners c rows ≡ 0 → find_owner v c rows ≡ none
unfolding owners find_owner
owners_nobody c v [] h = refl
owners_nobody c v (s ∷ rows) h = ground (arith, owners_nobody c v rows)

-- One owner is one user.
owner_unique :
    (c u v : ℕ) (rows : List ChannelSubscriber)
    → owners c rows ≤ 1
    → is_some (find_owner u c rows) ≡ true
    → is_some (find_owner v c rows) ≡ true
    → (u == v) ≡ true
unfolding owners find_owner
owner_unique c u v [] h hu hv = cc
owner_unique c u v (s ∷ rows) h hu hv = ground (
  arith,
  owner_unique c u v rows,
  owners_nobody c u rows,
  owners_nobody c v rows,
  nat_beq_iff s.user_id u,
  nat_beq_iff s.user_id v,
  nat_beq_iff s.channel_id c,
  nat_beq_iff u v,
)

-- After a transfer in valid tables the target alone owns the channel, the former owner still
-- subscribes to it, every other ownership and subscription is what it was, and no channel changes.
pub transfer_moves :
    (faults : Faults) (t t' : Tables) (c from to : ℕ)
    → IsValid t
    → Store.transfer_ownership faults t c from to ≡ ok t'
    → (t'.channels ≡ t.channels)
      × ((u d : ℕ)
          → is_some (find_owner u d t'.subscribers)
            ≡ (if d == c then u == to else is_some (find_owner u d t.subscribers)))
      × ((u d : ℕ)
          → is_some (find_subscriber u d t'.subscribers)
            ≡ is_some (find_subscriber u d t.subscribers))
transfer_moves faults t t' c from to valid h =
    let (differ, (o, g, from_owner, to_subscriber, e)) =
      transfer_ownership-ok faults t c from to t' h in
    let rows = t.subscribers in
    rw e (
      refl,
      λ u d. ground (
        arith,
        owner-moved t c from to o g valid differ from_owner to_subscriber u d,
        owner_unique c from u rows,
        valid.2 c (find_subscriber-Linked t.channels to c rows g valid.1 to_subscriber),
        from_owner,
        nat_beq_iff d c,
        nat_beq_iff u to,
        nat_beq_iff u from,
        nat_beq_iff from u,
      ),
      λ u d. ground (
        arith,
        find_subscriber-mark g.id u d true (set_owner o.id false rows),
        find_subscriber-mark o.id u d false rows,
      ),
    )

-- A transfer succeeds, where the database answers, exactly when the sender owns the channel and
-- the target is another of its subscribers.
pub transfer_succeeds :
    (t : Tables) (c from to : ℕ)
    → is_ok (Store.transfer_ownership (λ i. none) t c from to) ≡ (
        not (from == to)
        && is_some (find_owner from c t.subscribers)
        && is_some (find_subscriber to c t.subscribers))
transfer_succeeds t c from to = rw (transfer_ownership-cases t c from to) (ground arith)

-- A user who leaves a channel in valid tables is no owner of it and has no row in it afterwards,
-- and nobody else's row changes.
pub unsubscribe_leaves :
    (faults : Faults) (t t' : Tables) (user channel : ℕ)
    → IsValid t
    → Store.unsubscribe faults t user channel ≡ ok t'
    → (is_some (find_owner user channel t.subscribers) ≡ false)
      × ((u c : ℕ)
          → is_some (find_subscriber u c t'.subscribers) ≡ (
              if u == user && c == channel
              then false
              else is_some (find_subscriber u c t.subscribers)))
      × (t'.channels ≡ t.channels)
unsubscribe_leaves faults t t' user channel valid h =
    let (r, found, plain, e) = unsubscribe-ok faults t t' user channel h in
    rw e (
      ground (arith, find_owner-flag user channel t.subscribers valid.0),
      λ u c. find_subscriber-delete user channel u c t.subscribers r valid.0 found,
      refl,
    )

-- Whoever has subscribed may do so again, with any fresh id, and the tables stay as they are.
pub subscribe_again :
    (faults : Faults) (t t' : Tables) (user channel sub again : ℕ)
    → Store.subscribe faults t user channel sub ≡ ok t'
    → Store.subscribe (λ i. none) t' user channel again ≡ ok t'
unfolding Store.subscribe statement reject_if insert_or_keep
subscribe_again faults t t' user channel sub again h =
    let change = subscribe-Changed faults t t' user channel sub h in
    let had : is_some (find_subscriber user channel t'.subscribers) ≡ true =
      ground (arith, change.1 user channel, ==-refl user, ==-refl channel) in
    let there : is_some (find_channel channel t.channels) ≡ true = ground arith in
    rw (change.0, there, had) refl

-- A user who does not own a channel can neither change nor delete it: the handlers answer an
-- error, whatever the database and the cache do.
pub only_owner_writes :
    (parse_uuid : String → Option ℕ) (text : ℕ → String) (faults : Faults) (cached : ℕ → Bool)
    (state : ServerData) (h : Header) (user channel : ℕ) (patch : UpdateChannel) (now : ℕ)
    → extract_user_id parse_uuid h ≡ ok user
    → is_some (find_owner user channel state.tables.subscribers) ≡ false
    → (is_ok (Routes.update_channel parse_uuid text faults cached state h channel patch now)
        ≡ false)
      × (is_ok (Routes.delete_channel parse_uuid text faults cached state h channel) ≡ false)
unfolding Routes.update_channel Routes.delete_channel Store.is_owner statement reject_if
only_owner_writes parse_uuid text faults cached state h user channel patch now named none_owned =
    (ground arith, ground arith)

-- If a user's row is read by `unsubscribe` before, and deleted after, a transfer that makes the
-- user the owner, the channel has no owner left.
pub unsubscribe_race :
    (faults : Faults) (t t₁ t₂ : Tables) (row : ChannelSubscriber) (c from to : ℕ)
    → IsValid t
    → unsubscribe_row faults t to c ≡ ok row
    → Store.transfer_ownership faults t c from to ≡ ok t₁
    → unsubscribe_delete faults t₁ row ≡ ok t₂
    → (is_some (find_channel c t₂.channels) ≡ true) × (owners c t₂.subscribers ≡ 0)
unfolding unsubscribe_row unsubscribe_delete statement ok_or reject_if
unsubscribe_race faults t t₁ t₂ row c from to valid h g d =
    let (differ, (o, r, from_owner, to_subscriber, e)) =
      transfer_ownership-ok faults t c from to t₁ g in
    let rows = moved t c from to o r valid differ from_owner to_subscriber in
    let keyed = moved-Keyed t c from to o r valid differ from_owner to_subscriber in
    let plain : (row ≡ r) × (row.is_owner ≡ false) = ground arith in
    let last : t₂ ≡ record t₁ { subscribers = delete_id row.id t₁.subscribers } = ground arith in
    let there = find_subscriber-Linked t.channels to c t.subscribers r valid.1 to_subscriber in
    let now_owner : find_subscriber to c rows ≡ some (record r { is_owner = true }) = ground (
      arith,
      find_subscriber-mark r.id to c true (set_owner o.id false t.subscribers),
      find_subscriber-mark o.id to c false t.subscribers,
      to_subscriber,
      nat_beq_iff r.id r.id,
    ) in
    rw (last, e, plain.0)
      (
        there,
        ground (
          arith,
          owners-delete_id r.id c rows (record r { is_owner = true }) keyed
              (find_subscriber-id to c rows (record r { is_owner = true }) keyed now_owner),
          owners-moved t c from to o r valid differ from_owner to_subscriber c,
          valid.2 c there,
          find_subscriber-found to c t.subscribers r to_subscriber,
          nat_beq_iff r.channel_id c,
        ),
      )
