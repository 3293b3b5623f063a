-- ===== src/Channels/Cache.antt =====
-- What each operation of service-channels/src/store.rs changes of what the cache holds.
use rust_service.Base.{
  ℕ, String, ◌≡◌, refl, ◌⊎◌, inl, inr, Bool, true, false, ◌&&◌, some, List, ◌∷◌, arith,
  if◌then◌else◌, nat_beq_iff, string_partial_eq, ◌==◌, nat_partial_eq, pair_partial_eq, ok,
  Option-cases, is_some,
}
use rust_service.Channels.Schemas.{Channel, ChannelSubscriber, CreateChannel, UpdateChannel}
use rust_service.Channels.Tables.{
  Tables, find_channel, find_subscriber, insert_channel, insert_subscriber, insert_or_keep,
  delete_cascade, set_owner, updated, update_rows, updating,
}
use rust_service.Channels.Store.{Faults, statement, ok_or, reject_if}
use rust_service.Channels.Store
use rust_service.Channels.Transfer.{find_subscriber-mark, transfer_ownership-ok}
use rust_service.Channels.Invariant.{insert_subscriber-ok, insert_channel-ok}

-- What the subscribers are after a write for one user and channel.
abbrev pub Changed : ℕ → ℕ → Bool → List ChannelSubscriber → List ChannelSubscriber → Type 0
Changed user channel b rows rows' =
    (u c : ℕ)
    → is_some (find_subscriber u c rows')
      ≡ (if u == user && c == channel then b else is_some (find_subscriber u c rows))

Changed-cons :
    (s : ChannelSubscriber) (rows : List ChannelSubscriber)
    → Changed s.user_id s.channel_id true rows (s ∷ rows)
unfolding find_subscriber
Changed-cons s rows u c = ground (
  arith,
  nat_beq_iff s.user_id u,
  nat_beq_iff u s.user_id,
  nat_beq_iff s.channel_id c,
  nat_beq_iff c s.channel_id,
)

pub Changed-same :
    (user channel : ℕ) (b : Bool) (rows : List ChannelSubscriber)
    → is_some (find_subscriber user channel rows) ≡ b
    → Changed user channel b rows rows
Changed-same user channel b rows h u c = ground (arith, nat_beq_iff u user, nat_beq_iff c channel)

pub subscribe-Changed :
    (faults : Faults) (t t' : Tables) (user channel sub : ℕ)
    → Store.subscribe faults t user channel sub ≡ ok t'
    → (t'.channels ≡ t.channels) × Changed user channel true t.subscribers t'.subscribers
unfolding Store.subscribe statement reject_if insert_or_keep
subscribe-Changed faults t t' user channel sub h =
    let s : ChannelSubscriber = record {
      id = sub;
      user_id = user;
      channel_id = channel;
      is_owner = false;
    } in
    let outcome : ((t' ≡ t) × (is_some (find_subscriber user channel t.subscribers) ≡ true))
        ⊎ (insert_subscriber s t ≡ ok t') =
      ground arith in
    elim outcome [
      | inl (e, had) ↦ rw e (refl, Changed-same user channel true t.subscribers had)
      | inr e ↦ rw (insert_subscriber-ok s t t' e).3 (refl, Changed-cons s t.subscribers)
    ]

pub create-rows :
    (faults : Faults) (t : Tables) (user : ℕ) (request : CreateChannel) (channel sub now : ℕ)
    (made : Tables × Channel)
    → Store.create_channel faults t user request channel sub now ≡ ok made
    → (made.0.channels ≡ made.1 ∷ t.channels)
      × Changed user made.1.id true t.subscribers made.0.subscribers
unfolding Store.create_channel statement
create-rows faults t user request channel sub now made h =
    let ch : Channel = record {
      id = channel;
      title = request.title;
      description = request.description;
      avatar_url = request.avatar_url;
      created_at = now;
      updated_at = now;
    } in
    let s : ChannelSubscriber = record {
      id = sub;
      user_id = user;
      channel_id = channel;
      is_owner = true;
    } in
    let inserted : (u : Tables) × (insert_channel ch t ≡ ok u)
        × (insert_subscriber s u ≡ ok made.0)
        × (made.1 ≡ ch) =
      ground arith in
    let first = insert_channel-ok ch t inserted.0 inserted.1 in
    let second = insert_subscriber-ok s inserted.0 made.0 inserted.2 in
    rw (inserted.3, second.3, first.1) (refl, Changed-cons s t.subscribers)

pub update-rows :
    (text : ℕ → String) (faults : Faults) (t : Tables) (channel : ℕ) (patch : UpdateChannel)
    (now : ℕ) (done : Tables × Channel)
    → Store.update_channel text faults t channel patch now ≡ ok done
    → (ch : Channel) × (find_channel channel t.channels ≡ some ch)
      × (done ≡ (
        record t { channels = update_rows channel patch now t.channels },
        updated patch now ch,
      ))
unfolding Store.update_channel statement ok_or updating
update-rows text faults t channel patch now done h =
    elim (Option-cases (find_channel channel t.channels)) [
      | inl n ↦ ground arith
      | inr (ch, e) ↦ (ch, e, ground arith)
    ]

pub delete-rows :
    (text : ℕ → String) (faults : Faults) (t left : Tables) (channel : ℕ)
    → Store.delete_channel text faults t channel ≡ ok left
    → left ≡ delete_cascade channel t
unfolding Store.delete_channel statement ok_or
delete-rows text faults t left channel h = ground arith

pub transfer-same :
    (faults : Faults) (t t' : Tables) (channel from to : ℕ)
    → Store.transfer_ownership faults t channel from to ≡ ok t'
    → (t'.channels ≡ t.channels)
      × ((u c : ℕ)
          → is_some (find_subscriber u c t'.subscribers)
            ≡ is_some (find_subscriber u c t.subscribers))
transfer-same faults t t' channel from to h =
    let (differ, (o, g, from_owner, to_subscriber, e)) =
      transfer_ownership-ok faults t channel from to t' h in
    rw e (
      refl,
      λ u c. ground (
        arith,
        find_subscriber-mark g.id u c true (set_owner o.id false t.subscribers),
        find_subscriber-mark o.id u c false t.subscribers,
      ),
    )
