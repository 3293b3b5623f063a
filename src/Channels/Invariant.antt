-- ===== src/Channels/Invariant.antt =====
-- The operations of service-channels/src/store.rs keep the tables valid.
use rust_service.Base.{
  ℕ, String, ◌≡◌, refl, sym, ◌∙◌, ◌⊎◌, inl, inr, true, false, not, none, some, ◌∷◌, arith,
  nat_beq_iff, string_partial_eq, ◌==◌, nat_partial_eq, pair_partial_eq, ok, Option-cases, is_some,
  All-keep,
}
use rust_service.Channels.Schemas.{Channel, ChannelSubscriber, CreateChannel, UpdateChannel}
use rust_service.Channels.Tables.{
  Tables, find_channel, find_id, find_subscriber, insert_channel, insert_subscriber, insert_or_keep,
  delete_id, delete_cascade, update_rows,
}
use rust_service.Channels.Store.{
  Faults, statement, ok_or, reject_if, update_channel, delete_channel, create_channel, subscribe,
  unsubscribe_row, unsubscribe_delete, unsubscribe, transfer_ownership,
}
use rust_service.Channels.Ownership.{owners, Linked, IsValid, find_subscriber-id}
use rust_service.Channels.Transfer.{moved-IsValid, transfer_ownership-ok}
use rust_service.Channels.Rows.{
  keep-Keyed, owners-delete_id, owners-cascade, find_channel-cascade, cascade-Linked,
  find_channel-update, All-weaken, owners_unlinked, find_channel-cons,
}

pub insert_subscriber-ok :
    (s : ChannelSubscriber) (t t' : Tables)
    → insert_subscriber s t ≡ ok t'
    → (is_some (find_channel s.channel_id t.channels) ≡ true)
      × (find_id s.id t.subscribers ≡ none)
      × (find_subscriber s.user_id s.channel_id t.subscribers ≡ none)
      × (t' ≡ record t { subscribers = s ∷ t.subscribers })
unfolding insert_subscriber
insert_subscriber-ok s t t' h = ground (
  arith,
  Option-cases (find_id s.id t.subscribers),
  Option-cases (find_subscriber s.user_id s.channel_id t.subscribers),
)

pub insert_channel-ok :
    (ch : Channel) (t t' : Tables)
    → insert_channel ch t ≡ ok t'
    → (is_some (find_channel ch.id t.channels) ≡ false)
      × (t' ≡ record t { channels = ch ∷ t.channels })
unfolding insert_channel
insert_channel-ok ch t t' h = ground arith

-- A row that owns nothing may be added wherever the constraints let it.
insert_subscriber-IsValid :
    (s : ChannelSubscriber) (t t' : Tables)
    → s.is_owner ≡ false
    → IsValid t
    → insert_subscriber s t ≡ ok t'
    → IsValid t'
unfolding owners
insert_subscriber-IsValid s t t' plain valid h =
    let made = insert_subscriber-ok s t t' h in
    rw made.3
      ((made.1, made.2, valid.0), (made.0, valid.1), λ c e. ground (arith, valid.2 c e, plain))

insert_pair-IsValid :
    (ch : Channel) (s : ChannelSubscriber) (t u t' : Tables)
    → s.is_owner ≡ true
    → s.channel_id ≡ ch.id
    → IsValid t
    → insert_channel ch t ≡ ok u
    → insert_subscriber s u ≡ ok t'
    → IsValid t'
unfolding owners
insert_pair-IsValid ch s t u t' owner same valid h g =
    let first = insert_channel-ok ch t u h in
    let second = rw first.1 at (insert_subscriber-ok s u t' g) in
    rw second.3 (
      (second.1, second.2, valid.0),
      (
        second.0,
        All-weaken t.channels (ch ∷ t.channels) t.subscribers
            (λ c e. ground (arith, find_channel-cons ch t.channels c)) valid.1,
      ),
      λ c e. ground (
        arith,
        valid.2 c,
        find_channel-cons ch t.channels c,
        owners_unlinked c t.channels t.subscribers,
        valid.1,
        first.0,
        nat_beq_iff ch.id c,
        nat_beq_iff s.channel_id c,
      ),
    )

pub subscribe-IsValid :
    (faults : Faults) (t t' : Tables) (user channel sub : ℕ)
    → IsValid t
    → subscribe faults t user channel sub ≡ ok t'
    → IsValid t'
unfolding subscribe statement reject_if insert_or_keep
subscribe-IsValid faults t t' user channel sub valid h =
    let s : ChannelSubscriber = record {
      id = sub;
      user_id = user;
      channel_id = channel;
      is_owner = false;
    } in
    let outcome : (t' ≡ t) ⊎ (insert_subscriber s t ≡ ok t') = ground arith in
    elim outcome [ inl e ↦ rw e valid | inr e ↦ insert_subscriber-IsValid s t t' refl valid e ]

pub create_channel-IsValid :
    (faults : Faults) (t : Tables) (user : ℕ) (request : CreateChannel) (channel sub now : ℕ)
    (made : Tables × Channel)
    → IsValid t
    → create_channel faults t user request channel sub now ≡ ok made
    → IsValid made.0
unfolding create_channel statement
create_channel-IsValid faults t user request channel sub now made valid h =
    let ch : Channel = record {
      id = channel;
      title = request.title;
      description = request.description;
      avatar_url = request.avatar_url;
      created_at = now;
      updated_at = now;
    } in
    let s : ChannelSubscriber = record {
      id = sub;
      user_id = user;
      channel_id = channel;
      is_owner = true;
    } in
    let inserted : (u : Tables) × (insert_channel ch t ≡ ok u)
        × (insert_subscriber s u ≡ ok made.0) =
      ground arith in
    insert_pair-IsValid ch s t inserted.0 made.0 refl refl valid inserted.1 inserted.2

pub unsubscribe-ok :
    (faults : Faults) (t t' : Tables) (user channel : ℕ)
    → unsubscribe faults t user channel ≡ ok t'
    → (r : ChannelSubscriber) × (find_subscriber user channel t.subscribers ≡ some r)
      × (r.is_owner ≡ false)
      × (t' ≡ record t { subscribers = delete_id r.id t.subscribers })
unfolding unsubscribe unsubscribe_row unsubscribe_delete statement ok_or reject_if
unsubscribe-ok faults t t' user channel h = ground arith

pub unsubscribe-IsValid :
    (faults : Faults) (t t' : Tables) (user channel : ℕ)
    → IsValid t
    → unsubscribe faults t user channel ≡ ok t'
    → IsValid t'
unfolding delete_id
unsubscribe-IsValid faults t t' user channel valid h =
    let (r, found, plain, e) = unsubscribe-ok faults t t' user channel h in
    let rows = t.subscribers in
    rw e (
      keep-Keyed (λ s. not (s.id == r.id)) rows valid.0,
      All-keep (Linked t.channels) (λ s. not (s.id == r.id)) rows valid.1,
      λ c g. ground (
        arith,
        valid.2 c g,
        owners-delete_id r.id c rows r valid.0
            (find_subscriber-id user channel rows r valid.0 found),
      ),
    )

pub delete_channel-IsValid :
    (text : ℕ → String) (faults : Faults) (t t' : Tables) (channel : ℕ)
    → IsValid t
    → delete_channel text faults t channel ≡ ok t'
    → IsValid t'
unfolding delete_channel statement ok_or delete_cascade
delete_channel-IsValid text faults t t' channel valid h =
    let e : t' ≡ delete_cascade channel t = ground arith in
    rw e (
      keep-Keyed (λ s. not (s.channel_id == channel)) t.subscribers valid.0,
      cascade-Linked channel t.channels t.subscribers valid.1,
      λ c g. ground (
        arith,
        valid.2 c,
        find_channel-cascade channel c t.channels,
        owners-cascade channel c t.subscribers,
      ),
    )

pub update_channel-IsValid :
    (text : ℕ → String) (faults : Faults) (t : Tables) (channel : ℕ) (patch : UpdateChannel)
    (now : ℕ) (done : Tables × Channel)
    → IsValid t
    → update_channel text faults t channel patch now ≡ ok done
    → IsValid done.0
unfolding update_channel statement ok_or
update_channel-IsValid text faults t channel patch now done valid h =
    let e : done.0 ≡ record t { channels = update_rows channel patch now t.channels } =
      ground arith in
    let kept_all = λ (c : ℕ). find_channel-update channel c now patch t.channels in
    rw e (
      valid.0,
      All-weaken t.channels (update_rows channel patch now t.channels) t.subscribers
          (λ c g. kept_all c ∙ g) valid.1,
      λ c g. valid.2 c (sym (kept_all c) ∙ g),
    )

pub transfer_ownership-IsValid :
    (faults : Faults) (t t' : Tables) (channel from to : ℕ)
    → IsValid t
    → transfer_ownership faults t channel from to ≡ ok t'
    → IsValid t'
transfer_ownership-IsValid faults t t' channel from to valid h =
    let (differ, (o, g, from_owner, to_subscriber, e)) =
      transfer_ownership-ok faults t channel from to t' h in
    rw e (moved-IsValid t channel from to o g valid differ from_owner to_subscriber)
