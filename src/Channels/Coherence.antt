-- ===== src/Channels/Coherence.antt =====
-- The caches of service-channels agree with the tables while the cache answers.
use rust_service.Base.{
  ℕ, ◌≡◌, refl, ◌∙◌, Bool, true, false, not, ◌&&◌, ◌||◌, none, some, List, [], ◌∷◌, arith,
  if◌then◌else◌, nat_beq_iff, string_partial_eq, ◌==◌, nat_partial_eq, pair_partial_eq, is_some,
  keep, Map, lookup, insert, remove, lookup-insert, lookup-remove,
}
use mathlib.Core.Option
use rust_service.Channels.Schemas.{Channel, ChannelSubscriber, UpdateChannel, ChannelRead, read_of}
use rust_service.Channels.Tables.{
  find_channel, find_subscriber, users_of, delete_id, updated, update_rows,
}
use rust_service.Channels.Routes.{ServerData, del, del_all}
use rust_service.Channels.Ownership.{Keyed, find_subscriber-found, find_subscriber-id}
use rust_service.Channels.Rows.{delete_id_absent, find_channel-cascade}

-- A cached channel is the stored one.
abbrev pub ChannelsAgree : Map ℕ ChannelRead → List Channel → Type 0
ChannelsAgree cache channels =
    (c : ℕ) (r : ChannelRead)
    → lookup c cache ≡ some r
    → Option.map read_of (find_channel c channels) ≡ some r

-- A cached subscription is the stored one.
abbrev pub SubsAgree : Map (ℕ × ℕ) Bool → List ChannelSubscriber → Type 0
SubsAgree cache rows =
    (u c : ℕ) (b : Bool) → lookup (u, c) cache ≡ some b → is_some (find_subscriber u c rows) ≡ b

abbrev pub IsCoherent : ServerData → Type 0
IsCoherent state =
    ChannelsAgree state.channel_cache state.tables.channels
    × SubsAgree state.sub_cache state.tables.subscribers

-- Storing a new channel, with its entry.
pub ChannelsAgree-insert :
    (ch : Channel) (channels : List Channel) (cache : Map ℕ ChannelRead)
    → ChannelsAgree cache channels
    → ChannelsAgree (insert ch.id (read_of ch) cache) (ch ∷ channels)
unfolding find_channel
ChannelsAgree-insert ch channels cache agree c r e =
    ground (arith, agree c r, lookup-insert ch.id c (read_of ch) cache)

pub find_channel-updated :
    (id c now : ℕ) (patch : UpdateChannel) (channels : List Channel)
    → find_channel c (update_rows id patch now channels) ≡ (
        if c == id
        then Option.map (updated patch now) (find_channel c channels)
        else find_channel c channels)
unfolding find_channel update_rows updated
find_channel-updated id c now patch [] = ground arith
find_channel-updated id c now patch (ch ∷ channels) = ground (
  arith,
  find_channel-updated id c now patch channels,
  nat_beq_iff ch.id c,
  nat_beq_iff ch.id id,
  nat_beq_iff c id,
)

pub find_subscriber-delete :
    (user channel u c : ℕ) (rows : List ChannelSubscriber) (r : ChannelSubscriber)
    → Keyed rows
    → find_subscriber user channel rows ≡ some r
    → is_some (find_subscriber u c (delete_id r.id rows))
      ≡ (if u == user && c == channel then false else is_some (find_subscriber u c rows))
unfolding find_subscriber delete_id
find_subscriber-delete user channel u c [] r k h = cc
find_subscriber-delete user channel u c (s ∷ rows) r k h = ground (
  arith,
  find_subscriber-delete user channel u c rows r k.2,
  delete_id_absent r.id rows,
  find_subscriber-id user channel rows r k.2,
  find_subscriber-found user channel rows r,
  k.0,
  k.1,
  nat_beq_iff s.id r.id,
  nat_beq_iff s.user_id u,
  nat_beq_iff s.channel_id c,
  nat_beq_iff s.user_id user,
  nat_beq_iff s.channel_id channel,
  nat_beq_iff u user,
  nat_beq_iff c channel,
)

pub find_subscriber-cascade :
    (id u c : ℕ) (rows : List ChannelSubscriber)
    → find_subscriber u c (keep (λ s. not (s.channel_id == id)) rows)
      ≡ (if c == id then none else find_subscriber u c rows)
unfolding find_subscriber
find_subscriber-cascade id u c [] = ground arith
find_subscriber-cascade id u c (s ∷ rows) = ground (
  arith,
  find_subscriber-cascade id u c rows,
  nat_beq_iff s.channel_id id,
  nat_beq_iff s.channel_id c,
  nat_beq_iff c id,
)

abbrev member : ℕ → List ℕ → Bool
member u [] = false
member u (v ∷ users) = v == u || member u users

member-users_of :
    (u c : ℕ) (rows : List ChannelSubscriber)
    → member u (users_of c rows) ≡ is_some (find_subscriber u c rows)
unfolding find_subscriber users_of
member-users_of u c [] = refl
member-users_of u c (s ∷ rows) = ground (arith, member-users_of u c rows)

lookup-del_all :
    (channel : ℕ) (users : List ℕ) (cache : Map (ℕ × ℕ) Bool) (u c : ℕ)
    → lookup (u, c) (del_all (λ i. true) channel users cache)
      ≡ (if c == channel && member u users then none else lookup (u, c) cache)
unfolding del_all del
lookup-del_all channel [] cache u c = ground arith
lookup-del_all channel (v ∷ users) cache u c = ground (
  arith,
  lookup-del_all channel users (remove (v, channel) cache) u c,
  lookup-remove (v, channel) (u, c) cache,
  nat_beq_iff v u,
  nat_beq_iff c channel,
  nat_beq_iff channel c,
)

-- The channels that a reader or a writer leaves agree with its entry.
pub ChannelsAgree-set :
    (c : ℕ) (ch : Channel) (channels : List Channel) (cache : Map ℕ ChannelRead)
    → find_channel c channels ≡ some ch
    → ChannelsAgree cache channels
    → ChannelsAgree (insert c (read_of ch) cache) channels
ChannelsAgree-set c ch channels cache found agree d r e =
    ground (arith, agree d r, lookup-insert c d (read_of ch) cache, nat_beq_iff c d)

pub ChannelsAgree-updated :
    (id now : ℕ) (patch : UpdateChannel) (ch : Channel) (channels : List Channel)
    (cache : Map ℕ ChannelRead)
    → find_channel id channels ≡ some ch
    → ChannelsAgree cache channels
    → ChannelsAgree
        (insert id (read_of (updated patch now ch)) cache)
        (update_rows id patch now channels)
ChannelsAgree-updated id now patch ch channels cache found agree d r e = ground (
  arith,
  agree d r,
  lookup-insert id d (read_of (updated patch now ch)) cache,
  find_channel-updated id d now patch channels,
  nat_beq_iff id d,
  nat_beq_iff d id,
)

pub ChannelsAgree-removed :
    (id : ℕ) (channels : List Channel) (cache : Map ℕ ChannelRead)
    → ChannelsAgree cache channels
    → ChannelsAgree (remove id cache) (keep (λ ch. not (ch.id == id)) channels)
ChannelsAgree-removed id channels cache agree d r e = ground (
  arith,
  agree d r,
  lookup-remove id d cache,
  find_channel-cascade id d channels,
  nat_beq_iff id d,
  nat_beq_iff d id,
)

pub ChannelsAgree-expired :
    (id : ℕ) (channels : List Channel) (cache : Map ℕ ChannelRead)
    → ChannelsAgree cache channels
    → ChannelsAgree (remove id cache) channels
ChannelsAgree-expired id channels cache agree d r e =
    ground (arith, agree d r, lookup-remove id d cache)

-- The entry of a user and a channel is set to what the new rows say, and no other row changes.
pub SubsAgree-set :
    (user channel : ℕ) (b : Bool) (rows rows' : List ChannelSubscriber) (cache : Map (ℕ × ℕ) Bool)
    → ((u c : ℕ)
        → is_some (find_subscriber u c rows')
          ≡ (if u == user && c == channel then b else is_some (find_subscriber u c rows)))
    → SubsAgree cache rows
    → SubsAgree (insert (user, channel) b cache) rows'
SubsAgree-set user channel b rows rows' cache change agree u c v e = ground (
  arith,
  agree u c v,
  change u c,
  lookup-insert (user, channel) (u, c) b cache,
  nat_beq_iff user u,
  nat_beq_iff u user,
  nat_beq_iff channel c,
  nat_beq_iff c channel,
)

pub SubsAgree-removed :
    (user channel : ℕ) (b : Bool) (rows rows' : List ChannelSubscriber) (cache : Map (ℕ × ℕ) Bool)
    → ((u c : ℕ)
        → is_some (find_subscriber u c rows')
          ≡ (if u == user && c == channel then b else is_some (find_subscriber u c rows)))
    → SubsAgree cache rows
    → SubsAgree (remove (user, channel) cache) rows'
SubsAgree-removed user channel b rows rows' cache change agree u c v e = ground (
  arith,
  agree u c v,
  change u c,
  lookup-remove (user, channel) (u, c) cache,
  nat_beq_iff user u,
  nat_beq_iff u user,
  nat_beq_iff channel c,
  nat_beq_iff c channel,
)

pub SubsAgree-cascade :
    (channel : ℕ) (rows : List ChannelSubscriber) (cache : Map (ℕ × ℕ) Bool)
    → SubsAgree cache rows
    → SubsAgree
        (del_all (λ i. true) channel (users_of channel rows) cache)
        (keep (λ s. not (s.channel_id == channel)) rows)
SubsAgree-cascade channel rows cache agree u c v e = ground (
  arith,
  agree u c v,
  lookup-del_all channel (users_of channel rows) cache u c,
  member-users_of u channel rows,
  find_subscriber-cascade channel u c rows,
  nat_beq_iff c channel,
)

pub SubsAgree-same :
    (rows rows' : List ChannelSubscriber) (cache : Map (ℕ × ℕ) Bool)
    → ((u c : ℕ) → is_some (find_subscriber u c rows') ≡ is_some (find_subscriber u c rows))
    → SubsAgree cache rows
    → SubsAgree cache rows'
SubsAgree-same rows rows' cache change agree u c v e = change u c ∙ agree u c v e
