-- ===== src/Channels/Tables.antt =====
-- The two tables of service-channels/migrations/001_init.sql and what the statements of
-- service-channels/src/store.rs read and write, with the constraints of the schema.
use rust_service.Base.{
  ℕ, String, Bool, false, not, ◌&&◌, ◌||◌, Option, none, some, List, [], ◌∷◌, if◌then◌else◌,
  string_partial_eq, ◌==◌, nat_partial_eq, Result, ok, err, is_some, keep,
}
use rust_service.Channels.Schemas.{
  Channel, ChannelSubscriber, UpdateChannel, SqlxError, unique_violation, other_error,
}

pub record Tables : Type 0 where
  pub channels : List Channel
  pub subscribers : List ChannelSubscriber

-- `WHERE id = $1`.
unfoldable pub find_channel : ℕ → List Channel → Option Channel
find_channel id [] = none
find_channel id (c ∷ cs) = if c.id == id then some c else find_channel id cs

unfoldable pub find_id : ℕ → List ChannelSubscriber → Option ChannelSubscriber
find_id id [] = none
find_id id (s ∷ rows) = if s.id == id then some s else find_id id rows

-- `WHERE user_id = $1 AND channel_id = $2`.
unfoldable pub find_subscriber : ℕ → ℕ → List ChannelSubscriber → Option ChannelSubscriber
find_subscriber user channel [] = none
find_subscriber user channel (s ∷ rows) =
    if s.user_id == user && s.channel_id == channel
    then some s
    else find_subscriber user channel rows

-- `WHERE user_id = $1 AND channel_id = $2 AND is_owner = true`.
unfoldable pub find_owner : ℕ → ℕ → List ChannelSubscriber → Option ChannelSubscriber
find_owner user channel [] = none
find_owner user channel (s ∷ rows) =
    if (s.user_id == user && s.channel_id == channel) && s.is_owner
    then some s
    else find_owner user channel rows

-- `SELECT user_id FROM channel_subscribers WHERE channel_id = $1`.
unfoldable pub users_of : ℕ → List ChannelSubscriber → List ℕ
users_of channel [] = []
users_of channel (s ∷ rows) =
    let rest = users_of channel rows in if s.channel_id == channel then s.user_id ∷ rest else rest

-- Whether a row other than the one with this id has the title.
unfoldable pub title_taken : String → ℕ → List Channel → Bool
title_taken title id [] = false
title_taken title id (c ∷ cs) = (c.title == title && not (c.id == id)) || title_taken title id cs

-- `INSERT INTO channels`: the primary key and the unique title.
unfoldable pub insert_channel : Channel → Tables → Result Tables SqlxError
insert_channel c t =
    if is_some (find_channel c.id t.channels) || title_taken c.title c.id t.channels
    then err unique_violation
    else ok (record t { channels = c ∷ t.channels })

-- `INSERT INTO channel_subscribers`: the foreign key, the primary key, and one row for a user and
-- a channel.
unfoldable pub insert_subscriber : ChannelSubscriber → Tables → Result Tables SqlxError
insert_subscriber s t =
    if not (is_some (find_channel s.channel_id t.channels))
    then err (other_error "foreign key violation")
    else if is_some (find_id s.id t.subscribers)
        || is_some (find_subscriber s.user_id s.channel_id t.subscribers)
    then err unique_violation
    else ok (record t { subscribers = s ∷ t.subscribers })

-- The same with `ON CONFLICT (user_id, channel_id) DO NOTHING`.
unfoldable pub insert_or_keep : ChannelSubscriber → Tables → Result Tables SqlxError
insert_or_keep s t =
    if is_some (find_subscriber s.user_id s.channel_id t.subscribers)
    then ok t
    else insert_subscriber s t

-- `DELETE FROM channel_subscribers WHERE id = $1`.
unfoldable pub delete_id : ℕ → List ChannelSubscriber → List ChannelSubscriber
delete_id id rows = keep (λ s. not (s.id == id)) rows

-- `DELETE FROM channels WHERE id = $1`, with `ON DELETE CASCADE`.
unfoldable pub delete_cascade : ℕ → Tables → Tables
delete_cascade id t = record {
  channels = keep (λ c. not (c.id == id)) t.channels;
  subscribers = keep (λ s. not (s.channel_id == id)) t.subscribers;
}

-- `UPDATE channel_subscribers SET is_owner = ... WHERE id = $1`.
unfoldable pub set_owner : ℕ → Bool → List ChannelSubscriber → List ChannelSubscriber
set_owner id owner [] = []
set_owner id owner (s ∷ rows) =
    (if s.id == id then record s { is_owner = owner } else s) ∷ set_owner id owner rows

-- `COALESCE($1, column)`.
unfoldable pub coalesce {ℓ} : {A : Type ℓ} → Option A → A → A
coalesce none old = old
coalesce (some value) old = value

unfoldable pub coalesce_null {ℓ} : {A : Type ℓ} → Option A → Option A → Option A
coalesce_null none old = old
coalesce_null (some value) old = some value

unfoldable pub updated : UpdateChannel → ℕ → Channel → Channel
updated patch now c = record c {
  title = coalesce patch.title c.title;
  description = coalesce_null patch.description c.description;
  avatar_url = coalesce_null patch.avatar_url c.avatar_url;
  updated_at = now;
}

unfoldable pub update_rows : ℕ → UpdateChannel → ℕ → List Channel → List Channel
update_rows id patch now [] = []
update_rows id patch now (c ∷ cs) =
    (if c.id == id then updated patch now c else c) ∷ update_rows id patch now cs

-- `UPDATE channels ... WHERE id = $4`, before the rows are written: the row it finds, or the
-- violation of the unique title.
unfoldable pub updating : Tables → ℕ → UpdateChannel → Result (Option Channel) SqlxError
updating t id patch = elim (find_channel id t.channels) [
  | none ↦ ok none
  | some c ↦
      if title_taken (coalesce patch.title c.title) id t.channels
      then err unique_violation
      else ok (some c)
]
