-- ===== src/Channels/Index.antt =====
-- The search index of service-channels holds the stored channels, after every write of a row.
use rust_service.Base.{
  ℕ, String, ◌≡◌, Bool, true, not, Option, some, List, [], ◌∷◌, arith, nat_beq_iff,
  string_partial_eq, ◌==◌, nat_partial_eq, keep, eq_of_==, ==-refl, Map, lookup, lookup-insert,
  lookup-remove, Bool-cases, inl, inr, sym, refl, ap, insert,
}
use mathlib.Core.Option
use rust_service.Channels.Schemas.{Channel, UpdateChannel, read_of}
use rust_service.Channels.Tables.{find_channel, updated, update_rows}
use rust_service.Channels.Routes.{Sent, indexed, unindexed}
use rust_service.Channels.Rows.{find_channel-cascade}
use rust_service.Channels.Coherence.{find_channel-updated}
use rust_service.Channels.Search.{ChannelDocument, index_channel, delete_channel, replay}

-- The engine carries out every call.
abbrev pub all_answered : ℕ → Bool
all_answered n = true

module _ (show : ℕ → String) where
  -- The document of a stored channel.
  abbrev pub document : Channel → ChannelDocument
  document ch = record {
    id = show ch.id;
    title = ch.title;
    description = ch.description;
    avatar_url = ch.avatar_url;
  }

  -- The documents are those of the stored channels, each under its id, and no others.
  abbrev pub IsMirror : Map String ChannelDocument → List Channel → Type 0
  IsMirror index channels =
      ((c : ℕ) → lookup (show c) index ≡ Option.map document (find_channel c channels))
      × ((key : String) (doc : ChannelDocument)
          → lookup key index ≡ some doc
          → (c : ℕ) × (key ≡ show c))

module _ (show : ℕ → String) (parse_uuid : String → Option ℕ)
    (parses : (n : ℕ) → parse_uuid (show n) ≡ some n) where
  show-same : (a b : ℕ) → (show a == show b) ≡ (a == b)
  show-same a b = elim (Bool-cases (a == b)) [
    | inl same ↦ rw (same, eq_of_== a b same) (==-refl (show b))
    | inr other ↦ elim (Bool-cases (show a == show b)) [
      | inr apart ↦ rw (apart, other) refl
      | inl same ↦ absurd (
          ground (
            arith,
            other,
            nat_beq_iff a b,
            parses a,
            parses b,
            ap parse_uuid (eq_of_== (show a) (show b) same),
          ))
    ]
  ]

  pub find_channel-id :
      (c : ℕ) (channels : List Channel) (ch : Channel)
      → find_channel c channels ≡ some ch
      → ch.id ≡ c
  unfolding find_channel
  find_channel-id c [] ch h = absurd (ground (arith, h))
  find_channel-id c (d ∷ channels) ch h =
      ground (arith, h, nat_beq_iff d.id c, find_channel-id c channels ch)

  insert-keys :
      (id : ℕ) (doc : ChannelDocument) (index : Map String ChannelDocument)
      → ((key : String) (d : ChannelDocument)
          → lookup key index ≡ some d
          → (c : ℕ) × (key ≡ show c))
      → (key : String) (d : ChannelDocument) → lookup key (insert (show id) doc index) ≡ some d
      → (c : ℕ) × (key ≡ show c)
  insert-keys id doc index known key d h = elim (Bool-cases (show id == key)) [
    | inl same ↦ (id, sym (eq_of_== (show id) key same))
    | inr other ↦ known key d (ground (arith, h, other, lookup-insert (show id) key doc index))
  ]

  pub IsMirror-insert :
      (ch : Channel) (channels : List Channel) (sent : List Sent)
      → IsMirror show (replay show all_answered sent) channels
      → IsMirror show (replay show all_answered (indexed (read_of ch) ∷ sent)) (ch ∷ channels)
  unfolding replay index_channel read_of find_channel
  IsMirror-insert ch channels sent mirror = (
    λ c. ground (
      arith,
      mirror.0 c,
      show-same ch.id c,
      lookup-insert (show ch.id) (show c) (document show ch) (replay show all_answered sent),
    ),
    insert-keys ch.id (document show ch) (replay show all_answered sent) mirror.1,
  )

  pub IsMirror-updated :
      (id now : ℕ) (patch : UpdateChannel) (ch : Channel) (channels : List Channel)
      (sent : List Sent)
      → find_channel id channels ≡ some ch
      → IsMirror show (replay show all_answered sent) channels
      → IsMirror show
          (replay show all_answered (indexed (read_of (updated patch now ch)) ∷ sent))
          (update_rows id patch now channels)
  unfolding replay index_channel read_of updated
  IsMirror-updated id now patch ch channels sent found mirror = (
    λ c. ground (
      arith,
      mirror.0 c,
      found,
      find_channel-id id channels ch found,
      show-same id c,
      find_channel-updated id c now patch channels,
      nat_beq_iff id c,
      nat_beq_iff c id,
      lookup-insert (show ch.id) (show c) (document show (updated patch now ch))
          (replay show all_answered sent),
    ),
    insert-keys ch.id (document show (updated patch now ch)) (replay show all_answered sent)
        mirror.1,
  )

  pub IsMirror-removed :
      (id : ℕ) (channels : List Channel) (sent : List Sent)
      → IsMirror show (replay show all_answered sent) channels
      → IsMirror show
          (replay show all_answered (unindexed id ∷ sent))
          (keep (λ ch. not (ch.id == id)) channels)
  unfolding replay delete_channel
  IsMirror-removed id channels sent mirror = (
    λ c. ground (
      arith,
      mirror.0 c,
      show-same id c,
      find_channel-cascade id c channels,
      nat_beq_iff id c,
      nat_beq_iff c id,
      lookup-remove (show id) (show c) (replay show all_answered sent),
    ),
    λ key doc h.
        mirror.1 key doc
          (ground (arith, h, lookup-remove (show id) key (replay show all_answered sent))),
  )
