-- ===== src/Channels/Found.antt =====
-- What a search of service-channels answers with.
use rust_service.Base.{
  ℕ, String, ◌≡◌, Bool, Option, some, List, [], ◌∷◌, arith, string_partial_eq, nat_partial_eq,
  pair_partial_eq, inl, inr, Result-cases, Option-cases, ok, Map, lookup, All, ◌∙◌, sym, ap, refl,
  map,
}
use mathlib.Core.Option
use rust_service.Channels.Schemas.{Channel, ChannelRead, read_of, limit, offset}
use rust_service.Channels.Tables.{find_channel}
use rust_service.Channels.Store.{Faults}
use rust_service.Channels.Server.{Request, run}
use rust_service.Channels.Runs.{started}
use rust_service.Channels.Search.{
  ChannelDocument, Engine, SearchParams, PaginatedResponse, replay, paging, as_usize, search, reads,
  search_channels,
}
use rust_service.Channels.Index.{all_answered, document, IsMirror, find_channel-id}
use rust_service.Channels.Indexed.{index_mirrors}

-- A channel as it is stored.
abbrev pub IsCurrent : List Channel → ChannelRead → Type 0
IsCurrent channels r = Option.map read_of (find_channel r.id channels) ≡ some r

-- The documents of the index.
abbrev pub AreIndexed : Map String ChannelDocument → List ChannelDocument → Type 0
AreIndexed index docs = All (λ doc. lookup doc.id index ≡ some doc) docs

-- The hits of a search are documents of the index.
abbrev pub IsGenuine : Engine → Map String ChannelDocument → SearchParams → Type 0
IsGenuine execute index params =
    (hits : List ChannelDocument) (total : Option ℕ)
    → execute params.q (limit (paging params)) (as_usize (offset (paging params)))
      ≡ ok (hits, total)
    → AreIndexed index hits

module _ (show : ℕ → String) (parse_uuid : String → Option ℕ)
    (parses : (n : ℕ) → parse_uuid (show n) ≡ some n) where
  -- A document of the index is read as a stored channel.
  document-IsCurrent :
      (index : Map String ChannelDocument) (channels : List Channel) (doc : ChannelDocument)
      → IsMirror show index channels
      → lookup doc.id index ≡ some doc
      → (id : ℕ) × (parse_uuid doc.id ≡ some id)
        × (show id ≡ doc.id)
        × IsCurrent channels (record {
          id = id;
          title = doc.title;
          description = doc.description;
          avatar_url = doc.avatar_url;
        })
  unfolding read_of
  document-IsCurrent index channels doc mirror held =
      let (c, named) = mirror.1 doc.id doc held in
      let stored : Option.map (document show) (find_channel c channels) ≡ some doc =
        sym (mirror.0 c) ∙ ap (λ key. lookup key index) (sym named) ∙ held in
      (
        c,
        ap parse_uuid named ∙ parses c,
        sym named,
        elim (Option-cases (find_channel c channels)) [
          | inl missing ↦ absurd (ground (arith, stored, missing))
          | inr (ch, found) ↦
              ground
                (arith, stored, found, find_channel-id show parse_uuid parses c channels ch found)
        ],
      )

  reads-IsCurrent :
      (index : Map String ChannelDocument) (channels : List Channel) (docs : List ChannelDocument)
      → IsMirror show index channels
      → AreIndexed index docs
      → (map (λ r. show r.id) (reads parse_uuid docs) ≡ map (λ doc. doc.id) docs)
        × All (IsCurrent channels) (reads parse_uuid docs)
  unfolding reads
  reads-IsCurrent index channels [] mirror held = (refl, tt)
  reads-IsCurrent index channels (doc ∷ docs) mirror held =
      let (id, named, shown, current) = document-IsCurrent index channels doc mirror held.0 in
      let (many, rest) = reads-IsCurrent index channels docs mirror held.1 in
      (ground (arith, named, shown, many), rw (All, named) (current, rest))

  -- After every history of requests that starts with empty tables and an empty index and in which
  -- the search engine carries out every call, a search whose hits are documents of the index
  -- answers with one channel for each hit, in their order and with the identifiers of the hits, and
  -- each with the data that is stored for it.
  pub found-IsCurrent :
      (text : ℕ → String) (requests : List (Faults × (ℕ → Bool) × Request)) (execute : Engine)
      (params : SearchParams) (answer : PaginatedResponse ChannelRead)
      → IsGenuine execute
          (replay show all_answered (run parse_uuid text started requests).sent)
          params
      → search_channels parse_uuid execute params ≡ ok answer
      → (hits : List ChannelDocument) × (total : Option ℕ) × (execute params.q
            (limit (paging params))
            (as_usize (offset (paging params)))
          ≡ ok (hits, total))
        × (map (λ r. show r.id) answer.items ≡ map (λ doc. doc.id) hits)
        × All (IsCurrent (run parse_uuid text started requests).tables.channels) answer.items
  unfolding search_channels search
  found-IsCurrent text requests execute params answer genuine done =
      elim (Result-cases
        (execute params.q (limit (paging params)) (as_usize (offset (paging params))))) [
          | inr (e, failed) ↦ absurd (ground (arith, done, failed))
          | inl ((hits, total), found) ↦
              let same : answer.items ≡ reads parse_uuid hits = ground (arith, done, found) in
              let (many, current) =
                reads-IsCurrent
                  (replay show all_answered (run parse_uuid text started requests).sent)
                  (run parse_uuid text started requests).tables.channels hits
                  (index_mirrors show parse_uuid parses text requests) (genuine hits total found) in
              (hits, total, found, rw same many, rw same current)
        ]
