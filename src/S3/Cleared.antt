-- ===== src/S3/Cleared.antt =====
-- What a cleared bucket holds.
use rust_service.Base.{
  ℕ, String, ◌≡◌, ◌≢◌, refl, sym, ◌∙◌, inl, inr, true, Option, none, some, List, [], ◌∷◌, ◌++◌, map,
  arith, string_partial_eq, nat_partial_eq, pair_partial_eq, Result, ok, err, Result-cases, is_some,
  All, bytes_partial_eq, keys,
}
use mathlib.Core.List.{append-nil, append_assoc}
use rust_service.Images.Client.{S3Error}
use rust_service.S3.Whole.{
  Pages, key_or_unknown, collect_keys, max_keys_or, Requests, list_objects, delete_objects,
  clear_listed, clear_bucket,
}

-- The keys of pages that all arrived.
abbrev pub keys_of : Pages → List String
keys_of [] = []
keys_of (none ∷ pages) = keys_of pages
keys_of (some contents ∷ pages) = map key_or_unknown contents ++ keys_of pages

-- The pages of a listing, where they all arrive, have the keys of the bucket, however many they are
-- cut into, except into pages of no keys.
abbrev pub IsListing : {St : Type 0} → Requests St → (St → List String) → Type 0
IsListing {St} s3 stored =
    (max_keys : ℕ) (st : St)
    → max_keys ≢ 0
    → All (λ page. is_some page ≡ true) (s3.list_objects_v2 max_keys st)
    → keys_of (s3.list_objects_v2 max_keys st) ≡ stored st

collect_keys-ok :
    (listed : List String) (pages : Pages) (found : List String)
    → collect_keys listed pages ≡ ok found
    → All (λ page. is_some page ≡ true) pages × (found ≡ listed ++ keys_of pages)
unfolding collect_keys
collect_keys-ok listed [] found e = (tt, ground (arith, e, append-nil listed))
collect_keys-ok listed (none ∷ pages) found e = absurd (ground (arith, e))
collect_keys-ok listed (some contents ∷ pages) found e =
    let (arrived, same) = collect_keys-ok (listed ++ map key_or_unknown contents) pages found e in
    ((refl, arrived), same ∙ append_assoc listed (map key_or_unknown contents) (keys_of pages))

module _ {St : Type 0} (s3 : Requests St) (stored : St → List String)
    (listing : IsListing s3 stored) where
  list_objects-ok :
      (max_keys : Option ℕ) (st : St) (found : List String)
      → max_keys_or max_keys ≢ 0
      → list_objects s3 max_keys st ≡ ok found
      → found ≡ stored st
  unfolding list_objects
  list_objects-ok max_keys st found some_keys e =
      let (arrived, same) =
        collect_keys-ok [] (s3.list_objects_v2 (max_keys_or max_keys) st) found e in
      same ∙ listing (max_keys_or max_keys) st some_keys arrived

  clear_listed-ok :
      (deleted : St × Result ℕ S3Error) (objects found : List String)
      → (clear_listed s3 deleted objects).1 ≡ ok found
      → (found ≡ objects) × (stored (clear_listed s3 deleted objects).0 ≡ [])
  unfolding clear_listed max_keys_or
  clear_listed-ok (st, err e) objects found h = absurd (ground (arith, h))
  clear_listed-ok (st, ok n) objects found h = elim (Result-cases (list_objects s3 (some 1) st)) [
    | inr (e, failed) ↦ absurd (ground (arith, h, failed))
    | inl ([], none_left) ↦ (
      ground (arith, h, none_left),
      rw (clear_listed, none_left) (sym (list_objects-ok (some 1) st [] (omega arith) none_left)),
    )
    | inl (key ∷ keys, left) ↦ absurd (ground (arith, h, left))
  ]

  -- A bucket that `clear_bucket` says it has cleared is empty, and the answer names the objects that
  -- were in it. It needs that the pages of a listing, where they arrive, have the keys of the bucket.
  pub clear_bucket-empty :
      (st : St) (objects : List String)
      → (clear_bucket s3 st).1 ≡ ok objects
      → (stored (clear_bucket s3 st).0 ≡ []) × (objects ≡ stored st)
  unfolding clear_bucket max_keys_or
  clear_bucket-empty st objects h = elim (Result-cases (list_objects s3 none st)) [
    | inr (e, failed) ↦ absurd (ground (arith, h, failed))
    | inl ([], empty) ↦
        let same = list_objects-ok none st [] (omega arith) empty in
        rw (clear_bucket, empty) (sym same, ground (arith, h, empty, same))
    | inl (key ∷ keys, full) ↦
        let same = list_objects-ok none st (key ∷ keys) (omega arith) full in
        let done =
          clear_listed-ok (delete_objects s3 (key ∷ keys) st) (key ∷ keys) objects
            (ground (arith, h, full)) in
        rw (clear_bucket, full) (done.1, done.0 ∙ same)
  ]
