-- ===== src/S3/WholeTests.antt =====
-- A bucket that is its list of keys, and its clearing.
use rust_service.Base.{
  String, ◌≡◌, refl, ap, ◌∙◌, none, some, List, [], ◌∷◌, map, string_partial_eq, nat_partial_eq,
  pair_partial_eq, ok, err, bytes_partial_eq, keys,
}
use mathlib.Core.List.{append-nil}
use rust_service.Images.Client.{bucket_not_empty}
use rust_service.S3.Whole.{
  Pages, key_or_unknown, collect_keys, max_keys_or, Requests, list_objects, delete_objects,
  clear_listed, clear_bucket, delete_bucket,
}
use rust_service.S3.Cleared.{IsListing, clear_bucket-empty}

-- Two pages, the first with one key.
abbrev pages : List String → Pages
pages [] = []
pages (key ∷ keys) = some (some key ∷ []) ∷ some (map some keys) ∷ []

map-key_or_unknown : (keys : List String) → map key_or_unknown (map some keys) ≡ keys
unfolding key_or_unknown
map-key_or_unknown [] = refl
map-key_or_unknown (key ∷ keys) = ap (λ t. key ∷ t) (map-key_or_unknown keys)

abbrev bucket : Requests (List String)
bucket = record {
  list_objects_v2 = λ max_keys keys. pages keys;
  delete_objects = λ gone keys. some [];
  create_bucket = λ keys. some keys;
  delete_bucket = λ keys. err "NoSuchBucket";
  copy_object = λ source to object keys. some (object ∷ keys, none);
}

bucket-IsListing : IsListing bucket (λ keys. keys)
unfolding key_or_unknown
bucket-IsListing max_keys [] some_keys arrived = refl
bucket-IsListing max_keys (key ∷ keys) some_keys arrived =
    ap (λ t. key ∷ t) (append-nil (map key_or_unknown (map some keys)) ∙ map-key_or_unknown keys)

abbrev two : List String
two = "a" ∷ "b" ∷ []

cleared_runs : clear_bucket bucket two ≡ ([], ok two)
unfolding clear_bucket clear_listed list_objects delete_objects collect_keys max_keys_or
    key_or_unknown
cleared_runs = refl

clear_bucket-empty_example : ((clear_bucket bucket two).0 ≡ []) × (two ≡ two)
clear_bucket-empty_example =
    clear_bucket-empty bucket (λ keys. keys) bucket-IsListing two two (ap (λ t. t.1) cleared_runs)

-- Objects that S3 leaves are noticed, and a bucket that is not there is deleted.
left_runs :
    (clear_bucket (record bucket { delete_objects = λ gone keys. some keys }) ("a" ∷ [])
      ≡ ("a" ∷ [], err bucket_not_empty))
    × (delete_bucket bucket [] ≡ ([], ok tt))
unfolding clear_bucket clear_listed list_objects delete_objects delete_bucket collect_keys
    max_keys_or key_or_unknown
left_runs = (refl, refl)
