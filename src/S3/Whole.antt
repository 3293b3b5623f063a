-- ===== src/S3/Whole.antt =====
-- s3-client/src/lib.rs: the calls for a whole bucket, and those that start, continue and end an upload
-- in parts. The answers of the SDK are parameters: a page of keys or the failure of its request, and
-- the state of the bucket that a request leaves, or none where it fails.
use rust_service.Base.{
  ℕ, String, Option, none, some, List, [], ◌∷◌, ◌++◌, map, if◌then◌else◌, string_partial_eq, ◌==◌,
  nat_partial_eq, pair_partial_eq, Result, ok, err, length, bytes_partial_eq, keys,
}
use rust_service.Images.Client.{
  list_object_error, copy_object_error, delete_objects_error, bucket_not_empty, create_bucket_error,
  delete_bucket_error, create_multipart, missing_upload_id, missing_e_tag, S3Error,
}

-- The pages that `list_objects_v2` gives, an object that has no key included.
abbrev pub Pages : Type 0
Pages = List (Option (List (Option String)))

unfoldable pub key_or_unknown : Option String → String
key_or_unknown none = "Unknown"
key_or_unknown (some key) = key

-- The loop over the pages.
unfoldable pub collect_keys : (listed : List String) → Pages → Result (List String) S3Error
collect_keys listed [] = ok listed
collect_keys listed (none ∷ pages) = err list_object_error
collect_keys listed (some contents ∷ pages) =
    collect_keys (listed ++ map key_or_unknown contents) pages

unfoldable pub max_keys_or : Option ℕ → ℕ
max_keys_or none = 1000
max_keys_or (some n) = n

-- The requests to S3 for one bucket in a state.
pub record Requests (St : Type 0) : Type 0 where
  pub list_objects_v2 : (max_keys : ℕ) → St → Pages
  pub delete_objects : List String → St → Option St
  pub create_bucket : St → Option St
  -- the code of the error of a request that fails
  pub delete_bucket : St → Result St String
  -- the tag of the copy, where the answer has one
  pub copy_object :
      (source_key destination_bucket destination_object : String) → St → Option (St × Option String)

module _ {St : Type 0} (s3 : Requests St) where
  unfoldable pub list_objects : Option ℕ → St → Result (List String) S3Error
  list_objects max_keys st = collect_keys [] (s3.list_objects_v2 (max_keys_or max_keys) st)

  -- The keys that S3 answers it could not delete are not looked at.
  unfoldable pub delete_objects : List String → St → St × Result ℕ S3Error
  delete_objects [] st = (st, ok 0)
  delete_objects (key ∷ keys) st = elim (s3.delete_objects (key ∷ keys) st) [
    | none ↦ (st, err delete_objects_error)
    | some next ↦ (next, ok (length (key ∷ keys)))
  ]

  -- After the deletion of what was listed: nothing may be left.
  unfoldable pub clear_listed :
      St × Result ℕ S3Error → List String → St × Result (List String) S3Error
  clear_listed (st, err e) objects = (st, err e)
  clear_listed (st, ok deleted_count) objects = elim (list_objects (some 1) st) [
    | err e ↦ (st, err e)
    | ok [] ↦ (st, ok objects)
    | ok (key ∷ keys) ↦ (st, err bucket_not_empty)
  ]

  unfoldable pub clear_bucket : St → St × Result (List String) S3Error
  clear_bucket st = elim (list_objects none st) [
    | err e ↦ (st, err e)
    | ok [] ↦ (st, ok [])
    | ok (key ∷ keys) ↦ clear_listed (delete_objects (key ∷ keys) st) (key ∷ keys)
  ]

  unfoldable pub create_bucket : St → St × Result (Unit {0}) S3Error
  create_bucket st = elim (s3.create_bucket st) [
    | none ↦ (st, err create_bucket_error)
    | some next ↦ (next, ok tt)
  ]

  -- A bucket that is not there counts as deleted.
  unfoldable pub delete_bucket : St → St × Result (Unit {0}) S3Error
  delete_bucket st = elim (s3.delete_bucket st) [
    | ok next ↦ (next, ok tt)
    | err code ↦ if code == "NoSuchBucket" then (st, ok tt) else (st, err delete_bucket_error)
  ]

  -- `source_key` is the own bucket and the object, with a slash between them.
  unfoldable pub copy_object :
      (source_key : String) (destination_bucket destination_object : String)
      → St
      → St × Result String S3Error
  copy_object source_key destination_bucket destination_object st =
      elim (s3.copy_object source_key destination_bucket destination_object st) [
        | none ↦ (st, err copy_object_error)
        | some (next, none) ↦ (next, ok "missing")
        | some (next, some e_tag) ↦ (next, ok e_tag)
      ]

-- `start_multipart_upload`: the id of the answer, or the failure of the request.
unfoldable pub start_multipart_upload : Option (Option String) → Result String S3Error
start_multipart_upload none = err create_multipart
start_multipart_upload (some none) = err missing_upload_id
start_multipart_upload (some (some upload_id)) = ok upload_id

unfoldable pub upload_part :
    (part_number : ℕ) → Option (Option String) → Result (ℕ × String) S3Error
upload_part part_number none = err S3Error.upload_part
upload_part part_number (some none) = err missing_e_tag
upload_part part_number (some (some e_tag)) = ok (part_number, e_tag)
