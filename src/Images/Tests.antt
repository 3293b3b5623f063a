-- ===== src/Images/Tests.antt =====
-- Runs of service-images over a bucket in memory, and the theorems at such inputs.
use rust_service.Base.{
  ℕ, String, ◌≡◌, refl, Option, none, some, [], ◌∷◌, arith, if◌then◌else◌, string_partial_eq, ◌==◌,
  nat_partial_eq, pair_partial_eq, ok, err, is_some, Map, lookup, insert, remove, lookup-insert,
  lookup-remove,
}
use rust_service.Images.Client.{
  S3Object, refused, got, get_object_error, Bucket, IsBucket, upload, download, object_exists,
  delete_object,
}
use rust_service.Images.Router.{
  bad_request, unsupported_media_type, http, s3, created, deleted, file, is_name_char,
  all_name_chars, validate_filename, validate_content_type, Header, absent, readable,
  extract_user_id, Field, field, read_field, upload_image, download_image, delete_image,
}
use rust_service.Images.Lifecycle.{upload_kept, delete_gone}

-- A bucket that is a map and whose calls never fail.
abbrev memory : Bucket (Map String S3Object)
memory = record {
  put_object = λ key bytes content_type st.
      some (insert key (record { object_bytes = bytes; object_type = some content_type }) st);
  get_object = λ key st. elim (lookup key st) [ none ↦ refused | some found ↦ got found ];
  head_object = λ key st. if is_some (lookup key st) then ok tt else err "NotFound";
  remove_object = λ key st. some (remove key st);
}

some-same : {A : Type 0} (x y : A) → some x ≡ some y → x ≡ y
some-same x y e = ground (arith, e)

abbrev in_memory : String → Map String S3Object → Option S3Object
in_memory key st = lookup key st

memory-IsBucket : IsBucket memory in_memory
memory-IsBucket = record {
  stored-got = λ key st answer. ground (arith, answer);
  stored-cut_off = λ key st answer. ground (arith, answer);
  stored-head = λ key st there. ground (arith, there);
  stored-put = λ {key} {bytes} {content_type} {st} {next} other put.
      rw⁻¹
        (some-same
          (insert key (record { object_bytes = bytes; object_type = some content_type }) st) next
          put)
        (lookup-insert key other (record { object_bytes = bytes; object_type = some content_type })
          st);
  stored-remove = λ {key} {st} {next} other removed.
      rw⁻¹ (some-same (remove key st) next removed) (lookup-remove key other st);
}

abbrev parse : String → Option ℕ
parse text = if text == "u1" then some 1 else none

abbrev u1 : Header
u1 = readable "u1"

abbrev picture : Field
picture = field (some "image/png") (some (137 ∷ 80 ∷ 78 ∷ 71 ∷ []))

abbrev kept : Map String S3Object
kept =
    ("0196-7c44", record { object_bytes = 137 ∷ 80 ∷ 78 ∷ 71 ∷ []; object_type = some "image/png" })
    ∷ []

uploads : upload_image memory parse u1 picture "0196-7c44" [] ≡ (kept, ok (created "0196-7c44"))
unfolding upload_image extract_user_id read_field validate_content_type upload insert
uploads = refl

abbrev logo : S3Object
logo = record { object_bytes = 1 ∷ []; object_type = none }

abbrev with_logo : Map String S3Object
with_logo = ("0196-beef", logo) ∷ []

abbrev with_both : Map String S3Object
with_both =
    insert "0196-7c44"
      (record { object_bytes = 137 ∷ 80 ∷ 78 ∷ 71 ∷ []; object_type = some "image/png" }) with_logo

uploads_second :
    upload_image memory parse u1 picture "0196-7c44" with_logo
    ≡ (with_both, ok (created "0196-7c44"))
unfolding upload_image extract_user_id read_field validate_content_type upload
uploads_second = refl

upload_kept_example :
    download_image memory parse "0196-beef" with_both
    ≡ download_image memory parse "0196-beef" with_logo
unfolding all_name_chars is_name_char lookup insert
upload_kept_example =
    (upload_kept memory parse in_memory memory-IsBucket u1 picture "0196-7c44" with_logo with_both
        (created "0196-7c44") refl (omega arith) uploads_second).8
      "0196-beef" logo logo (ground (arith, string_partial_eq.same_iff "0196-beef" "0196-7c44"))
      refl refl

downloads :
    download_image memory parse "0196-7c44" kept
    ≡ ok (file "0196-7c44" (137 ∷ 80 ∷ 78 ∷ 71 ∷ []) "image/png")
unfolding download_image validate_filename all_name_chars is_name_char download lookup
downloads = refl

deletes :
    delete_image memory parse (λ name. name) u1 "0196-7c44" kept ≡ ([], ok (deleted "0196-7c44"))
unfolding delete_image extract_user_id validate_filename all_name_chars is_name_char object_exists
    delete_object lookup remove
deletes = refl

delete_gone_example : download_image memory parse "0196-7c44" [] ≡ err (s3 get_object_error)
delete_gone_example =
    (delete_gone memory parse in_memory memory-IsBucket (λ name. name) u1 "0196-7c44" kept []
      (deleted "0196-7c44") deletes).4

-- A type that is not allowed, and a request without a user.
refuses :
    (upload_image memory parse u1 (field (some "image/svg+xml") (some [])) "k" []
      ≡ ([], err (http unsupported_media_type)))
    × (upload_image memory parse absent picture "k" []
        ≡ ([], err (http (bad_request "Missing X-User-Id header"))))
unfolding upload_image extract_user_id read_field validate_content_type
refuses = (refl, refl)
