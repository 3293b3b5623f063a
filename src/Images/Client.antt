-- ===== src/Images/Client.antt =====
-- s3-client/src/lib.rs: the operations that service-images uses, over the calls of the AWS SDK.
use rust_service.Base.{
  String, ◌≡◌, Bool, true, false, Option, none, some, if◌then◌else◌, string_partial_eq, ◌==◌,
  nat_partial_eq, pair_partial_eq, Result, ok, err, is_some, Bytes,
}

pub record S3Object : Type 0 where
  pub object_bytes : Bytes
  pub object_type : Option String

-- The errors of s3-client/src/error.rs; the payloads are those of the SDK and are left out.
pub data S3Error : Type 0 where
  get_object_error list_object_error put_object_error copy_object_error upload_part
        create_multipart :
      S3Error
  complete_multipart abort_multipart header_object_error delete_object_error delete_objects_error :
      S3Error
  create_bucket_error delete_bucket_error bucket_not_empty missing_e_tag missing_upload_id io :
      S3Error
  byte_stream_error build_error tokio_join config_error : S3Error

-- The answer to `get_object`: the request fails, the body does not arrive whole, or the object.
pub data GetAnswer : Type 0 where
  refused cut_off : GetAnswer
  got : S3Object → GetAnswer

-- The calls of the SDK for one bucket in a state of S3: a call that fails gives no state, a failing
-- `head_object` the code of its error.
pub record Bucket (St : Type 0) : Type 0 where
  pub put_object : String → Bytes → String → St → Option St
  pub get_object : String → St → GetAnswer
  pub head_object : String → St → Result (Unit {0}) String
  pub remove_object : String → St → Option St

-- What S3 says of them, by the objects that are stored: what is got is what is stored, only of a
-- stored object a body begins to arrive and only of one `head_object` answers; an object that was
-- put is stored with its bytes and its type, one that was deleted is not, and other keys are as they
-- were. Any request may fail.
pub record IsBucket {St : Type 0} (b : Bucket St) (stored : String → St → Option S3Object)
    : Type 0 where
  pub stored-got :
      {found : S3Object} (key : String) (st : St)
      → b.get_object key st ≡ got found
      → stored key st ≡ some found
  pub stored-cut_off :
      (key : String) (st : St) → b.get_object key st ≡ cut_off → is_some (stored key st) ≡ true
  pub stored-head :
      (key : String) (st : St) → b.head_object key st ≡ ok tt → is_some (stored key st) ≡ true
  pub stored-put :
      {key : String} {bytes : Bytes} {content_type : String} {st next : St} (other : String)
      → b.put_object key bytes content_type st ≡ some next
      → stored other next ≡ (
          if key == other
          then some (record { object_bytes = bytes; object_type = some content_type })
          else stored other st)
  pub stored-remove :
      {key : String} {st next : St} (other : String)
      → b.remove_object key st ≡ some next
      → stored other next ≡ (if key == other then none else stored other st)

module _ {St : Type 0} (b : Bucket St) where
  unfoldable pub upload : String → Bytes → String → St → St × Result (Unit {0}) S3Error
  upload key bytes content_type st = elim (b.put_object key bytes content_type st) [
    | none ↦ (st, err put_object_error)
    | some next ↦ (next, ok tt)
  ]

  unfoldable pub download : String → St → Result S3Object S3Error
  download key st = elim (b.get_object key st) [
    | refused ↦ err get_object_error
    | cut_off ↦ err byte_stream_error
    | got found ↦ ok found
  ]

  unfoldable pub object_exists : String → St → Result Bool S3Error
  object_exists key st = elim (b.head_object key st) [
    | ok done ↦ ok true
    | err code ↦ if code == "NotFound" then ok false else err header_object_error
  ]

  unfoldable pub delete_object : String → St → St × Result (Unit {0}) S3Error
  delete_object key st = elim (b.remove_object key st) [
    | none ↦ (st, err delete_object_error)
    | some next ↦ (next, ok tt)
  ]
