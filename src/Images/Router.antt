-- ===== src/Images/Router.antt =====
-- service-images/src: the handlers and checks of api/router.rs, the answers of api/schemas.rs and the
-- errors of error.rs.
use Prim.Native.Char.{code}
use rust_service.Base.{
  ℕ, String, len, Bool, true, false, not, ◌&&◌, ◌||◌, Option, none, some, leb, nat_beq,
  if◌then◌else◌, string_partial_eq, ◌==◌, nat_partial_eq, pair_partial_eq, Result, ok, err, Bytes,
}
use rust_service.Images.Client.{
  S3Error, get_object_error, header_object_error, bucket_not_empty, missing_e_tag,
  missing_upload_id, io, byte_stream_error, build_error, tokio_join, Bucket, upload, download,
  object_exists, delete_object,
}

pub data HttpError : Type 0 where
  bad_request forbidden not_found internal : String → HttpError
  not_implemented unsupported_media_type : HttpError

pub data ApiError : Type 0 where
  http : HttpError → ApiError
  s3 : S3Error → ApiError

pub data Image : Type 0 where
  created deleted : (filename : String) → Image
  file : (filename : String) (bytes : Bytes) (content_type : String) → Image

-- The status and the text of the error.
unfoldable pub http_response : HttpError → ℕ × String
http_response (bad_request e) = (400, e)
http_response (forbidden e) = (403, e)
http_response (not_found e) = (404, e)
http_response not_implemented = (501, "Not implemented")
http_response unsupported_media_type = (415, "Unsupported media type")
http_response (internal e) = (500, "Internal Server Error")

-- The status and the kind of the error.
unfoldable pub s3_error_response : S3Error → ℕ × String
s3_error_response get_object_error = (404, "GetObjectError")
s3_error_response header_object_error = (404, "HeadObjectError")
s3_error_response bucket_not_empty = (409, "BucketNotEmpty")
s3_error_response missing_e_tag = (500, "MissingETag")
s3_error_response missing_upload_id = (500, "MissingUploadId")
s3_error_response io = (500, "IOError")
s3_error_response byte_stream_error = (500, "ByteStreamError")
s3_error_response build_error = (500, "BuildError")
s3_error_response tokio_join = (500, "TokioJoinError")
s3_error_response other = (400, "S3Error")

unfoldable pub into_response : ApiError → ℕ × String
into_response (http e) = http_response e
into_response (s3 e) = s3_error_response e

-- `char::is_ascii_alphanumeric`, the dash and the underscore.
unfoldable pub is_name_char : ℕ → Bool
is_name_char c =
    (leb 48 c && leb c 57)
    || (leb 65 c && leb c 90)
    || (leb 97 c && leb c 122)
    || nat_beq c 45
    || nat_beq c 95

unfoldable pub all_name_chars : String → Bool
all_name_chars String.[] = true
all_name_chars (String.◌∷◌ c text) = let rest = all_name_chars text in is_name_char (code c) && rest

unfoldable pub validate_filename : String → Result (Unit {0}) HttpError
validate_filename filename =
    if nat_beq (len filename) 0 || not (all_name_chars filename)
    then err (bad_request "Invalid filename")
    else ok tt

unfoldable pub validate_content_type : String → Result (Unit {0}) HttpError
validate_content_type content_type =
    if content_type == "image/jpeg"
      || content_type == "image/png"
      || content_type == "image/gif"
      || content_type == "image/webp"
    then ok tt
    else err unsupported_media_type

-- The header as axum gives it: absent, not a text, or a text.
pub data Header : Type 0 where
  absent unreadable : Header
  readable : String → Header

unfoldable pub extract_user_id : (parse_uuid : String → Option ℕ) → Header → Result ℕ HttpError
extract_user_id parse_uuid absent = err (bad_request "Missing X-User-Id header")
extract_user_id parse_uuid unreadable = err (bad_request "Invalid X-User-Id header")
extract_user_id parse_uuid (readable text) = elim (parse_uuid text) [
  | none ↦ err (bad_request "X-User-Id is not a valid UUID")
  | some user ↦ ok user
]

-- The first field of the form: an error, none, or its type and its bytes if they can be read.
pub data Field : Type 0 where
  invalid no_field : Field
  field : (content_type : Option String) (bytes : Option Bytes) → Field

-- An error of the checks as that of a handler.
abbrev pub checked {ℓ} : {A : Type 0} → Result A HttpError → Result A ApiError
checked (ok a) = ok a
checked (err e) = err (http e)

-- The type and the bytes of an upload.
unfoldable pub read_field : Field → Result (String × Bytes) HttpError
read_field invalid = err (bad_request "Invalid multipart data")
read_field no_field = err (not_found "File not found")
read_field (field content_type bytes) =
    let given : String = elim content_type [
      | none ↦ "application/octet-stream"
      | some text ↦ text
    ] in
    elim (validate_content_type given) [
      | err e ↦ err e
      | ok done ↦ elim bytes [
        | none ↦ err (bad_request "Failed to read uploaded file")
        | some read ↦ ok (given, read)
      ]
    ]

module _ {St : Type 0} (b : Bucket St) (parse_uuid : String → Option ℕ) where
  -- `key` is the text of `Uuid::now_v7`.
  unfoldable pub upload_image : Header → Field → (key : String) → St → St × Result Image ApiError
  upload_image h form key st = elim (extract_user_id parse_uuid h) [
    | err e ↦ (st, err (http e))
    | ok user ↦ elim (read_field form) [
      | err e ↦ (st, err (http e))
      | ok (content_type, bytes) ↦
          let (next, done) = upload b key bytes content_type st in
          elim done [
            | err e ↦ (next, err (http (internal "Failed to upload file")))
            | ok tt ↦ (next, ok (created key))
          ]
    ]
  ]

  unfoldable pub download_image : (filename : String) → St → Result Image ApiError
  download_image filename st = elim (validate_filename filename) [
    | err e ↦ err (http e)
    | ok done ↦ elim (download b filename st) [
      | err e ↦ err (s3 e)
      | ok found ↦
          let content_type : String = elim found.object_type [
            | none ↦ "application/octet-stream"
            | some text ↦ text
          ] in
          ok (file filename found.object_bytes content_type)
    ]
  ]

  -- `missing` is the text of the 404 for a name.
  unfoldable pub delete_image :
      (missing : String → String) → Header → (filename : String) → St → St × Result Image ApiError
  delete_image missing h filename st = elim (extract_user_id parse_uuid h) [
    | err e ↦ (st, err (http e))
    | ok user ↦ elim (validate_filename filename) [
      | err e ↦ (st, err (http e))
      | ok done ↦ elim (object_exists b filename st) [
        | err e ↦ (st, err (s3 e))
        | ok false ↦ (st, err (http (not_found (missing filename))))
        | ok true ↦
            let (next, outcome) = delete_object b filename st in
            elim outcome [ err e ↦ (next, err (s3 e)) | ok tt ↦ (next, ok (deleted filename)) ]
      ]
    ]
  ]
