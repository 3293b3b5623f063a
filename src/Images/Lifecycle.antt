-- ===== src/Images/Lifecycle.antt =====
-- What becomes of an image: kept by an upload, gone by a deletion, and out of reach under a name
-- that is none.
use Prim.Native.Char.{code}
use rust_service.Base.{
  ℕ, String, len, ◌≡◌, refl, sym, ap, ◌∙◌, ◌≢◌, ◌⊎◌, inl, inr, Bool, true, false, ◌||◌, Option,
  none, some, arith, nat_beq, nat_beq_iff, string_partial_eq, nat_partial_eq, pair_partial_eq,
  ==-refl, ok, err, Option-cases, Result-cases, is_some, Bytes,
}
use rust_service.Images.Client.{
  S3Object, GetAnswer, refused, cut_off, got, get_object_error, Bucket, IsBucket, upload, download,
  object_exists, delete_object,
}
use rust_service.Images.Router.{
  bad_request, http, s3, Image, created, deleted, file, http_response, s3_error_response,
  into_response, is_name_char, all_name_chars, validate_filename, validate_content_type, Header,
  extract_user_id, Field, invalid, no_field, field, read_field, upload_image, download_image,
  delete_image,
}

GetAnswer-cases :
    (a : GetAnswer) → (a ≡ refused) ⊎ ((a ≡ cut_off) ⊎ ((found : S3Object) × (a ≡ got found)))
GetAnswer-cases refused = inl refl
GetAnswer-cases cut_off = inr (inl refl)
GetAnswer-cases (got found) = inr (inr (found, refl))

-- A character stands in a text.
abbrev pub occurs : ℕ → String → Bool
occurs c String.[] = false
occurs c (String.◌∷◌ d text) = let rest = occurs c text in nat_beq (code d) c || rest

all_name_chars-occurs :
    (c : ℕ) (text : String)
    → is_name_char c ≡ false
    → occurs c text ≡ true
    → all_name_chars text ≡ false
unfolding all_name_chars
all_name_chars-occurs c String.[] strange here = absurd (ground (arith, here))
all_name_chars-occurs c (String.◌∷◌ d text) strange here =
    ground (arith, nat_beq_iff (code d) c, strange, here, all_name_chars-occurs c text strange)

read_field-ok :
    (form : Field) (content_type : String) (bytes : Bytes)
    → read_field form ≡ ok (content_type, bytes)
    → (form ≡ field (some content_type) (some bytes)) × (validate_content_type content_type ≡ ok tt)
unfolding read_field validate_content_type
read_field-ok invalid content_type bytes done = absurd (ground (arith, done))
read_field-ok no_field content_type bytes done = absurd (ground (arith, done))
read_field-ok (field none given) content_type bytes done = absurd (ground (arith, done))
read_field-ok (field (some text) none) content_type bytes done = absurd (ground (arith, done))
read_field-ok (field (some text) (some given)) content_type bytes done = ground (arith, done)

module _ {St : Type 0} (b : Bucket St) (parse_uuid : String → Option ℕ) where
  -- A name with a character that is no ASCII letter, digit, dash or underscore, such as a slash or a
  -- dot, is refused with the status 400, and nothing is fetched or deleted.
  pub strange_name_refused :
      (missing : String → String) (h : Header) (user c : ℕ) (filename : String) (st : St)
      → is_name_char c ≡ false
      → occurs c filename ≡ true
      → extract_user_id parse_uuid h ≡ ok user
      → (download_image b parse_uuid filename st ≡ err (http (bad_request "Invalid filename")))
        × (delete_image b parse_uuid missing h filename st
            ≡ (st, err (http (bad_request "Invalid filename"))))
        × ((into_response (http (bad_request "Invalid filename"))).0 ≡ 400)
  unfolding download_image delete_image validate_filename into_response http_response
  strange_name_refused missing h user c filename st strange here known =
      let refusal = all_name_chars-occurs c filename strange here in
      (ground (arith, refusal), ground (arith, refusal, known), refl)

  download-got :
      (name : String) (st : St) (found : S3Object)
      → b.get_object name st ≡ got found
      → download b name st ≡ ok found
  unfolding download
  download-got name st found answer = ground (arith, answer)

  download-same :
      (name : String) (st next : St)
      → download b name next ≡ download b name st
      → download_image b parse_uuid name next ≡ download_image b parse_uuid name st
  unfolding download_image
  download-same name st next same = elim (Result-cases (validate_filename name)) [
    | inl (done, valid) ↦ ground (arith, valid, same)
    | inr (e, refusal) ↦ ground (arith, refusal)
  ]

  upload_image-ok :
      (h : Header) (form : Field) (key : String) (st next : St) (image : Image)
      → upload_image b parse_uuid h form key st ≡ (next, ok image)
      → (user : ℕ) × (content_type : String) × (bytes : Bytes) × (extract_user_id parse_uuid h
          ≡ ok user)
        × (read_field form ≡ ok (content_type, bytes))
        × (image ≡ created key)
        × (b.put_object key bytes content_type st ≡ some next)
  unfolding upload_image upload
  upload_image-ok h form key st next image done =
      elim (Result-cases (extract_user_id parse_uuid h)) [
        | inr (e, unknown) ↦ absurd (ground (arith, done))
        | inl (user, known) ↦ elim (Result-cases (read_field form)) [
          | inr (e, unread) ↦ absurd (ground (arith, done))
          | inl ((content_type, bytes), read) ↦
              elim (Option-cases (b.put_object key bytes content_type st)) [
                | inl failed ↦ absurd (ground (arith, done))
                | inr (after, put) ↦ (
                  user,
                  content_type,
                  bytes,
                  known,
                  read,
                  ground (arith, done),
                  ground (arith, done),
                )
              ]
        ]
      ]

  delete_image-ok :
      (missing : String → String) (h : Header) (filename : String) (st next : St) (image : Image)
      → delete_image b parse_uuid missing h filename st ≡ (next, ok image)
      → (user : ℕ) × (extract_user_id parse_uuid h ≡ ok user)
        × (validate_filename filename ≡ ok tt)
        × (b.head_object filename st ≡ ok tt)
        × (image ≡ deleted filename)
        × (b.remove_object filename st ≡ some next)
  unfolding delete_image object_exists delete_object
  delete_image-ok missing h filename st next image done = ground (arith, done)

  module _ (stored : String → St → Option S3Object) (laws : IsBucket b stored) where
    -- Both answers about an object that is stored as it was are the same.
    same-stored :
        (name : String) (st next : St) (before after : S3Object)
        → stored name next ≡ stored name st
        → b.get_object name st ≡ got before
        → b.get_object name next ≡ got after
        → download_image b parse_uuid name next ≡ download_image b parse_uuid name st
    same-stored name st next before after kept first second =
        let same : after ≡ before =
          ground (arith, kept, laws.stored-got name st first, laws.stored-got name next second) in
        download-same name st next (
          download-got name next after second
          ∙ ap ok same
          ∙ sym (download-got name st before first))

    -- An object that is not stored is not got.
    not-stored :
        (name : String) (st : St)
        → stored name st ≡ none
        → download b name st ≡ err get_object_error
    unfolding download
    not-stored name st gone = elim (GetAnswer-cases (b.get_object name st)) [
      | inl answer ↦ ground (arith, answer)
      | inr (inl answer) ↦ absurd (ground (arith, gone, laws.stored-cut_off name st answer))
      | inr (inr (found, answer)) ↦ absurd (ground (arith, gone, laws.stored-got name st answer))
    ]

    -- An upload that succeeds was by a known user and of an allowed type. In the state that it
    -- leaves, its key, where that is a name as the routes take it, is answered with its bytes and its
    -- type whenever S3 answers with an object, and every other name that S3 answers with an object
    -- before and after is answered as before.
    pub upload_kept :
        (h : Header) (form : Field) (key : String) (st next : St) (image : Image)
        → all_name_chars key ≡ true
        → len key ≢ 0
        → upload_image b parse_uuid h form key st ≡ (next, ok image)
        → (user : ℕ) × (content_type : String) × (bytes : Bytes) × (extract_user_id parse_uuid h
            ≡ ok user)
          × (form ≡ field (some content_type) (some bytes))
          × (validate_content_type content_type ≡ ok tt)
          × (image ≡ created key)
          × ((found : S3Object)
              → b.get_object key next ≡ got found
              → download_image b parse_uuid key next ≡ ok (file key bytes content_type))
          × ((other : String) (before after : S3Object)
              → other ≢ key
              → b.get_object other st ≡ got before
              → b.get_object other next ≡ got after
              → download_image b parse_uuid other next ≡ download_image b parse_uuid other st)
    unfolding download_image validate_filename
    upload_kept h form key st next image valid long done =
        let (user, content_type, bytes, known, read, is_key, put) =
          upload_image-ok h form key st next image done in
        let (is_form, allowed) = read_field-ok form content_type bytes read in
        (
          user,
          content_type,
          bytes,
          known,
          is_form,
          allowed,
          is_key,
          λ found answer.
              let same : found ≡ record { object_bytes = bytes; object_type = some content_type } =
                ground
                  (arith, laws.stored-put key put, ==-refl key, laws.stored-got key next answer) in
              ground (arith, valid, long, same, download-got key next found answer),
          λ other before after apart. same-stored other st next before after (
              ground
                (arith, laws.stored-put other put, string_partial_eq.same_iff key other, apart)),
        )

    -- A deletion that succeeds was by a known user and of an image that was stored. In the state that
    -- it leaves, its name is answered with the status 404, and every other name that S3 answers with
    -- an object before and after is answered as before.
    pub delete_gone :
        (missing : String → String) (h : Header) (filename : String) (st next : St) (image : Image)
        → delete_image b parse_uuid missing h filename st ≡ (next, ok image)
        → (user : ℕ) × (extract_user_id parse_uuid h ≡ ok user)
          × (is_some (stored filename st) ≡ true)
          × (image ≡ deleted filename)
          × (download_image b parse_uuid filename next ≡ err (s3 get_object_error))
          × ((into_response (s3 get_object_error)).0 ≡ 404)
          × ((other : String) (before after : S3Object)
              → other ≢ filename
              → b.get_object other st ≡ got before
              → b.get_object other next ≡ got after
              → download_image b parse_uuid other next ≡ download_image b parse_uuid other st)
    unfolding download_image into_response s3_error_response
    delete_gone missing h filename st next image done =
        let (user, known, valid, there, is_name, removed) =
          delete_image-ok missing h filename st next image done in
        let gone : stored filename next ≡ none =
          ground (arith, laws.stored-remove filename removed, ==-refl filename) in
        (
          user,
          known,
          laws.stored-head filename st there,
          is_name,
          ground (arith, valid, not-stored filename next gone),
          refl,
          λ other before after apart. same-stored other st next before after (
              ground (
                arith,
                laws.stored-remove other removed,
                string_partial_eq.same_iff filename other,
                apart,
              )),
        )
