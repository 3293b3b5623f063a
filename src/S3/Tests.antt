-- ===== src/S3/Tests.antt =====
-- Runs of s3-client on a small object, and the theorems at such inputs.
use rust_service.Base.{
  ℕ, ◌+◌, ◌-◌, ◌^◌, String, ◌≡◌, refl, some, [], ◌∷◌, arith, if◌then◌else◌, string_partial_eq, ◌==◌,
  nat_partial_eq, pair_partial_eq, ok, err, Bytes, length, take, drop,
}
use rust_service.S3.Download.{
  Joined, fetched, failed, sdk, io, FileCalls, or_io, chunk_bytes, ranges, place, sort_by_offset,
  written, collect, download_multipart,
}
use rust_service.S3.Pieces.{download-object}
use rust_service.S3.Upload.{
  started, part, completed, aborted, read, fill, send_parts, finish, upload_multipart,
}
use rust_service.S3.Parts.{upload-chunks, chunks, numbered, sent, joined, AllFull}

abbrev five : Bytes
five = 10 ∷ 20 ∷ 30 ∷ 40 ∷ 50 ∷ []

-- A store that holds `five`.
abbrev fetch_five : ℕ → ℕ → Joined String
fetch_five first last = fetched (take (last + 1 - first) (drop first five))

ranges_of_five : ranges 5 0 2 5 ≡ (0, 1) ∷ (2, 3) ∷ (4, 4) ∷ []
unfolding ranges
ranges_of_five = refl

-- A chunk size of zero asks for the same range again and again: its last offset is 2^64 - 1.
no_progress : ranges 2 0 0 5 ≡ (0, 2 ^ 64 - 1) ∷ (0, 2 ^ 64 - 1) ∷ []
unfolding ranges
no_progress = refl

abbrev disk : FileCalls
disk = record { create = ok tt; write_all = λ done chunk. ok tt }

first_error :
    download_multipart 5 disk
      (ok 5)
      (λ first last. if first == 2 then failed "gone" else fetch_five first last)
      (some 2)
    ≡ err (sdk "gone")
unfolding download_multipart ranges collect sort_by_offset place written chunk_bytes
first_error = refl

-- A disk that is full fails the download.
disk_full :
    download_multipart 5
      (record {
        create = ok tt;
        write_all = λ done chunk. if length done == 4 then err "no space left" else ok tt;
      })
      (ok 5)
      fetch_five
      (some 2)
    ≡ err (io "no space left")
unfolding download_multipart ranges collect sort_by_offset place written or_io chunk_bytes
disk_full = refl

download-object_example : download_multipart 5 disk (ok 5) fetch_five (some 2) ≡ ok five
unfolding chunk_bytes
download-object_example =
    download-object fetch_five five (λ first last starts ends. refl) 5 disk (some 2)
      (refl, λ done chunk. refl) (λ e. ground arith) (omega arith) (omega arith)

-- A file of five bytes, of which every read brings one.
upload-chunks_example :
    let parts = chunks 5 2 five in
    (upload_multipart {E = String}
        (λ left. ok 0)
        (λ n chunk. ok "tag")
        (ok tt)
        (λ parts. ok tt)
        5
        (ok tt)
        (ok five)
        (some 2)
      ≡ (completed (numbered (λ n. "tag") 1 parts) ∷ sent 1 parts (started ∷ []), ok tt))
    × (joined parts ≡ five)
    × AllFull 2 parts
unfolding chunk_bytes
upload-chunks_example =
    upload-chunks (λ left. 0) (λ n. "tag") (ok tt) (λ parts. ok tt) 5 (some 2) five
      (λ e. ground arith) (omega arith) (omega arith)

-- The second part is refused: the upload is aborted and the error is the answer.
part_refused :
    upload_multipart {E = String}
      (λ left. ok 7)
      (λ n chunk. if n == 2 then err "slow down" else ok "tag")
      (ok tt)
      (λ parts. ok tt)
      5
      (ok tt)
      (ok five)
      (some 2)
    ≡ (aborted ∷ part 2 (30 ∷ 40 ∷ []) ∷ part 1 (10 ∷ 20 ∷ []) ∷ started ∷ [], err "slow down")
unfolding upload_multipart finish send_parts fill read chunk_bytes
part_refused = refl

-- A read that fails leaves the upload unaborted.
read_fails :
    upload_multipart {E = String}
      (λ left. if left == 3 then err "disk" else ok 7)
      (λ n chunk. ok "tag")
      (ok tt)
      (λ parts. ok tt)
      5
      (ok tt)
      (ok five)
      (some 2)
    ≡ (part 1 (10 ∷ 20 ∷ []) ∷ started ∷ [], err "disk")
unfolding upload_multipart finish send_parts fill read chunk_bytes
read_fails = refl
