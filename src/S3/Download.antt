-- ===== src/S3/Download.antt =====
-- s3-client/src/lib.rs: the ranges of `download_multipart`. `fetch` is the outcome of the task that
-- asks for the bytes from the first to the last offset, both counted.
use rust_service.Base.{
  ℕ, zero, suc, ◌+◌, ◌-◌, ◌*◌, ◌%◌, ◌^◌, min, String, true, false, Option, none, some, List, [],
  ◌∷◌, ◌++◌, ltb, leb, if◌then◌else◌, string_partial_eq, ◌==◌, nat_partial_eq, pair_partial_eq,
  Result, ok, err, ◌>>=◌, Bytes,
}

-- What a spawned task comes to: its bytes, its own error, or the text of a failed join.
pub data Joined (E : Type 0) : Type 0 where
  fetched : Bytes → Joined E
  failed : E → Joined E
  not_joined : String → Joined E

pub data DownloadError (E : Type 0) : Type 0 where
  sdk : E → DownloadError E
  io : String → DownloadError E
  tokio_join : String → DownloadError E

-- The `while` loop over `start`: the first and the last offset of each range. The additions of
-- `usize` wrap, and so does the subtraction.
unfoldable pub ranges : (fuel start chunk_size total_size : ℕ) → List (ℕ × ℕ)
ranges zero start chunk_size total_size = []
ranges (suc fuel) start chunk_size total_size =
    let next = (start + chunk_size) % 2 ^ 64 in
    let rest = ranges fuel next chunk_size total_size in
    if ltb start total_size
    then (start, (min next total_size + (2 ^ 64 - 1)) % 2 ^ 64) ∷ rest
    else []

-- `sort_by_key` on the offset: a part goes before the first one with a greater offset.
unfoldable pub place : ℕ × Bytes → List (ℕ × Bytes) → List (ℕ × Bytes)
place part [] = part ∷ []
place part (other ∷ parts) = elim (leb part.0 other.0) [
  | true ↦ part ∷ other ∷ parts
  | false ↦ other ∷ place part parts
]

unfoldable pub sort_by_offset : List (ℕ × Bytes) → List (ℕ × Bytes)
sort_by_offset [] = []
sort_by_offset (part ∷ parts) = place part (sort_by_offset parts)

-- The calls for the file, with the text of the error where they fail: `create`, and `write_all` for
-- a chunk after the bytes that the file has.
pub record FileCalls : Type 0 where
  pub create : Result (Unit {0}) String
  pub write_all : (done chunk : Bytes) → Result (Unit {0}) String

unfoldable pub or_io : {E A : Type 0} → Result A String → Result A (DownloadError E)
or_io (ok a) = ok a
or_io (err text) = err (io text)

-- The loop over the sorted parts, after the bytes that the file has.
unfoldable pub written :
    {E : Type 0} → FileCalls → (done : Bytes) → List (ℕ × Bytes) → Result Bytes (DownloadError E)
written file done [] = ok done
written file done ((offset, chunk) ∷ parts) = do
  wrote ← or_io (file.write_all done chunk)
  written file (done ++ chunk) parts

-- The size of a range: the caller's, or `DEFAULT_CHUNK_SIZE`.
unfoldable pub chunk_bytes : Option ℕ → ℕ
chunk_bytes none = 5 * 1024 * 1024
chunk_bytes (some n) = n

module _ {E : Type 0} where
  -- The loop over the handles: the parts in the order of the tasks, or the first error.
  unfoldable pub collect :
      (ℕ → ℕ → Joined E) → List (ℕ × ℕ) → Result (List (ℕ × Bytes)) (DownloadError E)
  collect fetch [] = ok []
  collect fetch ((first, last) ∷ rest) = elim (fetch first last) [
    | failed e ↦ err (sdk e)
    | not_joined text ↦ err (tokio_join text)
    | fetched chunk ↦ do parts ← collect fetch rest; ok ((first, chunk) ∷ parts)
  ]

  -- The file that is written, or the error; `total_size` is the content length of the object, zero
  -- where there is none.
  unfoldable pub download_multipart :
      (fuel : ℕ)
      → FileCalls
      → Result ℕ E
      → (ℕ → ℕ → Joined E)
      → Option ℕ
      → Result Bytes (DownloadError E)
  download_multipart fuel file (err e) fetch chunk_size = err (sdk e)
  download_multipart fuel file (ok total_size) fetch chunk_size =
      if total_size == 0 then or_io file.create >>= (λ created. ok []) else do
        parts ← collect fetch (ranges fuel 0 (chunk_bytes chunk_size) total_size)
        created ← or_io file.create
        written file [] (sort_by_offset parts)
