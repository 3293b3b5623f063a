-- ===== src/S3/Upload.antt =====
-- s3-client/src/lib.rs: `upload_multipart`. A read of the file is answered by `reads`, from the
-- number of the bytes that are left: how many of them come at once, at least one, or an error.
-- `send` is the answer to a part with its number.
use rust_service.S3.Download.{chunk_bytes}
use rust_service.Base.{
  ℕ, zero, suc, ◌+◌, ◌-◌, ◌%◌, ◌^◌, min, String, true, false, Option, List, [], ◌∷◌, ◌++◌,
  string_partial_eq, ◌==◌, nat_partial_eq, pair_partial_eq, Result, ok, err, ◌>>=◌, Bytes, length,
  take, drop,
}

-- What S3 is asked to do.
pub data Call : Type 0 where
  started : Call
  part : (number : ℕ) → Bytes → Call
  completed : List (ℕ × String) → Call
  aborted : Call

module _ {E : Type 0} (reads : ℕ → Result ℕ E) where
  -- `file.read` into a buffer with so many places left: the bytes read, and the rest of the file.
  unfoldable pub read : ℕ → Bytes → Result (Bytes × Bytes) E
  read room file = do
    ready ← reads (length file)
    ok (take (min room (ready + 1)) file, drop (min room (ready + 1)) file)

  -- The inner loop: it reads until the buffer is full or the file is at its end.
  unfoldable pub fill : (fuel room : ℕ) → Bytes → Result (Bytes × Bytes) E
  fill zero room file = ok ([], file)
  fill (suc fuel) room file = do
    (bytes, rest) ← read room file
    elim (length bytes == 0) [
      | true ↦ ok ([], rest)
      | false ↦ elim (length bytes == room) [
        | true ↦ ok (bytes, rest)
        | false ↦ do (more, last) ← fill fuel (room - length bytes) rest; ok (bytes ++ more, last)
      ]
    ]

module _ {E : Type 0} (reads : ℕ → Result ℕ E) (send : ℕ → Bytes → Result String E)
    (abort : Result (Unit {0}) E) (complete : List (ℕ × String) → Result (Unit {0}) E) where
  -- The outer loop, with the parts that are done and the calls that were made, the last one first.
  -- The part number is an `i32`, written as its 32 bits.
  unfoldable pub send_parts :
      (fuel chunk_size number : ℕ)
      → List (ℕ × String)
      → List Call
      → Bytes
      → List Call × Result (List (ℕ × String)) E
  send_parts zero chunk_size number parts calls file = (calls, ok parts)
  send_parts (suc fuel) chunk_size number parts calls file =
      elim (fill reads (chunk_size + 1) chunk_size file) [
        | err e ↦ (calls, err e)
        | ok (bytes, rest) ↦ elim (length bytes == 0) [
          | true ↦ (calls, ok parts)
          | false ↦ elim (send number bytes) [
            | ok e_tag ↦
                send_parts fuel chunk_size ((number + 1) % 2 ^ 32) (parts ++ (number, e_tag) ∷ [])
                  (part number bytes ∷ calls) rest
            | err e ↦ elim abort [
              | ok done ↦ (aborted ∷ part number bytes ∷ calls, err e)
              | err failure ↦ (aborted ∷ part number bytes ∷ calls, err failure)
            ]
          ]
        ]
      ]

  -- After the loop: the parts are completed, or the error of the loop is the outcome.
  unfoldable pub finish : List Call × Result (List (ℕ × String)) E → List Call × Result (Unit {0}) E
  finish (calls, err e) = (calls, err e)
  finish (calls, ok parts) = (completed parts ∷ calls, complete parts)

  -- The calls, the last one first, and the outcome. `opened` is what `File::open` answers.
  unfoldable pub upload_multipart :
      (fuel : ℕ) → Result (Unit {0}) E → Result Bytes E → Option ℕ → List Call × Result (Unit {0}) E
  upload_multipart fuel (err e) opened chunk_size = (started ∷ [], err e)
  upload_multipart fuel (ok upload_id) (err e) chunk_size = (started ∷ [], err e)
  upload_multipart fuel (ok upload_id) (ok file) chunk_size =
      finish (send_parts fuel (chunk_bytes chunk_size) 1 [] (started ∷ []) file)
