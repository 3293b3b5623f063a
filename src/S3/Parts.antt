-- ===== src/S3/Parts.antt =====
-- `upload_multipart` against the file cut into chunks: however the reads are split, the parts are
-- the chunks.
use rust_service.Base.{
  ℕ, zero, suc, ◌+◌, ◌-◌, ◌%◌, ◌^◌, ◌≤◌, ◌<◌, min, String, ◌≡◌, refl, sym, ap, ◌∙◌, ◌≢◌, inl, inr,
  true, false, Option, some, List, [], ◌∷◌, ◌++◌, arith, if◌then◌else◌, string_partial_eq, ◌==◌,
  nat_partial_eq, pair_partial_eq, eq_of_==, Result, ok, Bool-cases, Bytes, length, take, drop,
  length-take-le, take-add, drop-add, drop_all, take-drop, length-drop,
}
use rust_service.S3.Download.{chunk_bytes}
use native.Mathlib.Nat.{zero-min}
use mathlib.Core.List.{append-nil, append_assoc}
use rust_service.S3.Pieces.{chunk_bytes-positive}
use rust_service.S3.Upload.{
  Call, started, part, completed, read, fill, send_parts, finish, upload_multipart,
}

module _ {A : Type 0} where
  take-length-take : (n : ℕ) (xs : List A) → take (length (take n xs)) xs ≡ take n xs
  take-length-take zero xs = refl
  take-length-take (suc n) [] = refl
  take-length-take (suc n) (x ∷ xs) = rw (take-length-take n xs) refl

  drop-length-take : (n : ℕ) (xs : List A) → drop (length (take n xs)) xs ≡ drop n xs
  drop-length-take zero xs = refl
  drop-length-take (suc n) [] = refl
  drop-length-take (suc n) (x ∷ xs) = drop-length-take n xs

  length-take-min : (n : ℕ) (xs : List A) → length (take n xs) ≡ min n (length xs)
  length-take-min zero xs = omega arith
  length-take-min (suc n) [] = omega arith
  length-take-min (suc n) (x ∷ xs) = omega (arith, length-take-min n xs)

-- Nothing is left to read where a read of some places brings nothing.
nothing_left :
    (room ready : ℕ) (file : Bytes)
    → length (take (min room (ready + 1)) file) ≡ 0
    → (take room file ≡ []) × (drop room file ≡ drop (min room (ready + 1)) file)
nothing_left zero ready file none_read = (refl, rw (zero-min (ready + 1)) refl)
nothing_left (suc room) ready [] none_read =
    (refl, sym (drop_all (min (suc room) (ready + 1)) [] (omega arith)))
nothing_left (suc room) ready (byte ∷ file) none_read =
    absurd (omega (arith, none_read, length-take-min (min (suc room) (ready + 1)) (byte ∷ file)))

-- The first read and what the other reads bring.
take-drop_split :
    (k room : ℕ) (file : Bytes)
    → k ≤ room
    → (take k file ++ take (room - k) (drop k file) ≡ take room file)
      × (drop (room - k) (drop k file) ≡ drop room file)
take-drop_split k room file inside =
    let whole : room ≡ k + (room - k) = omega (arith, inside) in
    (
      sym (take-add k (room - k) file) ∙ ap (λ n. take n file) (sym whole),
      sym (drop-add k (room - k) file) ∙ ap (λ n. drop n file) (sym whole),
    )

module _ {E : Type 0} (sizes : ℕ → ℕ) where
  -- A buffer is filled as far as the file goes, whatever the sizes of the reads.
  fill-take :
      (fuel room : ℕ) (file : Bytes)
      → room + 1 ≤ fuel
      → fill {E = E} (λ left. ok (sizes left)) fuel room file ≡ ok (take room file, drop room file)
  unfolding fill read
  fill-take zero room file enough = absurd (omega (arith, enough))
  fill-take (suc fuel) room file enough = elim (Bool-cases (length front == 0)) [
    | inl nothing ↦ ground (arith, nothing_left room ready file (eq_of_== (length front) 0 nothing))
    | inr some_read ↦ elim (Bool-cases (length front == room)) [
      | inl full ↦ ground (arith, room_full full)
      | inr short ↦ ground (
        arith,
        fill-take fuel (room - length front) (drop (min room (ready + 1)) file) (fewer some_read),
        take-drop_split (length front) room file
            (omega (arith, length-take-le (min room (ready + 1)) file)),
        take-length-take (min room (ready + 1)) file,
        drop-length-take (min room (ready + 1)) file,
      )
    ]
  ]
    where
      ready : ℕ
      ready = sizes (length file)

      front : Bytes
      front = take (min room (ready + 1)) file

      room_full : (length front == room) ≡ true → min room (ready + 1) ≡ room
      room_full full =
          omega
            (arith, eq_of_== (length front) room full, length-take-min (min room (ready + 1)) file)

      fewer : (length front == 0) ≡ false → room - length front + 1 ≤ fuel
      fewer some_read = ground (arith, enough, length-take-le (min room (ready + 1)) file)

-- The file cut into chunks of one size, the last one shorter.
abbrev pub chunks : (fuel size : ℕ) → Bytes → List Bytes
chunks zero size file = []
chunks (suc fuel) size file =
    let rest = chunks fuel size (drop size file) in
    if length file == 0 then [] else take size file ∷ rest

abbrev pub joined : List Bytes → Bytes
joined [] = []
joined (chunk ∷ rest) = chunk ++ joined rest

joined-chunks :
    (fuel size : ℕ) (file : Bytes)
    → 1 ≤ size
    → length file ≤ fuel
    → joined (chunks fuel size file) ≡ file
joined-chunks zero size [] positive enough = refl
joined-chunks zero size (byte ∷ file) positive enough = absurd (omega (arith, enough))
joined-chunks (suc fuel) size [] positive enough = refl
joined-chunks (suc fuel) size (byte ∷ file) positive enough = ground (
  arith,
  joined-chunks fuel size (drop size (byte ∷ file)) positive
      (omega (arith, enough, positive, length-drop size (byte ∷ file))),
  take-drop size (byte ∷ file),
)

-- Every part but the last one has the size that was asked for.
abbrev pub AllFull : ℕ → List Bytes → Type 0
AllFull size [] = Unit
AllFull size (chunk ∷ []) = (1 ≤ length chunk) × (length chunk ≤ size)
AllFull size (chunk ∷ other ∷ rest) = (length chunk ≡ size) × AllFull size (other ∷ rest)

chunks-AllFull : (fuel size : ℕ) (file : Bytes) → 1 ≤ size → AllFull size (chunks fuel size file)
chunks-AllFull zero size file positive = tt
chunks-AllFull (suc fuel) size [] positive = tt
chunks-AllFull (suc zero) size (byte ∷ file) positive =
    ground (arith, length-take-min size (byte ∷ file))
chunks-AllFull (suc (suc fuel)) size (byte ∷ file) positive = ground (
  arith,
  chunks-AllFull (suc fuel) size (drop size (byte ∷ file)) positive,
  length-take-min size (byte ∷ file),
  length-drop size (byte ∷ file),
)

-- The parts as they are completed, and the calls that sent them.
abbrev pub numbered : (ℕ → String) → ℕ → List Bytes → List (ℕ × String)
numbered tag number [] = []
numbered tag number (chunk ∷ rest) = (number, tag number) ∷ numbered tag (number + 1) rest

abbrev pub sent : ℕ → List Bytes → List Call → List Call
sent number [] calls = calls
sent number (chunk ∷ rest) calls = sent (number + 1) rest (part number chunk ∷ calls)

module _ {E : Type 0} (sizes : ℕ → ℕ) (tag : ℕ → String) (abort : Result (Unit {0}) E)
    (complete : List (ℕ × String) → Result (Unit {0}) E) where
  send_parts-chunks :
      (fuel size number : ℕ) (parts : List (ℕ × String)) (calls : List Call) (file : Bytes)
      → 1 ≤ size
      → length file ≤ fuel
      → number + length (chunks fuel size file) < 2 ^ 31
      → send_parts
          (λ left. ok (sizes left))
          (λ n chunk. ok (tag n))
          abort
          complete
          fuel
          size
          number
          parts
          calls
          file
        ≡ (
          sent number (chunks fuel size file) calls,
          ok (parts ++ numbered tag number (chunks fuel size file)),
        )
  unfolding send_parts
  send_parts-chunks zero size number parts calls file positive enough fits =
      rw (append-nil parts) refl
  send_parts-chunks (suc fuel) size number parts calls file positive enough fits =
      elim (Bool-cases (length file == 0)) [
        | inl over ↦
            rw
              (
                send_parts,
                fill-take sizes (size + 1) size file (omega arith),
                over,
                emptied over,
                append-nil parts,
              )
              refl
        | inr more ↦
            rw
              (
                send_parts,
                fill-take sizes (size + 1) size file (omega arith),
                more,
                nonempty more,
                wraps,
                send_parts-chunks fuel size (number + 1) (parts ++ (number, tag number) ∷ [])
                    (part number (take size file) ∷ calls) (drop size file) positive (left more).0
                    (left more).1,
                append_assoc parts ((number, tag number) ∷ [])
                    (numbered tag (number + 1) (chunks fuel size (drop size file))),
              )
              refl
      ]
    where
      emptied : (length file == 0) ≡ true → (length (take size file) == 0) ≡ true
      emptied over = ground (arith, length-take-min size file)

      nonempty : (length file == 0) ≡ false → (length (take size file) == 0) ≡ false
      nonempty more = ground (arith, length-take-min size file)

      wraps : (number + 1) % 2 ^ 32 ≡ number + 1
      wraps = omega (arith, fits)

      left :
          (length file == 0) ≡ false
          → (length (drop size file) ≤ fuel)
            × (number + 1 + length (chunks fuel size (drop size file)) < 2 ^ 31)
      left more = ground (arith, length-drop size file)

  -- For a file that is read without an error, in whatever pieces the reads give it, a chunk size that
  -- is not zero, fewer than 2^31 - 1 parts, and parts that are all accepted, `upload_multipart` ends: it
  -- sends the chunks of the file in order with the numbers from 1 on, completes the upload with
  -- those numbers and their tags, and answers as the completion does. The chunks joined are the
  -- file, and every chunk but the last has the chunk size.
  pub upload-chunks :
      (fuel : ℕ) (chunk_size : Option ℕ) (file : Bytes)
      → chunk_size ≢ some 0
      → 1 + length (chunks fuel (chunk_bytes chunk_size) file) < 2 ^ 31
      → length file ≤ fuel
      → let parts = chunks fuel (chunk_bytes chunk_size) file in
        (upload_multipart
            (λ left. ok (sizes left))
            (λ n chunk. ok (tag n))
            abort
            complete
            fuel
            (ok tt)
            (ok file)
            chunk_size
          ≡ (
            completed (numbered tag 1 parts) ∷ sent 1 parts (started ∷ []),
            complete (numbered tag 1 parts),
          ))
        × (joined parts ≡ file)
        × AllFull (chunk_bytes chunk_size) parts
  unfolding upload_multipart finish
  upload-chunks fuel chunk_size file positive fits enough =
      let size = chunk_bytes-positive chunk_size positive in
      (
        rw
            (
              upload_multipart,
              send_parts-chunks fuel (chunk_bytes chunk_size) 1 [] (started ∷ []) file size enough
                  fits,
            )
            refl,
        joined-chunks fuel (chunk_bytes chunk_size) file size enough,
        chunks-AllFull fuel (chunk_bytes chunk_size) file size,
      )
