-- ===== src/S3/Pieces.antt =====
-- `download_multipart` against the object in pieces: the file is the object, whatever the size of
-- the ranges, and an error of a range is the error of the download.
use rust_service.Base.{
  ℕ, zero, suc, ◌+◌, ◌-◌, ◌%◌, ◌^◌, ◌≤◌, ◌<◌, min, ◌≡◌, refl, sym, ap, ◌∙◌, ◌≢◌, inl, inr, true,
  Option, none, some, List, [], ◌∷◌, ◌++◌, arith, ltb, leb, if◌then◌else◌, leb→le, le→leb, ltb→lt,
  gt_of_leb, string_partial_eq, ◌==◌, nat_partial_eq, pair_partial_eq, ok, Bool-cases, Bytes,
  length, take, drop, drop-add, take_all, drop_all, take-drop, length-drop,
}
use mathlib.Core.List.{append-nil, append_assoc}
use rust_service.S3.Download.{
  Joined, fetched, FileCalls, or_io, ranges, place, sort_by_offset, written, chunk_bytes, collect,
  download_multipart,
}

-- The object in pieces, from an offset on.
abbrev pieces : (fuel start size : ℕ) → Bytes → List (ℕ × Bytes)
pieces zero start size object = []
pieces (suc fuel) start size object =
    let rest = pieces fuel (start + size) size object in
    if ltb start (length object)
    then (start, take (min (start + size) (length object) - start) (drop start object)) ∷ rest
    else []

-- A range and what follows it are what was left.
take-drop_range :
    (start size : ℕ) (object : Bytes)
    → start < length object
    → take (min (start + size) (length object) - start) (drop start object)
        ++ drop (start + size) object
      ≡ drop start object
take-drop_range start size object inside = elim (Bool-cases (leb (start + size) (length object))) [
  | inl whole ↦
      rw (drop-add start size object) (rw (short whole) (take-drop size (drop start object)))
  | inr cut ↦
      rw
        (
          drop_all (start + size) object (ground arith),
          take_all (min (start + size) (length object) - start) (drop start object) (
              omega (
                arith,
                length-drop start object,
                inside,
                gt_of_leb (start + size) (length object) cut,
              )),
          append-nil (drop start object),
        )
        refl
]
  where
    short :
        leb (start + size) (length object) ≡ true
        → min (start + size) (length object) - start ≡ size
    short whole = omega (arith, leb→le (start + size) (length object) whole)

-- What the parts hold, one after another.
abbrev joined : List (ℕ × Bytes) → Bytes
joined [] = []
joined ((offset, chunk) ∷ parts) = chunk ++ joined parts

joined-pieces :
    (fuel start size : ℕ) (object : Bytes)
    → 1 ≤ size
    → length object ≤ fuel + start
    → joined (pieces fuel start size object) ≡ drop start object
joined-pieces zero start size object positive enough = sym (drop_all start object (omega arith))
joined-pieces (suc fuel) start size object positive enough =
    elim (Bool-cases (ltb start (length object))) [
      | inr over ↦ rw over (sym (drop_all start object (ground arith)))
      | inl inside ↦
          rw (inside, joined-pieces fuel (start + size) size object positive (omega arith))
            (take-drop_range start size object (ltb→lt start (length object) inside))
    ]

-- The file can be created and written.
abbrev pub Writes : FileCalls → Type 0
Writes file = (file.create ≡ ok tt) × ((done chunk : Bytes) → file.write_all done chunk ≡ ok tt)

written-joined :
    {E : Type 0} (file : FileCalls) (done : Bytes) (parts : List (ℕ × Bytes))
    → Writes file
    → written {E = E} file done parts ≡ ok (done ++ joined parts)
unfolding written or_io
written-joined file done [] writes = ap ok (sym (append-nil done))
written-joined file done ((offset, chunk) ∷ parts) writes =
    rw (writes.1 done chunk, or_io)
      (written-joined file (done ++ chunk) parts writes
        ∙ ap ok (append_assoc done chunk (joined parts)))

-- A part that stands before the others stays there.
place-pieces :
    (fuel first start size : ℕ) (chunk object : Bytes)
    → first ≤ start
    → place (first, chunk) (pieces fuel start size object)
      ≡ (first, chunk) ∷ pieces fuel start size object
unfolding place
place-pieces zero first start size chunk object before = refl
place-pieces (suc fuel) first start size chunk object before =
    ground (arith, le→leb first start before)

sort-pieces :
    (fuel start size : ℕ) (object : Bytes)
    → sort_by_offset (pieces fuel start size object) ≡ pieces fuel start size object
unfolding sort_by_offset
sort-pieces zero start size object = refl
sort-pieces (suc fuel) start size object = elim (Bool-cases (ltb start (length object))) [
  | inr over ↦ rw over refl
  | inl inside ↦
      rw (inside, sort-pieces fuel (start + size) size object)
        (place-pieces fuel start (start + size) size _ object (omega arith))
]

-- The offset of the last byte of a range, in 64 bits.
last_of_range :
    (start size total : ℕ)
    → start < total
    → 1 ≤ size
    → total + size ≤ 2 ^ 64
    → ((start + size) % 2 ^ 64 ≡ start + size)
      × ((min (start + size) total + (2 ^ 64 - 1)) % 2 ^ 64 ≡ min (start + size) total - 1)
      × (start ≤ min (start + size) total - 1)
      × (min (start + size) total - 1 < total)
      × (min (start + size) total - 1 + 1 - start ≡ min (start + size) total - start)
last_of_range start size total inside positive fits = omega (arith, inside, positive, fits)

pub chunk_bytes-positive :
    (chunk_size : Option ℕ) → chunk_size ≢ some 0 → 1 ≤ chunk_bytes chunk_size
unfolding chunk_bytes
chunk_bytes-positive none positive = omega arith
chunk_bytes-positive (some zero) positive = absurd (positive refl)
chunk_bytes-positive (some (suc n)) positive = omega arith

none_left : (object : Bytes) → (length object == 0) ≡ true → object ≡ []
none_left [] empty = refl
none_left (byte ∷ object) empty = absurd (ground (arith, empty))

module _ {E : Type 0} (fetch : ℕ → ℕ → Joined E) (object : Bytes)
    (honest : (first last : ℕ)
      → first ≤ last
      → last < length object
      → fetch first last ≡ fetched (take (last + 1 - first) (drop first object))) where
  collect-pieces :
      (fuel start size : ℕ)
      → 1 ≤ size
      → length object + size ≤ 2 ^ 64
      → collect fetch (ranges fuel start size (length object)) ≡ ok (pieces fuel start size object)
  unfolding collect ranges
  collect-pieces zero start size positive fits = refl
  collect-pieces (suc fuel) start size positive fits =
      elim (Bool-cases (ltb start (length object))) [
        | inr over ↦ ground arith
        | inl inside ↦
            let (next, last, starts, ends, count) =
              last_of_range start size (length object) (ltb→lt start (length object) inside)
                positive fits in
            rw
              (
                ranges,
                inside,
                next,
                last,
                honest start (min (start + size) (length object) - 1) starts ends,
                count,
                next,
                collect-pieces fuel (start + size) size positive fits,
              )
              refl
      ]

  -- For an object of which the requests for ranges answer with the bytes of the range, a file that
  -- can be created and written, and a chunk size that is not zero and does not bring an offset past
  -- 64 bits, `download_multipart` ends after at most one turn of its loop for each byte and has
  -- written the object, byte for byte.
  pub download-object :
      (fuel : ℕ) (file : FileCalls) (chunk_size : Option ℕ)
      → Writes file
      → chunk_size ≢ some 0
      → length object + chunk_bytes chunk_size ≤ 2 ^ 64
      → length object ≤ fuel
      → download_multipart fuel file (ok (length object)) fetch chunk_size ≡ ok object
  unfolding download_multipart or_io written
  download-object fuel file chunk_size writes positive fits enough =
      let size = chunk_bytes chunk_size in
      let whole : joined (pieces fuel 0 size object) ≡ object =
        joined-pieces fuel 0 size object (chunk_bytes-positive chunk_size positive)
          (omega (arith, enough)) in
      elim (Bool-cases (length object == 0)) [
        | inl empty ↦
            rw (download_multipart, empty, writes.0, or_io) (ap ok (sym (none_left object empty)))
        | inr some_left ↦
            rw
              (
                download_multipart,
                some_left,
                collect-pieces fuel 0 size (chunk_bytes-positive chunk_size positive) fits,
                writes.0,
                or_io,
                sort-pieces fuel 0 size object,
              )
              (written-joined file [] (pieces fuel 0 size object) writes ∙ ap ok whole)
      ]
