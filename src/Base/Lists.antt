-- ===== src/Base/Lists.antt =====
-- Lists measured by native numbers, and a predicate on every element.
use Prim.Native.Char.{code}
use Prim.Native.String.{String}
use Prim.Native.Nat.{ℕ, zero, suc, ◌+◌, ◌-◌, ◌≤◌}
use mathlib.Core.Path.{◌≡◌, refl}
use mathlib.Core.List.{map, List, [], ◌∷◌, ◌++◌}
use mathlib.Core.Bool.{Bool, true, false, ◌&&◌, ◌||◌}
use mathlib.Core.Logic.{◌⊎◌, ◌↔◌, inl, inr}
use native.Mathlib.Omega.{arith}
use native.Mathlib.Nat.{zero-add, suc-add}
use rust_service.Base.Tests.{if◌then◌else◌, nat_beq, nat_beq_iff, Bool-cases, PartialEq}

-- A `Vec<u8>` or the bytes of a text.
abbrev pub Bytes : Type 0
Bytes = List ℕ

module _ {ℓ} {A : Type ℓ} where
  abbrev pub length : List A → ℕ
  length [] = 0
  length (x ∷ xs) = suc (length xs)

  abbrev pub take : (count : ℕ) (items : List A) → List A
  take (suc n) (item ∷ items) = item ∷ take n items
  take (suc n) [] = []
  take zero items = []

  abbrev pub drop : ℕ → List A → List A
  drop zero xs = xs
  drop (suc n) [] = []
  drop (suc n) (x ∷ xs) = drop n xs

  -- `Iterator::filter` with a Boolean test.
  abbrev pub keep : (A → Bool) → List A → List A
  keep p [] = []
  keep p (x ∷ xs) = let rest = keep p xs in if p x then x ∷ rest else rest

  pub length-append : (xs ys : List A) → length (xs ++ ys) ≡ length xs + length ys
  length-append [] ys = omega arith
  length-append (x ∷ xs) ys = omega (arith, length-append xs ys)

  pub length-take-le : (count : ℕ) (items : List A) → length (take count items) ≤ count
  length-take-le (suc n) (item ∷ items) = omega (arith, length-take-le n items)
  length-take-le (suc n) [] = omega arith
  length-take-le zero items = omega arith

  take-nil : (n : ℕ) → take n [] ≡ []
  take-nil zero = refl
  take-nil (suc n) = refl

  drop-nil : (n : ℕ) → drop n [] ≡ []
  drop-nil zero = refl
  drop-nil (suc n) = refl

  pub take-add : (m n : ℕ) (xs : List A) → take (m + n) xs ≡ take m xs ++ take n (drop m xs)
  take-add zero n xs = rw (zero-add n)
  take-add (suc m) n [] = rw (suc-add m n, take-nil n)
  take-add (suc m) n (x ∷ xs) = rw (suc-add m n, take-add m n xs)

  pub drop-add : (m n : ℕ) (xs : List A) → drop (m + n) xs ≡ drop n (drop m xs)
  drop-add zero n xs = rw (zero-add n)
  drop-add (suc m) n [] = rw (suc-add m n, drop-nil n)
  drop-add (suc m) n (x ∷ xs) = rw (suc-add m n, drop-add m n xs)

  pub length-keep-le : (p : A → Bool) (xs : List A) → length (keep p xs) ≤ length xs
  length-keep-le p [] = omega arith
  length-keep-le p (x ∷ xs) = ground (arith, length-keep-le p xs)

abbrev pub All {ℓ κ} : {A : Type ℓ} (P : A → Type κ) (items : List A) → Type κ
All P (item ∷ items) = P item × All P items
All P [] = Unit

pub All-append {ℓ κ} :
    {A : Type ℓ} (P : A → Type κ) (front back : List A)
    → All P front
    → All P back
    → All P (front ++ back)
All-append P (item ∷ items) back held others = (held.0, All-append P items back held.1 others)
All-append P [] back held others = others

pub All-keep {ℓ κ} :
    {A : Type ℓ} (P : A → Type κ) (p : A → Bool) (xs : List A) → All P xs → All P (keep p xs)
All-keep P p [] h = tt
All-keep P p (x ∷ xs) h = ground (arith, All-keep P p xs h.1)

pub length-map {ℓ κ} :
    {A : Type ℓ} {B : Type κ} (f : A → B) (xs : List A) → length (map f xs) ≡ length xs
length-map f [] = refl
length-map f (x ∷ xs) = omega (arith, length-map f xs)

module _ {ℓ} {A : Type ℓ} where
  pub take_all : (n : ℕ) (xs : List A) → length xs ≤ n → take n xs ≡ xs
  take_all zero [] h = refl
  take_all zero (x ∷ xs) h = absurd (omega (arith, h))
  take_all (suc n) [] h = refl
  take_all (suc n) (x ∷ xs) h = rw (take_all n xs (omega arith)) refl

  pub drop_all : (n : ℕ) (xs : List A) → length xs ≤ n → drop n xs ≡ []
  drop_all zero [] h = refl
  drop_all zero (x ∷ xs) h = absurd (omega (arith, h))
  drop_all (suc n) [] h = refl
  drop_all (suc n) (x ∷ xs) h = drop_all n xs (omega arith)

  pub take-drop : (n : ℕ) (xs : List A) → take n xs ++ drop n xs ≡ xs
  take-drop zero xs = refl
  take-drop (suc n) [] = refl
  take-drop (suc n) (x ∷ xs) = rw (take-drop n xs) refl

  pub length-take : (n : ℕ) (xs : List A) → n ≤ length xs → length (take n xs) ≡ n
  length-take zero xs h = refl
  length-take (suc n) [] h = omega (arith, h)
  length-take (suc n) (x ∷ xs) h = omega (arith, length-take n xs (omega arith))

  pub length-drop : (n : ℕ) (xs : List A) → length (drop n xs) ≡ length xs - n
  length-drop zero xs = omega arith
  length-drop (suc n) [] = omega arith
  length-drop (suc n) (x ∷ xs) = omega (arith, length-drop n xs)

-- The bytes of a text of ASCII.
abbrev pub bytes_of : String → Bytes
bytes_of String.[] = []
bytes_of (String.◌∷◌ c rest) = code c ∷ bytes_of rest

-- Two texts as lists of their bytes are the same.
abbrev pub same_bytes : Bytes → Bytes → Bool
same_bytes [] [] = true
same_bytes [] (b ∷ s) = false
same_bytes (a ∷ r) [] = false
same_bytes (a ∷ r) (b ∷ s) = let rest = same_bytes r s in nat_beq a b && rest

pub same_bytes-eq : (r s : Bytes) → same_bytes r s ≡ true → r ≡ s
same_bytes-eq [] [] h = refl
same_bytes-eq [] (b ∷ s) h = absurd (ground (arith, h))
same_bytes-eq (a ∷ r) [] h = absurd (ground (arith, h))
same_bytes-eq (a ∷ r) (b ∷ s) h = ground (arith, h, nat_beq_iff a b, same_bytes-eq r s)

-- `iter().any(|a| a == o)`.
abbrev pub any_same : Bytes → List Bytes → Bool
any_same o [] = false
any_same o (a ∷ items) = let rest = any_same o items in same_bytes a o || rest

abbrev pub IsOneOf : Bytes → List Bytes → Type 0
IsOneOf o [] = ⊥
IsOneOf o (a ∷ items) = (a ≡ o) ⊎ IsOneOf o items

pub any_same-IsOneOf : (o : Bytes) (items : List Bytes) → any_same o items ≡ true → IsOneOf o items
any_same-IsOneOf o [] h = ground (arith, h)
any_same-IsOneOf o (a ∷ items) h = elim (Bool-cases (same_bytes a o)) [
  | inl same ↦ inl (same_bytes-eq a o same)
  | inr other ↦ inr (any_same-IsOneOf o items (ground (arith, h, other)))
]

pub no_items {ℓ} : {A : Type ℓ} (items : List A) → nat_beq (length items) 0 ≡ true → items ≡ []
no_items [] h = refl
no_items (item ∷ items) h = absurd (ground (arith, h))

same_bytes_refl : (s : Bytes) → same_bytes s s ≡ true
same_bytes_refl [] = refl
same_bytes_refl (b ∷ s) = ground (arith, same_bytes_refl s, nat_beq_iff b b)

pub same_bytes_iff : (r s : Bytes) → (same_bytes r s ≡ true) ↔ (r ≡ s)
same_bytes_iff r s = (same_bytes-eq r s, λ e. rw e (same_bytes_refl s))

instance abbrev pub bytes_partial_eq : PartialEq Bytes
bytes_partial_eq = record { same = same_bytes; same_iff = same_bytes_iff }

-- Texts that start with as many bytes are the same where they are the same before and after.
pub append-inj : (a b c d : Bytes) → length a ≡ length b → a ++ c ≡ b ++ d → (a ≡ b) × (c ≡ d)
append-inj [] [] c d l e = (refl, e)
append-inj [] (y ∷ b) c d l e = absurd (omega (arith, l))
append-inj (x ∷ a) [] c d l e = absurd (omega (arith, l))
append-inj (x ∷ a) (y ∷ b) c d l e =
    let tail : a ++ c ≡ b ++ d = cc in
    let head : x ≡ y = cc in
    let (front, back) = append-inj a b c d (omega (arith, l)) tail in (rw (head, front), back)
