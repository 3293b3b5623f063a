-- ===== src/Base/Maps.antt =====
-- Rust's `HashMap` and `DashMap` as association lists over keys with an equality. A lookup reads
-- the first entry of a key; `Unique` says that no key has two.
use mathlib.Core.Path.{◌≡◌, refl}
use Prim.Native.Nat.{◌+◌, ◌≤◌}
use mathlib.Core.Bool.{Bool}
use mathlib.Core.List.{List, [], ◌∷◌}
use mathlib.Core.Option
use mathlib.Core.Option.{Option, none, some}
use native.Mathlib.Omega.{arith}
use rust_service.Base.Tests.{PartialEq, ◌==◌, if◌then◌else◌, is_some, Bool-cases, ==-refl, eq_of_==}
use mathlib.Core.Logic.{inl, inr}
use rust_service.Base.Lists.{length}

abbrev pub Map {ℓ} : Type ℓ → Type ℓ → Type ℓ
Map K V = List (K × V)

module _ {ℓ} {K V : Type ℓ} where
  abbrev pub keys : Map K V → List K
  keys [] = []
  keys ((k, v) ∷ m) = k ∷ keys m

  -- Every value is replaced by what `f` makes of its key and itself.
  unfoldable pub map_values : (K → V → V) → Map K V → Map K V
  map_values f [] = []
  map_values f ((k, v) ∷ m) = (k, f k v) ∷ map_values f m

  -- `retain`.
  unfoldable pub retain : (K → V → Bool) → Map K V → Map K V
  retain p [] = []
  retain p ((k, v) ∷ m) = let rest = retain p m in if p k v then (k, v) ∷ rest else rest

  -- `P` holds of every entry.
  abbrev pub Entries {κ} : (K → V → Type κ) → Map K V → Type κ
  Entries P [] = Unit
  Entries P ((k, v) ∷ m) = P k v × Entries P m

module _ {ℓ} {K V : Type ℓ} ⦃e : PartialEq K⦄ where
  -- `get`.
  unfoldable pub lookup : (key : K) (entries : Map K V) → Option V
  lookup key ((first, value) ∷ rest) = if first == key then some value else lookup key rest
  lookup key [] = none

  -- A new key goes to the end, a known one keeps its place.
  unfoldable pub insert : (key : K) (value : V) (entries : Map K V) → Map K V
  insert key value ((first, old) ∷ rest) =
      if first == key then (first, value) ∷ rest else (first, old) ∷ insert key value rest
  insert key value [] = (key, value) ∷ []

  unfoldable pub remove : K → Map K V → Map K V
  remove k [] = []
  remove k ((j, v) ∷ m) = let rest = remove k m in if j == k then rest else (j, v) ∷ rest

  abbrev pub contains_key : K → Map K V → Bool
  contains_key k m = is_some (lookup k m)

  abbrev pub Unique : Map K V → Type ℓ
  Unique [] = Unit
  Unique ((k, v) ∷ m) = (lookup k m ≡ none) × Unique m

  pub lookup-insert :
      (at key : K) (value : V) (entries : Map K V)
      → lookup key (insert at value entries)
        ≡ (if at == key then some value else lookup key entries)
  unfolding lookup insert
  lookup-insert at key value ((first, old) ∷ rest) = ground (
    arith,
    lookup-insert at key value rest,
    e.same_iff first key,
    e.same_iff first at,
    e.same_iff at key,
  )
  lookup-insert at key value [] = refl

  pub lookup-remove :
      (k j : K) (m : Map K V) → lookup j (remove k m) ≡ (if k == j then none else lookup j m)
  unfolding lookup remove
  lookup-remove k j [] = ground arith
  lookup-remove k j ((i, w) ∷ m) =
      ground (arith, e.same_iff k j, e.same_iff i k, e.same_iff i j, lookup-remove k j m)

  pub lookup-map_values :
      (f : K → V → V) (k : K) (m : Map K V)
      → lookup k (map_values f m) ≡ Option.map (f k) (lookup k m)
  unfolding lookup map_values
  lookup-map_values f k [] = refl
  lookup-map_values f k ((j, v) ∷ m) = ground (arith, e.same_iff j k, lookup-map_values f k m)

  pub contains_key-map_values :
      (f : K → V → V) (k : K) (m : Map K V) → contains_key k (map_values f m) ≡ contains_key k m
  unfolding lookup map_values
  contains_key-map_values f k [] = refl
  contains_key-map_values f k ((j, v) ∷ m) = ground (arith, contains_key-map_values f k m)

  pub lookup-insert_self : (k : K) (v : V) (m : Map K V) → lookup k (insert k v m) ≡ some v
  lookup-insert_self k v m = rw (lookup-insert k k v m, ==-refl k)

  pub lookup-remove_self : (k : K) (m : Map K V) → lookup k (remove k m) ≡ none
  lookup-remove_self k m = rw (lookup-remove k k m, ==-refl k)

  retain_absent :
      (p : K → V → Bool) (k : K) (m : Map K V) → lookup k m ≡ none → lookup k (retain p m) ≡ none
  unfolding lookup retain
  retain_absent p k [] h = refl
  retain_absent p k ((j, v) ∷ m) h = ground (arith, retain_absent p k m)

  -- What `retain` leaves of a key.
  abbrev pub kept : (K → V → Bool) → K → Option V → Option V
  kept p k none = none
  kept p k (some v) = if p k v then some v else none

  pub lookup-retain :
      (p : K → V → Bool) (k : K) (m : Map K V)
      → Unique m
      → lookup k (retain p m) ≡ kept p k (lookup k m)
  unfolding lookup retain
  lookup-retain p k [] u = refl
  lookup-retain p k ((j, v) ∷ m) u =
      ground (arith, e.same_iff j k, lookup-retain p k m u.1, retain_absent p j m)

  pub insert-Unique : (k : K) (v : V) (m : Map K V) → Unique m → Unique (insert k v m)
  unfolding lookup insert
  insert-Unique k v [] u = (refl, tt)
  insert-Unique k v ((j, w) ∷ m) u =
      ground (arith, e.same_iff k j, e.same_iff j k, lookup-insert k j v m, insert-Unique k v m u.1)

  pub remove-Unique : (k : K) (m : Map K V) → Unique m → Unique (remove k m)
  unfolding lookup remove
  remove-Unique k [] u = tt
  remove-Unique k ((j, w) ∷ m) u =
      ground (arith, e.same_iff k j, e.same_iff j k, lookup-remove k j m, remove-Unique k m u.1)

  pub map_values-Unique : (f : K → V → V) (m : Map K V) → Unique m → Unique (map_values f m)
  unfolding lookup map_values
  map_values-Unique f [] u = tt
  map_values-Unique f ((j, w) ∷ m) u =
      ground (arith, lookup-map_values f j m, map_values-Unique f m u.1)

  pub retain-Unique : (p : K → V → Bool) (m : Map K V) → Unique m → Unique (retain p m)
  unfolding lookup retain
  retain-Unique p [] u = tt
  retain-Unique p ((j, w) ∷ m) u = ground (arith, retain_absent p j m, retain-Unique p m u.1)

  pub length-insert :
      (k : K) (v : V) (m : Map K V)
      → length (insert k v m) ≡ (if contains_key k m then length m else length m + 1)
  unfolding lookup insert
  length-insert k v [] = refl
  length-insert k v ((j, w) ∷ m) = ground (arith, e.same_iff j k, length-insert k v m)

  pub length-remove-le : (k : K) (m : Map K V) → length (remove k m) ≤ length m
  unfolding remove
  length-remove-le k [] = omega arith
  length-remove-le k ((j, w) ∷ m) = ground (arith, length-remove-le k m)

  -- Removing an absent key changes nothing.
  pub remove_absent : (k : K) (m : Map K V) → lookup k m ≡ none → remove k m ≡ m
  unfolding lookup remove
  remove_absent k [] h = refl
  remove_absent k ((j, w) ∷ m) h = ground (arith, remove_absent k m)

  pub length-remove :
      (k : K) (m : Map K V) {v : V}
      → Unique m
      → lookup k m ≡ some v
      → length (remove k m) + 1 ≡ length m
  unfolding lookup remove
  length-remove k [] u h = cc
  length-remove k ((j, w) ∷ m) {v} u h = elim (Bool-cases (j == k)) [
    | inl hit ↦ rw hit (ground (arith, eq_of_== j k hit, remove_absent k m))
    | inr miss ↦ rw miss (ground (arith, length-remove k m {v = v} u.1))
  ]

module _ {ℓ κ} {K V : Type ℓ} ⦃e : PartialEq K⦄ (P : K → V → Type κ) where
  pub insert-Entries :
      (k : K) (v : V) (m : Map K V) → Entries P m → P k v → Entries P (insert k v m)
  unfolding insert
  insert-Entries k v [] h p = (p, tt)
  insert-Entries k v ((j, w) ∷ m) h p = elim (Bool-cases (j == k)) [
    | inl hit ↦ rw hit (rw (eq_of_== j k hit) p, h.1)
    | inr miss ↦ rw miss (h.0, insert-Entries k v m h.1 p)
  ]

  pub remove-Entries : (k : K) (m : Map K V) → Entries P m → Entries P (remove k m)
  unfolding remove
  remove-Entries k [] h = tt
  remove-Entries k ((j, w) ∷ m) h = ground (arith, remove-Entries k m h.1)

  pub lookup-Entries : (k : K) (m : Map K V) {v : V} → Entries P m → lookup k m ≡ some v → P k v
  unfolding lookup
  lookup-Entries k [] h q = cc
  lookup-Entries k ((j, w) ∷ m) {v} h q = elim (Bool-cases (j == k)) [
    | inl hit ↦ ground (arith, eq_of_== j k hit, h.0)
    | inr miss ↦ lookup-Entries k m h.1 (ground arith)
  ]

module _ {ℓ κ} {K V : Type ℓ} (P : K → V → Type κ) where
  pub map_values-Entries :
      (f : K → V → V) (m : Map K V)
      → ((k : K) (v : V) → P k v → P k (f k v))
      → Entries P m
      → Entries P (map_values f m)
  unfolding map_values
  map_values-Entries f [] step h = tt
  map_values-Entries f ((j, w) ∷ m) step h = (step j w h.0, map_values-Entries f m step h.1)

  pub retain-Entries : (p : K → V → Bool) (m : Map K V) → Entries P m → Entries P (retain p m)
  unfolding retain
  retain-Entries p [] h = tt
  retain-Entries p ((j, w) ∷ m) h = ground (arith, retain-Entries p m h.1)

module _ {ℓ} {K V : Type ℓ} where
  pub length-map_values : (f : K → V → V) (m : Map K V) → length (map_values f m) ≡ length m
  unfolding map_values
  length-map_values f [] = refl
  length-map_values f ((k, v) ∷ m) = omega (arith, length-map_values f m)

  pub keys-map_values : (f : K → V → V) (m : Map K V) → keys (map_values f m) ≡ keys m
  unfolding map_values
  keys-map_values f [] = refl
  keys-map_values f ((k, v) ∷ m) = rw (keys-map_values f m)

pub ruleset map_laws = (lookup-insert, lookup-remove, lookup-map_values)
