-- ===== src/Base/Tests.antt =====
-- Boolean tests on native numbers, the conditional, and results, for every component.
use Prim.Native.Nat.{ℕ, suc, ◌≤◌, compare, Ordering}
use Prim.Native.String.{String}
use mathlib.Core.Path.{◌≡◌, refl}
use mathlib.Core.Logic.{◌↔◌, ◌⊎◌, inl, inr}
use mathlib.Core.Bool.{Bool, true, false, ◌&&◌}
use mathlib.Core.Option.{Option, none, some}
use native.Mathlib.Omega.{arith}
use text.Mathlib.Text.{◌==◌ as str_eq}
use text.Mathlib.TextEquality.{eq_iff}

abbrev pub ltb : ℕ → ℕ → Bool
ltb a b = elim (compare a b) [ Ordering.lt ↦ true | _ ↦ false ]

abbrev pub leb : ℕ → ℕ → Bool
leb a b = elim (compare a b) [ Ordering.gt ↦ false | _ ↦ true ]

abbrev pub nat_beq : ℕ → ℕ → Bool
nat_beq a b = elim (compare a b) [ Ordering.eq ↦ true | _ ↦ false ]

infix 1 if◌then◌else◌
abbrev pub if◌then◌else◌ {ℓ} : {A : Type ℓ} → Bool → A → A → A
if true then x else y = x
if false then x else y = y

pub nat_beq_iff : (a b : ℕ) → (nat_beq a b ≡ true) ↔ (a ≡ b)
nat_beq_iff a b = ground arith

pub leb→le : (a b : ℕ) → leb a b ≡ true → a ≤ b
leb→le a b h = ground arith

pub le→leb : (a b : ℕ) → a ≤ b → leb a b ≡ true
le→leb a b h = ground arith

pub ltb→lt : (a b : ℕ) → ltb a b ≡ true → suc a ≤ b
ltb→lt a b h = ground arith

pub gt_of_leb : (a b : ℕ) → leb a b ≡ false → suc b ≤ a
gt_of_leb a b h = ground arith

-- Equality of Rust's `PartialEq`, for keys and texts.
pub record PartialEq {ℓ} (A : Type ℓ) : Type ℓ where
  pub same : A → A → Bool
  pub same_iff : (x y : A) → (same x y ≡ true) ↔ (x ≡ y)

-- A text is compared by the library's test, a number by the one above.
instance abbrev pub string_partial_eq : PartialEq String
string_partial_eq = record { same = str_eq; same_iff = eq_iff }

abbrev pub ◌==◌ {ℓ} : {K : Type ℓ} ⦃tested : PartialEq K⦄ (x y : K) → Bool
◌==◌ ⦃tested⦄ x y = tested.same x y

infix 50 ◌==◌
instance abbrev pub nat_partial_eq : PartialEq ℕ
nat_partial_eq = record { same = nat_beq; same_iff = nat_beq_iff }

abbrev pub pair_same : ℕ × ℕ → ℕ × ℕ → Bool
pair_same (a, b) (c, d) = nat_beq a c && nat_beq b d

pub pair_same_iff : (x y : ℕ × ℕ) → (pair_same x y ≡ true) ↔ (x ≡ y)
pair_same_iff (a, b) (c, d) = ground (arith, nat_beq_iff a c, nat_beq_iff b d)

instance abbrev pub pair_partial_eq : PartialEq (ℕ × ℕ)
pair_partial_eq = record { same = pair_same; same_iff = pair_same_iff }

pub ==-refl {ℓ} : {A : Type ℓ} ⦃e : PartialEq A⦄ (a : A) → (a == a) ≡ true
==-refl ⦃e⦄ a = (e.same_iff a a).1 refl

pub eq_of_== {ℓ} : {A : Type ℓ} ⦃e : PartialEq A⦄ (a b : A) → (a == b) ≡ true → a ≡ b
eq_of_== ⦃e⦄ a b h = (e.same_iff a b).0 h

-- Rust's `Result<T, E>`.
pub data Result {ℓ} (A E : Type ℓ) : Type ℓ where
  ok : A → Result A E
  err : E → Result A E

infixl 5 ◌>>=◌ ◌>>◌
-- The `?` operator, for `do` blocks.
abbrev pub ◌>>=◌ {ℓ} : {A B E : Type ℓ} (r : Result A E) (next : A → Result B E) → Result B E
ok a >>= next = next a
err e >>= next = err e

-- A step whose value is not used.
abbrev pub ◌>>◌ {ℓ} : {A B E : Type ℓ} (r : Result A E) (next : Result B E) → Result B E
ok a >> next = next
err e >> next = err e

pub Bool-cases : (b : Bool) → (b ≡ true) ⊎ (b ≡ false)
Bool-cases true = inl refl
Bool-cases false = inr refl

pub Option-cases {ℓ} : {A : Type ℓ} (o : Option A) → (o ≡ none) ⊎ ((a : A) × (o ≡ some a))
Option-cases none = inl refl
Option-cases (some a) = inr (a, refl)

pub Result-cases {ℓ} :
    {A E : Type ℓ} (r : Result A E) → ((a : A) × (r ≡ ok a)) ⊎ ((e : E) × (r ≡ err e))
Result-cases (ok a) = inl (a, refl)
Result-cases (err e) = inr (e, refl)

-- `Option::is_some`.
abbrev pub is_some {ℓ} : {A : Type ℓ} → Option A → Bool
is_some none = false
is_some (some a) = true

-- `Result::is_ok`.
abbrev pub is_ok {ℓ} : {A E : Type ℓ} → Result A E → Bool
is_ok (ok a) = true
is_ok (err e) = false

-- `Result::ok`.
abbrev pub result_ok {ℓ} : {A E : Type ℓ} → Result A E → Option A
result_ok (ok a) = some a
result_ok (err e) = none
