-- ===== src/Prelude/Tests.antt =====
-- Boolean tests on the native numbers, the conditional, and the splits that keep their equation.
use Prim.Native.Nat.{ℕ, zero, suc, ◌+◌, ◌≤◌, ◌<◌, compare, Ordering}
use mathlib.Core.Path.{◌≡◌, refl}
use mathlib.Core.Logic.{◌↔◌, ◌≢◌, ◌⊎◌, inl, inr}
use mathlib.Core.Bool.{Bool, true, false}
use mathlib.Core.Option.{Option, none, some}
use native.Mathlib.Omega.{arith}

abbrev pub ltb : ℕ → ℕ → Bool
ltb a b = elim (compare a b) [ Ordering.lt ↦ true | _ ↦ false ]

abbrev pub leb : ℕ → ℕ → Bool
leb a b = elim (compare a b) [ Ordering.gt ↦ false | _ ↦ true ]

infix 50 ◌==◌
abbrev pub ◌==◌ : ℕ → ℕ → Bool
a == b = elim (compare a b) [ Ordering.eq ↦ true | _ ↦ false ]

infix 1 if◌then◌else◌
abbrev pub if◌then◌else◌ {ℓ} : {A : Type ℓ} → Bool → A → A → A
if true then x else y = x
if false then x else y = y

pub ltb→lt : (a b : ℕ) → ltb a b ≡ true → a < b
ltb→lt a b h = ground arith

pub leb→le : (a b : ℕ) → leb a b ≡ true → a ≤ b
leb→le a b h = ground arith

pub ==_iff : (a b : ℕ) → ((a == b) ≡ true) ↔ (a ≡ b)
==_iff a b = ground arith

-- The number that a C condition evaluates to.
abbrev pub b2n : Bool → ℕ
b2n true = 1
b2n false = 0

pub Bool-cases : (b : Bool) → (b ≡ true) ⊎ (b ≡ false)
Bool-cases true = inl refl
Bool-cases false = inr refl

pub Option-cases {ℓ} : {A : Type ℓ} (o : Option A) → (o ≡ none) ⊎ ((a : A) × (o ≡ some a))
Option-cases none = inl refl
Option-cases (some a) = inr (a, refl)

-- Evaluates a test on the `count` numbers from `first` on.
unfoldable pub every : ℕ → ℕ → (ℕ → Bool) → Bool
every first zero test = true
every first (suc count) test = if test first then every (first + 1) count test else false

every_from :
    (count first : ℕ) (test : ℕ → Bool) (at : ℕ)
    → first ≤ at
    → at < first + count
    → every first count test ≡ true
    → test at ≡ true
unfolding every
every_from zero first test at lo hi e = absurd (omega arith)
every_from (suc count) first test at lo hi e = elim (Bool-cases (at == first)) [
  | inl same ↦ rw ((==_iff at first).0 same) (ground arith)
  | inr other ↦ every_from count (first + 1) test at (ground arith) (omega arith) (ground arith)
]

pub every_lem :
    (count : ℕ) (test : ℕ → Bool) (at : ℕ) → every 0 count test ≡ true → at < count → test at ≡ true
every_lem count test at e h = every_from count 0 test at (omega arith) (omega arith) e

pub ==_refl : (a : ℕ) → (a == a) ≡ true
==_refl a = ground arith

pub ne→== : (a b : ℕ) → a ≢ b → (a == b) ≡ false
ne→== a b h = ground arith

pub ==-ne : (a b : ℕ) → (a == b) ≡ false → a ≢ b
==-ne a b h e = ground arith
