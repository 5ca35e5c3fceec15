-- ===== src/Base/Tests.antt =====
-- The comparisons and the conditional of C, on native numbers, and the ways to split on them.
use Prim.Native.Nat.{ℕ, zero, suc, ◌<◌, ◌≤◌, compare, Ordering}
use mathlib.Core.Path.{◌≡◌, refl}
use mathlib.Core.Logic.{◌≢◌, ◌⊎◌, inl, inr}
use mathlib.Core.Bool.{Bool, true, false, not, ◌&&◌}
use native.Mathlib.Omega.{arith}

abbrev pub ltb : ℕ → ℕ → Bool
ltb a b = elim (compare a b) [ Ordering.lt ↦ true | _ ↦ false ]

abbrev pub leb : ℕ → ℕ → Bool
leb a b = elim (compare a b) [ Ordering.gt ↦ false | _ ↦ true ]

infix 50 ◌==◌
abbrev pub ◌==◌ : ℕ → ℕ → Bool
a == b = elim (compare a b) [ Ordering.eq ↦ true | _ ↦ false ]

infix 1 if◌then◌else◌
abbrev pub if◌then◌else◌ {ℓ} : {A : Type ℓ} → Bool → A → A → A
if true then x else y = x
if false then x else y = y

-- Equality of conditions.
abbrev pub eqb : Bool → Bool → Bool
eqb true b = b
eqb false b = not b

-- A condition used as a number.
abbrev pub to_ℕ : Bool → ℕ
to_ℕ true = 1
to_ℕ false = 0

pub Bool-cases : (b : Bool) → (b ≡ true) ⊎ (b ≡ false)
Bool-cases true = inl refl
Bool-cases false = inr refl

pub ltb-true : (a b : ℕ) → a < b → ltb a b ≡ true
ltb-true a b h = ground arith

pub ltb-false : (a b : ℕ) → b ≤ a → ltb a b ≡ false
ltb-false a b h = ground arith

pub leb-true : (a b : ℕ) → a ≤ b → leb a b ≡ true
leb-true a b h = ground arith

pub leb-false : (a b : ℕ) → b < a → leb a b ≡ false
leb-false a b h = ground arith

pub ==_refl : (a : ℕ) → (a == a) ≡ true
==_refl a = ground arith

pub ==_false : (a b : ℕ) → a ≢ b → (a == b) ≡ false
==_false a b h = ground arith

-- Over a small range, or over the conditions, check every value by evaluation.
unfoldable pub all_below : ℕ → (ℕ → Bool) → Bool
all_below zero check = true
all_below (suc top) check = if check top then all_below top check else false

pub all_below_sound :
    (top : ℕ) (check : ℕ → Bool) (k : ℕ) → all_below top check ≡ true → k < top → check k ≡ true
unfolding all_below
all_below_sound (suc top) check k h lt = ground (arith, all_below_sound top check k)
all_below_sound zero check k h lt = absurd (omega arith)

abbrev pub all_conditions : (Bool → Bool) → Bool
all_conditions p = p true && p false

pub all_conditions_sound : (p : Bool → Bool) (b : Bool) → all_conditions p ≡ true → p b ≡ true
all_conditions_sound p true h = ground arith
all_conditions_sound p false h = ground arith
