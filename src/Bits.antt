-- ===== src/Bits.antt =====
-- The bits of a number, and what `&`, `|` and `^` do to each of them.
mod Step
use Prim.Native.Nat.{min, max, differ, bit_and-bitwise}
use native.Mathlib.Nat.{div-div-eq-div-mul, pow-succ', one-le-pow, mod-add-div, mul-one, div-one}
use s_qlux.Base.{ℕ, zero, suc, ◌+◌, ◌-◌, ◌*◌, ◌/◌, ◌%◌, ◌^◌, ◌≤◌, ◌<◌, bit_and, bit_or, bit_xor}
use s_qlux.Base.{◌≡◌, refl, sym, ap, ◌∙◌, arith}
pub use Step.{bit_and_step}
use Step.{bit_or_step, bit_xor_step, differ_digits}

-- Bit `k` of `a`, counted from the lowest.
abbrev pub bit : ℕ → ℕ → ℕ
bit k a = a / 2 ^ k % 2

halve : (k a : ℕ) → a / 2 ^ suc k ≡ a / 2 / 2 ^ k
halve k a = sym (div-div-eq-div-mul a 2 (2 ^ k) ∙ ap (λ n. a / n) (sym (pow-succ' 2 k)))

bit-suc : (k a : ℕ) → bit (suc k) a ≡ bit k (a / 2)
bit-suc k a = ap (λ n. n % 2) (halve k a)

bit-zero : (a : ℕ) → bit 0 a ≡ a % 2
bit-zero a = omega arith

module _ (op digit : ℕ → ℕ → ℕ)
    (step : (a b : ℕ) → op a b ≡ op (a / 2) (b / 2) * 2 + digit (a % 2) (b % 2))
    (small : (x y : ℕ) → x < 2 → y < 2 → digit x y < 2) where
  step_high : (a b : ℕ) → op a b / 2 ≡ op (a / 2) (b / 2)
  step_high a b = omega (arith, step a b, small (a % 2) (b % 2) (omega arith) (omega arith))

  step_low : (a b : ℕ) → op a b % 2 ≡ digit (a % 2) (b % 2)
  step_low a b = omega (arith, step a b, small (a % 2) (b % 2) (omega arith) (omega arith))

  -- A digitwise operation acts on each bit.
  pub bit-op : (k a b : ℕ) → bit k (op a b) ≡ digit (bit k a) (bit k b)
  bit-op zero a b = rw (bit-zero (op a b), bit-zero a, bit-zero b) (step_low a b)
  bit-op (suc k) a b =
      rw (bit-suc k (op a b), bit-suc k a, bit-suc k b, step_high a b) (bit-op k (a / 2) (b / 2))

min_small : (x y : ℕ) → x < 2 → y < 2 → min x y < 2
min_small x y p q = omega arith

max_small : (x y : ℕ) → x < 2 → y < 2 → max x y < 2
max_small x y p q = omega arith

differ_small : (x y : ℕ) → x < 2 → y < 2 → differ x y < 2
differ_small x y p q = omega (arith, differ_digits x y p q)

pub bit-bit_and : (k a b : ℕ) → bit k (bit_and a b) ≡ min (bit k a) (bit k b)
bit-bit_and k a b = bit-op bit_and min bit_and_step min_small k a b

pub bit-bit_or : (k a b : ℕ) → bit k (bit_or a b) ≡ max (bit k a) (bit k b)
bit-bit_or k a b = bit-op bit_or max bit_or_step max_small k a b

pub bit-bit_xor : (k a b : ℕ) → bit k (bit_xor a b) ≡ (bit k a + bit k b) % 2
bit-bit_xor k a b =
    bit-op bit_xor differ bit_xor_step differ_small k a b
    ∙ differ_digits (bit k a) (bit k b) (omega arith) (omega arith)

zero-bit_and : (b : ℕ) → bit_and 0 b ≡ 0
zero-bit_and b = bit_and-bitwise 0 b

bit_and-zero : (n a : ℕ) → a ≤ n → bit_and a 0 ≡ 0
bit_and-zero n zero h = refl
bit_and-zero zero (suc a) h = absurd (omega arith)
bit_and-zero (suc n) (suc a) h =
    omega (arith, bit_and_step (suc a) 0, bit_and-zero n (suc a / 2) (omega arith))

-- A mask with one bit picks out that bit.
pub bit_and-pow : (k a : ℕ) → bit_and a (2 ^ k) ≡ bit k a * 2 ^ k
bit_and-pow zero a =
    omega (arith, bit_and_step a 1, bit_and-zero (a / 2) (a / 2) (omega arith), bit-zero a)
bit_and-pow (suc k) a = ground (
  arith,
  bit_and_step a (2 ^ suc k),
  pow-succ' 2 k,
  bit-suc k a,
  bit_and-pow k (a / 2),
  ap (λ (n : ℕ). bit k (a / 2) * n) (pow-succ' 2 k),
)

bit_or-zero : (n a : ℕ) → a ≤ n → bit_or a 0 ≡ a
bit_or-zero n zero h = refl
bit_or-zero zero (suc a) h = absurd (omega arith)
bit_or-zero (suc n) (suc a) h =
    omega (arith, bit_or_step (suc a) 0, bit_or-zero n (suc a / 2) (omega arith))

mod-suc : (k a : ℕ) → a % 2 ^ suc k ≡ a / 2 % 2 ^ k * 2 + a % 2
mod-suc k a = omega (
  arith,
  mod-add-div a (2 ^ suc k),
  mod-add-div (a / 2) (2 ^ k),
  ap (λ (n : ℕ). 2 ^ suc k * n) (halve k a),
  ap (λ (n : ℕ). n * (a / 2 / 2 ^ k)) (pow-succ' 2 k),
)

-- A mask of `k` low bits is the remainder by `2 ^ k`.
pub bit_and_mask : (k a : ℕ) → bit_and a (2 ^ k - 1) ≡ a % 2 ^ k
bit_and_mask zero a = omega (arith, bit_and-zero a a (omega arith))
bit_and_mask (suc k) a = ground (
  arith,
  bit_and_step a (2 ^ suc k - 1),
  pow-succ' 2 k,
  one-le-pow k 2,
  mod-suc k a,
  bit_and_mask k (a / 2),
)

-- A number below `2 ^ k` under `|` with one shifted past it.
pub bit_or_fields : (k q r : ℕ) → r < 2 ^ k → bit_or (q * 2 ^ k) r ≡ q * 2 ^ k + r
bit_or_fields zero q r h = ground (arith, bit_or-zero q q (omega arith))
bit_or_fields (suc k) q r h = ground (
  arith,
  bit_or_step (q * 2 ^ suc k) r,
  pow-succ' 2 k,
  ap (λ (n : ℕ). q * n) (pow-succ' 2 k),
  bit_or_fields k q (r / 2) (omega arith),
)

-- The digits below `2 ^ k` stay below it.
pub bit_or-lt : (k a b : ℕ) → a < 2 ^ k → b < 2 ^ k → bit_or a b < 2 ^ k
bit_or-lt zero zero zero p q = omega arith
bit_or-lt zero zero (suc b) p q = absurd (omega arith)
bit_or-lt zero (suc a) b p q = absurd (omega arith)
bit_or-lt (suc k) a b p q =
    omega (
      arith,
      bit_or_step a b,
      pow-succ' 2 k,
      bit_or-lt k (a / 2) (b / 2) (omega arith) (omega arith),
    )

pub bit_xor-lt : (k a b : ℕ) → a < 2 ^ k → b < 2 ^ k → bit_xor a b < 2 ^ k
bit_xor-lt zero zero zero p q = omega arith
bit_xor-lt zero zero (suc b) p q = absurd (omega arith)
bit_xor-lt zero (suc a) b p q = absurd (omega arith)
bit_xor-lt (suc k) a b p q = omega (
  arith,
  bit_xor_step a b,
  differ_small (a % 2) (b % 2) (omega arith) (omega arith),
  pow-succ' 2 k,
  bit_xor-lt k (a / 2) (b / 2) (omega arith) (omega arith),
)

bit_and-le_fuel : (n a b : ℕ) → a ≤ n → bit_and a b ≤ a
bit_and-le_fuel n zero b h = omega (arith, zero-bit_and b)
bit_and-le_fuel zero (suc a) b h = absurd (omega arith)
bit_and-le_fuel (suc n) (suc a) b h =
    omega (arith, bit_and_step (suc a) b, bit_and-le_fuel n (suc a / 2) (b / 2) (omega arith))

pub bit_and-le : (a b : ℕ) → bit_and a b ≤ a
bit_and-le a b = bit_and-le_fuel a a b (omega arith)

bit_and_comm_fuel : (n a b : ℕ) → a ≤ n → bit_and a b ≡ bit_and b a
bit_and_comm_fuel n zero b h = zero-bit_and b ∙ sym (bit_and-zero b b (omega arith))
bit_and_comm_fuel zero (suc a) b h = absurd (omega arith)
bit_and_comm_fuel (suc n) (suc a) b h = omega (
  arith,
  bit_and_step (suc a) b,
  bit_and_step b (suc a),
  bit_and_comm_fuel n (suc a / 2) (b / 2) (omega arith),
)

pub bit_and_comm : (a b : ℕ) → bit_and a b ≡ bit_and b a
bit_and_comm a b = bit_and_comm_fuel a a b (omega arith)

bit_or_comm_fuel : (n a b : ℕ) → a + b ≤ n → bit_or a b ≡ bit_or b a
bit_or_comm_fuel zero a b h =
    let none : a ≡ 0 = omega arith in let same : b ≡ 0 = omega arith in rw (none, same) refl
bit_or_comm_fuel (suc n) a b h =
    omega
      (arith, bit_or_step a b, bit_or_step b a, bit_or_comm_fuel n (a / 2) (b / 2) (omega arith))

pub bit_or_comm : (a b : ℕ) → bit_or a b ≡ bit_or b a
bit_or_comm a b = bit_or_comm_fuel (a + b) a b (omega arith)

pub pow-bit_and : (k x : ℕ) → bit_and (2 ^ k) x ≡ bit k x * 2 ^ k
pow-bit_and k x = bit_and_comm (2 ^ k) x ∙ bit_and-pow k x

-- A mask of one bit or none, at bit `k`, under `&`.
pub flag-bit_and : (k q x : ℕ) → q < 2 → bit_and (q * 2 ^ k) x ≡ q * bit k x * 2 ^ k
flag-bit_and k zero x h = ground (arith, zero-bit_and x)
flag-bit_and k (suc zero) x h = ground (arith, pow-bit_and k x)
flag-bit_and k (suc (suc q)) x h = absurd (omega arith)

-- A mask shifted up reads the digits above.
pub bit_and-shift : (k a b : ℕ) → bit_and a (b * 2 ^ k) ≡ bit_and (a / 2 ^ k) b * 2 ^ k
bit_and-shift zero a b = simp (mul-one, div-one)
bit_and-shift (suc k) a b = ground (
  arith,
  bit_and_step a (b * 2 ^ suc k),
  halve k a,
  pow-succ' 2 k,
  ap (λ (n : ℕ). b * n) (pow-succ' 2 k),
  ap (λ (n : ℕ). bit_and (a / 2 / 2 ^ k) b * n) (pow-succ' 2 k),
  bit_and-shift k (a / 2) b,
)
