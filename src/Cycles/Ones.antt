-- ===== src/Cycles/Ones.antt =====
-- `popcount16` counts the ones of a word, in 16 rounds at most.
use s_qlux.Base.{ℕ, zero, suc, ◌+◌, ◌-◌, ◌*◌, ◌/◌, ◌%◌, ◌^◌, ◌≤◌, ◌<◌, ◌≡◌, refl, ap, ◌∙◌, arith}
use s_qlux.Base.{◌⊎◌, inl, inr, bit_and}
use native.Mathlib.Nat.{pow-succ'}
use s_qlux.Bits.{bit_and_step}
use s_qlux.Cycles.Dynamic.{popcount_loop, popcount16}

-- The ones among the lowest `k` digits.
unfoldable pub ones : ℕ → ℕ → ℕ
ones zero v = 0
ones (suc k) v = v % 2 + ones k (v / 2)

clear-even : (h : ℕ) → bit_and (h * 2) (h * 2 - 1) ≡ bit_and h (h - 1) * 2
clear-even zero = refl
clear-even (suc h) =
    let a : suc h * 2 / 2 ≡ suc h = omega arith in
    let b : (suc h * 2 - 1) / 2 ≡ h = omega arith in
    let c : suc h - 1 ≡ h = omega arith in
    let d : suc h * 2 % 2 ≡ 0 = omega arith in
    bit_and_step (suc h * 2) (suc h * 2 - 1) ∙ rw (a, b, c, d) (omega arith)

bit_and_self_fuel : (n h : ℕ) → h ≤ n → bit_and h h ≡ h
bit_and_self_fuel n zero le = refl
bit_and_self_fuel zero (suc h) le = absurd (omega arith)
bit_and_self_fuel (suc n) (suc h) le =
    bit_and_step (suc h) (suc h) ∙ omega (arith, bit_and_self_fuel n (suc h / 2) (omega arith))

bit_and_self : (h : ℕ) → bit_and h h ≡ h
bit_and_self h = bit_and_self_fuel h h (omega arith)

clear-odd : (h : ℕ) → bit_and (h * 2 + 1) (h * 2) ≡ h * 2
clear-odd h =
    let a : (h * 2 + 1) / 2 ≡ h = omega arith in
    let b : h * 2 / 2 ≡ h = omega arith in
    bit_and_step (h * 2 + 1) (h * 2) ∙ rw (a, b) (omega (arith, bit_and_self h))

-- A digit 0 below makes no difference.
popcount_loop-even : (rounds h n : ℕ) → popcount_loop rounds (h * 2) n ≡ popcount_loop rounds h n
unfolding popcount_loop
popcount_loop-even zero h n = refl
popcount_loop-even (suc rounds) h n =
    let step = popcount_loop-even rounds (bit_and h (h - 1)) (n + 1) in
    rw (clear-even h, step) (ground arith)

popcount_loop-odd :
    (rounds h n : ℕ) → popcount_loop (suc rounds) (h * 2 + 1) n ≡ popcount_loop rounds h (n + 1)
unfolding popcount_loop
popcount_loop-odd rounds h n =
    let before : h * 2 + 1 - 1 ≡ h * 2 = omega arith in
    let step = popcount_loop-even rounds h (n + 1) in rw (before, clear-odd h, step) (ground arith)

parity : (v : ℕ) → (v ≡ v / 2 * 2) ⊎ (v ≡ v / 2 * 2 + 1)
parity v = ground arith

popcount_loop-ones :
    (k rounds v n : ℕ) → k ≤ rounds → v < 2 ^ k → popcount_loop rounds v n ≡ n + ones k v
unfolding popcount_loop ones
popcount_loop-ones zero zero v n h lt = omega arith
popcount_loop-ones zero (suc rounds) v n h lt = ground arith
popcount_loop-ones (suc k) zero v n h lt = absurd (omega arith)
popcount_loop-ones (suc k) (suc rounds) v n h lt =
    let half = v / 2 in
    let small : half < 2 ^ k = omega (arith, pow-succ' 2 k) in
    elim (parity v) [
      | inl even ↦
          let rest = popcount_loop-ones k (suc rounds) half n (omega arith) small in
          ap (λ x. popcount_loop (suc rounds) x n) even
          ∙ (popcount_loop-even (suc rounds) half n ∙ (rest ∙ omega arith))
      | inr odd ↦
          let rest = popcount_loop-ones k rounds half (n + 1) (omega arith) small in
          ap (λ x. popcount_loop (suc rounds) x n) odd
          ∙ (popcount_loop-odd rounds half n ∙ (rest ∙ omega arith))
    ]

ones-le : (k v : ℕ) → ones k v ≤ k
unfolding ones
ones-le zero v = omega arith
ones-le (suc k) v = omega (arith, ones-le k (v / 2))

count : (k v : ℕ) → v < 2 ^ k → popcount_loop k v 0 ≡ ones k v
count k v lt = popcount_loop-ones k k v 0 (omega arith) lt ∙ omega arith

-- The loop that clears the lowest one ends within 16 rounds with the number of ones of the word,
-- which is 16 at most.
pub popcount16-ones : (v : ℕ) → (popcount16 v ≡ ones 16 (v % 2 ^ 16)) × (popcount16 v ≤ 16)
unfolding popcount16
popcount16-ones v =
    let e : popcount16 v ≡ ones 16 (v % 2 ^ 16) = count 16 (v % 2 ^ 16) (omega arith) in
    let le = ones-le 16 (v % 2 ^ 16) in (e, omega arith)
