-- ===== src/Alu/Add.antt =====
-- The flag formulas of ADD, ADDX and ADDQ against unsigned and signed addition.
use s_qlux.Base.{ℕ, ◌+◌, ◌≤◌, ◌<◌, ◌≡◌, arith, ◌↔◌, ◌⊎◌, to_ℕ, leb}
use s_qlux.Base.{◌==◌, Bool, true, false, not, ◌&&◌, ◌||◌, bit_and, bit_xor}
use s_qlux.Word.{Size, byte, word, long, msb, modulus, test, is_neg, Fits}
use s_qlux.Word.Tests.{test-msb, test-bit_and, test-bit_or, test-bit_xor, test3-msb, test2-msb}
use s_qlux.Word.Tests.{cut-Fits}
use s_qlux.Alu.{carry_add, overflow_add, sum_of, add_ccr, addq_ccr}

-- The sum of two values and a carry, as signed numbers, is out of the range of the size: both
-- are negative and the sum is below -2 ^ (w - 1), or neither is and it reaches 2 ^ (w - 1).
abbrev pub SumOverflows : Size → ℕ → ℕ → Bool → Type 0
SumOverflows z s d x =
    ((msb z ≤ s) × (msb z ≤ d) × (s + d + to_ℕ x < modulus z + msb z))
    ⊎ ((s < msb z) × (d < msb z) × (msb z ≤ s + d + to_ℕ x))

module _ (z : Size) (s d : ℕ) (x : Bool) (hs : Fits z s) (hd : Fits z d) where
  abbrev sum : ℕ
  sum = sum_of z s d x

  sum-Fits : Fits z sum
  unfolding sum_of
  sum-Fits = cut-Fits z (d + s + to_ℕ x)

  carry_add-signs :
      carry_add (msb z) s d sum
      ≡ (not (is_neg z sum) && (is_neg z s || is_neg z d)) || (is_neg z s && is_neg z d)
  unfolding carry_add
  carry_add-signs = rw (
    test-bit_or z s d,
    test-bit_and z s d,
    test-msb z s hs,
    test-msb z d hd,
    test-msb z sum sum-Fits,
  )

  overflow_add-signs :
      overflow_add (msb z) s d sum
      ≡ (is_neg z s && (is_neg z d && not (is_neg z sum)))
        || (is_neg z sum && (not (is_neg z d) && not (is_neg z s)))
  unfolding overflow_add
  overflow_add-signs = rw (
    test3-msb z s d (bit_xor sum (msb z)),
    test3-msb z sum (bit_xor d (msb z)) (bit_xor s (msb z)),
    test-bit_xor z sum,
    test-bit_xor z d,
    test-bit_xor z s,
    test-msb z s hs,
    test-msb z d hd,
    test-msb z sum sum-Fits,
  )

carry_signs :
    (z : Size) (s d : ℕ) (x : Bool)
    → Fits z s
    → Fits z d
    → (not (is_neg z (sum_of z s d x)) && (is_neg z s || is_neg z d)) || (is_neg z s && is_neg z d)
      ≡ leb (modulus z) (s + d + to_ℕ x)
unfolding sum_of
carry_signs byte s d x hs hd = ground arith
carry_signs word s d x hs hd = ground arith
carry_signs long s d x hs hd = ground arith

overflow_signs :
    (z : Size) (s d : ℕ) (x : Bool)
    → Fits z s
    → Fits z d
    → ((is_neg z s && (is_neg z d && not (is_neg z (sum_of z s d x))))
          || (is_neg z (sum_of z s d x) && (not (is_neg z d) && not (is_neg z s)))
        ≡ true)
      ↔ SumOverflows z s d x
unfolding sum_of
overflow_signs byte s d x hs hd = ground arith
overflow_signs word s d x hs hd = ground arith
overflow_signs long s d x hs hd = ground arith

-- The carry of an addition of operands that fit the size, with or without X, is set exactly when
-- the unsigned sum does not fit the size.
pub carry_add_lem :
    (z : Size) (s d : ℕ) (x : Bool)
    → Fits z s
    → Fits z d
    → carry_add (msb z) s d (sum_of z s d x) ≡ leb (modulus z) (s + d + to_ℕ x)
carry_add_lem z s d x hs hd = rw (carry_add-signs z s d x hs hd) (carry_signs z s d x hs hd)

-- The overflow of an addition of operands that fit the size, with or without X, is set exactly
-- when the sum of the operands as signed numbers is out of range.
pub overflow_add_lem :
    (z : Size) (s d : ℕ) (x : Bool)
    → Fits z s
    → Fits z d
    → (overflow_add (msb z) s d (sum_of z s d x) ≡ true) ↔ SumOverflows z s d x
overflow_add_lem z s d x hs hd =
    rw (overflow_add-signs z s d x hs hd) (overflow_signs z s d x hs hd)

addq_signs :
    (z : Size) (d q : ℕ)
    → Fits z d
    → q ≤ 8
    → let r = sum_of z q d false in
      ((not (is_neg z r) && is_neg z d)
        ≡ (not (is_neg z r) && (is_neg z q || is_neg z d)) || (is_neg z q && is_neg z d))
      × ((is_neg z r && not (is_neg z d))
          ≡ (is_neg z q && (is_neg z d && not (is_neg z r)))
            || (is_neg z r && (not (is_neg z d) && not (is_neg z q))))
unfolding sum_of
addq_signs byte d q hd hq = ground arith
addq_signs word d q hd hq = ground arith
addq_signs long d q hd hq = ground arith

small-Fits : (z : Size) (q : ℕ) → q ≤ 8 → Fits z q
small-Fits byte q h = omega arith
small-Fits word q h = omega arith
small-Fits long q h = omega arith

-- The shorter formulas of ADDQ give the condition codes of ADD, for a target that fits the size
-- and an operand of at most 8.
pub addq_ccr_lem :
    (z : Size) (d q : ℕ)
    → Fits z d
    → q ≤ 8
    → addq_ccr z d (sum_of z q d false) ≡ add_ccr z q d (sum_of z q d false)
unfolding addq_ccr add_ccr
addq_ccr_lem z d q hd hq =
    let hq' = small-Fits z q hq in
    let signs = addq_signs z d q hd hq in
    let r = sum_of z q d false in
    let c : (not (test r (msb z)) && test d (msb z)) ≡ carry_add (msb z) q d r =
      rw
        (
          carry_add-signs z q d false hq' hd,
          test-msb z r (sum-Fits z q d false hq' hd),
          test-msb z d hd,
        )
        signs.0 in
    let v : not (bit_and (bit_and (msb z) r) (bit_xor d (msb z)) == 0)
        ≡ overflow_add (msb z) q d r =
      rw
        (
          overflow_add-signs z q d false hq' hd,
          test2-msb z r (bit_xor d (msb z)),
          test-bit_xor z d,
          test-msb z r (sum-Fits z q d false hq' hd),
          test-msb z d hd,
        )
        signs.1 in
    λ i. record {
      xflag = c i;
      negative = is_neg z r;
      is_zero = r == 0;
      overflow = v i;
      carry = c i;
    }
