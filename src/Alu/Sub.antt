-- ===== src/Alu/Sub.antt =====
-- The flag formulas of SUB, SUBX, SUBQ, CMP and NEG against unsigned and signed subtraction.
use s_qlux.Base.{ℕ, ◌+◌, ◌-◌, ◌≤◌, ◌<◌, ◌≡◌, arith, ◌↔◌, ◌⊎◌, to_ℕ, ltb}
use s_qlux.Base.{◌==◌, Bool, true, false, not, ◌&&◌, ◌||◌, bit_or, bit_and, bit_xor}
use s_qlux.Word.{Size, byte, word, long, msb, modulus, test, is_neg, Fits}
use s_qlux.Word.Tests.{test-msb, test-bit_and, test-bit_or, test-bit_xor, test3-msb, test2-msb}
use s_qlux.Word.Tests.{cut-Fits}
use s_qlux.Alu.{carry_sub, overflow_sub, difference_of, sub_ccr, subq_ccr, neg_ccr}

-- `d - s - x`, as signed numbers, is out of the range of the size: `d` is negative, `s` is not,
-- and the difference is below -2 ^ (w - 1), or the other way round.
abbrev pub DifferenceOverflows : Size → ℕ → ℕ → Bool → Type 0
DifferenceOverflows z s d x =
    ((msb z ≤ d) × (s < msb z) × (d < msb z + s + to_ℕ x))
    ⊎ ((d < msb z) × (msb z ≤ s) × (msb z + s + to_ℕ x ≤ d + modulus z))

module _ (z : Size) (s d : ℕ) (x : Bool) (hs : Fits z s) (hd : Fits z d) where
  abbrev pub difference : ℕ
  difference = difference_of z s d x

  difference-Fits : Fits z difference
  unfolding difference_of
  difference-Fits = cut-Fits z (d + (modulus z - s) + (modulus z - to_ℕ x))

  pub carry_sub-signs :
      carry_sub (msb z) s d difference
      ≡ (not (is_neg z d) && (is_neg z s || is_neg z difference))
        || (is_neg z s && is_neg z difference)
  unfolding carry_sub
  carry_sub-signs = rw (
    test-bit_or z s difference,
    test-bit_and z s difference,
    test-msb z s hs,
    test-msb z d hd,
    test-msb z difference difference-Fits,
  )

  pub overflow_sub-signs :
      overflow_sub (msb z) s d difference
      ≡ (not (is_neg z s) && (is_neg z d && not (is_neg z difference)))
        || (is_neg z difference && (not (is_neg z d) && is_neg z s))
  unfolding overflow_sub
  overflow_sub-signs = rw (
    test3-msb z (bit_xor s (msb z)) d (bit_xor difference (msb z)),
    test3-msb z difference (bit_xor d (msb z)) s,
    test-bit_xor z difference,
    test-bit_xor z d,
    test-bit_xor z s,
    test-msb z s hs,
    test-msb z d hd,
    test-msb z difference difference-Fits,
  )

borrow_signs :
    (z : Size) (s d : ℕ) (x : Bool)
    → Fits z s
    → Fits z d
    → let r = difference_of z s d x in
      (not (is_neg z d) && (is_neg z s || is_neg z r)) || (is_neg z s && is_neg z r)
      ≡ ltb d (s + to_ℕ x)
unfolding difference_of
borrow_signs byte s d x hs hd = ground arith
borrow_signs word s d x hs hd = ground arith
borrow_signs long s d x hs hd = ground arith

pub overflow_signs :
    (z : Size) (s d : ℕ) (x : Bool)
    → Fits z s
    → Fits z d
    → let r = difference_of z s d x in
      ((not (is_neg z s) && (is_neg z d && not (is_neg z r)))
          || (is_neg z r && (not (is_neg z d) && is_neg z s))
        ≡ true)
      ↔ DifferenceOverflows z s d x
unfolding difference_of
overflow_signs byte s d x hs hd = ground arith
overflow_signs word s d x hs hd = ground arith
overflow_signs long s d x hs hd = ground arith

-- The carry of a subtraction of operands that fit the size, with or without X, is set exactly
-- when it borrows: the unsigned `d` is less than what is taken off.
pub carry_sub_lem :
    (z : Size) (s d : ℕ) (x : Bool)
    → Fits z s
    → Fits z d
    → carry_sub (msb z) s d (difference_of z s d x) ≡ ltb d (s + to_ℕ x)
carry_sub_lem z s d x hs hd = rw (carry_sub-signs z s d x hs hd) (borrow_signs z s d x hs hd)

-- The overflow of a subtraction of operands that fit the size, with or without X, is set exactly
-- when the difference of the operands as signed numbers is out of range.
pub overflow_sub_lem :
    (z : Size) (s d : ℕ) (x : Bool)
    → Fits z s
    → Fits z d
    → (overflow_sub (msb z) s d (difference_of z s d x) ≡ true) ↔ DifferenceOverflows z s d x
overflow_sub_lem z s d x hs hd =
    rw (overflow_sub-signs z s d x hs hd) (overflow_signs z s d x hs hd)

subq_signs :
    (z : Size) (d q : ℕ)
    → Fits z d
    → q ≤ 8
    → let r = difference_of z q d false in
      ((not (is_neg z d) && is_neg z r)
        ≡ (not (is_neg z d) && (is_neg z q || is_neg z r)) || (is_neg z q && is_neg z r))
      × ((is_neg z d && not (is_neg z r))
          ≡ (not (is_neg z q) && (is_neg z d && not (is_neg z r)))
            || (is_neg z r && (not (is_neg z d) && is_neg z q)))
unfolding difference_of
subq_signs byte d q hd hq = ground arith
subq_signs word d q hd hq = ground arith
subq_signs long d q hd hq = ground arith

small-Fits : (z : Size) (q : ℕ) → q ≤ 8 → Fits z q
small-Fits byte q h = omega arith
small-Fits word q h = omega arith
small-Fits long q h = omega arith

-- The shorter formulas of SUBQ give the condition codes of SUB, for a target that fits the size
-- and an operand of at most 8.
pub subq_ccr_lem :
    (z : Size) (d q : ℕ)
    → Fits z d
    → q ≤ 8
    → subq_ccr z d (difference_of z q d false) ≡ sub_ccr z q d (difference_of z q d false)
unfolding subq_ccr sub_ccr
subq_ccr_lem z d q hd hq =
    let hq' = small-Fits z q hq in
    let signs = subq_signs z d q hd hq in
    let r = difference_of z q d false in
    let fits = difference-Fits z q d false hq' hd in
    let c : (not (test d (msb z)) && test r (msb z)) ≡ carry_sub (msb z) q d r =
      rw (carry_sub-signs z q d false hq' hd, test-msb z r fits, test-msb z d hd) signs.0 in
    let v : not (bit_and (bit_and (msb z) d) (bit_xor r (msb z)) == 0)
        ≡ overflow_sub (msb z) q d r =
      rw
        (
          overflow_sub-signs z q d false hq' hd,
          test2-msb z d (bit_xor r (msb z)),
          test-bit_xor z r,
          test-msb z r fits,
          test-msb z d hd,
        )
        signs.1 in
    λ i. record {
      xflag = c i;
      negative = is_neg z r;
      is_zero = r == 0;
      overflow = v i;
      carry = c i;
    }

zero-Fits : (z : Size) → Fits z 0
zero-Fits byte = omega arith
zero-Fits word = omega arith
zero-Fits long = omega arith

neg_signs :
    (z : Size) (d : ℕ) (x : Bool)
    → Fits z d
    → let r = difference_of z d 0 x in
      (is_neg z d || is_neg z r
        ≡ (not (is_neg z 0) && (is_neg z d || is_neg z r)) || (is_neg z d && is_neg z r))
      × ((is_neg z r && is_neg z d)
          ≡ (not (is_neg z d) && (is_neg z 0 && not (is_neg z r)))
            || (is_neg z r && (not (is_neg z 0) && is_neg z d)))
unfolding difference_of
neg_signs byte d x hd = ground arith
neg_signs word d x hd = ground arith
neg_signs long d x hd = ground arith

-- The formulas of NEG and NEGX give the condition codes of the subtraction from zero, for an
-- operand that fits the size.
pub neg_ccr_lem :
    (z : Size) (d : ℕ) (x : Bool)
    → Fits z d
    → neg_ccr z d (difference_of z d 0 x) ≡ sub_ccr z d 0 (difference_of z d 0 x)
unfolding neg_ccr sub_ccr
neg_ccr_lem z d x hd =
    let h0 = zero-Fits z in
    let signs = neg_signs z d x hd in
    let r = difference_of z d 0 x in
    let fits = difference-Fits z d 0 x hd h0 in
    let c : test (bit_or d r) (msb z) ≡ carry_sub (msb z) d 0 r =
      rw (carry_sub-signs z d 0 x hd h0, test-bit_or z d r, test-msb z r fits, test-msb z d hd)
        signs.0 in
    let v : not (bit_and (bit_and (msb z) r) d == 0) ≡ overflow_sub (msb z) d 0 r =
      rw (overflow_sub-signs z d 0 x hd h0, test2-msb z r d, test-msb z r fits, test-msb z d hd)
        signs.1 in
    λ i. record {
      xflag = c i;
      negative = is_neg z r;
      is_zero = r == 0;
      overflow = v i;
      carry = c i;
    }
