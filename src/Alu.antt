-- ===== src/Alu.antt =====
-- The condition codes of the arithmetic instructions, in the formulas that the source repeats for
-- each of them (instructions_ao.c and instructions_pz.c). `m` is 0x80, 0x8000 or 0x80000000.
pub mod Add
pub mod Sub
pub mod Compare
use s_qlux.Base.{ℕ, ◌+◌, ◌-◌, bit_and, bit_or, bit_xor, ◌==◌, Bool, true, false, not, ◌&&◌, ◌||◌}
use s_qlux.Base.{if◌then◌else◌, to_ℕ}
use s_qlux.Word.{Size, modulus, msb, cut, is_neg, test, test3}
use s_qlux.Machine.{Ccr}

-- `(((r & m) == 0) && (((s | d) & m) != 0)) || ((s & d & m) != 0)`
unfoldable pub carry_add : ℕ → ℕ → ℕ → ℕ → Bool
carry_add m s d r = (not (test r m) && test (bit_or s d) m) || test (bit_and s d) m

-- `((m & s & d & (r ^ m)) != 0) || ((m & r & (d ^ m) & (s ^ m)) != 0)`
unfoldable pub overflow_add : ℕ → ℕ → ℕ → ℕ → Bool
overflow_add m s d r = test3 m s d (bit_xor r m) || test3 m r (bit_xor d m) (bit_xor s m)

-- `(((d & m) == 0) && (((s | r) & m) != 0)) || ((s & r & m) != 0)`
unfoldable pub carry_sub : ℕ → ℕ → ℕ → ℕ → Bool
carry_sub m s d r = (not (test d m) && test (bit_or s r) m) || test (bit_and s r) m

-- `((m & (s ^ m) & d & (r ^ m)) != 0) || ((m & r & (d ^ m) & s) != 0)`
unfoldable pub overflow_sub : ℕ → ℕ → ℕ → ℕ → Bool
overflow_sub m s d r = test3 m (bit_xor s m) d (bit_xor r m) || test3 m r (bit_xor d m) s

-- `r = d + s; if (xflag) r++;` for ADD without the second part.
unfoldable pub sum_of : Size → ℕ → ℕ → Bool → ℕ
sum_of z s d x = cut z (d + s + to_ℕ x)

unfoldable pub difference_of : Size → ℕ → ℕ → Bool → ℕ
difference_of z s d x = cut z (d + (modulus z - s) + (modulus z - to_ℕ x))

unfoldable pub add_ccr : Size → ℕ → ℕ → ℕ → Ccr
unfolding carry_add overflow_add
add_ccr z s d r =
    let carry = carry_add (msb z) s d r in
    record {
      xflag = carry;
      negative = is_neg z r;
      is_zero = r == 0;
      overflow = overflow_add (msb z) s d r;
      carry = carry;
    }

unfoldable pub sub_ccr : Size → ℕ → ℕ → ℕ → Ccr
unfolding carry_sub overflow_sub
sub_ccr z s d r =
    let carry = carry_sub (msb z) s d r in
    record {
      xflag = carry;
      negative = is_neg z r;
      is_zero = r == 0;
      overflow = overflow_sub (msb z) s d r;
      carry = carry;
    }

-- CMP leaves X alone.
unfoldable pub cmp_ccr : Size → ℕ → ℕ → ℕ → Ccr → Ccr
unfolding sub_ccr
cmp_ccr z s d r old = record (sub_ccr z s d r) { xflag = old.xflag }

-- ADDX and SUBX clear Z, and never set it.
unfoldable pub keep_zero : Ccr → Ccr → Ccr
keep_zero old f = record f { is_zero = old.is_zero && f.is_zero }

-- NEG and NEGX: `carry = ((d | r) & m) != 0; overflow = (m & r & d) != 0`.
unfoldable pub neg_ccr : Size → ℕ → ℕ → Ccr
neg_ccr z d r =
    let carry = test (bit_or d r) (msb z) in
    record {
      xflag = carry;
      negative = is_neg z r;
      is_zero = r == 0;
      overflow = not (bit_and (bit_and (msb z) r) d == 0);
      carry = carry;
    }

-- ADDQ and SUBQ test the operand of 1 to 8 for less.
unfoldable pub addq_ccr : Size → ℕ → ℕ → Ccr
addq_ccr z d r =
    let carry = not (test r (msb z)) && test d (msb z) in
    record {
      xflag = carry;
      negative = is_neg z r;
      is_zero = r == 0;
      overflow = not (bit_and (bit_and (msb z) r) (bit_xor d (msb z)) == 0);
      carry = carry;
    }

unfoldable pub subq_ccr : Size → ℕ → ℕ → Ccr
subq_ccr z d r =
    let carry = not (test d (msb z)) && test r (msb z) in
    record {
      xflag = carry;
      negative = is_neg z r;
      is_zero = r == 0;
      overflow = not (bit_and (bit_and (msb z) d) (bit_xor r (msb z)) == 0);
      carry = carry;
    }

-- `negative = d < 0; zero = d == 0; carry = overflow = false`
unfoldable pub logic_ccr : Size → ℕ → Ccr → Ccr
logic_ccr z d old = record old {
  negative = is_neg z d;
  is_zero = d == 0;
  overflow = false;
  carry = false;
}
