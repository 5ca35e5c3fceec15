-- ===== src/Status.antt =====
-- The status register (`GetSR`, iexl_general.c) and the sixteen conditions
-- (cond.h). The mask bits are those of the source.
pub mod RoundTrip
pub mod Pairs
use s_qlux.Base.{
  ℕ, ◌*◌, ◌%◌, ◌^◌, bit_or, ◌==◌, if◌then◌else◌, eqb, Bool, true, false, not, ◌&&◌, ◌||◌,
}
use s_qlux.Word.{word, cut, test}
use s_qlux.Machine.{Ccr, Cpu}

-- `if (b) sr |= m;`
abbrev pub or_if : Bool → ℕ → ℕ → ℕ
or_if b m sr = if b then bit_or sr m else sr

unfoldable pub sr_of : ℕ → Bool → Bool → Ccr → ℕ
sr_of i_mask trace supervisor f = or_if f.carry 1 (
    or_if f.overflow 2 (
      or_if f.is_zero 4 (
        or_if f.negative 8 (
          or_if f.xflag 16
            (or_if supervisor 0x2000 (or_if trace 0x8000 (cut word (i_mask * 2 ^ 8))))))))

unfoldable pub get_sr : {D : Type 0} → Cpu D → ℕ
unfolding sr_of
get_sr c = sr_of c.i_mask c.trace c.supervisor c.ccr

-- The condition codes in the low byte of a status word.
unfoldable pub ccr_of : ℕ → Ccr
ccr_of sr = record {
  xflag = test sr 0x0010;
  negative = test sr 0x0008;
  is_zero = test sr 0x0004;
  overflow = test sr 0x0002;
  carry = test sr 0x0001;
}

-- The table `ConditionTrue`, by its index.
unfoldable pub condition_true : ℕ → Ccr → Bool
condition_true n f =
    if n == 0
    then true
    else if n == 1
    then false
    else if n == 2
    then not (f.carry || f.is_zero)
    else if n == 3
    then f.carry || f.is_zero
    else if n == 4
    then not f.carry
    else if n == 5
    then f.carry
    else if n == 6
    then not f.is_zero
    else if n == 7
    then f.is_zero
    else if n == 8
    then not f.overflow
    else if n == 9
    then f.overflow
    else if n == 10
    then not f.negative
    else if n == 11
    then f.negative
    else if n == 12
    then eqb f.negative f.overflow
    else if n == 13
    then not (eqb f.negative f.overflow)
    else if n == 14
    then not f.is_zero && eqb f.negative f.overflow
    else f.is_zero || not (eqb f.negative f.overflow)
