-- ===== src/Instr/Bcd.antt =====
-- ABCD, SBCD and NBCD: decimal digits in a byte. The intermediate values are bytes (`uw8`), and
-- the corrections are made on `int`s, cut to a byte when they are kept.
pub mod Decimal
pub mod Subtract
use s_qlux.Base.{ℕ, ◌+◌, ◌-◌, ◌*◌, ◌/◌, ◌%◌, ◌^◌, bit_and, bit_or, bit_xor, ◌==◌, if◌then◌else◌}
use s_qlux.Base.{Bool, not, ◌&&◌, to_ℕ}
use s_qlux.Word.{Size, byte, cut, test}
use s_qlux.Machine.{Ccr, Cpu, M, Act, ◌>>=◌, ◌>>◌, gets, set_low, set_ccr, ea_reg, op_reg, dn_index}
use s_qlux.Device.{Bus}
use s_qlux.Ea.{get_from_ea}
use s_qlux.Modify.{modify_at_ea, rewrite_ea}
use s_qlux.Instr.Arith.{target}

-- `~x` of a byte.
abbrev pub comp : ℕ → ℕ
comp x = 0xff - x

-- What is added for the digits that went past 9: 6 for each bit of 0x88.
abbrev pub corf_of : ℕ → ℕ
corf_of n = n - n / 2 ^ 2

unfoldable pub abcd_ccr : ℕ → ℕ → ℕ → Bool → Ccr
abcd_ccr ss bc rr old_zero =
    let carry = test (bit_or bc (bit_and ss (comp rr))) 0x80 in
    record {
      xflag = carry;
      negative = test rr 0x80;
      is_zero = old_zero && rr == 0;
      overflow = test (bit_and (comp ss) rr) 0x80;
      carry = carry;
    }

-- The result and the flags of ABCD for the operands `s` and `d`.
unfoldable pub abcd_of : ℕ → ℕ → Ccr → ℕ × Ccr
unfolding abcd_ccr
abcd_of s d f =
    let ss = cut byte (d + s + to_ℕ f.xflag) in
    let bc =
      bit_and (bit_or (bit_or (bit_and d s) (bit_and (comp ss) d)) (bit_and (comp ss) s)) 0x88 in
    let dc = bit_and (bit_xor (ss + 0x66) ss) 0x110 / 2 ^ 1 in
    let rr = cut byte (ss + corf_of (bit_or bc dc)) in (rr, abcd_ccr ss bc rr f.is_zero)

unfoldable pub sbcd_ccr : ℕ → ℕ → ℕ → Bool → Ccr
sbcd_ccr dd bc rr old_zero =
    let carry = test (bit_or bc (bit_and (comp dd) rr)) 0x80 in
    record {
      xflag = carry;
      negative = test rr 0x80;
      is_zero = old_zero && rr == 0;
      overflow = test (bit_and dd (comp rr)) 0x80;
      carry = carry;
    }

unfoldable pub sbcd_of : ℕ → ℕ → Ccr → ℕ × Ccr
unfolding sbcd_ccr
sbcd_of s d f =
    let dd = cut byte (d + (2 ^ 8 - s) + (2 ^ 8 - to_ℕ f.xflag)) in
    let bc =
      bit_and (bit_or (bit_or (bit_and (comp d) s) (bit_and dd (comp d))) (bit_and dd s)) 0x88 in
    let rr = cut byte (dd + (2 ^ 8 - corf_of bc)) in (rr, sbcd_ccr dd bc rr f.is_zero)

unfoldable pub nbcd_of : ℕ → Ccr → ℕ × Ccr
unfolding sbcd_ccr
nbcd_of d f =
    let dd = cut byte (2 ^ 8 - d + (2 ^ 8 - to_ℕ f.xflag)) in
    let bc = bit_and (bit_or d dd) 0x88 in
    let rr = cut byte (dd + (2 ^ 8 - corf_of bc)) in (rr, sbcd_ccr dd bc rr f.is_zero)

module _ {D : Type 0} ⦃bus : Bus D⦄ where
  -- Bit 3 of the instruction chooses between `-(Ay), -(Ax)` and `Dy, Dx`.
  unfoldable pub decimal : (ℕ → ℕ → Ccr → ℕ × Ccr) → Act D
  decimal op c =
      (if test c.code 8
          then (do
            s ← get_from_ea byte 4
            d ← (λ c'. modify_at_ea byte 4 (op_reg c'.code) c')
            f ← gets (λ c'. c'.ccr)
            let r = op s d f
            set_ccr r.1
            rewrite_ea byte r.0)
          else (do
            let n = dn_index c.code
            let r = op (cut byte (c.reg (ea_reg c.code))) (cut byte (c.reg n)) c.ccr
            set_ccr r.1
            set_low byte n r.0))
        c

  unfoldable pub abcd : Act D
  unfolding decimal abcd_of
  abcd = decimal abcd_of

  unfoldable pub sbcd : Act D
  unfolding decimal sbcd_of
  sbcd = decimal sbcd_of

  unfoldable pub nbcd : Act D
  unfolding nbcd_of
  nbcd = do
    d ← target byte
    f ← gets (λ c. c.ccr)
    let r = nbcd_of d f
    set_ccr r.1
    rewrite_ea byte r.0
