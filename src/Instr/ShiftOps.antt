-- ===== src/Instr/ShiftOps.antt =====
-- The shifts and rotates as instructions: of a register by a count, and of a word in memory by
-- one (`asl_m`, `asr_m`, `lsl_m`, `lsr_m`, `rol_m`, `ror_m`, `roxl_m` and `roxr_m`).
use s_qlux.Base.{ℕ, ◌*◌, ◌/◌, bit_and, bit_or, ◌==◌, if◌then◌else◌, eqb, false, not}
use s_qlux.Word.{Size, byte, word, cut, is_neg, test}
use s_qlux.Machine.{Ccr, Act, ◌>>=◌, ◌>>◌, gets, set_ccr, set_low, ea_reg, op_reg}
use s_qlux.Device.{Bus}
use s_qlux.Hardware.{asr}
use s_qlux.Modify.{rewrite_ea}
use s_qlux.Instr.Arith.{target}
use s_qlux.Instr.Shift.{Shifted, flags_cx, flags_c}

abbrev pub ShiftOp : Type 0
ShiftOp = Size → ℕ → ℕ → Ccr → Shifted

module _ {D : Type 0} where
  unfoldable pub shift_by : ShiftOp → Size → ℕ → Act D
  shift_by op z count c =
      let n = ea_reg c.code in
      let r = op z (cut z (c.reg n)) count c.ccr in (do set_ccr r.1; set_low z n r.0) c

  -- The count is in the instruction.
  unfoldable pub shift_i : ShiftOp → Size → Act D
  unfolding shift_by
  shift_i op z c = shift_by op z (op_reg c.code) c

  -- The count is in the low six bits of a register.
  unfoldable pub shift_r : ShiftOp → Size → Act D
  unfolding shift_by
  shift_r op z c = shift_by op z (bit_and (cut byte (c.reg (op_reg c.code))) 63) c

unfoldable pub asl_word : ℕ → Ccr → Shifted
asl_word d f =
    let carry = test d 0x8000 in
    let r = cut word (d * 2) in
    (
      r,
      record {
        xflag = carry;
        negative = is_neg word r;
        is_zero = r == 0;
        overflow = not (eqb carry (is_neg word r));
        carry = carry;
      },
    )

unfoldable pub asr_word : ℕ → Ccr → Shifted
asr_word d f = let r = asr word d 1 in (r, flags_cx (test d 1) (is_neg word d) (r == 0))

unfoldable pub lsl_word : ℕ → Ccr → Shifted
lsl_word d f = let r = cut word (d * 2) in (r, flags_cx (test d 0x8000) (test r 0x8000) (r == 0))

unfoldable pub lsr_word : ℕ → Ccr → Shifted
lsr_word d f = let r = d / 2 in (r, flags_cx (test d 1) false (r == 0))

unfoldable pub rol_word : ℕ → Ccr → Shifted
rol_word d f =
    let carry = test d 0x8000 in
    let r = if carry then bit_or (cut word (d * 2)) 1 else cut word (d * 2) in
    (r, flags_c word r carry f)

-- N is the bit that goes round.
unfoldable pub ror_word : ℕ → Ccr → Shifted
ror_word d f =
    let carry = test d 1 in
    let r = if carry then bit_or (d / 2) 0x8000 else d / 2 in
    (
      r,
      record {
        xflag = f.xflag;
        negative = carry;
        is_zero = r == 0;
        overflow = false;
        carry = carry;
      },
    )

unfoldable pub roxl_word : ℕ → Ccr → Shifted
roxl_word d f =
    let r = if f.xflag then bit_or (cut word (d * 2)) 1 else cut word (d * 2) in
    (r, flags_cx (test d 0x8000) (test r 0x8000) (r == 0))

unfoldable pub roxr_word : ℕ → Ccr → Shifted
roxr_word d f =
    let r = if f.xflag then bit_or (d / 2) 0x8000 else d / 2 in
    (r, flags_cx (test d 1) f.xflag (r == 0))

module _ {D : Type 0} ⦃bus : Bus D⦄ where
  unfoldable pub shift_m : (ℕ → Ccr → Shifted) → Act D
  shift_m op = do
    d ← target word
    f ← gets (λ c. c.ccr)
    let r = op d f
    set_ccr r.1
    rewrite_ea word r.0
