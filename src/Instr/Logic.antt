-- ===== src/Instr/Logic.antt =====
-- AND, OR, EOR, NOT, their immediate forms, and those to the CCR and the SR.
use s_qlux.Base.{ℕ, ◌-◌, bit_and, bit_or, bit_xor, if◌then◌else◌, Bool, not, ◌&&◌, ◌||◌}
use s_qlux.Word.{Size, long, modulus, cut, test}
use s_qlux.Machine.{Ccr, Act, ◌>>=◌, ◌>>◌, gets, modify, set_low, set_reg, raise}
use s_qlux.Machine.{ea_reg, dn_index}
use s_qlux.Device.{Bus}
use s_qlux.Status.{get_sr}
use s_qlux.Ea.{fetch_word, immediate, back_word}
use s_qlux.Modify.{rewrite_ea}
use s_qlux.Exceptions.{put_sr}
use s_qlux.Instr.Arith.{source, target}
use s_qlux.Instr.Compare.{test_value}

pub data LogicOp : Type 0 where
  and or eor : LogicOp

abbrev pub apply : LogicOp → ℕ → ℕ → ℕ
apply and a b = bit_and a b
apply or a b = bit_or a b
apply eor a b = bit_xor a b

-- `d & 1`, `d & 2`, … against the flags, for ANDI, ORI and EORI to the CCR.
abbrev pub apply_flag : LogicOp → Bool → Bool → Bool
apply_flag and f b = f && b
apply_flag or f b = f || b
apply_flag eor f b = if b then not f else f

unfoldable pub apply_ccr : LogicOp → Ccr → ℕ → Ccr
apply_ccr op f d = record {
  xflag = apply_flag op f.xflag (test d 16);
  negative = apply_flag op f.negative (test d 8);
  is_zero = apply_flag op f.is_zero (test d 4);
  overflow = apply_flag op f.overflow (test d 2);
  carry = apply_flag op f.carry (test d 1);
}

module _ {D : Type 0} where
  -- `and_l_dn_dn`
  unfoldable pub and_l_dn_dn : Act D
  unfolding test_value
  and_l_dn_dn c =
      let r = bit_and (c.reg (dn_index c.code)) (c.reg (ea_reg c.code)) in
      (do set_reg (dn_index c.code) r; test_value long r) c

  -- `andi_to_ccr`, `ori_to_ccr` and `eori_to_ccr`
  unfoldable pub logic_to_ccr : LogicOp → Act D
  unfolding fetch_word apply_ccr
  logic_to_ccr op = do d ← fetch_word; modify (λ c. record c { ccr = apply_ccr op c.ccr d })

  -- `exception = 8; …; pc--`
  unfoldable pub privilege_violation : Act D
  unfolding raise back_word
  privilege_violation = do raise 8; back_word

module _ {D : Type 0} ⦃bus : Bus D⦄ where
  -- `and_b_dn`, `or_b_dn` and their kin. The register is read before the operand is fetched or
  -- after it; fetching changes address registers only.
  unfoldable pub logic_dn : LogicOp → Size → Act D
  unfolding test_value
  logic_dn op z = do
    s ← source z
    n ← gets (λ c. dn_index c.code)
    d ← gets (λ c. cut z (c.reg n))
    let r = apply op d s
    set_low z n r
    test_value z r

  -- The end of the instructions that write their operand back.
  unfoldable pub logic_back : Size → ℕ → Act D
  unfolding test_value
  logic_back z r = do test_value z r; rewrite_ea z r

  -- `and_b_ea`, `or_b_ea`, `eor_b` and their kin
  unfoldable pub logic_ea : LogicOp → Size → Act D
  unfolding logic_back
  logic_ea op z = do
    d ← target z
    s ← gets (λ c. cut z (c.reg (dn_index c.code)))
    logic_back z (apply op d s)

  -- `andi_b`, `ori_b`, `eori_b` and their kin
  unfoldable pub logic_i : LogicOp → Size → Act D
  unfolding logic_back
  logic_i op z = do s ← immediate z; d ← target z; logic_back z (apply op s d)

  unfoldable pub not_ea : Size → Act D
  unfolding logic_back
  not_ea z = do d ← target z; logic_back z (bit_xor d (modulus z - 1))

  -- `andi_to_sr`, `ori_to_sr` and `eori_to_sr`
  unfoldable pub logic_to_sr : LogicOp → Act D
  unfolding privilege_violation
  logic_to_sr op c =
      (if c.supervisor
          then (do d ← fetch_word; sr ← gets get_sr; put_sr (apply op sr d))
          else privilege_violation)
        c
