-- ===== src/Instr/Compare.antt =====
-- CMP, CMPA, CMPI, CMPM, TST and TAS.
use s_qlux.Base.{ℕ, ◌+◌, bit_or}
use s_qlux.Base.{false}
use s_qlux.Word.{Size, byte, word, long, cut, sext, add32}
use s_qlux.Machine.{Act, ◌>>=◌, ◌>>◌, gets, modify}
use s_qlux.Machine.{ea_reg, op_reg, dn_index}
use s_qlux.Device.{Bus}
use s_qlux.Memory.{read_byte}
use s_qlux.Ea.{get_from_ea, get_from_ea_r_m3, fetch_word, immediate}
use s_qlux.Modify.{rewrite_ea}
use s_qlux.Alu.{difference_of, cmp_ccr, logic_ccr}
use s_qlux.Instr.Arith.{source, target}

module _ {D : Type 0} where
  -- The flags of `d - s`.
  unfoldable pub compare_with : Size → ℕ → ℕ → Act D
  compare_with z s d =
      modify (λ c. record c { ccr = cmp_ccr z s d (difference_of z s d false) c.ccr })

  unfoldable pub test_value : Size → ℕ → Act D
  test_value z d = modify (λ c. record c { ccr = logic_ccr z d c.ccr })

  -- `cmp_b_dn` and its kin
  unfoldable pub cmp_dn : Size → Act D
  unfolding compare_with
  cmp_dn z c = compare_with z (cut z (c.reg (ea_reg c.code))) (cut z (c.reg (dn_index c.code))) c

  unfoldable pub cmpa_l_an : Act D
  unfolding compare_with
  cmpa_l_an c = compare_with long (c.reg (8 + ea_reg c.code)) (c.reg (8 + dn_index c.code)) c

module _ {D : Type 0} ⦃bus : Bus D⦄ where
  unfoldable pub cmp : Size → Act D
  unfolding compare_with
  cmp z = do s ← source z; d ← gets (λ c. cut z (c.reg (dn_index c.code))); compare_with z s d

  -- `cmp_b_dan`: the source is `d16(An)`.
  unfoldable pub cmp_b_dan : Act D
  unfolding compare_with
  cmp_b_dan = do
    displ ← fetch_word
    s ← (λ c. read_byte (add32 (c.reg (8 + ea_reg c.code)) (sext word displ)) c)
    d ← gets (λ c. cut byte (c.reg (dn_index c.code)))
    compare_with byte s d

  -- `cmpa_w` and `cmpa_l` compare longs.
  unfoldable pub cmpa : Size → Act D
  unfolding compare_with
  cmpa z = do
    s ← source z
    d ← gets (λ c. c.reg (8 + dn_index c.code))
    compare_with long (sext z s) d

  unfoldable pub cmpi : Size → Act D
  unfolding compare_with
  cmpi z = do s ← immediate z; d ← source z; compare_with z s d

  unfoldable pub cmpm : Size → Act D
  unfolding compare_with
  cmpm z = do
    s ← get_from_ea z 3
    d ← (λ c. get_from_ea_r_m3 z (op_reg c.code) c)
    compare_with z s d

  unfoldable pub tst : Size → Act D
  unfolding test_value
  tst z = do d ← source z; test_value z d

  -- The flags are those of the operand before bit 7 is set.
  unfoldable pub tas : Act D
  unfolding test_value
  tas = do d ← target byte; rewrite_ea byte (bit_or d 0x80); test_value byte d
