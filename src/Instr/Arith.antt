-- ===== src/Instr/Arith.antt =====
-- ADD, ADDA, ADDI, ADDQ, ADDX, SUB, SUBA, SUBI, SUBQ, SUBX, NEG and NEGX.
pub mod Sums
use s_qlux.Base.{ℕ, ◌+◌, ◌==◌, if◌then◌else◌, false}
use s_qlux.Word.{Size, cut, sext, add32, sub32}
use s_qlux.Machine.{M, Act, ◌>>=◌, ◌>>◌, gets, modify, update, set_reg, set_low, set_ccr}
use s_qlux.Machine.{ea_mode, ea_reg, op_reg, dn_index}
use s_qlux.Device.{Bus}
use s_qlux.Ea.{get_from_ea, immediate}
use s_qlux.Modify.{modify_at_ea, rewrite_ea}
use s_qlux.Alu.{sum_of, difference_of, add_ccr, sub_ccr, neg_ccr, addq_ccr, subq_ccr, keep_zero}

-- The operand of ADDQ and SUBQ: 0 stands for 8.
unfoldable pub quick : ℕ → ℕ
quick code = let s = op_reg code in if s == 0 then 8 else s

module _ {D : Type 0} where
  -- `r = d + s` for register `n`, with the flags; `r = d - s` likewise.
  unfoldable pub add_to_dn : Size → ℕ → ℕ → Act D
  add_to_dn z n s c =
      let d = cut z (c.reg n) in
      let r = sum_of z s d false in (do set_ccr (add_ccr z s d r); set_low z n r) c

  unfoldable pub sub_from_dn : Size → ℕ → ℕ → Act D
  sub_from_dn z n s c =
      let d = cut z (c.reg n) in
      let r = difference_of z s d false in (do set_ccr (sub_ccr z s d r); set_low z n r) c

  -- `add_b_dn_dn`, `add_w_dn_dn` and `add_l_dn_dn`
  unfoldable pub add_dn_dn : Size → Act D
  unfolding add_to_dn
  add_dn_dn z c = add_to_dn z (dn_index c.code) (cut z (c.reg (ea_reg c.code))) c

  -- `add_w_an_dn` and `add_l_an_dn`
  unfoldable pub add_an_dn : Size → Act D
  add_an_dn z c =
      let n = 8 + dn_index c.code in
      set_reg n (add32 (c.reg n) (sext z (cut z (c.reg (ea_reg c.code))))) c

  -- `addq_an`, `addq_4_an`, `subq_an` and `subq_4_an`
  unfoldable pub addq_an : Act D
  addq_an c = let n = 8 + ea_reg c.code in set_reg n (add32 (c.reg n) (quick c.code)) c

  unfoldable pub addq_4_an : Act D
  addq_4_an c = let n = 8 + ea_reg c.code in set_reg n (add32 (c.reg n) 4) c

  unfoldable pub subq_an : Act D
  subq_an c = let n = 8 + ea_reg c.code in set_reg n (sub32 (c.reg n) (quick c.code)) c

  unfoldable pub subq_4_an : Act D
  subq_4_an c = let n = 8 + ea_reg c.code in set_reg n (sub32 (c.reg n) 4) c

  -- `addx_b_r` and its kin: both operands are registers.
  unfoldable pub addx_r : Size → Act D
  addx_r z c =
      let n = dn_index c.code in
      let d = cut z (c.reg n) in
      let s = cut z (c.reg (ea_reg c.code)) in
      let r = sum_of z s d c.ccr.xflag in
      (do set_ccr (keep_zero c.ccr (add_ccr z s d r)); set_low z n r) c

  unfoldable pub subx_r : Size → Act D
  subx_r z c =
      let n = dn_index c.code in
      let d = cut z (c.reg n) in
      let s = cut z (c.reg (ea_reg c.code)) in
      let r = difference_of z s d c.ccr.xflag in
      (do set_ccr (keep_zero c.ccr (sub_ccr z s d r)); set_low z n r) c

module _ {D : Type 0} ⦃bus : Bus D⦄ where
  abbrev pub source : Size → M D ℕ
  source z c = get_from_ea z (ea_mode c.code) c

  abbrev pub target : Size → M D ℕ
  target z c = modify_at_ea z (ea_mode c.code) (ea_reg c.code) c

  -- `add_b_dn`, `add_w_dn` and `add_l_dn`
  unfoldable pub add_dn : Size → Act D
  unfolding add_to_dn
  add_dn z = do s ← source z; λ c. add_to_dn z (dn_index c.code) s c

  unfoldable pub sub_dn : Size → Act D
  unfolding sub_from_dn
  sub_dn z = do s ← source z; λ c. sub_from_dn z (dn_index c.code) s c

  -- The end of the instructions that write their operand back.
  unfoldable pub add_back : Size → ℕ → ℕ → Act D
  add_back z s d = let r = sum_of z s d false in do set_ccr (add_ccr z s d r); rewrite_ea z r

  unfoldable pub sub_back : Size → ℕ → ℕ → Act D
  sub_back z s d = let r = difference_of z s d false in do set_ccr (sub_ccr z s d r); rewrite_ea z r

  unfoldable pub add_ea : Size → Act D
  unfolding add_back
  add_ea z = do d ← target z; s ← gets (λ c. cut z (c.reg (dn_index c.code))); add_back z s d

  unfoldable pub sub_ea : Size → Act D
  unfolding sub_back
  sub_ea z = do d ← target z; s ← gets (λ c. cut z (c.reg (dn_index c.code))); sub_back z s d

  -- `add_w_an` and `add_l_an`: the source is fetched first, then added to the register.
  unfoldable pub add_an : Size → Act D
  add_an z = do
    s ← source z
    modify (λ c.
        let n = 8 + dn_index c.code in
        record c { reg = update c.reg n (add32 (c.reg n) (sext z s)) })

  unfoldable pub sub_an : Size → Act D
  sub_an z = do
    s ← source z
    modify (λ c.
        let n = 8 + dn_index c.code in
        record c { reg = update c.reg n (sub32 (c.reg n) (sext z s)) })

  unfoldable pub addi : Size → Act D
  unfolding add_back
  addi z = do s ← immediate z; d ← target z; add_back z s d

  unfoldable pub subi : Size → Act D
  unfolding sub_back
  subi z = do s ← immediate z; d ← target z; sub_back z s d

  unfoldable pub addq : Size → Act D
  addq z = do
    d ← target z
    s ← gets (λ c. quick c.code)
    let r = sum_of z s d false
    set_ccr (addq_ccr z d r)
    rewrite_ea z r

  unfoldable pub subq : Size → Act D
  subq z = do
    d ← target z
    s ← gets (λ c. quick c.code)
    let r = difference_of z s d false
    set_ccr (subq_ccr z d r)
    rewrite_ea z r

  -- `addx_b_m` and its kin: the source is `-(Ay)`, the target `-(Ax)`.
  unfoldable pub addx_m : Size → Act D
  addx_m z = do
    s ← get_from_ea z 4
    d ← (λ c. modify_at_ea z 4 (op_reg c.code) c)
    old ← gets (λ c. c.ccr)
    let r = sum_of z s d old.xflag
    set_ccr (keep_zero old (add_ccr z s d r))
    rewrite_ea z r

  unfoldable pub subx_m : Size → Act D
  subx_m z = do
    s ← get_from_ea z 4
    d ← (λ c. modify_at_ea z 4 (op_reg c.code) c)
    old ← gets (λ c. c.ccr)
    let r = difference_of z s d old.xflag
    set_ccr (keep_zero old (sub_ccr z s d r))
    rewrite_ea z r

  unfoldable pub neg : Size → Act D
  neg z = do
    d ← target z
    let r = difference_of z d 0 false
    set_ccr (neg_ccr z d r)
    rewrite_ea z r

  unfoldable pub negx : Size → Act D
  negx z = do
    d ← target z
    old ← gets (λ c. c.ccr)
    let r = difference_of z d 0 old.xflag
    set_ccr (keep_zero old (neg_ccr z d r))
    rewrite_ea z r
