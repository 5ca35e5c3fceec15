-- ===== src/Dispatch/RowsArith.antt =====
-- The calls of `SetTable` in `SetTabEntries` (Init.c), in their order: MOVEQ,
-- arithmetic, logic and comparison.
use s_qlux.Base.{[], ◌∷◌}
use s_qlux.Device.{Bus}
use s_qlux.Dispatch.{Rows}
use s_qlux.Instr.Arith.{add_an, add_an_dn, add_dn, add_dn_dn, add_ea, addx_m, addx_r, sub_an}
use s_qlux.Instr.Arith.{sub_dn, sub_ea, subx_m, subx_r}
use s_qlux.Instr.Bcd.{abcd, sbcd}
use s_qlux.Instr.Compare.{cmp, cmp_b_dan, cmp_dn, cmpa, cmpa_l_an, cmpm}
use s_qlux.Instr.Logic.{LogicOp, and_l_dn_dn, logic_dn, logic_ea}
use s_qlux.Instr.Move.{exg_a, exg_ad, exg_d, moveq}
use s_qlux.Instr.MulDiv.{divs, divu, muls, mulu}
use s_qlux.Word.{byte, word, long}

module _ {D : Type 0} ⦃bus : Bus D⦄ where
  -- Line 7
  unfoldable pub rows_moveq : Rows D
  rows_moveq = ("0111xxx0xxxxxxxx", moveq) ∷ []

  -- Line 8
  unfoldable pub rows_or : Rows D
  rows_or =
      ("1000xxx000xxxxxx", logic_dn LogicOp.or byte)
      ∷ ("1000xxx001xxxxxx", logic_dn LogicOp.or word)
      ∷ ("1000xxx010xxxxxx", logic_dn LogicOp.or long)
      ∷ ("1000xxx100xxxxxx", logic_ea LogicOp.or byte)
      ∷ ("1000xxx101xxxxxx", logic_ea LogicOp.or word)
      ∷ ("1000xxx110xxxxxx", logic_ea LogicOp.or long)
      ∷ ("1000xxx011xxxxxx", divu)
      ∷ ("1000xxx10000xxxx", sbcd)
      ∷ ("1000xxx111xxxxxx", divs)
      ∷ []

  -- Line 9
  unfoldable pub rows_sub : Rows D
  rows_sub =
      ("1001xxx000xxxxxx", sub_dn byte)
      ∷ ("1001xxx001xxxxxx", sub_dn word)
      ∷ ("1001xxx010xxxxxx", sub_dn long)
      ∷ ("1001xxx100xxxxxx", sub_ea byte)
      ∷ ("1001xxx101xxxxxx", sub_ea word)
      ∷ ("1001xxx110xxxxxx", sub_ea long)
      ∷ ("1001xxx011xxxxxx", sub_an word)
      ∷ ("1001xxx111xxxxxx", sub_an long)
      ∷ ("1001xxx100000xxx", subx_r byte)
      ∷ ("1001xxx101000xxx", subx_r word)
      ∷ ("1001xxx110000xxx", subx_r long)
      ∷ ("1001xxx100001xxx", subx_m byte)
      ∷ ("1001xxx101001xxx", subx_m word)
      ∷ ("1001xxx110001xxx", subx_m long)
      ∷ []

  -- Line 11
  unfoldable pub rows_cmp : Rows D
  rows_cmp =
      ("1011xxx000xxxxxx", cmp byte)
      ∷ ("1011xxx001xxxxxx", cmp word)
      ∷ ("1011xxx010xxxxxx", cmp long)
      ∷ ("1011xxx000000xxx", cmp_dn byte)
      ∷ ("1011xxx000101xxx", cmp_b_dan)
      ∷ ("1011xxx001000xxx", cmp_dn word)
      ∷ ("1011xxx010000xxx", cmp_dn long)
      ∷ ("1011xxx011xxxxxx", cmpa word)
      ∷ ("1011xxx111xxxxxx", cmpa long)
      ∷ ("1011xxx111001xxx", cmpa_l_an)
      ∷ ("1011xxx100xxxxxx", logic_ea LogicOp.eor byte)
      ∷ ("1011xxx101xxxxxx", logic_ea LogicOp.eor word)
      ∷ ("1011xxx110xxxxxx", logic_ea LogicOp.eor long)
      ∷ ("1011xxx100001xxx", cmpm byte)
      ∷ ("1011xxx101001xxx", cmpm word)
      ∷ ("1011xxx110001xxx", cmpm long)
      ∷ []

  -- Line 12
  unfoldable pub rows_and : Rows D
  rows_and =
      ("1100xxx000xxxxxx", logic_dn LogicOp.and byte)
      ∷ ("1100xxx001xxxxxx", logic_dn LogicOp.and word)
      ∷ ("1100xxx010xxxxxx", logic_dn LogicOp.and long)
      ∷ ("1100xxx010000xxx", and_l_dn_dn)
      ∷ ("1100xxx100xxxxxx", logic_ea LogicOp.and byte)
      ∷ ("1100xxx101xxxxxx", logic_ea LogicOp.and word)
      ∷ ("1100xxx110xxxxxx", logic_ea LogicOp.and long)
      ∷ ("1100xxx011xxxxxx", mulu)
      ∷ ("1100xxx10000xxxx", abcd)
      ∷ ("1100xxx101000xxx", exg_d)
      ∷ ("1100xxx101001xxx", exg_a)
      ∷ ("1100xxx110001xxx", exg_ad)
      ∷ ("1100xxx111xxxxxx", muls)
      ∷ []

  -- Line 13
  unfoldable pub rows_add : Rows D
  rows_add =
      ("1101xxx000xxxxxx", add_dn byte)
      ∷ ("1101xxx001xxxxxx", add_dn word)
      ∷ ("1101xxx010xxxxxx", add_dn long)
      ∷ ("1101xxx000000xxx", add_dn_dn byte)
      ∷ ("1101xxx001000xxx", add_dn_dn word)
      ∷ ("1101xxx010000xxx", add_dn_dn long)
      ∷ ("1101xxx100xxxxxx", add_ea byte)
      ∷ ("1101xxx101xxxxxx", add_ea word)
      ∷ ("1101xxx110xxxxxx", add_ea long)
      ∷ ("1101xxx011xxxxxx", add_an word)
      ∷ ("1101xxx111xxxxxx", add_an long)
      ∷ ("1101xxx011000xxx", add_an_dn word)
      ∷ ("1101xxx111000xxx", add_an_dn long)
      ∷ ("1101xxx100000xxx", addx_r byte)
      ∷ ("1101xxx101000xxx", addx_r word)
      ∷ ("1101xxx110000xxx", addx_r long)
      ∷ ("1101xxx100001xxx", addx_m byte)
      ∷ ("1101xxx101001xxx", addx_m word)
      ∷ ("1101xxx110001xxx", addx_m long)
      ∷ []
