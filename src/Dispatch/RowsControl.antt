-- ===== src/Dispatch/RowsControl.antt =====
-- The calls of `SetTable` in `SetTabEntries` (Init.c), in their order: single
-- operands, traps, jumps, quick operands and branches.
use s_qlux.Base.{[], ◌∷◌}
use s_qlux.Device.{Bus}
use s_qlux.Dispatch.{Rows, Traps}
use s_qlux.Instr.Arith.{addq, addq_4_an, addq_an, neg, negx, subq, subq_4_an, subq_an}
use s_qlux.Instr.Bcd.{nbcd}
use s_qlux.Instr.Compare.{tas, tst}
use s_qlux.Instr.Flow.{
  bcc_bad, bcc_l, bcc_s, bccc_s, bcs_s, beq_l, beq_s, bge_s, bgt_s, ble_s, blt_s, bmi_s, bne_l,
  bne_s, bpl_s, bra_l, bra_s, bsr, dbcc, dbf,
}
use s_qlux.Instr.Flow.Jumps.{jmp, jsr, jsr_displ, rte, rtr, rts, stop}
use s_qlux.Instr.Flow.Traps.{illegal, nop, reset, trap, trapv}
use s_qlux.Instr.Logic.{not_ea}
use s_qlux.Instr.Move.{clr, lea, link_ins, move_from_sr, move_from_usp, move_to_ccr, move_to_sr}
use s_qlux.Instr.Move.{move_to_usp, pea, scc, sf, st, unlk}
use s_qlux.Instr.MulDiv.{chk, ext_l, ext_w, swap_halves}
use s_qlux.Instr.Multiple.{movem_load, movem_save}
use s_qlux.Word.{byte, word, long}

module _ {D : Type 0} ⦃bus : Bus D⦄ where
  -- Line 4
  unfoldable pub rows_single : Traps D → Rows D
  rows_single traps =
      ("0100000000xxxxxx", negx byte)
      ∷ ("0100000001xxxxxx", negx word)
      ∷ ("0100000010xxxxxx", negx long)
      ∷ ("0100000011xxxxxx", move_from_sr)
      ∷ ("0100xxx110xxxxxx", chk)
      ∷ ("0100xxx111xxxxxx", lea)
      ∷ ("0100001000xxxxxx", clr byte)
      ∷ ("0100001001xxxxxx", clr word)
      ∷ ("0100001010xxxxxx", clr long)
      ∷ ("0100010000xxxxxx", neg byte)
      ∷ ("0100010001xxxxxx", neg word)
      ∷ ("0100010010xxxxxx", neg long)
      ∷ ("0100010011xxxxxx", move_to_ccr)
      ∷ ("0100011000xxxxxx", not_ea byte)
      ∷ ("0100011001xxxxxx", not_ea word)
      ∷ ("0100011010xxxxxx", not_ea long)
      ∷ ("0100011011xxxxxx", move_to_sr)
      ∷ ("0100100000xxxxxx", nbcd)
      ∷ ("0100100001xxxxxx", pea)
      ∷ ("0100100001000xxx", swap_halves)
      ∷ ("0100100010xxxxxx", movem_save word)
      ∷ ("0100100010000xxx", ext_w)
      ∷ ("0100100011xxxxxx", movem_save long)
      ∷ ("0100100011000xxx", ext_l)
      ∷ ("0100101000xxxxxx", tst byte)
      ∷ ("0100101001xxxxxx", tst word)
      ∷ ("0100101010xxxxxx", tst long)
      ∷ ("0100101011xxxxxx", tas)
      ∷ ("0100101011111xxx", illegal)
      ∷ ("010010101111100x", tas)
      ∷ ("0100101011111100", illegal)
      ∷ ("0100110010xxxxxx", movem_load word)
      ∷ ("0100110011xxxxxx", movem_load long)
      ∷ ("010011100100xxxx", trap)
      ∷ ("0100111001000000", trap)
      ∷ ("0100111001000001", traps.trap1)
      ∷ ("0100111001000010", traps.trap2)
      ∷ ("0100111001000011", traps.trap3)
      ∷ ("0100111001010xxx", link_ins)
      ∷ ("0100111001011xxx", unlk)
      ∷ ("0100111001100xxx", move_to_usp)
      ∷ ("0100111001101xxx", move_from_usp)
      ∷ ("0100111001110000", reset)
      ∷ ("0100111001110001", nop)
      ∷ ("0100111001110010", stop)
      ∷ ("0100111001110011", rte)
      ∷ ("0100111001110101", rts)
      ∷ ("0100111001110110", trapv)
      ∷ ("0100111001110111", rtr)
      ∷ ("0100111010xxxxxx", jsr)
      ∷ ("0100111010111010", jsr_displ)
      ∷ ("0100111011xxxxxx", jmp)
      ∷ []

  -- Line 5
  unfoldable pub rows_quick : Rows D
  rows_quick =
      ("0101xxx000xxxxxx", addq byte)
      ∷ ("0101xxx001xxxxxx", addq word)
      ∷ ("0101xxx010xxxxxx", addq long)
      ∷ ("0101xxx001001xxx", addq_an)
      ∷ ("0101xxx010001xxx", addq_an)
      ∷ ("0101100001001xxx", addq_4_an)
      ∷ ("0101100010001xxx", addq_4_an)
      ∷ ("0101xxxx11xxxxxx", scc)
      ∷ ("0101000011xxxxxx", st)
      ∷ ("0101000111xxxxxx", sf)
      ∷ ("0101xxxx11001xxx", dbcc)
      ∷ ("0101000111001xxx", dbf)
      ∷ ("0101xxx100xxxxxx", subq byte)
      ∷ ("0101xxx101xxxxxx", subq word)
      ∷ ("0101xxx110xxxxxx", subq long)
      ∷ ("0101xxx101001xxx", subq_an)
      ∷ ("0101xxx110001xxx", subq_an)
      ∷ ("0101100101001xxx", subq_4_an)
      ∷ ("0101100110001xxx", subq_4_an)
      ∷ []

  -- Line 6
  unfoldable pub rows_branch : Rows D
  rows_branch =
      ("0110xxxxxxxxxxx0", bcc_s)
      ∷ ("0110xxxxxxxxxxx1", bcc_bad)
      ∷ ("01100110xxxxxxx0", bne_s)
      ∷ ("01101010xxxxxxx0", bpl_s)
      ∷ ("01101011xxxxxxx0", bmi_s)
      ∷ ("01101100xxxxxxx0", bge_s)
      ∷ ("01101101xxxxxxx0", blt_s)
      ∷ ("01101110xxxxxxx0", bgt_s)
      ∷ ("01101111xxxxxxx0", ble_s)
      ∷ ("01100101xxxxxxx0", bcs_s)
      ∷ ("01100100xxxxxxx0", bccc_s)
      ∷ ("01100111xxxxxxx0", beq_s)
      ∷ ("0110xxxx00000000", bcc_l)
      ∷ ("0110011100000000", beq_l)
      ∷ ("0110011000000000", bne_l)
      ∷ ("01100000xxxxxxx0", bra_s)
      ∷ ("0110000000000000", bra_l)
      ∷ ("01100001xxxxxxxx", bsr)
      ∷ []
