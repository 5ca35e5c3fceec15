-- ===== src/Dispatch/RowsMove.antt =====
-- The calls of `SetTable` in `SetTabEntries` (Init.c), in their order: immediate
-- operands, bits and MOVE.
use s_qlux.Base.{[], ◌∷◌}
use s_qlux.Device.{Bus}
use s_qlux.Dispatch.{Rows}
use s_qlux.Instr.Arith.{addi, subi}
use s_qlux.Instr.Bit.{bchg_d, bchg_s, bclr_d, bclr_s, bset_d, bset_s, btst_d, btst_s}
use s_qlux.Instr.Compare.{cmpi}
use s_qlux.Instr.Logic.{LogicOp, logic_i, logic_to_ccr, logic_to_sr}
use s_qlux.Instr.Move.{move, move_from_dn, move_reg, move_to_dn, movea, movea_l_an}
use s_qlux.Instr.Multiple.{movep_load, movep_save}
use s_qlux.Word.{byte, word, long}

module _ {D : Type 0} ⦃bus : Bus D⦄ where
  -- Line 0
  unfoldable pub rows_immediate : Rows D
  rows_immediate =
      ("0000000000xxxxxx", logic_i LogicOp.or byte)
      ∷ ("0000000001xxxxxx", logic_i LogicOp.or word)
      ∷ ("0000000010xxxxxx", logic_i LogicOp.or long)
      ∷ ("0000000000111100", logic_to_ccr LogicOp.or)
      ∷ ("0000000001111100", logic_to_sr LogicOp.or)
      ∷ ("0000xxx100xxxxxx", btst_d)
      ∷ ("0000xxx101xxxxxx", bchg_d)
      ∷ ("0000xxx110xxxxxx", bclr_d)
      ∷ ("0000xxx111xxxxxx", bset_d)
      ∷ ("0000xxx100001xxx", movep_load word)
      ∷ ("0000xxx101001xxx", movep_load long)
      ∷ ("0000xxx110001xxx", movep_save word)
      ∷ ("0000xxx111001xxx", movep_save long)
      ∷ ("0000001000xxxxxx", logic_i LogicOp.and byte)
      ∷ ("0000001001xxxxxx", logic_i LogicOp.and word)
      ∷ ("0000001010xxxxxx", logic_i LogicOp.and long)
      ∷ ("0000001000111100", logic_to_ccr LogicOp.and)
      ∷ ("0000001001111100", logic_to_sr LogicOp.and)
      ∷ ("0000010000xxxxxx", subi byte)
      ∷ ("0000010001xxxxxx", subi word)
      ∷ ("0000010010xxxxxx", subi long)
      ∷ ("0000011000xxxxxx", addi byte)
      ∷ ("0000011001xxxxxx", addi word)
      ∷ ("0000011010xxxxxx", addi long)
      ∷ ("0000100000xxxxxx", btst_s)
      ∷ ("0000100001xxxxxx", bchg_s)
      ∷ ("0000100010xxxxxx", bclr_s)
      ∷ ("0000100011xxxxxx", bset_s)
      ∷ ("0000101000xxxxxx", logic_i LogicOp.eor byte)
      ∷ ("0000101001xxxxxx", logic_i LogicOp.eor word)
      ∷ ("0000101010xxxxxx", logic_i LogicOp.eor long)
      ∷ ("0000101000111100", logic_to_ccr LogicOp.eor)
      ∷ ("0000101001111100", logic_to_sr LogicOp.eor)
      ∷ ("0000110000xxxxxx", cmpi byte)
      ∷ ("0000110001xxxxxx", cmpi word)
      ∷ ("0000110010xxxxxx", cmpi long)
      ∷ []

  -- Lines 1 to 3
  unfoldable pub rows_move : Rows D
  rows_move =
      ("0001xxxxxxxxxxxx", move byte)
      ∷ ("0001xxxxxx000xxx", move_from_dn byte)
      ∷ ("0001xxx000xxxxxx", move_to_dn byte)
      ∷ ("0001xxx000000xxx", move_reg byte)
      ∷ ("0010xxxxxxxxxxxx", move long)
      ∷ ("0010xxxxxx000xxx", move_from_dn long)
      ∷ ("0010xxx000xxxxxx", move_to_dn long)
      ∷ ("0010xxx000000xxx", move_reg long)
      ∷ ("0010xxx001xxxxxx", movea long)
      ∷ ("0010xxx001001xxx", movea_l_an)
      ∷ ("0011xxxxxxxxxxxx", move word)
      ∷ ("0011xxxxxx000xxx", move_from_dn word)
      ∷ ("0011xxx000xxxxxx", move_to_dn word)
      ∷ ("0011xxx000000xxx", move_reg word)
      ∷ ("0011xxx001xxxxxx", movea word)
      ∷ []
