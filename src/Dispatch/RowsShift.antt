-- ===== src/Dispatch/RowsShift.antt =====
-- The calls of `SetTable` in `SetTabEntries` (Init.c), in their order: shifts
-- and rotates, and the lines without instructions.
use s_qlux.Base.{[], ◌∷◌}
use s_qlux.Device.{Bus}
use s_qlux.Dispatch.{Rows}
use s_qlux.Instr.Flow.Traps.{code1010, code1111}
use s_qlux.Instr.ShiftOps.{shift_i, shift_r, shift_m, asl_word, asr_word, lsl_word, lsr_word}
use s_qlux.Instr.ShiftOps.{rol_word, ror_word, roxl_word, roxr_word}
use s_qlux.Instr.Shift.{asr_i, asl_i, lsr_i, lsl_i, ror_i, rol_i, asr_r, asl_r, lsr_r, lsl_r, ror_r}
use s_qlux.Instr.Shift.{rol_r}
use s_qlux.Instr.RotateX.{roxr_i, roxl_i, roxr_r, roxl_r, lsr1, lsl1, lsl2_l}
use s_qlux.Word.{byte, word, long}

module _ {D : Type 0} ⦃bus : Bus D⦄ where
  -- Line 14
  unfoldable pub rows_shift : Rows D
  rows_shift =
      ("1110xxx000001xxx", shift_i lsr_i byte)
      ∷ ("1110xxx100001xxx", shift_i lsl_i byte)
      ∷ ("1110001000001xxx", shift_i lsr1 byte)
      ∷ ("1110001100001xxx", shift_i lsl1 byte)
      ∷ ("1110xxx001001xxx", shift_i lsr_i word)
      ∷ ("1110xxx101001xxx", shift_i lsl_i word)
      ∷ ("1110001001001xxx", shift_i lsr1 word)
      ∷ ("1110001101001xxx", shift_i lsl1 word)
      ∷ ("1110xxx010001xxx", shift_i lsr_i long)
      ∷ ("1110xxx110001xxx", shift_i lsl_i long)
      ∷ ("1110001010001xxx", shift_i lsr1 long)
      ∷ ("1110001110001xxx", shift_i lsl1 long)
      ∷ ("1110010110001xxx", shift_i (λ z. lsl2_l) long)
      ∷ ("1110xxx000101xxx", shift_r lsr_r byte)
      ∷ ("1110xxx100101xxx", shift_r lsl_r byte)
      ∷ ("1110xxx001101xxx", shift_r lsr_r word)
      ∷ ("1110xxx101101xxx", shift_r lsl_r word)
      ∷ ("1110xxx010101xxx", shift_r lsr_r long)
      ∷ ("1110xxx110101xxx", shift_r lsl_r long)
      ∷ ("1110xxx000000xxx", shift_i asr_i byte)
      ∷ ("1110xxx100000xxx", shift_i asl_i byte)
      ∷ ("1110xxx001000xxx", shift_i asr_i word)
      ∷ ("1110xxx101000xxx", shift_i asl_i word)
      ∷ ("1110xxx010000xxx", shift_i asr_i long)
      ∷ ("1110xxx110000xxx", shift_i asl_i long)
      ∷ ("1110xxx000100xxx", shift_r asr_r byte)
      ∷ ("1110xxx100100xxx", shift_r asl_r byte)
      ∷ ("1110xxx001100xxx", shift_r asr_r word)
      ∷ ("1110xxx101100xxx", shift_r asl_r word)
      ∷ ("1110xxx010100xxx", shift_r asr_r long)
      ∷ ("1110xxx110100xxx", shift_r asl_r long)
      ∷ ("1110xxx000010xxx", shift_i roxr_i byte)
      ∷ ("1110xxx100010xxx", shift_i roxl_i byte)
      ∷ ("1110xxx001010xxx", shift_i roxr_i word)
      ∷ ("1110xxx101010xxx", shift_i roxl_i word)
      ∷ ("1110xxx010010xxx", shift_i roxr_i long)
      ∷ ("1110xxx110010xxx", shift_i roxl_i long)
      ∷ ("1110xxx000110xxx", shift_r roxr_r byte)
      ∷ ("1110xxx100110xxx", shift_r roxl_r byte)
      ∷ ("1110xxx001110xxx", shift_r roxr_r word)
      ∷ ("1110xxx101110xxx", shift_r roxl_r word)
      ∷ ("1110xxx010110xxx", shift_r roxr_r long)
      ∷ ("1110xxx110110xxx", shift_r roxl_r long)
      ∷ ("1110xxx000011xxx", shift_i ror_i byte)
      ∷ ("1110xxx100011xxx", shift_i rol_i byte)
      ∷ ("1110xxx001011xxx", shift_i ror_i word)
      ∷ ("1110xxx101011xxx", shift_i rol_i word)
      ∷ ("1110xxx010011xxx", shift_i ror_i long)
      ∷ ("1110xxx110011xxx", shift_i rol_i long)
      ∷ ("1110xxx000111xxx", shift_r ror_r byte)
      ∷ ("1110xxx100111xxx", shift_r rol_r byte)
      ∷ ("1110xxx001111xxx", shift_r ror_r word)
      ∷ ("1110xxx101111xxx", shift_r rol_r word)
      ∷ ("1110xxx010111xxx", shift_r ror_r long)
      ∷ ("1110xxx110111xxx", shift_r rol_r long)
      ∷ ("1110000011xxxxxx", shift_m asr_word)
      ∷ ("1110000111xxxxxx", shift_m asl_word)
      ∷ ("1110001011xxxxxx", shift_m lsr_word)
      ∷ ("1110001111xxxxxx", shift_m lsl_word)
      ∷ ("1110010011xxxxxx", shift_m roxr_word)
      ∷ ("1110010111xxxxxx", shift_m roxl_word)
      ∷ ("1110011011xxxxxx", shift_m ror_word)
      ∷ ("1110011111xxxxxx", shift_m rol_word)
      ∷ []

  -- Lines 10 and 15
  unfoldable pub rows_unassigned : Rows D
  rows_unassigned = ("1010xxxxxxxxxxxx", code1010) ∷ ("1111xxxxxxxxxxxx", code1111) ∷ []
