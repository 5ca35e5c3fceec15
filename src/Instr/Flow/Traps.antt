-- ===== src/Instr/Flow/Traps.antt =====
-- Traps, the codes that are not assigned, RESET and NOP (instructions_ao.c, instructions_pz.c).
use s_qlux.Base.{◌+◌, bit_and}
use s_qlux.Base.{not}
use s_qlux.Machine.{Act, ◌>>◌, skip, when}
use s_qlux.Machine.{raise}
use s_qlux.Ea.{back_word}
use s_qlux.Instr.Logic.{privilege_violation}

module _ {D : Type 0} where
  unfoldable pub trap : Act D
  unfolding raise
  trap c = raise (32 + bit_and c.code 15) c

  unfoldable pub trapv : Act D
  unfolding raise
  trapv c = when c.ccr.overflow (raise 7) c

  unfoldable pub code1010 : Act D
  unfolding raise
  code1010 = raise 10

  unfoldable pub code1111 : Act D
  unfolding raise
  code1111 = raise 11

  -- `illegal` and `InvalidCode`
  unfoldable pub illegal : Act D
  unfolding raise back_word
  illegal = do raise 4; back_word

  unfoldable pub reset : Act D
  unfolding privilege_violation
  reset c = when (not c.supervisor) privilege_violation c

  unfoldable pub nop : Act D
  nop = skip
