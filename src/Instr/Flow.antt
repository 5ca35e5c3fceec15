-- ===== src/Instr/Flow.antt =====
-- Branches, and the loops on a counter (instructions_ao.c).
pub mod Traps
pub mod Jumps
pub mod Branches
pub mod Frames
pub mod Calls
use s_qlux.Base.{ℕ, ◌+◌, ◌-◌, ◌*◌, ◌/◌, ◌%◌, ◌^◌, bit_and, ◌==◌, if◌then◌else◌}
use s_qlux.Base.{Bool, true, false, not, ◌&&◌, ◌||◌}
use s_qlux.Word.{Size, byte, word, long, cut, sext, sext_ptr, add_ptr, test, add32, sub32}
use s_qlux.Machine.{
  Ccr, Cpu, M, Act, ◌>>=◌, ◌>>◌, skip, gets, modify, when, update, set_reg, set_low,
}
use s_qlux.Machine.{raise, ea_mode, ea_reg}
use s_qlux.Device.{Bus}
use s_qlux.Status.{get_sr, ccr_of, condition_true}
use s_qlux.Memory.{peek_word, mask_addr, is_odd, read_word, read_long, write_long}
use s_qlux.Ea.{get_ea, fetch_word, back_word}
use s_qlux.Exceptions.{code_address_error, set_pc, put_sr}
use s_qlux.Instr.Move.{push_long}
use s_qlux.Instr.Logic.{privilege_violation}

-- `(code >> 8) & 15`
abbrev pub condition_of : ℕ → ℕ
condition_of code = bit_and (code / 2 ^ 8) 15

module _ {D : Type 0} where
  -- `SetPC(pc - memBase + (w16)RW(pc))`
  unfoldable pub jump_word : Act D
  unfolding set_pc
  jump_word c = set_pc (add32 (cut long c.pc) (sext word (peek_word c.mem c.pc))) c

  -- `pc++`
  unfoldable pub skip_word : Act D
  skip_word = modify (λ c. record c { pc = add_ptr c.pc 2 })

  -- `pc = (uw16 *)((Ptr)pc + (w8)code)`
  unfoldable pub jump_byte : Act D
  jump_byte = modify (λ c. record c { pc = add_ptr c.pc (sext_ptr byte (cut byte c.code)) })

  unfoldable pub bcc_l : Act D
  unfolding jump_word skip_word
  bcc_l c = (if condition_true (condition_of c.code) c.ccr then jump_word else skip_word) c

  unfoldable pub beq_l : Act D
  unfolding jump_word skip_word
  beq_l c = (if c.ccr.is_zero then jump_word else skip_word) c

  unfoldable pub bne_l : Act D
  unfolding jump_word skip_word
  bne_l c = (if not c.ccr.is_zero then jump_word else skip_word) c

  unfoldable pub bcc_bad : Act D
  unfolding set_pc
  bcc_bad c =
      when (condition_true (condition_of c.code) c.ccr)
        (set_pc (add32 (cut long c.pc) (sext byte (cut byte c.code)))) c

  unfoldable pub bcc_s : Act D
  unfolding jump_byte
  bcc_s c = when (condition_true (condition_of c.code) c.ccr) jump_byte c

  unfoldable pub beq_s : Act D
  unfolding jump_byte
  beq_s c = when c.ccr.is_zero jump_byte c

  unfoldable pub bne_s : Act D
  unfolding jump_byte
  bne_s c = when (not c.ccr.is_zero) jump_byte c

  unfoldable pub bcs_s : Act D
  unfolding jump_byte
  bcs_s c = when c.ccr.carry jump_byte c

  unfoldable pub bccc_s : Act D
  unfolding jump_byte
  bccc_s c = when (not c.ccr.carry) jump_byte c

  unfoldable pub bpl_s : Act D
  unfolding jump_byte
  bpl_s c = when (not c.ccr.negative) jump_byte c

  unfoldable pub bmi_s : Act D
  unfolding jump_byte
  bmi_s c = when c.ccr.negative jump_byte c

  unfoldable pub bge_s : Act D
  unfolding jump_byte
  bge_s c =
      let n = c.ccr.negative in
      let v = c.ccr.overflow in when ((n && v) || not (n || v)) jump_byte c

  unfoldable pub blt_s : Act D
  unfolding jump_byte
  blt_s c =
      let n = c.ccr.negative in
      let v = c.ccr.overflow in when ((n && not v) || (not n && v)) jump_byte c

  unfoldable pub bgt_s : Act D
  unfolding jump_byte
  bgt_s c =
      let n = c.ccr.negative in
      let v = c.ccr.overflow in when (not c.ccr.is_zero && ((n && v) || not (n || v))) jump_byte c

  unfoldable pub ble_s : Act D
  unfolding jump_byte
  ble_s c =
      let n = c.ccr.negative in
      let v = c.ccr.overflow in when ((c.ccr.is_zero || (n && not v)) || (not n && v)) jump_byte c

  -- What the table of Init.c gives for an even, non-zero displacement: each line overrides those
  -- above it.
  unfoldable pub short_branch : ℕ → Act D
  short_branch n =
      if n == 6
      then bne_s
      else if n == 10
      then bpl_s
      else if n == 11
      then bmi_s
      else if n == 12
      then bge_s
      else if n == 13
      then blt_s
      else if n == 14
      then bgt_s
      else if n == 15
      then ble_s
      else if n == 5
      then bcs_s
      else if n == 4
      then bccc_s
      else if n == 7
      then beq_s
      else bcc_s

  unfoldable pub bra_l : Act D
  unfolding jump_word
  bra_l = jump_word

  unfoldable pub bra_s : Act D
  unfolding jump_byte
  bra_s = jump_byte

  -- The end of `dbcc` and `dbf`: the counter is the low word of a data register, and the loop
  -- ends when it was 0.
  unfoldable pub count_down : Act D
  unfolding skip_word code_address_error
  count_down c =
      let n = ea_reg c.code in
      let old = cut word (c.reg n) in
      (do
        set_low word n (cut word (old + (2 ^ 16 - 1)))
        if old == 0 then skip_word else (do
          modify (λ c'. record c' { pc = add_ptr c'.pc (sext_ptr word (peek_word c'.mem c'.pc)) })
          λ c'. when (is_odd c'.pc) (code_address_error (cut long c'.pc)) c'))
        c

  unfoldable pub dbcc : Act D
  unfolding skip_word count_down
  dbcc c = (if condition_true (condition_of c.code) c.ccr then skip_word else count_down) c

  unfoldable pub dbf : Act D
  unfolding count_down
  dbf = count_down

module _ {D : Type 0} ⦃bus : Bus D⦄ where
  unfoldable pub bsr : Act D
  unfolding push_long set_pc
  bsr c =
      let short = cut byte c.code in
      let displ = if short == 0 then peek_word c.mem c.pc else cut word (sext byte short) in
      let old_pc = if short == 0 then add32 (cut long c.pc) 2 else cut long c.pc in
      (do push_long old_pc; λ c'. set_pc (add32 (cut long c'.pc) (sext word displ)) c') c

  -- The entries of the table for 0110xxxxxxxxxxxx (Init.c), the later lines first.
  unfoldable pub branch_entry : Act D
  unfolding short_branch
  branch_entry c =
      let n = condition_of c.code in
      let displ = bit_and c.code 255 in
      (if n == 1
          then bsr
          else if n == 0 && displ == 0
          then bra_l
          else if n == 0 && not (is_odd c.code)
          then bra_s
          else if n == 6 && displ == 0
          then bne_l
          else if n == 7 && displ == 0
          then beq_l
          else if displ == 0
          then bcc_l
          else if is_odd c.code
          then bcc_bad
          else short_branch n)
        c
