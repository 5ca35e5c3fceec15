-- ===== src/Instr/Flow/Jumps.antt =====
-- Jumps, calls, returns and STOP (instructions_ao.c, instructions_pz.c).
use s_qlux.Base.{ℕ, ◌==◌, if◌then◌else◌}
use s_qlux.Base.{true}
use s_qlux.Word.{word, long, cut, sext, add32}
use s_qlux.Machine.{Act, ◌>>=◌, ◌>>◌, modify, when, update}
use s_qlux.Machine.{raise, ea_mode, ea_reg}
use s_qlux.Device.{Bus}
use s_qlux.Status.{get_sr, ccr_of}
use s_qlux.Memory.{peek_word, mask_addr, is_odd, read_word, read_long}
use s_qlux.Ea.{get_ea, fetch_word, back_word}
use s_qlux.Exceptions.{code_address_error, set_pc, put_sr}
use s_qlux.Instr.Move.{push_long}
use s_qlux.Instr.Logic.{privilege_violation}

module _ {D : Type 0} ⦃bus : Bus D⦄ where
  unfoldable pub jmp : Act D
  unfolding set_pc
  jmp = do ea ← (λ c. get_ea (ea_mode c.code) (ea_reg c.code) c); set_pc ea

  unfoldable pub jsr : Act D
  unfolding push_long set_pc code_address_error
  jsr = do
    ea ← (λ c. get_ea (ea_mode c.code) (ea_reg c.code) c)
    if is_odd ea then code_address_error ea else (do λ c. push_long (cut long c.pc) c; set_pc ea)

  unfoldable pub jsr_displ : Act D
  unfolding push_long set_pc
  jsr_displ c =
      let ea = cut long c.pc in
      (do push_long (add32 ea 2); λ c'. set_pc (add32 ea (sext word (peek_word c'.mem c'.pc))) c') c

  unfoldable pub pop_stack : ℕ → Act D
  pop_stack n = modify (λ c. record c { reg = update c.reg 15 (add32 (c.reg 15) n) })

  -- At an odd address the error is raised after the jump, and its address read once more.
  unfoldable pub rts : Act D
  unfolding pop_stack raise
  rts = do
    ret ← (λ c. read_long (c.reg 15) c)
    modify (λ c. record c { pc = mask_addr ret })
    λ c.
        when (is_odd c.pc)
          (do
            modify (λ c'. record c' { saved_sr = get_sr c' })
            raise 3
            modify (λ c'. record c' { read_or_write = 16 })
            again ← (λ c'. read_long (c'.reg 15) c')
            modify (λ c'. record c' { bad_address = again; bad_code_address = true }))
          c
    pop_stack 4

  unfoldable pub rtr : Act D
  unfolding pop_stack set_pc
  rtr = do
    cc ← (λ c. read_word (c.reg 15) c)
    ret ← (λ c. read_long (add32 (c.reg 15) 2) c)
    set_pc ret
    pop_stack 6
    modify (λ c. record c { ccr = ccr_of cc })

  unfoldable pub rte : Act D
  unfolding pop_stack set_pc privilege_violation
  rte c =
      (if c.supervisor
          then (do
            sr ← (λ c'. read_word (c'.reg 15) c')
            ret ← (λ c'. read_long (add32 (c'.reg 15) 2) c')
            set_pc ret
            pop_stack 6
            put_sr sr)
          else privilege_violation)
        c

  -- The processor stops unless an exception is pending or the new status is that of a user.
  unfoldable pub stop : Act D
  unfolding fetch_word privilege_violation back_word raise
  stop c =
      (if c.supervisor
          then (do
            new_sr ← fetch_word
            put_sr new_sr
            λ c'.
                when (c'.exception == 0)
                  (if c'.supervisor
                    then modify (λ c''. record c'' { stopped = true; n_inst = 0; n_inst2 = 0 })
                    else (do raise 8; back_word; back_word))
                  c')
          else privilege_violation)
        c
