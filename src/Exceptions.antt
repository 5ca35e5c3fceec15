-- ===== src/Exceptions.antt =====
-- The program counter, the status register as the instructions write it, interrupts and
-- exceptions (iexl_general.c). `TRACE`, `BACKTRACE` and `DEBUG` are not defined
-- and `ExceptionIn` only prints. The cycle counts are left out.
pub mod Frame
use s_qlux.Base.{ℕ, ◌+◌, ◌-◌, ◌*◌, ◌/◌, ◌%◌, ◌^◌, bit_and, ltb, ◌==◌, if◌then◌else◌, eqb}
use s_qlux.Base.{Bool, true, false, not, ◌&&◌, ◌||◌}
use s_qlux.Word.{word, long, cut, test, add32, sub32}
use s_qlux.Machine.{
  Cpu, M, Act, ◌>>=◌, ◌>>◌, pure, skip, gets, modify, when, update, raise, set_reg,
}
use s_qlux.Device.{Bus}
use s_qlux.Status.{get_sr, ccr_of}
use s_qlux.Interrupts.{irq_accepted}
use s_qlux.Memory.{peek_long, mask_addr, is_odd, read_long, write_word, write_long}

module _ {D : Type 0} where
  -- An address error of the program counter.
  unfoldable pub code_address_error : ℕ → Act D
  unfolding raise get_sr
  code_address_error addr = do
    modify (λ c. record c { saved_sr = get_sr c })
    raise 3
    modify (λ c. record c { read_or_write = 16; bad_address = addr; bad_code_address = true })

  unfoldable pub set_pc : ℕ → Act D
  unfolding code_address_error
  set_pc addr =
      if is_odd addr
      then code_address_error addr
      else modify (λ c. record c { pc = mask_addr addr })

  -- `SetPCX`: the vector is read from host memory.
  unfoldable pub set_pc_vector : ℕ → Act D
  unfolding code_address_error
  set_pc_vector i = do
    modify (λ c. record c { pc = mask_addr (peek_long c.mem (4 * i)) })
    λ c. when (is_odd c.pc) (code_address_error (cut long c.pc)) c

  -- `usp = *m68k_sp; *m68k_sp = ssp;` and its inverse.
  unfoldable pub enter_supervisor : Act D
  enter_supervisor = modify (λ c. record c { usp = c.reg 15; reg = update c.reg 15 c.ssp })

  unfoldable pub leave_supervisor : Act D
  leave_supervisor = modify (λ c. record c { ssp = c.reg 15; reg = update c.reg 15 c.usp })

  unfoldable pub bus_error_code : Cpu D → ℕ → ℕ
  bus_error_code c n = cut word (
      bit_and c.code 0xffe0
      + (n + (if c.supervisor then 4 else 0) + (if c.bad_code_address then 8 else 0))
      + c.read_or_write)

module _ {D : Type 0} ⦃bus : Bus D⦄ where
  -- `*m68k_sp -= 6`, with the program counter and a status word pushed there.
  unfoldable pub push_frame : (Cpu D → ℕ) → Act D
  push_frame sr = do
    modify (λ c. record c { reg = update c.reg 15 (sub32 (c.reg 15) 6) })
    λ c. write_long (add32 (c.reg 15) 2) (cut long c.pc) c
    λ c. write_word (c.reg 15) (sr c) c

  unfoldable pub process_interrupts : Act D
  unfolding enter_supervisor set_pc_vector
  process_interrupts c =
      if (c.exception == 0 && (c.pending_interrupt == 7 || ltb c.i_mask c.pending_interrupt))
        && not c.do_trace
      then (do
        when (not c.supervisor) enter_supervisor
        λ c'. write_long (sub32 (c'.reg 15) 4) (cut long c'.pc) c'
        modify (λ c'. record c' { reg = update c'.reg 15 (sub32 (c'.reg 15) 6) })
        λ c'. write_word (c'.reg 15) (get_sr c') c'
        λ c'. set_pc_vector (24 + c'.pending_interrupt) c'
        modify (λ c'. record c' { i_mask = c'.pending_interrupt })
        λ c'. modify (irq_accepted c'.i_mask) c'
        modify (λ c'. record c' {
          supervisor = true;
          trace = false;
          stopped = false;
          extra_flag = false;
        }))
          c
      else (tt, c)

  -- The part of `PutSR` before the pending interrupts.
  unfoldable pub load_sr : ℕ → Act D
  unfolding enter_supervisor leave_supervisor
  load_sr sr c =
      (do
        modify (λ c'. record c' { trace = test sr 0x8000; i_mask = bit_and (sr / 2 ^ 8) 7 })
        modify (λ c'. record c' {
          extra_flag =
              (((c'.do_trace || c'.trace) || not (c'.exception == 0)) || c'.pending_interrupt == 7)
              || ltb c'.i_mask c'.pending_interrupt;
        })
        λ c'.
            when c'.extra_flag (modify (λ c''. record c'' { n_inst2 = c''.n_inst; n_inst = 0 })) c'
        modify (λ c'. record c' { supervisor = test sr 0x2000; ccr = ccr_of sr })
        λ c'.
            when (not (eqb c.supervisor c'.supervisor))
              (if c'.supervisor then enter_supervisor else leave_supervisor) c')
        c

  unfoldable pub put_sr : ℕ → Act D
  put_sr sr = do load_sr sr; process_interrupts

  -- The frame of an address error has eight more bytes.
  unfoldable pub push_address_error : Act D
  push_address_error = do
    modify (λ c. record c { reg = update c.reg 15 (sub32 (c.reg 15) 8) })
    λ c. write_word (add32 (c.reg 15) 6) c.code c
    λ c. write_long (add32 (c.reg 15) 2) c.bad_address c
    λ c. write_word (c.reg 15) (bus_error_code c (if c.bad_code_address then 2 else 1)) c
    modify (λ c. record c { bad_code_address = false; ccr = ccr_of c.saved_sr })

  -- The exceptions that stop the current run, all but TRAP #0 to #4 among them: the word at
  -- 0x28050 says whether the system handles them itself.
  unfoldable pub filter_exception : Act D
  filter_exception c =
      if ltb c.exception 32 || ltb 36 c.exception
      then (do
        modify (λ c'. record c' {
          extra_flag =
              (ltb c'.exception 3 || (ltb 9 c'.exception && ltb c'.exception 32))
              || ltb 47 c'.exception;
        })
        λ c'.
            when (not c'.extra_flag)
              (do v ← read_long 0x28050; modify (λ c''. record c'' { extra_flag = v == 0 })) c'
        λ c'. when c'.extra_flag (modify (λ c''. record c'' { n_inst2 = 0; n_inst = 0 })) c')
          c
      else (tt, c)

  unfoldable pub take_exception : Act D
  unfolding filter_exception enter_supervisor push_frame set_pc_vector push_address_error
  take_exception = do
    filter_exception
    λ c. when (not c.supervisor) enter_supervisor c
    push_frame (λ c. if c.exception == 3 then c.saved_sr else get_sr c)
    λ c. set_pc_vector c.exception c
    λ c. when (c.exception == 3) push_address_error c
    modify (λ c. record c { exception = 0; extra_flag = false; supervisor = true; trace = false })

  unfoldable pub take_trace : Act D
  unfolding enter_supervisor push_frame set_pc_vector
  take_trace = do
    λ c. when (not c.supervisor) enter_supervisor c
    push_frame get_sr
    set_pc_vector 9
    modify (λ c. record c {
      exception = if c.n_inst == 0 then 9 else c.exception;
      supervisor = true;
      trace = false;
      extra_flag = false;
      stopped = false;
    })

  unfoldable pub exception_processing : Act D
  unfolding take_exception take_trace
  exception_processing = do
    λ c. when (not (c.pending_interrupt == 0) && not c.do_trace) process_interrupts c
    λ c. when (not (c.exception == 0)) take_exception c
    λ c. when c.do_trace take_trace c
    modify (λ c. record c { do_trace = c.trace })
    λ c. when c.do_trace (modify (λ c'. record c' { n_inst2 = c'.n_inst; n_inst = 1 })) c
    λ c.
        when (not (c.pending_interrupt == 0) && not c.do_trace)
          (modify (λ c'. record c' { extra_flag = true; n_inst2 = c'.n_inst; n_inst = 0 })) c
