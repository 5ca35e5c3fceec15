-- ===== src/Run.antt =====
-- The fetch and dispatch loop (iexl_general.c): `ExecuteLoop`, `ExecuteChunk` and `InitialSetup`.
-- What the loop shares with the rest of the program stands in `Host`, on the state of the devices.
use s_qlux.Base.{ℕ, zero, suc, ◌+◌, ◌-◌, ◌%◌, ◌/◌, ◌^◌, bit_and, leb, ltb, ◌==◌, if◌then◌else◌}
use s_qlux.Base.{Bool, true, false, not, ◌&&◌, ◌||◌, List, Option, none, some}
use s_qlux.Word.{long, add_ptr, is_neg, is_pos}
use s_qlux.Machine.{Cpu, Act, ◌>>=◌, ◌>>◌, gets, modify, when, update}
use s_qlux.Device.{Signal, Bus}
use s_qlux.Status.{condition_true}
use s_qlux.Interrupts.{signals}
use s_qlux.Hardware.{tell, ask, mdv_sync}
use s_qlux.Memory.{peek_word, peek_long}
use s_qlux.Exceptions.{set_pc, process_interrupts, exception_processing}
use s_qlux.Cycles.{Model, Kind}
use s_qlux.Cycles.Kind.{k_bcc, k_dbcc, k_scc, k_none}
use s_qlux.Cycles.Table.{entry}
use s_qlux.Cycles.Dynamic.{cycles_dynamic}

pub record Host (D : Type 0) : Type 0 where
  -- `ql_cycles`, and its increase
  pub cycles : D → ℕ
  pub add_cycles : ℕ → D → D
  -- `ql_total_instructions`, and its increase
  pub total : D → ℕ
  pub count : D → D
  -- `zx8301_insn`
  pub zx_insn : ℕ → ℕ → ℕ → D → D
  pub ipc_lle_sync : D → List Signal × D
  -- `ql_snapshot_at`, and what is done when it is reached
  pub snapshot_at : D → ℕ
  pub snapshot_line : D → D
  pub frame_end : D → ℕ
  -- `!speed && SDL_AtomicGet(&doPoll)`, and `dosignal`
  pub polls : D → Bool
  pub dosignal : Act D
  -- `qlux_table`
  pub table : ℕ → Option (Act D)
  -- `cyc_cpu`
  pub model : Model

abbrev pub is_conditional : Kind → Bool
is_conditional k_bcc = true
is_conditional k_dbcc = true
is_conditional k_scc = true
is_conditional _ = false

-- `cycles_extra`
unfoldable pub cycles_extra : {D : Type 0} → Model → Cpu D → ℕ
cycles_extra cpu c =
    let cond =
      is_conditional (entry cpu c.code).kind
      && condition_true (bit_and (c.code / 2 ^ 8) 15) c.ccr in
    cycles_dynamic cpu c.code cond c.reg (peek_word c.mem c.pc)

abbrev pub is_static : Kind → Bool
is_static k_none = true
is_static _ = false

module _ {D : Type 0} ⦃bus : Bus D⦄ (host : Host D) where
  unfoldable pub ipc_sync : Act D
  ipc_sync = do calls ← ask host.ipc_lle_sync; signals calls

  -- The fetch, with its cycles and the wait states of the fetch.
  unfoldable pub fetch : Act D
  fetch = do
    tell host.count
    t0 ← gets (λ c. host.cycles c.dev)
    modify (λ c. record c { code = peek_word c.mem c.pc; pc = add_ptr c.pc 2 })
    λ c. tell (host.add_cycles (entry host.model c.code).cycles) c
    λ c.
        when (not (is_static (entry host.model c.code).kind))
          (tell (host.add_cycles (cycles_extra host.model c))) c
    λ c.
        when (bus.zx_contention c.dev)
          (tell (host.zx_insn t0 ((c.pc + 2 ^ 32 - 2) % 2 ^ 32) (entry host.model c.code).words)) c

  -- `qlux_table[code]()`; the table has every entry (Dispatch.Full).
  unfoldable pub dispatch : Act D
  dispatch c = elim (host.table c.code) [ none ↦ (tt, c) | some f ↦ f c ]

  unfoldable pub snapshot : Act D
  snapshot c = when (leb (host.snapshot_at c.dev) (host.cycles c.dev)) (tell host.snapshot_line) c

  -- The vertical sync: no more instructions are executed in this frame.
  unfoldable pub stop_at_frame : Act D
  stop_at_frame c =
      when (leb (host.frame_end c.dev) (host.cycles c.dev))
        (modify (λ c'. record c' { n_inst = 0; n_inst2 = 0 })) c

  unfoldable pub sync_devices : Act D
  unfolding ipc_sync
  sync_devices c = when (bit_and (host.total c.dev) 15 == 0) (do mdv_sync; ipc_sync) c

  -- The body of the loop
  unfoldable pub instruction : Act D
  instruction = do fetch; dispatch; snapshot; stop_at_frame; sync_devices

  -- `while(--nInst>=0)`, on fuel; `nInst` is a word of 32 bits.
  unfoldable pub run_instructions : ℕ → Cpu D → Option (Cpu D)
  run_instructions zero c = none
  run_instructions (suc fuel) c =
      let c' = record c { n_inst = (c.n_inst + 2 ^ 32 - 1) % 2 ^ 32 } in
      let rest = run_instructions fuel (instruction c').1 in
      if is_neg long c'.n_inst then some c' else rest

  -- What follows the loop; nothing where `ExecuteLoop` calls itself.
  unfoldable pub after_loop : Cpu D → Bool × Cpu D
  after_loop c =
      let c1 = (when (host.polls c.dev) host.dosignal c).1 in
      if c1.extra_flag
      then (let c2 = (exception_processing (record c1 { n_inst = c1.n_inst2 })).1 in
          (is_pos c2.n_inst, c2))
      else (false, c1)

  -- `ExecuteLoop`
  unfoldable pub execute_loop : ℕ → Cpu D → Option (Cpu D)
  unfolding run_instructions after_loop
  execute_loop zero c = none
  execute_loop (suc fuel) c = elim (run_instructions fuel c) [
    | none ↦ none
    | some c1 ↦
        let next = after_loop c1 in
        let again = execute_loop fuel next.1 in if next.0 then again else some next.1
  ]

  -- `ExecuteChunk`
  unfoldable pub execute_chunk : ℕ → ℕ → Cpu D → Option (Cpu D)
  execute_chunk fuel n c =
      let c1 = (process_interrupts (record c { extra_flag = false })).1 in
      let extra =
        ((c1.trace || c1.do_trace) || c1.pending_interrupt == 7)
        || ltb c1.i_mask c1.pending_interrupt in
      let c2 = record c1 { exception = 0; extra_flag = extra; n_inst = (n + 1) % 2 ^ 32 } in
      let c3 = if extra then record c2 { n_inst2 = c2.n_inst; n_inst = 0 } else c2 in
      let run = execute_loop fuel c3 in
      if not (bit_and c.pc 1 == 0) then some c else if c1.stopped then some c1 else run

-- `InitialSetup`: the stack pointer and the program counter are the first two longs.
unfoldable pub initial_setup : {D : Type 0} → Act D
unfolding set_pc
initial_setup = do
  modify (λ c. let sp = peek_long c.mem 0 in record c { reg = update c.reg 15 sp; ssp = sp })
  λ c. set_pc (peek_long c.mem 4) c
  modify (λ c. record c {
    i_mask = 7;
    supervisor = true;
    trace = false;
    do_trace = false;
    exception = 0;
    extra_flag = false;
    pending_interrupt = 0;
    stopped = false;
    bad_code_address = false;
  })
