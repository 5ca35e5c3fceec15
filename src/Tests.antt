-- ===== src/Tests.antt =====
-- A machine with no devices, on which the theorems of the library are tried out.
mod State
mod Run
mod Values
mod Devices
mod Program
mod Cards
mod Disks
use s_qlux.Base.{
  ℕ, ◌+◌, ◌-◌, ◌*◌, ◌/◌, ◌%◌, ◌^◌, ◌≤◌, ◌<◌, ◌≡◌, ◌≢◌, ◌↔◌, ◌⊎◌, inl, inr, refl, arith, Bool, true,
  false,
}
use s_qlux.Base.{[], ltb, leb, ◌==◌, if◌then◌else◌, to_ℕ, not}
use s_qlux.Word.{Size, byte, word, long}
use s_qlux.Machine.{Ccr, IpcLink, Cpu}
use s_qlux.Device.{Bus}
use s_qlux.Ipc.{ipc_start, ipc_write, ipc_fetch, ipc_exec}
use s_qlux.Ipc.Command.{command_bit, IsLive, ipc_write-IsLive, ipc_write-command, ipc_fetch-answer}
use s_qlux.Status.{condition_true, sr_of, get_sr}
use s_qlux.Status.RoundTrip.{Unpacked, unpack, unpack-sr_of}
use s_qlux.Status.Pairs.{condition_true-pairs}
use s_qlux.Interrupts.{update_ipl, irq_accepted}
use s_qlux.Interrupts.Settle.{update_ipl_idempotent, irq_accepted-settles}
use s_qlux.Memory.{read_size, write_size, read_long, write_long, read_word, write_word}
use s_qlux.Memory.Ram.{IsRam, read_size-write_size, write_size-frame, write_long-big_endian}
use s_qlux.Memory.Guard.{write_size-rom}
use s_qlux.Alu.{carry_add, overflow_add, carry_sub, overflow_sub, sum_of, difference_of}
use s_qlux.Alu.{add_ccr, sub_ccr, cmp_ccr, neg_ccr, addq_ccr, subq_ccr}
use s_qlux.Alu.Add.{SumOverflows, carry_add_lem, overflow_add_lem, addq_ccr_lem}
use s_qlux.Alu.Sub.{DifferenceOverflows, carry_sub_lem, overflow_sub_lem, subq_ccr_lem, neg_ccr_lem}
use s_qlux.Alu.Compare.{cmp_conditions}
use s_qlux.Exceptions.{process_interrupts, load_sr, push_frame}
use s_qlux.Instr.Arith.{add_dn, add_dn_dn, add_an, add_an_dn}
use s_qlux.Instr.Compare.{cmp, cmp_dn}
use s_qlux.Instr.Move.{move_to_dn, move_reg, push_long, exg_d, exg_a, exg_ad}
use s_qlux.Instr.Move.Exchange.{exchange_twice, swap_halves_twice}
use s_qlux.Instr.MulDiv.{divu_by, swap_halves}
use s_qlux.Instr.MulDiv.Division.{divu_by_lem}
use s_qlux.Instr.Bcd.{abcd_of, sbcd_of, nbcd_of}
use s_qlux.Instr.Bcd.Decimal.{digits, abcd_of_lem}
use s_qlux.Instr.Bcd.Subtract.{sbcd_of_lem}
use s_qlux.Instr.Flow.{branch_entry}
use s_qlux.Instr.Flow.Jumps.{rts, rte}
use s_qlux.Instr.Flow.Branches.{branch_by_displacement, branch_entry_lem}
use s_qlux.Instr.Flow.Calls.{rts-push_long}
use s_qlux.Instr.Registers.{data_register_forms}

-- Devices that do nothing
abbrev pub still_bus : {D : Type 0} → Bus D
still_bus = record {
  qsound_read_byte = λ _ d. (0, d);
  qsound_write_byte = λ _ _ d. d;
  zx_contention = λ _. false;
  zx_ram = λ _ _ d. d;
  screen_write = λ _ _ d. d;
  set_display = λ _ d. d;
  get_date_time = λ d. (0, d);
  prep_rtc_emu = λ d. d;
  mdv_sync = λ d. ([], d);
  mdv_read_status = λ d. (0, d);
  mdv_read_int = λ d. (0, d);
  mdv_read_data = λ d. (0, d);
  mdv_write_control = λ _ d. d;
  mdv_write_int = λ _ d. d;
  ipc_lle_active = λ _. false;
  ipc_lle_set_baud = λ _ d. d;
  ipc_lle_write_comdata = λ _ d. ([], d);
  ipc_lle_status = λ d. (([], 0), d);
  bdi_select = λ _ d. d;
  bdi_command = λ _ d. d;
  bdi_data_write = λ _ d. d;
  bdi_address_high = λ _ d. d;
  bdi_address_low = λ _ d. d;
  bdi_status = λ d. (0, d);
  bdi_data_read = λ d. (0, d);
  bdi_size_high = λ d. (0, d);
  bdi_size_low = λ d. (0, d);
  clock_ns = λ d. (0, d);
}

abbrev pub no_bus : Bus (Unit {0})
no_bus = still_bus

abbrev pub no_flags : Ccr
no_flags = record {
  xflag = false;
  negative = false;
  is_zero = false;
  overflow = false;
  carry = false;
}

-- A 128 K machine in supervisor mode, with D0 to A6 holding 1 to 15 and the stack at 0x30000.
abbrev pub machine_with : {D : Type 0} → D → ℕ → Cpu D
machine_with dev code = record {
  reg = λ n. if n == 15 then 0x30000 else n + 1;
  usp = 0x38000;
  ssp = 0;
  pc = 0x2C000;
  code = code;
  n_inst = 100;
  n_inst2 = 0;
  ccr = no_flags;
  trace = false;
  supervisor = true;
  i_mask = 0;
  stopped = false;
  extra_flag = false;
  do_trace = false;
  pending_interrupt = 0;
  the_int = 0;
  ipl_lines = 3;
  nmi_taken = false;
  exception = 0;
  saved_sr = 0;
  bad_address = 0;
  read_or_write = 0;
  bad_code_address = false;
  is_reg = false;
  dest = 0;
  last_addr = 0;
  mem = λ a. a % 256;
  rtop = 0x40000;
  qm_lo = 0x20000;
  qm_hi = 0x28000;
  qm_len = 0x8000;
  display_mode = 4;
  display_blank = false;
  qsound_mapped = false;
  nanotime = 0;
  ipc = ipc_start;
  dev = dev;
}

abbrev pub machine : ℕ → Cpu (Unit {0})
machine = machine_with tt

pub IsRam-at : (a : ℕ) → 0x20000 ≤ a → a < 0x40000 → IsRam (machine 0) a
IsRam-at a h1 h2 = record {
  over_screen = h1;
  addressable = omega arith;
  not_expansion = inl (omega arith);
  mapped = inl h2;
}
