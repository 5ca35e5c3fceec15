-- ===== src/Tests/Devices.antt =====
-- The theorems on the devices and on the clock cycles at concrete states.
use s_qlux.Base.{bit_and}
use s_qlux.Base.{ℕ, ◌+◌, ◌-◌, ◌≡◌, inl, inr, refl, arith, Bool, true, false}
use s_qlux.Base.{if◌then◌else◌, ◌==◌, ◌&&◌}
use s_qlux.Zx.{Zx, could_start}
use s_qlux.Zx.Beam.{IsConfigured, IsCached, is_free, could_start-is_free}
use s_qlux.Mcs48.{Mcs48, push_pc, pull_pc}
use s_qlux.Mcs48.Ops.{return_irq}
use s_qlux.Mcs48.Calls.{pull_pc-push_pc}
use s_qlux.Cycles.Model.{mc68008}
use s_qlux.Cycles.{ea_of, ea_decode, bits_at}
use s_qlux.Cycles.Lines.{line_move}
use s_qlux.Cycles.Manual.{ea_time}
use s_qlux.Cycles.Manual.Move.{
  line_move-manual, fetch_time, exception_time, source_exists, destination_exists,
}
use s_qlux.Cycles.Manual.Move.{destination_time}
use s_qlux.Mdv.{Drive}
use s_qlux.Mdv.Tape.{run, IsBefore}
use s_qlux.Mdv.Rotation.{one_sector-reverse}
use s_qlux.Mdv.Registers.{Mdv}
use s_qlux.Base.{[]}
use s_qlux.Mdv.Counters.{IsBounded}

-- A PAL frame at the speed of a QL, with no line cached.
abbrev beam : Zx
beam = record {
  contention = true;
  contention_cfg = true;
  speed = 20;
  hz = 50;
  nlines = 312;
  first = 32;
  line_cyc = 480;
  line_px = 672;
  frame_px = 209664;
  frame = 1000;
  bus_t = 0;
  line_t0 = 0;
  line_t1 = 0;
  line_busy = 0;
  cycles = 0;
  wait_total = 0;
}

beam-IsConfigured : IsConfigured beam
beam-IsConfigured = record { lines = inl refl; native = refl }

beam-IsCached : IsCached beam
beam-IsCached = inl (refl, refl)

could_start-is_free_example :
    ((could_start 20000 beam).0 ≡ is_free beam 20000) × IsCached (could_start 20000 beam).1
could_start-is_free_example =
    could_start-is_free beam 20000 beam-IsConfigured beam-IsCached (omega arith) (omega arith)

-- A microcontroller that runs at 0x123.
abbrev controller : Mcs48 (Unit {0})
controller = record {
  rom = λ i. 0;
  rom_mask = 0x7ff;
  ram = λ i. 0;
  ram_mask = 0x7f;
  pc = 0x123;
  a = 5;
  psw = 0x8f;
  f1 = false;
  a11 = false;
  a11_pending = false;
  p1 = 0xff;
  p2 = 0xff;
  bus = 0xff;
  timer = 0;
  prescaler = 0;
  timer_on = false;
  counter_on = false;
  tf = false;
  timer_irq_pending = false;
  last_t1 = false;
  xirq_en = true;
  tirq_en = false;
  in_irq = false;
  cycles = 0;
  ctx = tt;
}

-- A routine that changed the flags and the accumulator
abbrev called : Mcs48 (Unit {0})
called = record (push_pc controller).1 { pc = 3; a = 9; psw = 0x78; in_irq = true }

pull_pc-push_pc_example :
    let back = (pull_pc false called).1 in
    let resumed = (return_irq called).1 in
    (back.pc ≡ 0x123)
    × (bit_and back.psw 7 ≡ 7)
    × (bit_and back.psw 0xf8 ≡ 0x78)
    × (resumed.pc ≡ 0x123)
    × (bit_and resumed.psw 7 ≡ 7)
    × (bit_and resumed.psw 0xf0 ≡ 0x80)
    × (bit_and resumed.psw 8 ≡ 8)
    × (resumed.in_irq ≡ false)
unfolding push_pc
pull_pc-push_pc_example =
    pull_pc-push_pc controller called (omega arith) (omega arith) (omega arith) refl refl refl

-- MOVE.W 16(A0),D1
line_move-manual_example :
    let src = ea_of 0x3228 in
    let dst = ea_decode (bits_at 0x3228 6 3) (bits_at 0x3228 9 3) in
    (line_move mc68008 0x3228).cycles ≡ (
      if source_exists src 1 && destination_exists dst 1
      then fetch_time mc68008 + ea_time mc68008 src 1 + destination_time mc68008 dst 1
      else exception_time mc68008)
line_move-manual_example = line_move-manual mc68008 0x3228

-- A cartridge of three sectors at the start of one of them.
abbrev cartridge : ℕ → Bool → Drive
cartridge place reverse = record {
  data_at = λ i. i;
  mdv_end = 1028;
  mem_addr = place;
  present = true;
  reverse = reverse;
  bit_cnt = 0;
  word_data = 0;
  data_valid = false;
  gap = true;
  gap_cnt = 0;
  gap_state = true;
  gap_active = true;
  clk_cnt = 0;
  rx_ready = false;
  rx_byte = 0;
  rx_last = 0;
  rx_idle = 0;
  rx_word = 0;
  blk_read = false;
  blk_bytes = 0;
}

cartridge-IsBefore : (place : ℕ) (reverse : Bool) → IsBefore (cartridge place reverse)
cartridge-IsBefore place reverse = record { active = refl; header = refl; start = refl }

-- The cartridge in the first drive, which is selected, with the gap interrupt enabled
abbrev turning : Mdv
turning = record {
  drives = λ i. record (cartridge 0 false) { bit_cnt = 15 };
  sel = 1;
  mctrl = 0;
  irq_mask = 1;
  gap_irq = false;
  last_cycles = 0;
  cycles = 0;
  signals = [];
}

one_sector-reverse_example :
    (run 413 (0, cartridge 686 true)).1.mem_addr ≡ (if 686 == 0 then 1028 - 342 else 686 - 343 + 1)
one_sector-reverse_example =
    one_sector-reverse 0 (cartridge 686 true) (cartridge-IsBefore 686 true) refl (omega arith)
      (omega arith) (inr (omega arith))

cartridge-IsBounded : (reverse : Bool) → IsBounded (cartridge 0 reverse)
cartridge-IsBounded reverse = record {
  clk = omega arith;
  bit = omega arith;
  gap = omega arith;
  idle = omega arith;
  addr = omega arith;
}
