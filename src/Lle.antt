-- ===== src/Lle.antt =====
-- The wiring of the low level 8049 (ipc.c): its ports, the ZX8302 side of the serial link and the
-- matrix of the keyboard. The processor itself is Mcs48. `ipc_units` is passed to the callbacks,
-- which only read it, and so are the two port latches of the processor (see Pins). The signal of
-- the speaker (`audio_advance`) is left out, and the host's clocks are arguments.
pub mod Keys
pub mod Queue
pub mod Due
pub mod Pins
pub mod Link
pub mod Decoder
pub mod Clock
pub mod Firmware
use s_qlux.Base.{ℕ, ◌+◌, ◌-◌, ◌*◌, ◌/◌, ◌%◌, ◌^◌, bit_and, bit_or, ltb, ◌==◌, if◌then◌else◌, not}
use s_qlux.Base.{Bool, List, [], ◌∷◌, ◌++◌}
use s_qlux.Word.{test}
use s_qlux.Zx.{sub64}
use s_qlux.Device.{Signal, ipl}

-- UNITS_PER_IPC_CYCLE, UNITS_PER_SECOND and UNITS_PER_MS
abbrev pub units_per_ipc_cycle : ℕ
units_per_ipc_cycle = 225

abbrev pub units_per_second : ℕ
units_per_second = 165000000

abbrev pub units_per_ms : ℕ
units_per_ms = units_per_second / 1000

-- An element of `keyq`
pub record Key : Type 0 where
  pub code : ℕ
  pub pressed : Bool
  pub host_ms : ℕ

-- The variables that the callbacks of the processor change. `calls` collects the calls back into
-- general.c, in their order.
pub record Wires : Type 0 where
  pub comdata_reg : ℕ
  pub ipc_busy : ℕ
  pub comdata_to_cpu : ℕ
  pub ipl_lines : ℕ
  pub speaker : ℕ
  pub speaker_last_edge : ℕ
  pub trace_notes : ℕ
  pub baud : ℕ
  pub keyq : ℕ → Key
  pub keyq_wr : ℕ
  pub keyq_rd : ℕ
  pub matrix : ℕ → ℕ
  pub key_next : ℕ
  pub key_down_at : ℕ → ℕ
  pub last_down_at : ℕ
  pub ref_host_ms : ℕ
  pub ref_units : ℕ
  pub ref_valid : Bool
  pub frame_units : ℕ
  pub calls : List Signal

unfoldable pub p2_in : Wires → ℕ
p2_in w = bit_or 0x01 (bit_and w.comdata_reg 1 * 2 ^ 7)

-- `((v >> 2) & 1) | (((v >> 3) & 1) << 1)`
unfoldable pub lines_of : ℕ → ℕ
lines_of v = bit_or (bit_and (v / 2 ^ 2) 1) (bit_and (v / 2 ^ 3) 1 * 2)

unfoldable pub move_speaker : ℕ → ℕ → Wires → Wires
move_speaker units v w =
    let level = bit_and (v / 2) 1 in
    if level == w.speaker then w else record w {
      speaker = level;
      speaker_last_edge = units;
      trace_notes =
          if ltb (units_per_second / 200) (sub64 units w.speaker_last_edge)
          then (w.trace_notes + 1) % 2 ^ 32
          else w.trace_notes;
    }

unfoldable pub p2_out : ℕ → ℕ → Wires → Wires
unfolding lines_of move_speaker
p2_out units v w =
    let w' = move_speaker units v w in
    let lines = lines_of v in
    if lines == w'.ipl_lines
    then w'
    else record w' { ipl_lines = lines; calls = w'.calls ++ (ipl lines ∷ []) }

-- The pulse of COMCTL, with the latch of port 2
unfoldable pub movx_wr : ℕ → Wires → Wires
movx_wr p2 w = record w {
  comdata_to_cpu = bit_and (bit_and w.comdata_reg 1) (bit_and (p2 / 2 ^ 7) 1);
  comdata_reg = bit_or (w.comdata_reg / 2) 0x08;
  ipc_busy = w.ipc_busy / 2;
}

unfoldable pub t1_in : ℕ → Wires → ℕ
t1_in units w = bit_and (units / (units_per_second / (8 * w.baud % 2 ^ 32))) 1

unfoldable pub rate : ℕ → ℕ
rate n =
    if n == 0
    then 19200
    else if n == 1
    then 9600
    else if n == 2
    then 4800
    else if n == 3
    then 2400
    else if n == 4
    then 1200
    else if n == 5
    then 600
    else if n == 6
    then 300
    else 75

unfoldable pub set_baud : ℕ → Wires → Wires
unfolding rate
set_baud ctrl w = record w { baud = rate (bit_and ctrl 7) }

-- The part of `ipc_lle_write_comdata` that loads the link, and what the CPU reads of it.
unfoldable pub load_comdata : ℕ → Wires → Wires
load_comdata d w = record w { comdata_reg = bit_and d 0x0f; ipc_busy = 3 }

unfoldable pub status : Wires → ℕ
status w = bit_or (w.comdata_to_cpu * 2 ^ 7) (bit_and w.ipc_busy 1 * 2 ^ 6)
