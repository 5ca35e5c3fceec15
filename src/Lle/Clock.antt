-- ===== src/Lle/Clock.antt =====
-- The clock of the 8049 and the calls that the rest of the program makes (ipc.c): `ipc_target`,
-- `run_until`, `ipc_lle_sync`, `ipc_lle_frame`, `ipc_lle_write_comdata`, `ipc_lle_status`,
-- `ipc_lle_trace` and `ipc_lle_init` once the firmware is loaded. `audio_advance` is left out.
pub mod Catchup
use s_qlux.Base.{ℕ, zero, suc, ◌+◌, ◌-◌, ◌*◌, ◌/◌, ◌%◌, ◌^◌, bit_and, ltb, leb, ◌==◌}
use s_qlux.Base.{if◌then◌else◌, Bool, true, false, Option, none, some, []}
use s_qlux.Zx.{add64, sub64}
use s_qlux.Mcs48.{Mcs48}
use s_qlux.Mcs48.Start.{init}
use s_qlux.Mcs48.Exec.{step}
use s_qlux.Lle.{
  Key, Wires, units_per_second, units_per_ms, units_per_ipc_cycle, load_comdata, status,
}
use s_qlux.Lle.Pins.{pins}
use s_qlux.Lle.Decoder.{Decoder, pr_feed}

-- What the source reads of the host and of the 68008: `ql_cycles`, `SDL_GetPerformanceCounter`,
-- `SDL_GetPerformanceFrequency` and `SDL_GetTicks`.
pub record Now : Type 0 where
  pub cycles : ℕ
  pub counter : ℕ
  pub frequency : ℕ
  pub ticks : ℕ

-- `units` is `ipc_units`, and no bit was sent where `prev_sent` is nothing (-1 in the source).
pub record Ipc : Type 0 where
  pub active : Bool
  pub core : Mcs48 Wires
  pub units : ℕ
  pub frame_start_cycles : ℕ
  pub frame_start_units : ℕ
  pub frame_len_cycles : ℕ
  pub frame_host_start : ℕ
  pub trace_level : ℕ
  pub trace_bits : ℕ
  pub trace_units0 : ℕ
  pub trace_host0 : ℕ
  pub decoder : Decoder
  pub prev_sent : Option ℕ

abbrev pub wires : Ipc → Wires
wires s = s.core.ctx

abbrev pub on_wires : (Wires → Wires) → Ipc → Ipc
on_wires f s = record s { core = record s.core { ctx = f s.core.ctx } }

unfoldable pub ipc_target : Now → Ipc → ℕ
ipc_target now s =
    let f = (wires s).frame_units in
    let by_cpu = sub64 now.cycles s.frame_start_cycles * f % 2 ^ 64 / s.frame_len_cycles in
    let khz = if now.frequency / 1000 == 0 then 1 else now.frequency / 1000 in
    let by_host = sub64 now.counter s.frame_host_start * units_per_ms % 2 ^ 64 / khz in
    let dt = if s.frame_len_cycles == 0 then if ltb f by_host then f else by_host else by_cpu in
    add64 s.frame_start_units dt

-- The body of the loop of `run_until`
unfoldable pub run_step : Ipc → Ipc
run_step s =
    let (n, core) = step ⦃io = pins s.units s.core.p1 s.core.p2⦄ s.core in
    record s { core = core; units = add64 s.units (n * units_per_ipc_cycle) }

-- `while (ipc_units < target)`; nothing where the fuel is not enough.
unfoldable pub run_loop : ℕ → ℕ → Ipc → Option Ipc
unfolding run_step
run_loop zero target s = none
run_loop (suc fuel) target s =
    let rest = run_loop fuel target (run_step s) in if ltb s.units target then rest else some s

-- A second at most is caught up: MAX_CATCHUP_UNITS.
unfoldable pub skip_pause : ℕ → Ipc → Ipc
skip_pause target s =
    if ltb (add64 s.units units_per_second) target
    then record s { units = sub64 target units_per_second }
    else s

-- A second is 733333 machine cycles and a part of one.
abbrev pub enough_cycles : ℕ
enough_cycles = 733335

unfoldable pub run_until : ℕ → Ipc → Option Ipc
unfolding skip_pause
run_until target s = run_loop enough_cycles target (skip_pause target s)

unfoldable pub ipc_lle_sync : Now → Ipc → Option Ipc
ipc_lle_sync now s = let run = run_until (ipc_target now s) s in if s.active then run else some s

unfoldable pub start_frame : Now → (frame_cycles native_cycles end : ℕ) → Ipc → Ipc
start_frame now frame_cycles native_cycles end s =
    on_wires
      (λ w. record w {
        frame_units = (if native_cycles == 0 then 149760 else native_cycles) * 22;
        ref_host_ms = now.ticks;
        ref_units = end;
        ref_valid = true;
      })
      (record s {
        frame_start_cycles = now.cycles;
        frame_start_units = end;
        frame_len_cycles = frame_cycles;
        frame_host_start = now.counter;
      })

unfoldable pub ipc_lle_frame : Now → (frame_cycles native_cycles : ℕ) → Ipc → Option Ipc
unfolding start_frame
ipc_lle_frame now frame_cycles native_cycles s =
    let end = add64 s.frame_start_units (wires s).frame_units in
    let run = run_until end s in
    if s.active
    then (elim run [
      | none ↦ none
      | some s' ↦ some (start_frame now frame_cycles native_cycles end s')
    ])
    else some s

-- The transaction before is complete: its answer is latched.
unfoldable pub feed_previous : Ipc → Decoder
unfolding pr_feed
feed_previous s = elim s.prev_sent [
  | none ↦ s.decoder
  | some bit ↦ pr_feed bit (wires s).comdata_to_cpu s.decoder
]

unfoldable pub write_comdata : ℕ → Ipc → Ipc
unfolding feed_previous load_comdata
write_comdata d s =
    let s1 = record s { trace_bits = (s.trace_bits + 1) % 2 ^ 32 } in
    let s2 =
      if leb 2 s.trace_level
      then record s1 { decoder = feed_previous s1; prev_sent = some (bit_and (d / 2) 1) }
      else s1 in
    on_wires (load_comdata d) s2

unfoldable pub ipc_lle_write_comdata : Now → ℕ → Ipc → Option Ipc
unfolding ipc_lle_sync write_comdata
ipc_lle_write_comdata now d s = elim (ipc_lle_sync now s) [
  | none ↦ none
  | some s' ↦ some (write_comdata d s')
]

unfoldable pub ipc_lle_status : Now → Ipc → Option (ℕ × Ipc)
unfolding ipc_lle_sync status
ipc_lle_status now s = elim (ipc_lle_sync now s) [
  | none ↦ none
  | some s' ↦ some (status (wires s'), s')
]

unfoldable pub ipc_lle_set_trace : ℕ → Ipc → Ipc
ipc_lle_set_trace level s = record s { trace_level = level }

-- `ipc_lle_trace`: the bits, the notes and the two times since the last report
unfoldable pub ipc_lle_trace : Now → Ipc → (ℕ × ℕ × ℕ × ℕ) × Ipc
ipc_lle_trace now s = (
  (
    s.trace_bits,
    (wires s).trace_notes,
    sub64 s.units s.trace_units0 / units_per_ms % 2 ^ 32,
    (now.ticks + 2 ^ 32 - s.trace_host0) % 2 ^ 32,
  ),
  on_wires (λ w. record w { trace_notes = 0 })
      (record s { trace_bits = 0; trace_units0 = s.units; trace_host0 = now.ticks }),
)

-- The rest of `ipc_lle_init` when the firmware is loaded into `rom`.
unfoldable pub ipc_lle_init : Now → (ℕ → ℕ) → Ipc → Ipc
ipc_lle_init now rom s =
    let w : Wires = record (wires s) {
      comdata_reg = 0x0f;
      ipc_busy = 0;
      comdata_to_cpu = 1;
      ipl_lines = 3;
      matrix = λ i. 0;
      keyq_rd = (wires s).keyq_wr;
      key_next = 0;
      frame_units = units_per_second / 50;
      ref_valid = false;
    } in
    record s {
      core = init ⦃io = pins s.units 0 0⦄ rom 2048 w;
      units = 0;
      frame_start_cycles = now.cycles;
      frame_start_units = 0;
      frame_len_cycles = 150000;
      active = true;
    }
