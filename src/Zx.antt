-- ===== src/Zx.antt =====
-- The ZX8301 (zx8301.c): the place of the beam and the wait states of the CPU, by counting clock
-- cycles from the vertical sync.
pub mod Beam
pub mod Wait
use s_qlux.Base.{
  ℕ, zero, suc, ◌+◌, ◌-◌, ◌*◌, ◌/◌, ◌%◌, ◌^◌, ltb, leb, ◌==◌, if◌then◌else◌, Bool, true, false,
}
use s_qlux.Base.{not, ◌&&◌, ◌||◌}
use s_qlux.Word.{long, is_neg, is_pos, sext_ptr}
use s_qlux.Memory.{is_ram}

-- `cycles` is `ql_cycles`.
pub record Zx : Type 0 where
  pub contention : Bool
  pub contention_cfg : Bool
  pub speed : ℕ
  pub hz : ℕ
  pub nlines : ℕ
  pub first : ℕ
  pub line_cyc : ℕ
  pub line_px : ℕ
  pub frame_px : ℕ
  pub frame : ℕ
  pub bus_t : ℕ
  pub line_t0 : ℕ
  pub line_t1 : ℕ
  pub line_busy : ℕ
  pub cycles : ℕ
  pub wait_total : ℕ

-- `uint64_t`
abbrev pub add64 : ℕ → ℕ → ℕ
add64 a b = (a + b) % 2 ^ 64

abbrev pub sub64 : ℕ → ℕ → ℕ
sub64 a b = (a + 2 ^ 64 - b) % 2 ^ 64

abbrev pub chunk_cycles : ℕ
chunk_cycles = 12

abbrev pub visible_lines : ℕ
visible_lines = 256

-- ZX_SPEED_NATIVE
abbrev pub speed_native : ℕ
speed_native = 20

-- `zx8301_init`
unfoldable pub init : Bool → Bool → ℕ → Zx → Zx
init contention ntsc vsync_lines z =
    let nlines = if ntsc then 262 else 312 in
    let fits =
      not (is_neg long vsync_lines) && leb ((vsync_lines + visible_lines) % 2 ^ 32) nlines in
    record z {
      contention_cfg = contention;
      contention = false;
      hz = if ntsc then 60 else 50;
      nlines = nlines;
      first = if fits then vsync_lines else if ntsc then 4 else 32;
      line_cyc = if ntsc then 474 else 480;
      line_px = if ntsc then 664 else 672;
      frame_px = if ntsc then 262 * 664 else 312 * 672;
      frame = z.cycles;
    }

unfoldable pub px_cycles : Zx → ℕ → ℕ → ℕ
px_cycles z frame_len px = frame_len * px % 2 ^ 64 / z.frame_px

unfoldable pub frame_cycles : Zx → ℕ
frame_cycles z = z.nlines * z.line_cyc % 2 ^ 32

unfoldable pub speed_unit : Zx → ℕ
unfolding frame_cycles
speed_unit z = frame_cycles z / speed_native

-- `(uint64_t)speed` keeps the sign of the `int`.
unfoldable pub frame_budget : Zx → ℕ → ℕ
unfolding frame_cycles
frame_budget z speed = sext_ptr long speed * frame_cycles z % 2 ^ 64 / speed_native

unfoldable pub line_time : Zx → ℕ → ℕ → ℕ → ℕ
line_time z frame_start frame_len vline =
    let pclk = (z.first + vline) % 2 ^ 32 * z.line_px % 2 ^ 64 in
    add64 frame_start (frame_len * pclk % 2 ^ 64 / z.frame_px)

-- `zx8301_frame`: a vertical sync.
unfoldable pub start_frame : ℕ → ℕ → Zx → Zx
start_frame now speed z = record z {
  frame = now;
  line_t0 = 0;
  line_t1 = 0;
  speed = speed;
  contention = z.contention_cfg && is_pos speed;
}

-- The busy chunks of a line: the fetch of the screen, or the refresh of the memory.
unfoldable pub busy_chunks : ℕ → ℕ → ℕ
busy_chunks first line =
    if leb first line && ltb line ((first + visible_lines) % 2 ^ 32) then 32 else 8

unfoldable pub locate_line : ℕ → Zx → Zx
locate_line c z =
    let line = sub64 c z.frame / z.line_cyc in
    let t0 = add64 z.frame (line * z.line_cyc % 2 ^ 64) in
    record z { line_t0 = t0; line_t1 = add64 t0 z.line_cyc; line_busy = busy_chunks z.first line }

-- The cycle of a QL that a cycle of the CPU falls on.
unfoldable pub native_cycle : Zx → ℕ → ℕ
native_cycle z c = sub64 c z.frame * speed_native % 2 ^ 64 / sext_ptr long z.speed

unfoldable pub could_start_scaled : ℕ → Zx → Bool
unfolding native_cycle
could_start_scaled c z =
    let n0 = native_cycle z c in
    let line = n0 / z.line_cyc in
    let pos = n0 % z.line_cyc in
    let n1 = native_cycle z (add64 c 1) in
    if ltb c z.frame
    then true
    else if leb (busy_chunks z.first line * chunk_cycles) pos || pos % chunk_cycles == 0
    then true
    else if ltb z.speed speed_native && ltb (chunk_cycles - pos % chunk_cycles) (sub64 n1 n0)
    then true
    else false

-- `zx_could_start`. The place in the line is cut to 32 bits.
unfoldable pub could_start : ℕ → Zx → Bool × Zx
unfolding could_start_scaled locate_line
could_start c z =
    if not (z.speed == speed_native)
    then (could_start_scaled c z, z)
    else (let z' =
          if (ltb c z.line_t0 || leb z.line_t1 c) || ltb c z.frame then locate_line c z else z in
        let x = sub64 c z'.line_t0 % 2 ^ 32 in
        (leb (z'.line_busy * chunk_cycles) x || x % chunk_cycles == 0, z'))

-- The loop of `zx_wait`, with the rounds that are left.
unfoldable pub wait_loop : ℕ → ℕ → ℕ → Zx → ℕ × Zx
wait_loop zero c wait z = (wait, z)
wait_loop (suc rounds) c wait z =
    let (ready, z') = could_start c z in
    elim ready [ true ↦ (wait, z') | false ↦ wait_loop rounds (add64 c 1) (wait + 1) z' ]

-- More rounds for the loop than a chunk of 12 cycles takes at the speed of the CPU.
abbrev pub enough_rounds : Zx → ℕ
enough_rounds z = z.speed + 12

-- `zx_wait`: a write decides one cycle later, and waits for one at least.
unfoldable pub wait_states : ℕ → Bool → Zx → ℕ × Zx
unfolding wait_loop
wait_states t is_write z =
    wait_loop (enough_rounds z) (add64 t (if is_write then 3 else 2)) (if is_write then 1 else 0) z

-- `for (i = 0; i < n; i++)` over the bytes of an access, with the waits added up.
unfoldable pub access_bytes : ℕ → Bool → ℕ → Zx → ℕ × Zx
access_bytes zero is_write total z = (total, z)
access_bytes (suc n) is_write total z =
    let (w, z') = wait_states z.bus_t is_write z in
    access_bytes n is_write (total + w) (record z' { bus_t = add64 z'.bus_t (4 + w) })

abbrev pub charge : ℕ × Zx → Zx
charge r = record r.1 { cycles = add64 r.1.cycles r.0; wait_total = add64 r.1.wait_total r.0 }

-- `zx8301_insn`: the fetch of an instruction from the internal RAM.
unfoldable pub instruction : ℕ → ℕ → ℕ → Zx → Zx
unfolding access_bytes
instruction t0 pc_addr prog_words z =
    let z' = record z { bus_t = t0 } in
    if not (prog_words == 0) && is_ram pc_addr
    then charge (access_bytes (2 * prog_words) false 0 z')
    else z'

-- `zx8301_ram`
unfoldable pub ram_access : ℕ → Bool → Zx → Zx
unfolding access_bytes
ram_access n is_write z =
    let late = ltb (add64 z.bus_t 1024) z.cycles || ltb z.cycles z.bus_t in
    charge (access_bytes n is_write 0 (if late then record z { bus_t = z.cycles } else z))
