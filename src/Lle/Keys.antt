-- ===== src/Lle/Keys.antt =====
-- The queue of key changes and the matrix of the keyboard (ipc.c): `ipc_lle_key` and `key_apply`.
-- Times are `uint64_t`; `frame_units` is below 2^63, so the signed time of a change is cut at 0 by
-- the subtraction of natural numbers.
use s_qlux.Base.{ℕ, zero, suc, ◌+◌, ◌-◌, ◌*◌, ◌/◌, ◌%◌, ◌^◌, bit_and, bit_or, ltb, leb, ◌==◌}
use s_qlux.Base.{if◌then◌else◌, Bool, not, ◌&&◌, ◌||◌}
use s_qlux.Word.{long, is_neg}
use s_qlux.Machine.{update}
use s_qlux.Zx.{add64}
use s_qlux.Lle.{Key, Wires, units_per_ms}

-- KEYQ_LEN, IPC_KEY_MIN_SPACING_MS and IPC_KEY_MIN_HOLD_MS
abbrev pub keyq_len : ℕ
keyq_len = 128

abbrev pub min_spacing_ms : ℕ
min_spacing_ms = 2

abbrev pub min_hold_ms : ℕ
min_hold_ms = 40

abbrev pub next_slot : ℕ → ℕ
next_slot i = bit_and (i + 1) (keyq_len - 1)

-- `ipc_lle_key` at the time `host_ms`: a change is dropped when the queue is full.
unfoldable pub ipc_lle_key : ℕ → ℕ → Bool → Wires → Wires
ipc_lle_key host_ms code pressed w =
    let key : Key = record { code = bit_and code 0x3f; pressed = pressed; host_ms = host_ms } in
    if next_slot w.keyq_wr == w.keyq_rd then w else record w {
      keyq = λ i. if i == w.keyq_wr then key else w.keyq i;
      keyq_wr = next_slot w.keyq_wr;
    }

abbrev pub at_least : ℕ → ℕ → ℕ
at_least t low = if ltb t low then low else t

-- The time of a change on the clock of the 8049, one frame late
unfoldable pub frame_time : Key → Wires → ℕ
frame_time key w =
    let d = (key.host_ms + 2 ^ 32 - w.ref_host_ms) % 2 ^ 32 in
    let dt =
      if is_neg long d
      then w.frame_units - (2 ^ 32 - d) * units_per_ms
      else d * units_per_ms + w.frame_units in
    if w.ref_valid then add64 w.ref_units dt else 0

-- When the change at the head of the queue is due
unfoldable pub due : Key → Wires → ℕ
unfolding frame_time
due key w =
    let hold = min_hold_ms * units_per_ms in
    let spaced = at_least (frame_time key w) w.key_next in
    let released =
      if key.pressed then spaced else at_least spaced (add64 (w.key_down_at key.code) hold) in
    if leb key.code 2 then at_least released (add64 w.last_down_at hold) else released

-- A key that is no modifier is held.
unfoldable pub key_held : (ℕ → ℕ) → Bool
key_held m =
    (((((((not (bit_and (m 7) 0xf8 == 0) || not (m 0 == 0)) || not (m 1 == 0)) || not (m 2 == 0))
            || not (m 3 == 0))
          || not (m 4 == 0))
        || not (m 5 == 0))
      || not (m 6 == 0))

abbrev pub spacing : ℕ → ℕ
spacing t = add64 t (min_spacing_ms * units_per_ms)

-- `matrix[7] &= 0x07; memset(matrix, 0, 7);`
unfoldable pub release_held : ℕ → Wires → Wires
release_held t w = record w {
  matrix = λ i. if ltb i 7 then 0 else if i == 7 then bit_and (w.matrix 7) 0x07 else w.matrix i;
  key_next = spacing t;
}

unfoldable pub change_matrix : ℕ → Key → Wires → Wires
change_matrix now key w =
    let row = 7 - key.code / 8 in
    let bit = 2 ^ (key.code % 8) in
    if key.pressed
    then record w {
      matrix = update w.matrix row (bit_or (w.matrix row) bit);
      key_down_at = update w.key_down_at key.code now;
      last_down_at = now;
    }
    else record w { matrix = update w.matrix row (bit_and (w.matrix row) (0xff - bit)) }

unfoldable pub take_key : ℕ → ℕ → Key → Wires → Wires
unfolding change_matrix
take_key now t key w = record (change_matrix now key w) {
  keyq_rd = next_slot w.keyq_rd;
  key_next = spacing t;
}

-- The body of the loop of `key_apply` once the change is due
unfoldable pub key_step : ℕ → Key → Wires → Wires
unfolding due key_held release_held take_key
key_step now key w =
    let t = due key w in
    if leb key.code 2 && key_held w.matrix then release_held t w else take_key now t key w

unfoldable pub key_loop : ℕ → ℕ → Wires → Wires
unfolding due key_step
key_loop zero now w = w
key_loop (suc fuel) now w =
    let key = w.keyq w.keyq_rd in
    let rest = key_loop fuel now (key_step now key w) in
    if w.keyq_rd == w.keyq_wr then w else if ltb now (due key w) then w else rest

-- `key_apply`: a round for each change that is queued, and one more where held keys are released.
unfoldable pub key_apply : ℕ → Wires → Wires
unfolding key_loop
key_apply now w = key_loop (2 * keyq_len) now w
