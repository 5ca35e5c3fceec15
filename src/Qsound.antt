-- ===== src/Qsound.antt =====
-- The QSound card (qsound.c): an AY-3-8910 behind a MC6821 or mapped directly, as the CPU sees it.
pub mod Voice
pub mod Registers
pub mod Noise
pub mod Level
pub mod Mapped
use s_qlux.Base.{ℕ, zero, suc, ◌+◌, ◌-◌, ◌*◌, ◌/◌, ◌%◌, ◌^◌, bit_and, bit_or, bit_xor, ltb, leb}
use s_qlux.Base.{
  ◌==◌, if◌then◌else◌, Bool, true, false, not, ◌&&◌, ◌||◌, to_ℕ, List, [], ◌∷◌, Option, none, some,
}
use s_qlux.Word.{test}
use s_qlux.Machine.{update}

-- A tone generator: its counter and its output.
pub record Tone : Type 0 where
  pub cnt : ℕ
  pub bit : Bool

-- The registers of `QSoundState`
pub record Qsound : Type 0 where
  pub enabled : Bool
  pub regs : ℕ → ℕ
  pub ay_addr : ℕ
  pub port_a : ℕ
  pub port_b : ℕ
  pub tone_a : Tone
  pub tone_b : Tone
  pub tone_c : Tone
  pub cnt_n : ℕ
  pub seed : ℕ
  pub bit_n : Bool
  pub div_n : Bool
  pub cnt_e : ℕ
  pub env_step : ℕ
  pub env_vol : ℕ
  pub env_holding : Bool

abbrev pub quiet : Tone
quiet = record { cnt = 0; bit = false }

-- `qsound_reset`
unfoldable pub reset : Qsound → Qsound
reset q = record {
  enabled = q.enabled;
  regs = λ i. if i == 7 then 0xff else 0;
  ay_addr = 0;
  port_a = 0;
  port_b = 0;
  tone_a = quiet;
  tone_b = quiet;
  tone_c = quiet;
  cnt_n = 0;
  seed = 0;
  bit_n = true;
  div_n = false;
  cnt_e = 0;
  env_step = 0;
  env_vol = 0;
  env_holding = false;
}

-- `qsound_is_read_active`, as a number
unfoldable pub is_read_active : ℕ → Qsound → ℕ
is_read_active addr q =
    let a = bit_and addr 0xffff in
    if not q.enabled
    then 0
    else if (bit_and a 0xf000 == 0x3000) && not (a == 0x3000)
    then 1
    else if (bit_and a 0xf000 == 0x2000) && ((a == 0x2000) || (a == 0x2001))
    then bit_and q.port_b 1
    else 0

-- `ayemu_write_reg`: the shape of the envelope starts it anew.
unfoldable pub write_reg : ℕ → ℕ → Qsound → Qsound
write_reg reg val q =
    let q' = record q { regs = update q.regs reg val } in
    if ltb 13 reg
    then q
    else if reg == 13
    then record q' {
      cnt_e = 0;
      env_step = 0;
      env_holding = false;
      env_vol = if test val 4 then 0 else 15;
    }
    else q'

-- Port B of the MC6821: BDIR and BC1.
unfoldable pub write_control : ℕ → Qsound → Qsound
unfolding write_reg
write_control val q =
    let q' = record q { port_b = val } in
    if bit_and val 5 == 5
    then record q' { ay_addr = bit_and q'.port_a 0x0f }
    else if bit_and val 5 == 4
    then write_reg q'.ay_addr q'.port_a q'
    else q'

-- `qsound_write_byte`
unfoldable pub write_byte : ℕ → ℕ → Qsound → Qsound
unfolding write_control
write_byte addr val q =
    let a = bit_and addr 0xffff in
    if not q.enabled
    then q
    else if bit_and a 0xf000 == 0x3000
    then (if a == 0x3000
        then record q { ay_addr = bit_and val 0x0f }
        else write_reg q.ay_addr val q)
    else if bit_and a 0xf000 == 0x2000
    then (if (a == 0x2000) || (a == 0x2001) then record q { port_a = val } else write_control val q)
    else q

abbrev pub selected : Qsound → ℕ
selected q = if ltb q.ay_addr 14 then q.regs q.ay_addr else 0xff

-- `qsound_read_byte`. `qsound_rom_loaded` is never set, so the card has no ROM.
unfoldable pub read_byte : ℕ → Qsound → ℕ
read_byte addr q =
    let a = bit_and addr 0xffff in
    if not q.enabled
    then 0xff
    else if bit_and a 0xf000 == 0x3000
    then (if a == 0x3000 then 0xff else selected q)
    else if (bit_and a 0xf000 == 0x2000) && ((a == 0x2000) || (a == 0x2001))
    then (if test q.port_b 1 then selected q else q.port_a)
    else 0xff
