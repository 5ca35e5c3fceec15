-- ===== src/Qsound/Voice.antt =====
-- The sound chip of the QSound card (qsound.c): the envelope, the tones and the noise as
-- `qsound_render_mix_s16` steps them, the level of each channel and the two sides of the output. The
-- filters and the mix into the stream, which are in floating point, are left out.
use s_qlux.Base.{ℕ, zero, suc, ◌+◌, ◌-◌, ◌*◌, ◌/◌, ◌^◌, bit_and, bit_or, bit_xor, ltb, leb}
use s_qlux.Base.{
  ◌==◌, if◌then◌else◌, Bool, true, false, not, ◌&&◌, ◌||◌, to_ℕ, List, [], ◌∷◌, Option, none, some,
}
use s_qlux.Word.{test}
use s_qlux.Qsound.{Qsound, Tone}

-- `ayemu_step_envelope`: the level and the hold in the second half of the shape, from `step16`.
unfoldable pub second_half : (shape step16 : ℕ) → Bool → ℕ
second_half shape step16 hold =
    let attack = test shape 4 in
    let alt = test shape 2 in
    if hold
    then (if alt then if attack then 0 else 15 else if attack then 15 else 0)
    else if alt
    then (if attack then 15 - step16 else step16)
    else if attack
    then step16
    else 15 - step16

unfoldable pub shape_level : ℕ → Qsound → Qsound
unfolding second_half
shape_level shape q =
    let attack = test shape 4 in
    let hold = test shape 1 in
    if ltb q.env_step 16
    then record q { env_vol = if attack then q.env_step else 15 - q.env_step }
    else if ltb q.env_step 32
    then (if not (test shape 8)
        then record q { env_vol = 0; env_holding = true }
        else record q { env_vol = second_half shape (q.env_step - 16) hold; env_holding = hold })
    else if test shape 8 && not hold
    then record q { env_step = 0; env_vol = if attack then 0 else 15 }
    else record q { env_holding = true }

unfoldable pub step_envelope : Qsound → Qsound
unfolding shape_level
step_envelope q =
    let q' = shape_level (bit_and (q.regs 13) 0x0f) q in
    if q.env_holding
    then q
    else if q'.env_holding
    then q'
    else record q' { env_step = q'.env_step + 1 }

-- A tone with its period; a null period mutes it.
unfoldable pub step_tone : ℕ → Tone → Tone
step_tone period t =
    if period == 0
    then record t { bit = false }
    else if leb period (t.cnt + 1)
    then record { cnt = 0; bit = not t.bit }
    else record t { cnt = t.cnt + 1 }

-- `seed` shifted by one, with the new bit at the top
unfoldable pub shift_seed : ℕ → ℕ
shift_seed seed =
    let fresh = bit_and (bit_xor (bit_xor seed (seed / 2 ^ 3)) (to_ℕ (seed == 0))) 1 in
    bit_or (seed / 2) (fresh * 2 ^ 16)

unfoldable pub step_noise : Qsound → Qsound
unfolding shift_seed
step_noise q =
    let period = bit_and (q.regs 6) 0x1f in
    let rising = not q.div_n in
    let q' =
      if period == 0
      then record q { div_n = false }
      else if leb period (q.cnt_n + 1)
      then record q {
        cnt_n = 0;
        div_n = rising;
        seed = if rising then shift_seed q.seed else q.seed;
      }
      else record q { cnt_n = q.cnt_n + 1 } in
    record q' { bit_n = not (test q'.seed 1) }

unfoldable pub period_of : ℕ → ℕ → ℕ
period_of high low = bit_or (bit_and high 0x0f * 2 ^ 8) low

unfoldable pub count_envelope : Qsound → Qsound
unfolding step_envelope
count_envelope q =
    let doubled = bit_or (q.regs 12 * 2 ^ 8) (q.regs 11) * 2 in
    let period = if doubled == 0 then 2 else doubled in
    if leb period (q.cnt_e + 1)
    then step_envelope (record q { cnt_e = 0 })
    else record q { cnt_e = q.cnt_e + 1 }

unfoldable pub step_tones : Qsound → Qsound
unfolding step_tone period_of
step_tones q = record q {
  tone_a = step_tone (period_of (q.regs 1) (q.regs 0)) q.tone_a;
  tone_b = step_tone (period_of (q.regs 3) (q.regs 2)) q.tone_b;
  tone_c = step_tone (period_of (q.regs 5) (q.regs 4)) q.tone_c;
}

-- The body of `while (tacts > 0)`
unfoldable pub tact : Qsound → Qsound
unfolding step_tones step_noise count_envelope
tact q = count_envelope (step_noise (step_tones q))

unfoldable pub tacts : ℕ → Qsound → Qsound
unfolding tact
tacts zero q = q
tacts (suc n) q = tacts n (tact q)

-- `ayemu_dac_table`
abbrev pub dac_levels : List ℕ
dac_levels =
    0 ∷ 0 ∷ 0 ∷ 0 ∷ 0 ∷ 1 ∷ 1 ∷ 1 ∷ 1 ∷ 1 ∷ 1 ∷ 2 ∷ 2 ∷ 2 ∷ 3 ∷ 4 ∷ 5 ∷ 6 ∷ 7 ∷ 8 ∷ 10 ∷ 12 ∷ 14
    ∷ 17 ∷ 20 ∷ 24 ∷ 28 ∷ 33 ∷ 37 ∷ 40 ∷ 40 ∷ 40 ∷ []

abbrev pub dac_at : List ℕ → ℕ → Option ℕ
dac_at [] i = none
dac_at (v ∷ l) zero = some v
dac_at (v ∷ l) (suc i) = dac_at l i

-- The level of a channel: `v` is its volume, and nothing stands for a read past the table.
unfoldable pub channel : (mask volume : ℕ) → Bool → Qsound → Option ℕ
channel mask volume tone q =
    let v = if test volume 0x10 then q.env_vol else bit_and volume 0x0f in
    if (tone || test (q.regs 7) mask) && (q.bit_n || test (q.regs 7) (mask * 8))
    then (if v == 0 then some 0 else dac_at dac_levels (v * 2 + 1))
    else some 0

unfoldable pub channel_a : Qsound → Option ℕ
channel_a q = channel 1 (q.regs 8) q.tone_a.bit q

unfoldable pub channel_b : Qsound → Option ℕ
channel_b q = channel 2 (q.regs 9) q.tone_b.bit q

unfoldable pub channel_c : Qsound → Option ℕ
channel_c q = channel 4 (q.regs 10) q.tone_c.bit q

pub data Mode : Type 0 where
  stereo_abc stereo_acb mono : Mode

-- `raw_l` and `raw_r`, which are whole numbers
unfoldable pub pan : Mode → (a b c : ℕ) → ℕ × ℕ
pan stereo_abc a b c = ((a + b / 2) * 256, (c + b / 2) * 256)
pan stereo_acb a b c = ((a + c / 2) * 256, (b + c / 2) * 256)
pan mono a b c = ((a + b + c) / 2 * 256, (a + b + c) / 2 * 256)
