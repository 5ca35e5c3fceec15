-- ===== src/Qsound/Level.antt =====
-- The levels of the channels of the QSound card (qsound.c) are read inside the table.
use s_qlux.Base.{ℕ, zero, suc, ◌+◌, ◌-◌, ◌*◌, ◌≤◌, leb, ◌==◌, if◌then◌else◌}
use s_qlux.Base.{Bool, true, false, List, [], ◌∷◌, Option, none, some, bit_and}
use s_qlux.Base.{◌≡◌, refl, arith, all_below, all_below_sound}
use s_qlux.Word.{test}
use s_qlux.Bits.{bit_and_mask}
use s_qlux.Qsound.{Qsound, reset, write_byte, write_reg, write_control}
use s_qlux.Qsound.Voice.{
  tact, tacts, count_envelope, step_tones, step_noise, step_envelope, shape_level, second_half,
  channel, dac_at, dac_levels, channel_a, channel_b, channel_c,
}

-- The level of the envelope has four bits.
unfoldable pub IsLevel : Qsound → Type 0
IsLevel q = q.env_vol ≤ 15

second_half-le : (shape step16 : ℕ) (hold : Bool) → step16 ≤ 15 → second_half shape step16 hold ≤ 15
unfolding second_half
second_half-le shape step16 hold h = ground arith

shape_level-IsLevel : (shape : ℕ) (q : Qsound) → IsLevel q → IsLevel (shape_level shape q)
unfolding shape_level IsLevel
shape_level-IsLevel shape q h =
    ground (arith, second_half-le shape (q.env_step - 16) (test shape 1))

step_envelope-IsLevel : (q : Qsound) → IsLevel q → IsLevel (step_envelope q)
unfolding step_envelope IsLevel
step_envelope-IsLevel q h = ground (arith, shape_level-IsLevel (bit_and (q.regs 13) 0x0f) q h)

count_envelope-IsLevel : (q : Qsound) → IsLevel q → IsLevel (count_envelope q)
unfolding count_envelope IsLevel
count_envelope-IsLevel q h = ground (arith, step_envelope-IsLevel (record q { cnt_e = 0 }) h)

step_noise-IsLevel : (q : Qsound) → IsLevel q → IsLevel (step_noise q)
unfolding step_noise IsLevel
step_noise-IsLevel q h = ground arith

tact-IsLevel : (q : Qsound) → IsLevel q → IsLevel (tact q)
unfolding tact step_tones IsLevel
tact-IsLevel q h =
    count_envelope-IsLevel (step_noise (step_tones q)) (step_noise-IsLevel (step_tones q) h)

tacts-IsLevel : (n : ℕ) (q : Qsound) → IsLevel q → IsLevel (tacts n q)
unfolding tacts
tacts-IsLevel zero q h = h
tacts-IsLevel (suc n) q h = tacts-IsLevel n (tact q) (tact-IsLevel q h)

write_reg-IsLevel : (r v : ℕ) (q : Qsound) → IsLevel q → IsLevel (write_reg r v q)
unfolding write_reg IsLevel
write_reg-IsLevel r v q h = ground arith

write_control-IsLevel : (v : ℕ) (q : Qsound) → IsLevel q → IsLevel (write_control v q)
unfolding write_control IsLevel
write_control-IsLevel v q h =
    ground (arith, write_reg-IsLevel q.ay_addr q.port_a (record q { port_b = v }) h)

write_byte-IsLevel : (addr v : ℕ) (q : Qsound) → IsLevel q → IsLevel (write_byte addr v q)
unfolding write_byte IsLevel
write_byte-IsLevel addr v q h =
    ground (arith, write_reg-IsLevel q.ay_addr v q h, write_control-IsLevel v q h)

reset-IsLevel : (q : Qsound) → IsLevel (reset q)
unfolding reset IsLevel
reset-IsLevel q = omega arith

-- What the machine and the audio callback do to the card.
pub data Event : Type 0 where
  restart : Event
  poke : (addr v : ℕ) → Event
  play : (n : ℕ) → Event

unfoldable pub handle : Event → Qsound → Qsound
unfolding reset write_byte tacts
handle restart q = reset q
handle (poke addr v) q = write_byte addr v q
handle (play n) q = tacts n q

unfoldable pub handle_all : List Event → Qsound → Qsound
unfolding handle
handle_all [] q = q
handle_all (e ∷ l) q = handle_all l (handle e q)

handle_all-IsLevel : (l : List Event) (q : Qsound) → IsLevel q → IsLevel (handle_all l q)
unfolding handle_all handle
handle_all-IsLevel [] q h = h
handle_all-IsLevel (restart ∷ l) q h = handle_all-IsLevel l (reset q) (reset-IsLevel q)
handle_all-IsLevel (poke addr v ∷ l) q h =
    handle_all-IsLevel l (write_byte addr v q) (write_byte-IsLevel addr v q h)
handle_all-IsLevel (play n ∷ l) q h = handle_all-IsLevel l (tacts n q) (tacts-IsLevel n q h)

-- There is a level, and it is 40 at most.
unfoldable pub HasLevel : Option ℕ → Type 0
HasLevel o = (v : ℕ) × ((o ≡ some v) × (v ≤ 40))

found : Option ℕ → Bool
found none = false
found (some v) = leb v 40

found-HasLevel : (o : Option ℕ) → found o ≡ true → HasLevel o
unfolding found HasLevel
found-HasLevel (some v) h = (v, (refl, ground arith))
found-HasLevel none h = ground arith

table-HasLevel : (v : ℕ) → v ≤ 15 → HasLevel (dac_at dac_levels (v * 2 + 1))
unfolding found all_below
table-HasLevel v h =
    found-HasLevel (dac_at dac_levels (v * 2 + 1))
      (all_below_sound 16 (λ k. found (dac_at dac_levels (k * 2 + 1))) v refl (omega arith))

choose-HasLevel :
    (b : Bool) (o p : Option ℕ) → HasLevel o → HasLevel p → HasLevel (if b then o else p)
choose-HasLevel true o p h k = h
choose-HasLevel false o p h k = k

silent-HasLevel : HasLevel (some 0)
unfolding HasLevel
silent-HasLevel = (0, (refl, omega arith))

channel-HasLevel :
    (mask volume : ℕ) (tone : Bool) (q : Qsound) → IsLevel q → HasLevel (channel mask volume tone q)
unfolding channel IsLevel
channel-HasLevel mask volume tone q h =
    let v = if test volume 0x10 then q.env_vol else bit_and volume 0x0f in
    let small : v ≤ 15 = ground (arith, bit_and_mask 4 volume) in
    choose-HasLevel _ _ _
      (choose-HasLevel (v == 0) (some 0) (dac_at dac_levels (v * 2 + 1)) silent-HasLevel
        (table-HasLevel v small))
      silent-HasLevel

-- Whatever was written to the card and however long it has played, every channel finds its level in
-- the table, and it is 40 at most.
pub channels-HasLevel :
    (l : List Event) (q : Qsound)
    → IsLevel q
    → HasLevel (channel_a (handle_all l q))
      × HasLevel (channel_b (handle_all l q))
      × HasLevel (channel_c (handle_all l q))
unfolding channel_a channel_b channel_c
channels-HasLevel l q h =
    let s = handle_all l q in
    let level = handle_all-IsLevel l q h in
    (
      channel-HasLevel 1 (s.regs 8) s.tone_a.bit s level,
      channel-HasLevel 2 (s.regs 9) s.tone_b.bit s level,
      channel-HasLevel 4 (s.regs 10) s.tone_c.bit s level,
    )
