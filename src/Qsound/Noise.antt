-- ===== src/Qsound/Noise.antt =====
-- The noise generator of the QSound card (qsound.c) never stops.
use s_qlux.Base.{ℕ, ◌+◌, ◌*◌, ◌/◌, ◌%◌, ◌^◌, ◌<◌, ◌==◌, ◌≡◌, arith, to_ℕ}
use s_qlux.Base.{bit_and, bit_or, bit_xor, Bool-cases, inl, inr, ◌∙◌}
use s_qlux.Bits.{bit_and_mask, bit-bit_xor, bit_or_fields, bit_or_comm}
use s_qlux.Qsound.Voice.{shift_seed}

-- The new bit of the register
fresh : ℕ → ℕ
fresh seed = bit_and (bit_xor (bit_xor seed (seed / 2 ^ 3)) (to_ℕ (seed == 0))) 1

fresh-sum : (seed : ℕ) → fresh seed ≡ (seed + seed / 2 ^ 3 + to_ℕ (seed == 0)) % 2
unfolding fresh
fresh-sum seed = omega (
  arith,
  bit_and_mask 1 (bit_xor (bit_xor seed (seed / 2 ^ 3)) (to_ℕ (seed == 0))),
  bit-bit_xor 0 (bit_xor seed (seed / 2 ^ 3)) (to_ℕ (seed == 0)),
  bit-bit_xor 0 seed (seed / 2 ^ 3),
)

-- A register of 17 bits stays one, and it is not 0 after a step, whatever it was before: the noise
-- does not stop.
pub shift_seed-live :
    (seed : ℕ) → seed < 2 ^ 17 → (shift_seed seed < 2 ^ 17) × (0 < shift_seed seed)
unfolding shift_seed fresh
shift_seed-live seed small =
    let new = fresh seed in
    let joined : bit_or (seed / 2) (new * 2 ^ 16) ≡ new * 2 ^ 16 + seed / 2 =
      bit_or_comm (seed / 2) (new * 2 ^ 16) ∙ bit_or_fields 16 new (seed / 2) (omega arith) in
    let one : new < 2 = omega (arith, fresh-sum seed) in
    let live : 0 < new + seed / 2 = elim (Bool-cases (seed == 0)) [
      | inl empty ↦ ground (arith, fresh-sum seed)
      | inr some_bit ↦ ground (arith, fresh-sum seed)
    ] in
    rw joined (omega arith, omega arith)
