-- ===== src/Lle/Due.antt =====
-- `key_apply` (ipc.c) leaves no change in the queue that is due, in the rounds that it has.
use s_qlux.Base.{ℕ, zero, suc, ◌+◌, ◌*◌, ◌%◌, ◌^◌, ◌≤◌, ◌<◌, ltb, leb, ◌==◌}
use s_qlux.Base.{Bool, true, false, ◌&&◌, ◌≡◌, ◌≢◌, ◌⊎◌, inl, inr, refl, arith}
use s_qlux.Base.{bit_and, to_ℕ, Bool-cases, all_below, all_below_sound}
use s_qlux.Bits.{bit_and_mask}
use s_qlux.Lle.{Key, Wires}
use s_qlux.Lle.Keys.{due, key_held, release_held, take_key, change_matrix, key_step, key_loop}
use s_qlux.Lle.Keys.{key_apply}
use s_qlux.Lle.Queue.{IsQueue, pending, next_slot_mod}

-- The queue is empty, or its first change is due later.
pub IsSettled : ℕ → Wires → Type 0
IsSettled now w = (w.keyq_rd ≡ w.keyq_wr) ⊎ (now < due (w.keyq w.keyq_rd) w)

-- Two rounds for each change, and one for the keys that are held.
rounds : Wires → ℕ
unfolding pending
rounds w = 2 * pending w + to_ℕ (key_held w.matrix)

low_bits : (m : ℕ) → bit_and (bit_and m 7) 0xf8 ≡ 0
unfolding all_below
low_bits m =
    let low : m % 2 ^ 3 < 8 = omega arith in
    let none_set : (bit_and (m % 2 ^ 3) 0xf8 == 0) ≡ true =
      all_below_sound 8 (λ k. bit_and k 0xf8 == 0) (m % 2 ^ 3) refl low in
    rw (bit_and_mask 3 m) (ground arith)

release-key_held : (t : ℕ) (w : Wires) → key_held (release_held t w).matrix ≡ false
unfolding key_held release_held
release-key_held t w = rw (low_bits (w.matrix 7)) refl

to_ℕ-le : (b : Bool) → to_ℕ b ≤ 1
to_ℕ-le true = omega arith
to_ℕ-le false = omega arith

pending-pos : (w : Wires) → IsQueue w → w.keyq_rd ≢ w.keyq_wr → 0 < pending w
unfolding pending
pending-pos w h differ = ground arith

module _ (now : ℕ) (key : Key) (w : Wires) (h : IsQueue w) (differ : w.keyq_rd ≢ w.keyq_wr) where
  change-wr : (change_matrix now key w).keyq_wr ≡ w.keyq_wr
  unfolding change_matrix
  change-wr = ground arith

  take-IsQueue : (t : ℕ) → IsQueue (take_key now t key w)
  unfolding take_key
  take-IsQueue t = record {
    read_in = rw (next_slot_mod w.keyq_rd) (omega arith);
    write_in = rw change-wr h.write_in;
  }

  take-pending : (t : ℕ) → pending (take_key now t key w) + 1 ≡ pending w
  unfolding take_key pending
  take-pending t = rw (next_slot_mod w.keyq_rd, change-wr) (ground arith)

  release-IsQueue : (t : ℕ) → IsQueue (release_held t w)
  unfolding release_held
  release-IsQueue t = record { read_in = h.read_in; write_in = h.write_in }

  release-pending : (t : ℕ) → pending (release_held t w) ≡ pending w
  unfolding release_held pending
  release-pending t = refl

  key_step-rounds : IsQueue (key_step now key w) × (rounds (key_step now key w) < rounds w)
  unfolding key_step rounds
  key_step-rounds = elim (Bool-cases (leb key.code 2 && key_held w.matrix)) [
    | inl release ↦
        (let held : key_held w.matrix ≡ true = ground arith in
          rw (release, held, release-key_held (due key w) w, release-pending (due key w))
            (release-IsQueue (due key w), omega arith))
    | inr no_release ↦
        (let one : to_ℕ (key_held (take_key now (due key w) key w).matrix) ≤ 1 = to_ℕ-le _ in
          let fewer : pending (take_key now (due key w) key w) + 1 ≡ pending w =
            take-pending (due key w) in
          rw no_release (take-IsQueue (due key w), omega arith))
  ]

key_loop-IsSettled :
    (fuel now : ℕ) (w : Wires)
    → IsQueue w
    → rounds w < fuel
    → IsSettled now (key_loop fuel now w) × IsQueue (key_loop fuel now w)
unfolding key_loop IsSettled
key_loop-IsSettled (suc fuel) now w h enough = elim (Bool-cases (w.keyq_rd == w.keyq_wr)) [
  | inl empty ↦ rw empty (inl (ground arith), h)
  | inr more ↦ elim (Bool-cases (ltb now (due (w.keyq w.keyq_rd) w))) [
    | inl later ↦ rw (more, later) (inr (ground arith), h)
    | inr ready ↦
        (let step = key_step-rounds now (w.keyq w.keyq_rd) w h (λ e. ground arith) in
          rw (more, ready)
            (key_loop-IsSettled fuel now (key_step now (w.keyq w.keyq_rd) w) step.0 (omega arith)))
  ]
]
key_loop-IsSettled zero now w h enough = absurd (omega arith)

-- After `key_apply` the queue is empty or its first change is due later, and it is still inside the
-- ring.
pub key_apply-IsSettled :
    (now : ℕ) (w : Wires) → IsQueue w → IsSettled now (key_apply now w) × IsQueue (key_apply now w)
unfolding key_apply rounds pending
key_apply-IsSettled now w h =
    let one : to_ℕ (key_held w.matrix) ≤ 1 = to_ℕ-le (key_held w.matrix) in
    key_loop-IsSettled 256 now w h (omega arith)
