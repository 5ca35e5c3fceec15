-- ===== src/Instr/RotateX/Ring.antt =====
-- ROXL and ROXR of a byte turn the ring of nine bits that X and the byte are.
use s_qlux.Base.{
  ℕ, ◌+◌, ◌-◌, ◌*◌, ◌/◌, ◌%◌, ◌^◌, ◌<◌, ◌≡◌, refl, arith, ◌==◌, Bool, true, false, to_ℕ,
}
use s_qlux.Base.{
  ◌||◌, ◌&&◌, all_below, all_below_sound, all_conditions, all_conditions_sound, Bool-cases, inl,
  inr,
}
use s_qlux.Word.{byte, word, long}
use s_qlux.Machine.{Ccr}
use s_qlux.Instr.Shift.{Shifted, flags_cx, lsr_i, lsl_i}
use s_qlux.Instr.RotateX.{roxr_by, roxl_by, roxr_r, roxl_r, roxr_i, roxl_i, lsr1, lsl1, lsl2_l}

-- The ring turned to the right by `k` places, and to the left.
abbrev pub ring_right : ℕ → ℕ → ℕ
ring_right k v = (v / 2 ^ k + v * 2 ^ (9 - k)) % 2 ^ 9

abbrev pub ring_of : Shifted → ℕ
ring_of s = to_ℕ s.1.xflag * 2 ^ 8 + s.0

-- The results of a count from 1 to 8, for X and a byte, and the forms for 8 in the instruction.
turns : Bool → ℕ → ℕ → Bool
turns x d k =
    let f = flags_cx x false false in
    let v = to_ℕ x * 2 ^ 8 + d in
    k == 0
    || (ring_of (roxr_by byte d k x) == ring_right k v
        && (ring_of (roxl_by byte d k x) == ring_right (9 - k) v
            && (ring_of (roxr_i byte d 0 f) == ring_right 8 v
                && ring_of (roxl_i byte d 0 f) == ring_right 1 v)))

row : Bool → ℕ → Bool
row x d = all_below 9 (λ k. turns x d k)

table : Bool → Bool
table x = all_below 256 (λ d. row x d)

table_checks : all_conditions table ≡ true
unfolding all_below table row turns roxr_by roxl_by roxr_i roxl_i
table_checks = refl

turns_lem : (x : Bool) (d k : ℕ) → d < 256 → k < 9 → turns x d k ≡ true
unfolding table row
turns_lem x d k h l =
    all_below_sound 9 (λ k'. turns x d k') k
      (all_below_sound 256 (λ d'. row x d') d (all_conditions_sound table x table_checks) h) l

four_equations :
    (k a a' b b' c c' e e' : ℕ)
    → 0 < k
    → k == 0 || (a == a' && (b == b' && (c == c' && e == e'))) ≡ true
    → (a ≡ a') × (b ≡ b') × (c ≡ c') × (e ≡ e')
four_equations k a a' b b' c c' e e' pos h = ground arith

abbrev Turned : Bool → ℕ → ℕ → Type 0
Turned x d k =
    let f = flags_cx x false false in
    let v = to_ℕ x * 2 ^ 8 + d in
    (ring_of (roxr_by byte d k x) ≡ ring_right k v)
    × (ring_of (roxl_by byte d k x) ≡ ring_right (9 - k) v)
    × (ring_of (roxr_i byte d 0 f) ≡ ring_right 8 v)
    × (ring_of (roxl_i byte d 0 f) ≡ ring_right 1 v)

turned : (x : Bool) (d k : ℕ) → d < 256 → 0 < k → k < 9 → Turned x d k
unfolding turns
turned x d k h pos l = four_equations k _ _ _ _ _ _ _ _ pos (turns_lem x d k h l)

still :
    (x : Bool) (d : ℕ)
    → d < 256
    → let v = to_ℕ x * 2 ^ 8 + d in (v ≡ ring_right 0 v) × (v ≡ ring_right 9 v)
still x d h = ground arith

-- A byte and X, as a ring of nine bits with X on top, under ROXR and ROXL: by a count in a
-- register the ring turns as many places to the right, or to the left, all counts modulo 9; by a
-- count of 0 in the instruction it turns 8 places.
pub roxr_r-ring_right :
    (d c : ℕ) (f : Ccr)
    → d < 256
    → let v = to_ℕ f.xflag * 2 ^ 8 + d in
      (ring_of (roxr_r byte d c f) ≡ ring_right (c % 9) v)
      × (ring_of (roxl_r byte d c f) ≡ ring_right (9 - c % 9) v)
      × (ring_of (roxr_i byte d 0 f) ≡ ring_right 8 v)
      × (ring_of (roxl_i byte d 0 f) ≡ ring_right 1 v)
unfolding roxr_r roxl_r roxr_i roxl_i
roxr_r-ring_right d c f h =
    let eight = turned f.xflag d 8 h (omega arith) (omega arith) in
    elim (Bool-cases (c % 9 == 0)) [
      | inl none ↦
          let zero_turn : c % 9 ≡ 0 = ground arith in
          let s = still f.xflag d h in
          elim (Bool-cases (c == 0)) [
            | inl zero_count ↦ rw (zero_count, zero_turn) (s.0, s.1, eight.2, eight.3)
            | inr count ↦ rw (count, none, zero_turn) (s.0, s.1, eight.2, eight.3)
          ]
      | inr some_turn ↦
          let pos : 0 < c % 9 = ground arith in
          let t = turned f.xflag d (c % 9) h pos (omega arith) in
          let count : c == 0 ≡ false = ground arith in
          rw (count, some_turn) (t.0, t.1, eight.2, eight.3)
    ]

-- The functions of their own for LSR and LSL by 1, and for LSL.L by 2, do what the general ones do.
pub lsr1-lsr_i :
    (d : ℕ) (f : Ccr)
    → (lsr1 byte d 1 f ≡ lsr_i byte d 1 f)
      × (lsr1 word d 1 f ≡ lsr_i word d 1 f)
      × (lsr1 long d 1 f ≡ lsr_i long d 1 f)
      × (lsl1 byte d 1 f ≡ lsl_i byte d 1 f)
      × (lsl1 word d 1 f ≡ lsl_i word d 1 f)
      × (lsl1 long d 1 f ≡ lsl_i long d 1 f)
      × (lsl2_l d 2 f ≡ lsl_i long d 2 f)
unfolding lsr1 lsl1 lsl2_l lsr_i lsl_i
lsr1-lsr_i d f = (refl, refl, refl, refl, refl, refl, refl)
