-- ===== src/Instr/RotateX.antt =====
-- ROXL and ROXR of registers, and the shifts with functions of their own for a count of 1 or 2
-- (instructions_pz.c), on the operand, the count and the flags like those of Shift.
pub mod Ring
use s_qlux.Base.{
  ℕ, ◌+◌, ◌-◌, ◌*◌, ◌/◌, ◌%◌, ◌^◌, bit_and, bit_or, ◌==◌, if◌then◌else◌, Bool, true, false, to_ℕ,
}
use s_qlux.Word.{Size, byte, word, long, bits, msb, cut, is_neg, test}
use s_qlux.Machine.{Ccr, Act}
use s_qlux.Device.{Bus}
use s_qlux.Instr.Shift.{Shifted, flags_cx, count_i}
use s_qlux.Instr.ShiftOps.{shift_i, shift_r, shift_by}

-- C is X in all of them.
abbrev pub with_x : Size → ℕ → Bool → Shifted
with_x z r x = (r, flags_cx x (test r (msb z)) (r == 0))

-- A count of 1 to 8, 16 or 32, by `temp`, which has X in the place of the bit that is free.
unfoldable pub roxr_by : Size → ℕ → ℕ → Bool → Shifted
roxr_by z d c x =
    let temp = bit_or (cut z (d * 2)) (if x then 1 else 0) in
    with_x z (cut z (bit_or (d / 2 ^ c) (temp * 2 ^ (bits z - c)))) (test d (2 ^ (c - 1)))

unfoldable pub roxl_by : Size → ℕ → ℕ → Bool → Shifted
roxl_by z d c x =
    let temp = bit_or (d / 2) (if x then msb z else 0) in
    with_x z (cut z (bit_or (d * 2 ^ c) (temp / 2 ^ (bits z - c)))) (test d (msb z / 2 ^ (c - 1)))

-- By 8, a byte goes round the other way by one.
unfoldable pub roxr_i : Size → ℕ → ℕ → Ccr → Shifted
unfolding roxr_by
roxr_i byte d q f =
    if q == 0
    then with_x byte (bit_or (cut byte (d * 2)) (if f.xflag then 1 else 0)) (test d 128)
    else roxr_by byte d q f.xflag
roxr_i z d q f = roxr_by z d (count_i q) f.xflag

unfoldable pub roxl_i : Size → ℕ → ℕ → Ccr → Shifted
unfolding roxl_by
roxl_i byte d q f =
    if q == 0
    then with_x byte (bit_or (d / 2) (if f.xflag then 128 else 0)) (test d 1)
    else roxl_by byte d q f.xflag
roxl_i z d q f = roxl_by z d (count_i q) f.xflag

-- The 33 bits of X and a long, in a `uint64_t`.
unfoldable pub rox_long : ℕ → Shifted
rox_long r = with_x long (r % 2 ^ 32) (bit_and (r / 2 ^ 32) 1 == 1)

unfoldable pub roxr_r : Size → ℕ → ℕ → Ccr → Shifted
unfolding roxr_by rox_long
roxr_r long d c f =
    let k = c % 33 in
    let r = bit_or (to_ℕ f.xflag * 2 ^ 32) d in
    if k == 0
    then with_x long d f.xflag
    else rox_long (bit_or (r / 2 ^ k) (r * 2 ^ (33 - k) % 2 ^ 64))
roxr_r z d c f =
    if c == 0
    then with_x z d f.xflag
    else if c % (bits z + 1) == 0
    then with_x z d f.xflag
    else roxr_by z d (c % (bits z + 1)) f.xflag

unfoldable pub roxl_r : Size → ℕ → ℕ → Ccr → Shifted
unfolding roxl_by rox_long
roxl_r long d c f =
    let k = c % 33 in
    let r = bit_or (to_ℕ f.xflag * 2 ^ 32) d in
    if k == 0
    then with_x long d f.xflag
    else rox_long (bit_or (r * 2 ^ k % 2 ^ 64) (r / 2 ^ (33 - k)))
roxl_r z d c f =
    if c == 0
    then with_x z d f.xflag
    else if c % (bits z + 1) == 0
    then with_x z d f.xflag
    else roxl_by z d (c % (bits z + 1)) f.xflag

unfoldable pub lsr1 : Size → ℕ → ℕ → Ccr → Shifted
lsr1 z d q f = let r = d / 2 in (r, flags_cx (test d 1) false (r == 0))

unfoldable pub lsl1 : Size → ℕ → ℕ → Ccr → Shifted
lsl1 z d q f = let r = cut z (d * 2) in (r, flags_cx (test d (msb z)) (is_neg z r) (r == 0))

unfoldable pub lsl2_l : ℕ → ℕ → Ccr → Shifted
lsl2_l d q f =
    let r = cut long (d * 4) in (r, flags_cx (test d 0x40000000) (is_neg long r) (r == 0))
