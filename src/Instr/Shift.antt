-- ===== src/Instr/Shift.antt =====
-- The shifts and rotates of registers (instructions_pz.c), as functions of the
-- operand, the count and the flags. The count of `_i` is the field of the instruction, 0 to 7;
-- that of `_r` the low six bits of a register.
use s_qlux.Base.{ℕ, ◌-◌, ◌*◌, ◌/◌, ◌^◌, bit_and, bit_or, ◌==◌, ltb, leb, if◌then◌else◌}
use s_qlux.Base.{Bool, true, false, not}
use s_qlux.Word.{Size, byte, word, long, bits, modulus, msb, cut, is_neg, test}
use s_qlux.Machine.{Ccr}
use s_qlux.Hardware.{asr}

-- A result with its flags.
abbrev pub Shifted : Type 0
Shifted = ℕ × Ccr

-- C and X together, with V cleared.
abbrev pub flags_cx : Bool → Bool → Bool → Ccr
flags_cx c n zero = record { xflag = c; negative = n; is_zero = zero; overflow = false; carry = c }

-- C alone, with V cleared: the rotates, and the counts of 0, leave X.
abbrev pub flags_c : Size → ℕ → Bool → Ccr → Ccr
flags_c z r c f = record {
  xflag = f.xflag;
  negative = test r (msb z);
  is_zero = r == 0;
  overflow = false;
  carry = c;
}

-- A count of 0 in the instruction stands for 8.
abbrev pub count_i : ℕ → ℕ
count_i q = if q == 0 then 8 else q

-- `negative ? -1 : 0`
abbrev pub sign_fill : Size → ℕ → ℕ
sign_fill z d = if is_neg z d then modulus z - 1 else 0

unfoldable pub asr_i : Size → ℕ → ℕ → Ccr → Shifted
asr_i byte d q f =
    if q == 0
    then (let r = sign_fill byte d in (r, flags_cx (test d 128) (is_neg byte d) (r == 0)))
    else (let r = asr byte d q in (r, flags_cx (test d (2 ^ (q - 1))) (is_neg byte d) (r == 0)))
asr_i z d q f =
    let c = count_i q in
    let r = asr z d c in (r, flags_cx (test d (2 ^ (c - 1))) (is_neg z d) (r == 0))

-- The bits that go through the sign: `0xff80 << (8 - c)` and the like.
abbrev pub asl_mask : Size → ℕ → ℕ
asl_mask byte c = cut byte (255 * 2 ^ (7 - c))
asl_mask word c = cut word (0xff80 * 2 ^ (8 - c))
asl_mask long c = cut long (0xff800000 * 2 ^ (8 - c))

-- V of ASL: the sign changed on the way.
abbrev pub asl_overflow : Size → ℕ → ℕ → Bool
asl_overflow z d mask =
    if is_neg z d then not (bit_and mask d == mask) else not (bit_and mask d == 0)

unfoldable pub asl_i : Size → ℕ → ℕ → Ccr → Shifted
asl_i z d q f =
    let c = count_i q in
    let carry = test d (msb z / 2 ^ (c - 1)) in
    let r = cut z (d * 2 ^ c) in
    let all : Bool = elim z [ byte ↦ c == 8 | word ↦ false | long ↦ false ] in
    let v = if all then not (d == 0) else asl_overflow z d (asl_mask z c) in
    (
      r,
      record {
        xflag = carry;
        negative = is_neg z r;
        is_zero = r == 0;
        overflow = v;
        carry = carry;
      },
    )

unfoldable pub lsr_i : Size → ℕ → ℕ → Ccr → Shifted
lsr_i byte d q f =
    if q == 0
    then (0, flags_cx (test d 128) false true)
    else (let r = d / 2 ^ q in (r, flags_cx (test d (2 ^ (q - 1))) false (r == 0)))
lsr_i z d q f =
    let c = count_i q in let r = d / 2 ^ c in (r, flags_cx (test d (2 ^ (c - 1))) false (r == 0))

unfoldable pub lsl_i : Size → ℕ → ℕ → Ccr → Shifted
lsl_i byte d q f =
    if q == 0
    then (0, flags_cx (test d 1) false true)
    else (let r = cut byte (d * 2 ^ q) in
        (r, flags_cx (test d (msb byte / 2 ^ (q - 1))) (is_neg byte r) (r == 0)))
lsl_i z d q f =
    let c = count_i q in
    let r = cut z (d * 2 ^ c) in (r, flags_cx (test d (msb z / 2 ^ (c - 1))) (is_neg z r) (r == 0))

-- `((*d) >> c) | ((*d) << (w - c))` and its mirror image.
abbrev pub rotate_right : Size → ℕ → ℕ → ℕ
rotate_right z d c = cut z (bit_or (d / 2 ^ c) (d * 2 ^ (bits z - c)))

abbrev pub rotate_left : Size → ℕ → ℕ → ℕ
rotate_left z d c = cut z (bit_or (d * 2 ^ c) (d / 2 ^ (bits z - c)))

unfoldable pub ror_i : Size → ℕ → ℕ → Ccr → Shifted
ror_i byte d q f =
    let r = if q == 0 then d else rotate_right byte d q in (r, flags_c byte r (test r (msb byte)) f)
ror_i z d q f = let r = rotate_right z d (count_i q) in (r, flags_c z r (test r (msb z)) f)

unfoldable pub rol_i : Size → ℕ → ℕ → Ccr → Shifted
rol_i byte d q f =
    let r = if q == 0 then d else rotate_left byte d q in (r, flags_c byte r (test r 1) f)
rol_i z d q f = let r = rotate_left z d (count_i q) in (r, flags_c z r (test r 1) f)

unfoldable pub asr_r : Size → ℕ → ℕ → Ccr → Shifted
asr_r z d c f =
    if c == 0
    then (d, record f { negative = is_neg z d; is_zero = d == 0; overflow = false; carry = false })
    else (let carry = if leb c (bits z) then test d (2 ^ (c - 1)) else false in
        let r = if ltb c (bits z) then asr z d c else sign_fill z d in
        let zero = if ltb c (bits z) then r == 0 else not (is_neg z d) in
        (r, flags_cx carry (is_neg z d) zero))

unfoldable pub asl_r : Size → ℕ → ℕ → Ccr → Shifted
asl_r z d c f =
    if c == 0
    then (d, record f { negative = is_neg z d; is_zero = d == 0; overflow = false; carry = false })
    else (let carry = if leb c (bits z) then test d (msb z / 2 ^ (c - 1)) else false in
        if ltb c (bits z)
        then (let r = cut z (d * 2 ^ c) in
            (
              r,
              record {
                xflag = carry;
                negative = is_neg z r;
                is_zero = r == 0;
                overflow = asl_overflow z d (cut z ((modulus z - 1) * 2 ^ (bits z - 1 - c)));
                carry = carry;
              },
            ))
        else (
          0,
          record {
            xflag = carry;
            negative = false;
            is_zero = true;
            overflow = not (d == 0);
            carry = carry;
          },
        ))

unfoldable pub lsr_r : Size → ℕ → ℕ → Ccr → Shifted
lsr_r z d c f =
    if c == 0
    then (d, record f { negative = is_neg z d; is_zero = d == 0; overflow = false; carry = false })
    else (let carry = if leb c (bits z) then test d (2 ^ (c - 1)) else false in
        let r = if ltb c (bits z) then d / 2 ^ c else 0 in (r, flags_cx carry false (r == 0)))

unfoldable pub lsl_r : Size → ℕ → ℕ → Ccr → Shifted
lsl_r z d c f =
    if c == 0
    then (d, record f { negative = is_neg z d; is_zero = d == 0; overflow = false; carry = false })
    else (let carry = if leb c (bits z) then test d (msb z / 2 ^ (c - 1)) else false in
        if ltb c (bits z)
        then (let r = cut z (d * 2 ^ c) in (r, flags_cx carry (is_neg z r) (r == 0)))
        else (0, flags_cx carry false true))

-- `c & 7`, `c & 15` and `c & 31`
abbrev pub turn : Size → ℕ → ℕ
turn z c = bit_and c (bits z - 1)

unfoldable pub ror_r : Size → ℕ → ℕ → Ccr → Shifted
ror_r z d c f =
    let r = if turn z c == 0 then d else rotate_right z d (turn z c) in
    if c == 0 then (d, flags_c z d false f) else (r, flags_c z r (test r (msb z)) f)

unfoldable pub rol_r : Size → ℕ → ℕ → Ccr → Shifted
rol_r z d c f =
    let r = if turn z c == 0 then d else rotate_left z d (turn z c) in
    if c == 0 then (d, flags_c z d false f) else (r, flags_c z r (test r 1) f)
