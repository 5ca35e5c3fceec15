-- ===== src/Word.antt =====
-- The operand sizes of the 68000 and C's fixed-width integers, as bit patterns.
-- A `w8`, `w16` or `w32` is the number below 2 ^ 8, 2 ^ 16 or 2 ^ 32 with its bits; a cast to a
-- wider signed type is `sext`, a cast to a narrower one `%` (QL68000.h).
pub mod Tests
use s_qlux.Base.{ℕ, ◌+◌, ◌-◌, ◌*◌, ◌%◌, ◌^◌, ◌<◌, bit_and, ◌==◌, ltb, if◌then◌else◌, Bool, not}

-- The suffixes `_b`, `_w` and `_l` of the functions that the source writes out three times.
pub data Size : Type 0 where
  byte word long : Size

abbrev pub bits : Size → ℕ
bits byte = 8
bits word = 16
bits long = 32

abbrev pub bytes : Size → ℕ
bytes byte = 1
bytes word = 2
bytes long = 4

abbrev pub modulus : Size → ℕ
modulus byte = 2 ^ 8
modulus word = 2 ^ 16
modulus long = 2 ^ 32

-- The masks 0x80, 0x8000 and 0x80000000.
abbrev pub msb : Size → ℕ
msb byte = 2 ^ 7
msb word = 2 ^ 15
msb long = 2 ^ 31

-- `(x & m) != 0`
abbrev pub test : ℕ → ℕ → Bool
test x m = not (bit_and x m == 0)

-- `(m & a & b & c) != 0`, evaluated from the left.
abbrev pub test3 : ℕ → ℕ → ℕ → ℕ → Bool
test3 m a b c = not (bit_and (bit_and (bit_and m a) b) c == 0)

-- A cast to the signed or unsigned type of this size.
abbrev pub cut : Size → ℕ → ℕ
cut s x = x % modulus s

-- `x < 0`
abbrev pub is_neg : Size → ℕ → Bool
is_neg s x = not (ltb x (msb s))

-- A cast from the signed type of this size to `w32`.
abbrev pub sext : Size → ℕ → ℕ
sext s x = if ltb x (msb s) then x else x + (2 ^ 32 - modulus s)

-- The same to the width of a host pointer.
abbrev pub sext_ptr : Size → ℕ → ℕ
sext_ptr s x = if ltb x (msb s) then x else x + (2 ^ 64 - modulus s)

abbrev pub add_ptr : ℕ → ℕ → ℕ
add_ptr p n = (p + n) % 2 ^ 64

-- Arithmetic of `w32` and `uw32`.
abbrev pub add32 : ℕ → ℕ → ℕ
add32 a b = (a + b) % 2 ^ 32

abbrev pub sub32 : ℕ → ℕ → ℕ
sub32 a b = (a + 2 ^ 32 - b) % 2 ^ 32

-- `0 < x` of an `int`
abbrev pub is_pos : ℕ → Bool
is_pos x = if x == 0 then Bool.false else ltb x (2 ^ 31)

-- The number is a value of this size.
abbrev pub Fits : Size → ℕ → Type 0
Fits s x = x < modulus s
