-- ===== src/Word/Tests.antt =====
-- A mask with one bit is a test of that bit: the flag formulas of the source are made of these.
use s_qlux.Base.{ℕ, zero, suc, ◌*◌, ◌^◌, ◌<◌, bit_and, bit_or, bit_xor, ◌≡◌, arith}
use s_qlux.Base.{◌==◌, not, ◌&&◌, ◌||◌}
use s_qlux.Bits.{bit, bit-bit_and, bit-bit_or, bit-bit_xor, bit_and-pow, pow-bit_and, flag-bit_and}
use s_qlux.Word.{Size, byte, word, long, msb, test, test3, is_neg, Fits, cut}

-- The sign bit of a value.
pub test-msb : (s : Size) (x : ℕ) → Fits s x → test x (msb s) ≡ is_neg s x
test-msb byte x h = ground (arith, bit_and-pow 7 x)
test-msb word x h = ground (arith, bit_and-pow 15 x)
test-msb long x h = ground (arith, bit_and-pow 31 x)

pub test-bit_and :
    (s : Size) (x y : ℕ) → test (bit_and x y) (msb s) ≡ test x (msb s) && test y (msb s)
test-bit_and byte x y =
    ground (arith, bit_and-pow 7 x, bit_and-pow 7 y, bit_and-pow 7 (bit_and x y), bit-bit_and 7 x y)
test-bit_and word x y =
    ground
      (arith, bit_and-pow 15 x, bit_and-pow 15 y, bit_and-pow 15 (bit_and x y), bit-bit_and 15 x y)
test-bit_and long x y =
    ground
      (arith, bit_and-pow 31 x, bit_and-pow 31 y, bit_and-pow 31 (bit_and x y), bit-bit_and 31 x y)

pub test-bit_or :
    (s : Size) (x y : ℕ) → test (bit_or x y) (msb s) ≡ test x (msb s) || test y (msb s)
test-bit_or byte x y =
    ground (arith, bit_and-pow 7 x, bit_and-pow 7 y, bit_and-pow 7 (bit_or x y), bit-bit_or 7 x y)
test-bit_or word x y =
    ground
      (arith, bit_and-pow 15 x, bit_and-pow 15 y, bit_and-pow 15 (bit_or x y), bit-bit_or 15 x y)
test-bit_or long x y =
    ground
      (arith, bit_and-pow 31 x, bit_and-pow 31 y, bit_and-pow 31 (bit_or x y), bit-bit_or 31 x y)

pub test-bit_xor : (s : Size) (x : ℕ) → test (bit_xor x (msb s)) (msb s) ≡ not (test x (msb s))
test-bit_xor byte x =
    ground (arith, bit_and-pow 7 x, bit_and-pow 7 (bit_xor x (2 ^ 7)), bit-bit_xor 7 x (2 ^ 7))
test-bit_xor word x =
    ground (arith, bit_and-pow 15 x, bit_and-pow 15 (bit_xor x (2 ^ 15)), bit-bit_xor 15 x (2 ^ 15))
test-bit_xor long x =
    ground (arith, bit_and-pow 31 x, bit_and-pow 31 (bit_xor x (2 ^ 31)), bit-bit_xor 31 x (2 ^ 31))

product : (x y : ℕ) → x < 2 → y < 2 → x * y < 2
product zero y p q = omega arith
product (suc zero) y p q = omega arith
product (suc (suc x)) y p q = absurd (omega arith)

-- Three values under one mask, which stands first.
masks :
    (k a b c : ℕ) → bit_and (bit_and (bit_and (2 ^ k) a) b) c ≡ bit k a * bit k b * bit k c * 2 ^ k
masks k a b c =
    rw (pow-bit_and k a, flag-bit_and k (bit k a) b (omega arith))
      (flag-bit_and k (bit k a * bit k b) c
        (product (bit k a) (bit k b) (omega arith) (omega arith)))

pub test3-msb :
    (s : Size) (a b c : ℕ)
    → test3 (msb s) a b c ≡ test a (msb s) && (test b (msb s) && test c (msb s))
test3-msb byte a b c =
    ground (arith, masks 7 a b c, bit_and-pow 7 a, bit_and-pow 7 b, bit_and-pow 7 c)
test3-msb word a b c =
    ground (arith, masks 15 a b c, bit_and-pow 15 a, bit_and-pow 15 b, bit_and-pow 15 c)
test3-msb long a b c =
    ground (arith, masks 31 a b c, bit_and-pow 31 a, bit_and-pow 31 b, bit_and-pow 31 c)

pub cut-Fits : (s : Size) (x : ℕ) → Fits s (cut s x)
cut-Fits byte x = omega arith
cut-Fits word x = omega arith
cut-Fits long x = omega arith

pub cut-eq : (s : Size) (x : ℕ) → Fits s x → cut s x ≡ x
cut-eq byte x h = omega arith
cut-eq word x h = omega arith
cut-eq long x h = omega arith

masks2 : (k a b : ℕ) → bit_and (bit_and (2 ^ k) a) b ≡ bit k a * bit k b * 2 ^ k
masks2 k a b = rw (pow-bit_and k a) (flag-bit_and k (bit k a) b (omega arith))

-- Two values under a mask that stands first: `(m & a & b) != 0`.
pub test2-msb :
    (s : Size) (a b : ℕ)
    → not (bit_and (bit_and (msb s) a) b == 0) ≡ test a (msb s) && test b (msb s)
test2-msb byte a b = ground (arith, masks2 7 a b, bit_and-pow 7 a, bit_and-pow 7 b)
test2-msb word a b = ground (arith, masks2 15 a b, bit_and-pow 15 a, bit_and-pow 15 b)
test2-msb long a b = ground (arith, masks2 31 a b, bit_and-pow 31 a, bit_and-pow 31 b)
