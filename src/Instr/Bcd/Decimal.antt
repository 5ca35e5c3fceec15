-- ===== src/Instr/Bcd/Decimal.antt =====
-- ABCD and SBCD on valid operands add and subtract numbers of two decimal digits.
use s_qlux.Base.{ℕ, ◌+◌, ◌*◌, ◌/◌, ◌%◌, ◌<◌, ◌≡◌, refl, arith, leb, eqb, to_ℕ}
use s_qlux.Base.{◌==◌, Bool, true, false, ◌&&◌, all_below, all_below_sound, all_conditions}
use s_qlux.Base.{all_conditions_sound}
use s_qlux.Machine.{Ccr}
use s_qlux.Instr.Bcd.{abcd_of}

-- Two decimal digits in a byte.
abbrev pub digits : ℕ → ℕ
digits n = n / 10 * 16 + n % 10

abbrev flags : Bool → Bool → Ccr
flags x z = record { xflag = x; negative = false; is_zero = z; overflow = false; carry = false }

adds : ℕ → ℕ → Bool → Bool
adds a b x =
    let r = abcd_of (digits a) (digits b) (flags x true) in
    let t = a + b + to_ℕ x in
    r.0 == digits (t % 100) && (eqb r.1.carry (leb 100 t) && eqb r.1.xflag (leb 100 t))

add_table : ℕ → Bool
add_table a = all_below 100 λ b. all_conditions λ x. adds a b x

add_table_checks : all_below 100 add_table ≡ true
unfolding all_below add_table adds abcd_of
add_table_checks = refl

adds_lem : (a b : ℕ) (x : Bool) → a < 100 → b < 100 → adds a b x ≡ true
unfolding add_table
adds_lem a b x ha hb =
    all_conditions_sound (λ x'. adds a b x') x
      (all_below_sound 100 (λ b'. all_conditions λ x'. adds a b' x') b
        (all_below_sound 100 add_table a add_table_checks ha) hb)

-- For two numbers below 100 in decimal digits and an incoming X, ABCD gives the digits of their
-- sum modulo 100, and sets C and X where the sum is 100 or more. Z stays set only if it was.
pub abcd_of_lem :
    (a b : ℕ) (f : Ccr)
    → a < 100
    → b < 100
    → let r = abcd_of (digits a) (digits b) f in
      let t = a + b + to_ℕ f.xflag in
      (r.0 ≡ digits (t % 100))
      × (r.1.carry ≡ leb 100 t)
      × (r.1.xflag ≡ leb 100 t)
      × (r.1.is_zero ≡ (f.is_zero && t % 100 == 0))
unfolding adds abcd_of
abcd_of_lem a b f ha hb = ground (arith, adds_lem a b f.xflag ha hb)
