-- ===== src/Instr/Bcd/Subtract.antt =====
-- SBCD and NBCD on valid operands subtract numbers of two decimal digits.
use s_qlux.Base.{ℕ, ◌+◌, ◌-◌, ◌%◌, ◌<◌, ◌≡◌, refl, arith, ltb, eqb, to_ℕ}
use s_qlux.Base.{◌==◌, Bool, true, false, ◌&&◌, all_below, all_below_sound, all_conditions}
use s_qlux.Base.{all_conditions_sound}
use s_qlux.Machine.{Ccr}
use s_qlux.Instr.Bcd.{sbcd_of, nbcd_of}
use s_qlux.Instr.Bcd.Decimal.{digits}

abbrev flags : Bool → Bool → Ccr
flags x z = record { xflag = x; negative = false; is_zero = z; overflow = false; carry = false }

-- `d - s - x` below zero borrows a hundred.
subtracts : ℕ → ℕ → Bool → Bool
subtracts a b x =
    let r = sbcd_of (digits a) (digits b) (flags x true) in
    let n = nbcd_of (digits a) (flags x true) in
    let under = ltb b (a + to_ℕ x) in
    r.0 == digits ((100 + b - a - to_ℕ x) % 100)
    && (eqb r.1.carry under
        && (eqb r.1.xflag under
            && (n.0 == digits ((100 - a - to_ℕ x) % 100) && eqb n.1.carry (ltb 0 (a + to_ℕ x)))))

table : ℕ → Bool
table a = all_below 100 λ b. all_conditions λ x. subtracts a b x

table_checks : all_below 100 table ≡ true
unfolding all_below table subtracts sbcd_of nbcd_of
table_checks = refl

subtracts_lem : (a b : ℕ) (x : Bool) → a < 100 → b < 100 → subtracts a b x ≡ true
unfolding table
subtracts_lem a b x ha hb =
    all_conditions_sound (λ x'. subtracts a b x') x
      (all_below_sound 100 (λ b'. all_conditions λ x'. subtracts a b' x') b
        (all_below_sound 100 table a table_checks ha) hb)

and5 :
    (a b c d e : Bool)
    → (a && (b && (c && (d && e)))) ≡ true
    → (a ≡ true) × (b ≡ true) × (c ≡ true) × (d ≡ true) × (e ≡ true)
and5 a b c d e h = ground arith

==_sound : (a b : ℕ) → (a == b) ≡ true → a ≡ b
==_sound a b h = ground arith

eqb_sound : (a b : Bool) → eqb a b ≡ true → a ≡ b
eqb_sound a b h = ground arith

-- For two numbers below 100 in decimal digits and an incoming X, SBCD gives the digits of the
-- target less the source less X, modulo 100, and sets C and X where that is below zero. NBCD is
-- the same with a target of 0, for its result and C.
pub sbcd_of_lem :
    (a b : ℕ) (f : Ccr)
    → a < 100
    → b < 100
    → let r = sbcd_of (digits a) (digits b) f in
      let n = nbcd_of (digits a) f in
      (r.0 ≡ digits ((100 + b - a - to_ℕ f.xflag) % 100))
      × (r.1.carry ≡ ltb b (a + to_ℕ f.xflag))
      × (r.1.xflag ≡ ltb b (a + to_ℕ f.xflag))
      × (n.0 ≡ digits ((100 - a - to_ℕ f.xflag) % 100))
      × (n.1.carry ≡ ltb 0 (a + to_ℕ f.xflag))
unfolding subtracts sbcd_of nbcd_of
sbcd_of_lem a b f ha hb =
    let (h1, h2, h3, h4, h5) = and5 _ _ _ _ _ (subtracts_lem a b f.xflag ha hb) in
    (==_sound _ _ h1, eqb_sound _ _ h2, eqb_sound _ _ h3, ==_sound _ _ h4, eqb_sound _ _ h5)
