-- ===== src/Alu/Compare.antt =====
-- What the conditions say after a comparison.
use s_qlux.Base.{ℕ, ◌+◌, ◌-◌, ◌≡◌, arith, ltb, leb}
use s_qlux.Base.{◌==◌, false, not, eqb, ◌&&◌, ◌||◌, if◌then◌else◌}
use s_qlux.Word.{Size, byte, word, long, msb, is_neg, Fits}
use s_qlux.Machine.{Ccr}
use s_qlux.Status.{condition_true}
use s_qlux.Alu.{difference_of, sub_ccr, cmp_ccr}
use s_qlux.Alu.Sub.{overflow_sub-signs, carry_sub_lem}

-- A signed number of this size, moved up to be compared as a natural number.
abbrev pub biased : Size → ℕ → ℕ
biased z x = if ltb x (msb z) then x + msb z else x - msb z

signed_order :
    (z : Size) (s d : ℕ)
    → Fits z s
    → Fits z d
    → let r = difference_of z s d false in
      let v =
        (not (is_neg z s) && (is_neg z d && not (is_neg z r)))
        || (is_neg z r && (not (is_neg z d) && is_neg z s)) in
      (eqb (is_neg z r) v ≡ leb (biased z s) (biased z d)) × ((r == 0) ≡ (d == s))
unfolding difference_of
signed_order byte s d hs hd = ground arith
signed_order word s d hs hd = ground arith
signed_order long s d hs hd = ground arith

-- After `CMP s, d` of operands that fit the size: EQ is equality; CS and HI are the order of the
-- operands as unsigned numbers, `d < s` and `s < d`; LT, GE, GT and LE are their order as signed
-- numbers.
pub cmp_conditions :
    (z : Size) (s d : ℕ) (old : Ccr)
    → Fits z s
    → Fits z d
    → let f = cmp_ccr z s d (difference_of z s d false) old in
      (condition_true 7 f ≡ (d == s))
      × (condition_true 5 f ≡ ltb d s)
      × (condition_true 2 f ≡ ltb s d)
      × (condition_true 12 f ≡ leb (biased z s) (biased z d))
      × (condition_true 13 f ≡ ltb (biased z d) (biased z s))
      × (condition_true 14 f ≡ ltb (biased z s) (biased z d))
      × (condition_true 15 f ≡ leb (biased z d) (biased z s))
unfolding condition_true cmp_ccr sub_ccr
cmp_conditions z s d old hs hd = ground (
  arith,
  carry_sub_lem z s d false hs hd,
  overflow_sub-signs z s d false hs hd,
  signed_order z s d hs hd,
)
