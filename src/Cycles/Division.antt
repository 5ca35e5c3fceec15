-- ===== src/Cycles/Division.antt =====
-- The times of DIVU and DIVS by a register: the loop of `divu_cycles` is a long division.
use native.Mathlib.Nat.{
  mod-lt, mod-eq_of_lt, mod-eq-sub-mod, div-eq_of_lt, div-eq_of_lt-le, mul-add-mod_self_right,
  mul-add-div_right, div-add-mod',
}
use s_qlux.Base.{ℕ, zero, suc, ◌+◌, ◌-◌, ◌*◌, ◌/◌, ◌%◌, ◌^◌, ◌≤◌, ◌<◌, ◌≡◌, refl, ap, ◌∙◌, arith}
use s_qlux.Base.{Bool, true, false, not, leb, ltb, ◌==◌, ◌||◌, if◌then◌else◌, Bool-cases, inl, inr}
use s_qlux.Word.{is_neg, long, word, test}
use s_qlux.Cycles.Dynamic.{divu_round, divu_loop, divu_cycles, divs_loop, divs_time, divs_cycles}

-- What a digit of the quotient costs: nothing where the remainder has its highest bit set, else a
-- cycle more for a 0 than for a 1. The divisor `h` stands in the upper half.
abbrev digit_cost : ℕ → ℕ → ℕ → ℕ
digit_cost h remainder digit = if leb (2 ^ 31) remainder then 0 else 2 - digit

-- The cost of the first `n` digits of `x / h` behind the point.
unfoldable pub digits_cost : ℕ → ℕ → ℕ → ℕ
digits_cost zero h x = 0
digits_cost (suc n) h x = digit_cost h (x % h) (x * 2 / h % 2) + digits_cost n h (x * 2)

double :
    (h r : ℕ)
    → r < h
    → (r * 2 % h ≡ (if leb h (r * 2) then r * 2 - h else r * 2))
      × (r * 2 / h ≡ (if leb h (r * 2) then 1 else 0))
double h r lt = elim (Bool-cases (leb h (r * 2))) [
  | inl b ↦
      let le : h ≤ r * 2 = ground arith in
      rw b (
        mod-eq-sub-mod le ∙ mod-eq_of_lt (omega arith),
        div-eq_of_lt-le h (omega arith) (omega arith),
      )
  | inr b ↦ let less : r * 2 < h = ground arith in rw b (mod-eq_of_lt less, div-eq_of_lt less)
]

-- A round takes the next remainder, at the cost of its digit.
divu_round-double :
    (h r m : ℕ)
    → r < h
    → h < 2 ^ 32
    → divu_round h (r, m) ≡ (r * 2 % h, m + digit_cost h r (r * 2 / h))
unfolding divu_round
divu_round-double h r m lt small =
    let e = double h r lt in
    elim (Bool-cases (leb (2 ^ 31) r)) [
      | inl high ↦ rw (e.0, e.1, high) (ground arith)
      | inr low ↦
          let whole : r * 2 % 2 ^ 32 ≡ r * 2 = ground arith in
          rw (e.0, e.1, low, whole) (ground arith)
    ]

-- The remainder and the digit of the next place.
shift_place : (h x : ℕ) → 0 < h → (x * 2 % h ≡ x % h * 2 % h) × (x * 2 / h % 2 ≡ x % h * 2 / h)
shift_place h x pos =
    let q = x / h in
    let r = x % h in
    let e : x * 2 ≡ q * 2 * h + r * 2 = grind (arith, div-add-mod' x h) in
    let lt : r < h = mod-lt x pos in
    let digit : r * 2 / h < 2 = (let s = double h r lt in ground arith) in
    let whole : (q * 2 * h + r * 2) / h ≡ q * 2 + r * 2 / h =
      mul-add-div_right pos (q * 2) (r * 2) in
    (
      ap (λ n. n % h) e ∙ mul-add-mod_self_right (q * 2) h (r * 2),
      ap (λ n. n / h % 2) e ∙ rw whole (omega arith),
    )

divu_loop-suc :
    (rounds h : ℕ) (s : ℕ × ℕ) → divu_loop (suc rounds) h s ≡ divu_loop rounds h (divu_round h s)
unfolding divu_loop
divu_loop-suc rounds h s = refl

divu_loop-digits :
    (rounds h x m : ℕ)
    → 0 < h
    → h < 2 ^ 32
    → (divu_loop rounds h (x % h, m)).1 ≡ m + digits_cost rounds h x
unfolding divu_loop digits_cost
divu_loop-digits zero h x m pos small = omega arith
divu_loop-digits (suc rounds) h x m pos small =
    let r = x % h in
    let s = shift_place h x pos in
    let round = divu_round-double h r m (mod-lt x pos) small in
    let rest = divu_loop-digits rounds h (x * 2) (m + digit_cost h r (r * 2 / h)) pos small in
    rw (divu_loop-suc rounds h (r, m), round, ← s.0, rest, s.1) (omega arith)

leb-ltb : (a b : ℕ) → leb a b ≡ not (ltb b a)
leb-ltb a b = ground arith

digits_cost-le : (n h x : ℕ) → digits_cost n h x ≤ 2 * n
unfolding digits_cost
digits_cost-le zero h x = omega arith
digits_cost-le (suc n) h x = ground (arith, digits_cost-le n h (x * 2))

-- A DIVU whose quotient fits in a word takes 76 cycles and two for each cycle that the upper 15
-- digits of the quotient cost by the long division, which is 136 cycles at most; without a
-- quotient it takes 10.
pub divu_cycles-digits :
    (dividend divisor : ℕ)
    → dividend < 2 ^ 32
    → divisor < 2 ^ 16
    → let h = divisor * 2 ^ 16 in
      let fits = ltb (dividend / 2 ^ 16) divisor in
      let n = divu_cycles dividend divisor in
      (n ≡ (if fits then 76 + 2 * digits_cost 15 h dividend else 10)) × (n ≤ 136)
unfolding divu_cycles
divu_cycles-digits dividend divisor d s =
    let h = divisor * 2 ^ 16 in
    elim (Bool-cases (ltb (dividend / 2 ^ 16) divisor)) [
      | inl fits ↦
          let less : dividend / 2 ^ 16 < divisor = ground arith in
          let same : dividend % h ≡ dividend = mod-eq_of_lt (omega arith) in
          let loop = divu_loop-digits 15 h dividend 38 (omega arith) (omega arith) in
          let cost = digits_cost-le 15 h dividend in
          let loop' : (divu_loop 15 h (dividend, 38)).1 ≡ 38 + digits_cost 15 h dividend =
            rw same at loop in
          rw (fits, leb-ltb divisor (dividend / 2 ^ 16), fits, loop') (omega arith, omega arith)
      | inr over ↦ rw (over, leb-ltb divisor (dividend / 2 ^ 16), over) (refl, omega arith)
    ]

divs_loop-le : (n q m : ℕ) → (m ≤ divs_loop n q m) × (divs_loop n q m ≤ m + n)
unfolding divs_loop
divs_loop-le zero q m = (omega arith, omega arith)
divs_loop-le (suc n) q m =
    let next = q * 2 % 2 ^ 32 in
    elim (Bool-cases (test q 0x8000)) [
      | inl one ↦ (let rest = divs_loop-le n next m in rw one (rest.0, omega arith))
      | inr zero_digit ↦
          let rest = divs_loop-le n next (m + 1) in rw zero_digit (omega arith, omega arith)
    ]

divs_rounds-le : (q m : ℕ) → (m ≤ divs_loop 15 q m) × (divs_loop 15 q m ≤ m + 15)
divs_rounds-le q m = divs_loop-le 15 q m

abbrev pub BoundsOfDivs : ℕ → ℕ → ℕ → Type 0
BoundsOfDivs size divisor_size n =
    (leb 120 n ≡ ltb (size / 2 ^ 16) divisor_size) × (16 ≤ n) × (n ≤ 156)

long_time : (x : ℕ) → 60 ≤ x → x ≤ 78 → (leb 120 (x * 2) ≡ true) × (16 ≤ x * 2) × (x * 2 ≤ 156)
long_time x a b = ground arith

short_time :
    (x : ℕ)
    → 6 ≤ x
    → x ≤ 7
    → (leb 120 ((x + 2) * 2) ≡ false) × (16 ≤ (x + 2) * 2) × ((x + 2) * 2 ≤ 156)
short_time x a b = ground arith

condition_or : (a : Bool) → a || true ≡ true
condition_or true = refl
condition_or false = refl

divs_time-bounds :
    (start m size divisor_size : ℕ)
    → 6 ≤ start
    → start ≤ 7
    → 60 ≤ m
    → m ≤ 63
    → BoundsOfDivs size divisor_size (divs_time start m size divisor_size)
unfolding divs_time
divs_time-bounds start m size divisor_size a b c d =
    let loop = divs_rounds-le (size / divisor_size) m in
    elim (Bool-cases (ltb (size / 2 ^ 16) divisor_size)) [
      | inl fits ↦
          let some_divisor : divisor_size == 0 ≡ false = ground arith in
          rw (some_divisor, leb-ltb divisor_size (size / 2 ^ 16), fits)
            (long_time (divs_loop 15 (size / divisor_size) m) (omega arith) (omega arith))
      | inr over ↦
          rw (leb-ltb divisor_size (size / 2 ^ 16), over, condition_or (divisor_size == 0))
            (short_time start a b)
    ]

-- A DIVS takes from 120 to 156 cycles where the size of the dividend over 2 ^ 16 is less than that
-- of the divisor, and less than 120, but 16 at least, where not.
pub divs_cycles-bounds :
    (dividend divisor : ℕ)
    → let size = if is_neg long dividend then 2 ^ 32 - dividend else dividend in
      let divisor_size = if is_neg word divisor then 2 ^ 16 - divisor else divisor in
      BoundsOfDivs size divisor_size (divs_cycles dividend divisor)
unfolding divs_cycles
divs_cycles-bounds dividend divisor =
    divs_time-bounds _ _ _ _ (ground arith) (ground arith) (ground arith) (ground arith)
