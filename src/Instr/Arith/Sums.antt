-- ===== src/Instr/Arith/Sums.antt =====
-- ADD and SUB on a data register, as whole instructions.
use s_qlux.Base.{ℕ, ◌+◌, ◌*◌, ◌<◌, ◌%◌, ◌-◌, ◌≡◌, ◌↔◌, ap, ◌∙◌, arith, true, false, ltb, leb, ◌==◌}
use s_qlux.Word.{Size, byte, word, long, modulus, cut, Fits, is_neg}
use s_qlux.Machine.{Cpu, put_low, update}
use s_qlux.Alu.{sum_of, difference_of, add_ccr, sub_ccr}
use s_qlux.Alu.Add.{SumOverflows, carry_add_lem, overflow_add_lem}
use s_qlux.Alu.Sub.{DifferenceOverflows, carry_sub_lem, overflow_sub_lem}
use s_qlux.Instr.Arith.{add_to_dn, sub_from_dn}

update_here : (f : ℕ → ℕ) (n v : ℕ) → update f n v n ≡ v
update_here f n v = ground arith

cut_lt : (z : Size) (x : ℕ) → Fits z (cut z x)
cut_lt byte x = omega arith
cut_lt word x = omega arith
cut_lt long x = omega arith

sum_of-plain : (z : Size) (s d : ℕ) → sum_of z s d false ≡ (d + s) % modulus z
unfolding sum_of
sum_of-plain z s d = ap (λ n. n % modulus z) (omega arith)

sum_lt : (z : Size) (x : ℕ) → x % modulus z < modulus z
sum_lt byte x = omega arith
sum_lt word x = omega arith
sum_lt long x = omega arith

is_neg_lem : (z : Size) (x : ℕ) → x < modulus z → is_neg z x ≡ leb (modulus z) (2 * x)
is_neg_lem byte x h = ground arith
is_neg_lem word x h = ground arith
is_neg_lem long x h = ground arith

-- ADD of a value that fits the size to a data register: the low part of the register is the sum
-- modulo the size and the rest of it is kept; C and X are the unsigned carry, V is the signed
-- overflow, N is the highest bit of the sum modulo the size, and Z says whether that is 0.
pub add_to_dn_lem :
    {D : Type 0} (z : Size) (n s : ℕ) (c : Cpu D)
    → Fits z s
    → let c' = (add_to_dn z n s c).1 in
      let d = cut z (c.reg n) in
      (c'.reg n ≡ put_low z (c.reg n) ((d + s) % modulus z))
      × (c'.ccr.carry ≡ leb (modulus z) (s + d))
      × (c'.ccr.xflag ≡ leb (modulus z) (s + d))
      × ((c'.ccr.overflow ≡ true) ↔ SumOverflows z s d false)
      × (c'.ccr.negative ≡ leb (modulus z) (2 * ((d + s) % modulus z)))
      × (c'.ccr.is_zero ≡ ((d + s) % modulus z == 0))
unfolding add_to_dn add_ccr
add_to_dn_lem z n s c h =
    let d = cut z (c.reg n) in
    let e = sum_of-plain z s d in
    let carried =
      carry_add_lem z s d false h (cut_lt z (c.reg n))
      ∙ ap (λ x. leb (modulus z) x) (omega arith) in
    (
      update_here c.reg n _ ∙ ap (put_low z (c.reg n)) e,
      carried,
      carried,
      overflow_add_lem z s d false h (cut_lt z (c.reg n)),
      ap (is_neg z) e ∙ is_neg_lem z ((d + s) % modulus z) (sum_lt z (d + s)),
      ap (λ r. r == 0) e,
    )

difference_of-plain :
    (z : Size) (s d : ℕ) → Fits z s → difference_of z s d false ≡ (d + modulus z - s) % modulus z
unfolding difference_of
difference_of-plain byte s d h = omega arith
difference_of-plain word s d h = omega arith
difference_of-plain long s d h = omega arith

-- SUB of a value that fits the size from a data register: the low part of the register is the
-- difference modulo the size and the rest of it is kept; C and X are the unsigned borrow, V is
-- the signed overflow, N is the highest bit of the difference modulo the size, and Z says whether
-- that is 0.
pub sub_from_dn_lem :
    {D : Type 0} (z : Size) (n s : ℕ) (c : Cpu D)
    → Fits z s
    → let c' = (sub_from_dn z n s c).1 in
      let d = cut z (c.reg n) in
      (c'.reg n ≡ put_low z (c.reg n) ((d + modulus z - s) % modulus z))
      × (c'.ccr.carry ≡ ltb d s)
      × (c'.ccr.xflag ≡ ltb d s)
      × ((c'.ccr.overflow ≡ true) ↔ DifferenceOverflows z s d false)
      × (c'.ccr.negative ≡ leb (modulus z) (2 * ((d + modulus z - s) % modulus z)))
      × (c'.ccr.is_zero ≡ ((d + modulus z - s) % modulus z == 0))
unfolding sub_from_dn sub_ccr
sub_from_dn_lem z n s c h =
    let d = cut z (c.reg n) in
    let e = difference_of-plain z s d h in
    let borrowed =
      carry_sub_lem z s d false h (cut_lt z (c.reg n)) ∙ ap (λ x. ltb d x) (omega arith) in
    (
      update_here c.reg n _ ∙ ap (put_low z (c.reg n)) e,
      borrowed,
      borrowed,
      overflow_sub_lem z s d false h (cut_lt z (c.reg n)),
      ap (is_neg z) e
          ∙ is_neg_lem z ((d + modulus z - s) % modulus z) (sum_lt z (d + modulus z - s)),
      ap (λ r. r == 0) e,
    )
