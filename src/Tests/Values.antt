-- ===== src/Tests/Values.antt =====
-- The condition codes and the decimal instructions on concrete operands.
use s_qlux.Base.{◌+◌, ◌^◌, ◌≡◌, ◌↔◌, arith, true, false}
use s_qlux.Word.{byte}
use s_qlux.Status.{condition_true}
use s_qlux.Alu.{overflow_add, overflow_sub, sum_of, difference_of}
use s_qlux.Alu.{cmp_ccr}
use s_qlux.Alu.Add.{SumOverflows, overflow_add_lem}
use s_qlux.Alu.Sub.{DifferenceOverflows, overflow_sub_lem}
use s_qlux.Alu.Compare.{cmp_conditions}
use s_qlux.Instr.Bcd.{abcd_of, sbcd_of, nbcd_of}
use s_qlux.Instr.Bcd.Decimal.{abcd_of_lem}
use s_qlux.Instr.Bcd.Subtract.{sbcd_of_lem}
use s_qlux.Base.{◌-◌, ◌*◌, ◌%◌, to_ℕ}
use s_qlux.Instr.RotateX.{roxr_r, roxl_r, roxr_i, roxl_i}
use s_qlux.Instr.RotateX.Ring.{ring_of, ring_right, roxr_r-ring_right}
use s_qlux.Tests.{no_flags}

overflow_add_lem_example :
    (overflow_add (2 ^ 7) 100 100 (sum_of byte 100 100 false) ≡ true)
    ↔ SumOverflows byte 100 100 false
overflow_add_lem_example = overflow_add_lem byte 100 100 false (omega arith) (omega arith)

overflow_sub_lem_example :
    (overflow_sub (2 ^ 7) 1 128 (difference_of byte 1 128 false) ≡ true)
    ↔ DifferenceOverflows byte 1 128 false
overflow_sub_lem_example = overflow_sub_lem byte 1 128 false (omega arith) (omega arith)

cmp_conditions_example :
    let f = cmp_ccr byte 200 100 (difference_of byte 200 100 false) no_flags in
    (condition_true 7 f ≡ false)
    × (condition_true 5 f ≡ true)
    × (condition_true 2 f ≡ false)
    × (condition_true 12 f ≡ true)
    × (condition_true 13 f ≡ false)
    × (condition_true 14 f ≡ true)
    × (condition_true 15 f ≡ false)
cmp_conditions_example = cmp_conditions byte 200 100 no_flags (omega arith) (omega arith)

-- 57 + 68 is 125.
abcd_of_lem_example :
    let r = abcd_of 0x57 0x68 no_flags in
    (r.0 ≡ 0x25) × (r.1.carry ≡ true) × (r.1.xflag ≡ true) × (r.1.is_zero ≡ false)
abcd_of_lem_example = abcd_of_lem 57 68 no_flags (omega arith) (omega arith)

-- 20 - 35 is -15, and -35 is 65 below zero.
sbcd_of_lem_example :
    let r = sbcd_of 0x35 0x20 no_flags in
    let n = nbcd_of 0x35 no_flags in
    (r.0 ≡ 0x85) × (r.1.carry ≡ true) × (r.1.xflag ≡ true) × (n.0 ≡ 0x65) × (n.1.carry ≡ true)
sbcd_of_lem_example = sbcd_of_lem 35 20 no_flags (omega arith) (omega arith)

-- ROXR.B by 12, which is 3 places, and the forms for 8.
roxr_r-ring_right_example :
    let v = to_ℕ false * 2 ^ 8 + 0xa5 in
    (ring_of (roxr_r byte 0xa5 12 no_flags) ≡ ring_right (12 % 9) v)
    × (ring_of (roxl_r byte 0xa5 12 no_flags) ≡ ring_right (9 - 12 % 9) v)
    × (ring_of (roxr_i byte 0xa5 0 no_flags) ≡ ring_right 8 v)
    × (ring_of (roxl_i byte 0xa5 0 no_flags) ≡ ring_right 1 v)
roxr_r-ring_right_example = roxr_r-ring_right 0xa5 12 no_flags (omega arith)
