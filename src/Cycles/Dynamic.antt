-- ===== src/Cycles/Dynamic.antt =====
-- The costs that depend on the state of the CPU (cycles68k.c, `cycles_dynamic`).
use s_qlux.Base.{ℕ, zero, suc, ◌+◌, ◌-◌, ◌*◌, ◌/◌, ◌%◌, ◌^◌, bit_and, bit_xor, ◌==◌, leb}
use s_qlux.Base.{if◌then◌else◌, Bool, ◌||◌}
use s_qlux.Word.{test, is_neg, long, word}
use s_qlux.Cycles.{Model, Kind, bits_at}
use s_qlux.Cycles.Kind.{k_none, k_bcc, k_dbcc, k_scc, k_shift, k_movem_w, k_movem_l, k_mulu, k_muls}
use s_qlux.Cycles.Kind.{k_divu, k_divs}
use s_qlux.Cycles.Table.{entry, bcc_taken, bcc_nt_b, bcc_nt_w, dbcc_true, dbcc_branch, dbcc_expired}
use s_qlux.Cycles.Table.{scc_true, scc_false, movem_w, movem_l}

-- The loop of `popcount16`, with the rounds that are left.
unfoldable pub popcount_loop : ℕ → ℕ → ℕ → ℕ
popcount_loop zero v n = n
popcount_loop (suc rounds) v n =
    let rest = popcount_loop rounds (bit_and v (v - 1)) (n + 1) in if v == 0 then n else rest

unfoldable pub popcount16 : ℕ → ℕ
unfolding popcount_loop
popcount16 v = popcount_loop 16 (v % 2 ^ 16) 0

-- The body of the loop of `divu_cycles`, on the dividend and the count.
unfoldable pub divu_round : ℕ → ℕ × ℕ → ℕ × ℕ
divu_round hdivisor s =
    let dividend = s.0 * 2 % 2 ^ 32 in
    let rest = (dividend + 2 ^ 32 - hdivisor) % 2 ^ 32 in
    if leb (2 ^ 31) s.0
    then (rest, s.1)
    else if leb hdivisor dividend
    then (rest, s.1 + 1)
    else (dividend, s.1 + 2)

unfoldable pub divu_loop : ℕ → ℕ → ℕ × ℕ → ℕ × ℕ
unfolding divu_round
divu_loop zero hdivisor s = s
divu_loop (suc rounds) hdivisor s = divu_loop rounds hdivisor (divu_round hdivisor s)

unfoldable pub divu_cycles : ℕ → ℕ → ℕ
unfolding divu_loop
divu_cycles dividend divisor =
    if leb divisor (dividend / 2 ^ 16)
    then 10
    else (divu_loop 15 (divisor * 2 ^ 16) (dividend, 38)).1 * 2

-- The loop of `divs_cycles`: a cycle for each of the upper 15 digits of the quotient that is 0.
unfoldable pub divs_loop : ℕ → ℕ → ℕ → ℕ
divs_loop zero aquot mcycles = mcycles
divs_loop (suc rounds) aquot mcycles =
    divs_loop rounds (aquot * 2 % 2 ^ 32) (if test aquot 0x8000 then mcycles else mcycles + 1)

-- The times of a quotient that does not fit, from `start`, and of the long division.
unfoldable pub divs_time : ℕ → ℕ → ℕ → ℕ → ℕ
unfolding divs_loop
divs_time start mcycles adividend adivisor =
    if adivisor == 0 || leb adivisor (adividend / 2 ^ 16)
    then (start + 2) * 2
    else divs_loop 15 (adividend / adivisor) mcycles * 2

unfoldable pub divs_cycles : ℕ → ℕ → ℕ
unfolding divs_time
divs_cycles dividend divisor =
    let negative = is_neg long dividend in
    let adividend = if negative then 2 ^ 32 - dividend else dividend in
    let adivisor = if is_neg word divisor then 2 ^ 16 - divisor else divisor in
    let start = if negative then 7 else 6 in
    let mcycles =
      if is_neg word divisor
      then start + 55
      else if negative
      then start + 55 + 1
      else start + 55 - 1 in
    divs_time start mcycles adividend adivisor

-- `cycles_dynamic`, by the kind of the opcode.
unfoldable pub cost_of_kind : Model → Kind → ℕ → Bool → (ℕ → ℕ) → ℕ → ℕ
unfolding popcount16 divu_cycles divs_cycles
cost_of_kind cpu k_none op cond dregs ext = 0
cost_of_kind cpu k_bcc op cond dregs ext =
    if cond then bcc_taken cpu else if op % 2 ^ 8 == 0 then bcc_nt_w cpu else bcc_nt_b cpu
cost_of_kind cpu k_dbcc op cond dregs ext =
    if cond
    then dbcc_true cpu
    else if dregs (bits_at op 0 3) % 2 ^ 16 == 0
    then dbcc_expired cpu
    else dbcc_branch cpu
cost_of_kind cpu k_scc op cond dregs ext = if cond then scc_true cpu else scc_false cpu
cost_of_kind cpu k_shift op cond dregs ext = 2 * bit_and (dregs (bits_at op 9 3)) 63
cost_of_kind cpu k_movem_w op cond dregs ext = movem_w cpu * popcount16 ext
cost_of_kind cpu k_movem_l op cond dregs ext = movem_l cpu * popcount16 ext
cost_of_kind cpu k_mulu op cond dregs ext = 2 * popcount16 (dregs (bits_at op 0 3))
cost_of_kind cpu k_muls op cond dregs ext =
    let x = dregs (bits_at op 0 3) % 2 ^ 16 * 2 in 2 * popcount16 (bit_xor x (x / 2) % 2 ^ 16)
cost_of_kind cpu k_divu op cond dregs ext =
    divu_cycles (dregs (bits_at op 9 3)) (dregs (bits_at op 0 3) % 2 ^ 16)
cost_of_kind cpu k_divs op cond dregs ext =
    divs_cycles (dregs (bits_at op 9 3)) (dregs (bits_at op 0 3) % 2 ^ 16)

unfoldable pub cycles_dynamic : Model → ℕ → Bool → (ℕ → ℕ) → ℕ → ℕ
unfolding entry cost_of_kind
cycles_dynamic cpu op cond dregs ext = cost_of_kind cpu (entry cpu op).kind op cond dregs ext
