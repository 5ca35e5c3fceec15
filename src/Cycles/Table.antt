-- ===== src/Cycles/Table.antt =====
-- The tables of all the opcodes and the other costs of `cycles_init` (cycles68k.c).
use s_qlux.Base.{ℕ, ◌/◌, ◌%◌, ◌^◌, ◌==◌, if◌then◌else◌, true, false, ◌||◌}
use s_qlux.Word.{test}
use s_qlux.Cycles.{Model, Entry, acc_cycles, acc_make, acc_exception, set, set_illegal}
use s_qlux.Cycles.Kind.{k_none}
use s_qlux.Cycles.Lines.{line0, line_move, line5, line6, line8_c, line9_d, line_b, line_e}
use s_qlux.Cycles.Line4.{line4}

-- The switch of `cycles_init`.
unfoldable pub entry : Model → ℕ → Entry
unfolding line0 line_move line4 line5 line6 line8_c line9_d line_b line_e set set_illegal acc_make
entry cpu op =
    let line = op / 2 ^ 12 in
    if line == 0
    then line0 cpu op
    else if line == 1 || (line == 2 || line == 3)
    then line_move cpu op
    else if line == 4
    then line4 cpu op
    else if line == 5
    then line5 cpu op
    else if line == 6
    then line6 cpu op
    else if line == 7
    then (if test op 0x0100 then set_illegal cpu else set cpu (acc_make 0 1) k_none)
    else if line == 8
    then line8_c cpu op false
    else if line == 9 || line == 13
    then line9_d cpu op
    else if line == 11
    then line_b cpu op
    else if line == 12
    then line8_c cpu op true
    else if line == 14
    then line_e cpu op
    else set_illegal cpu

-- `cyc_interrupt`
unfoldable pub interrupt : Model → ℕ
unfolding acc_cycles acc_exception
interrupt cpu = acc_cycles cpu (record acc_exception { internal = 12; rb = 1 }) % 2 ^ 16

-- c_bcc_taken and the other costs of the dynamic part
abbrev pub bcc_taken : Model → ℕ
bcc_taken cpu = acc_cycles cpu (acc_make 2 2)

abbrev pub bcc_nt_b : Model → ℕ
bcc_nt_b cpu = acc_cycles cpu (acc_make 4 1)

abbrev pub bcc_nt_w : Model → ℕ
bcc_nt_w cpu = acc_cycles cpu (acc_make 4 2)

abbrev pub dbcc_true : Model → ℕ
dbcc_true cpu = acc_cycles cpu (acc_make 4 2)

abbrev pub dbcc_branch : Model → ℕ
dbcc_branch cpu = acc_cycles cpu (acc_make 2 2)

abbrev pub dbcc_expired : Model → ℕ
dbcc_expired cpu = acc_cycles cpu (acc_make 2 3)

abbrev pub scc_true : Model → ℕ
scc_true cpu = acc_cycles cpu (acc_make 2 1)

abbrev pub scc_false : Model → ℕ
scc_false cpu = acc_cycles cpu (acc_make 0 1)

abbrev pub movem_w : Model → ℕ
movem_w cpu = acc_cycles cpu (record (acc_make 0 0) { rw = 1 })

abbrev pub movem_l : Model → ℕ
movem_l cpu = acc_cycles cpu (record (acc_make 0 0) { rl = 1 })
