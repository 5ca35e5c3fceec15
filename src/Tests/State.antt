-- ===== src/Tests/State.antt =====
-- Registers, interrupts and the link with the 8049 on concrete states.
use s_qlux.Base.{◌+◌, ◌*◌, ◌/◌, ◌%◌, ◌^◌, ◌≤◌, ◌<◌, ◌≡◌, ◌⊎◌, arith, true, false}
use s_qlux.Machine.{IpcLink, Cpu}
use s_qlux.Ipc.{ipc_start}
use s_qlux.Instr.MulDiv.{divu_by}
use s_qlux.Instr.MulDiv.Division.{divu_by_lem}
use s_qlux.Base.{◌↔◌}
use s_qlux.Word.{byte}
use s_qlux.Alu.Add.{SumOverflows}
use s_qlux.Instr.Arith.{add_to_dn}
use s_qlux.Instr.Arith.Sums.{add_to_dn_lem}
use s_qlux.Tests.{machine}

-- D3, which holds 4, by 3.
divu_by_lem_example :
    let c' = (divu_by 3 3 (machine 0)).1 in
    let q = c'.reg 3 % 2 ^ 16 in
    let r = c'.reg 3 / 2 ^ 16 in
    ((4 / 3 < 2 ^ 16) × (c'.ccr.overflow ≡ false) × (q * 3 + r ≡ 4) × (r < 3))
    ⊎ ((2 ^ 16 ≤ 4 / 3) × (c'.ccr.overflow ≡ true) × (c'.reg 3 ≡ 4))
divu_by_lem_example = divu_by_lem 3 3 (machine 0) (omega arith) (omega arith) (omega arith)

abbrev requested : Cpu (Unit {0})
requested = record (machine 0) { ipl_lines = 1 }

abbrev answering : IpcLink
answering = record ipc_start { wait = false; count = 4; ret = 8 }

-- 254 to the low byte of D2, which holds 3.
add_to_dn_lem_example :
    let c' = (add_to_dn byte 2 254 (machine 0)).1 in
    (c'.reg 2 ≡ 1)
    × (c'.ccr.carry ≡ true)
    × (c'.ccr.xflag ≡ true)
    × ((c'.ccr.overflow ≡ true) ↔ SumOverflows byte 254 3 false)
    × (c'.ccr.negative ≡ false)
    × (c'.ccr.is_zero ≡ false)
add_to_dn_lem_example = add_to_dn_lem byte 2 254 (machine 0) (omega arith)
