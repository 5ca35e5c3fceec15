-- ===== src/Interrupts.antt =====
-- The interrupt lines of the 68008 (general.c).
pub mod Settle
use s_qlux.Base.{
  ℕ, ◌+◌, ◌-◌, ◌/◌, ◌^◌, bit_and, bit_or, ltb, ◌==◌, if◌then◌else◌, Bool, true, false, not,
}
use s_qlux.Base.{◌&&◌, ◌||◌, List, [], ◌∷◌}
use s_qlux.Word.{test, is_pos}
use s_qlux.Machine.{Cpu, Act, skip, modify, ◌>>◌}
use s_qlux.Device.{Signal, gap, ipl}

-- The level that the lines ask for: bit 0 of `lines` is IPL0 and IPL2, bit 1 is IPL1.
unfoldable pub ipl_level : ℕ → ℕ → ℕ
ipl_level lines the_int =
    let ipl0 = test lines 1 in
    let ipl1 = test (lines / 2 ^ 1) 1 && not (test the_int 0x1f) in
    (if ipl0 then 0 else 5) + (if ipl1 then 0 else 2)

-- `ql_update_ipl`: level 7 is taken once, until it goes away.
unfoldable pub update_ipl : {D : Type 0} → Cpu D → Cpu D
unfolding ipl_level
update_ipl c =
    let level = ipl_level c.ipl_lines c.the_int in
    let nmi = level == 7 && c.nmi_taken in
    let taken = if nmi then 0 else level in
    let c' = record c { nmi_taken = nmi; pending_interrupt = taken } in
    if taken == 7 || ltb c.i_mask taken
    then (if is_pos c.n_inst
        then record c' { extra_flag = true; n_inst2 = c.n_inst; n_inst = 0 }
        else record c' { extra_flag = true })
    else c'

unfoldable pub set_ipc_ipl : {D : Type 0} → ℕ → Cpu D → Cpu D
set_ipc_ipl lines c = update_ipl (record c { ipl_lines = bit_and lines 3 })

unfoldable pub irq_accepted : {D : Type 0} → ℕ → Cpu D → Cpu D
irq_accepted level c = update_ipl (if level == 7 then record c { nmi_taken = true } else c)

unfoldable pub trigger_gap_interrupt : {D : Type 0} → Cpu D → Cpu D
trigger_gap_interrupt c = update_ipl (record c { the_int = bit_or c.the_int 1 })

-- The interrupt part of `FrameInt`: a request that is pending already is left alone.
unfoldable pub frame_int : {D : Type 0} → Cpu D → Cpu D
frame_int c = if test c.the_int 8 then c else update_ipl (record c { the_int = bit_or c.the_int 8 })

-- `WriteInt`: `theInt &= ~d` with `d` cut to five bits. `theInt` is one byte.
unfoldable pub write_int : {D : Type 0} → ℕ → Cpu D → Cpu D
write_int d c = update_ipl (record c { the_int = bit_and c.the_int (0xff - bit_and d 0x1f) })

-- What a device's calls back do, in order.
unfoldable pub signals : {D : Type 0} → List Signal → Act D
signals [] = skip
signals (gap ∷ l) = modify trigger_gap_interrupt >> signals l
signals (ipl n ∷ l) = modify (set_ipc_ipl n) >> signals l
