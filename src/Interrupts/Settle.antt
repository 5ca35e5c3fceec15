-- ===== src/Interrupts/Settle.antt =====
-- The interrupt lines come to rest (general.c).
use s_qlux.Base.{ℕ, ◌≤◌, ◌≡◌, ◌≢◌, refl, arith}
use s_qlux.Base.{◌==◌, if◌then◌else◌, true, ◌&&◌}
use s_qlux.Machine.{Cpu}
use s_qlux.Interrupts.{ipl_level, update_ipl, irq_accepted}

-- Reading the interrupt lines a second time changes nothing: the level, the count of instructions
-- and the latch of level 7 are as the first time left them.
pub update_ipl_idempotent : {D : Type 0} (c : Cpu D) → update_ipl (update_ipl c) ≡ update_ipl c
unfolding update_ipl
update_ipl_idempotent c = ground arith

-- What reading the lines leaves: the level as the pending one, level 7 only if it is not latched.
abbrev taken_level : {D : Type 0} → Cpu D → ℕ
taken_level c =
    let level = ipl_level c.ipl_lines c.the_int in if level == 7 && c.nmi_taken then 0 else level

update_ipl-pending : {D : Type 0} (c : Cpu D) → (update_ipl c).pending_interrupt ≡ taken_level c
unfolding update_ipl
update_ipl-pending c = ground arith

update_ipl-lines :
    {D : Type 0} (c : Cpu D)
    → ((update_ipl c).ipl_lines ≡ c.ipl_lines) × ((update_ipl c).the_int ≡ c.the_int)
unfolding update_ipl
update_ipl-lines c = ground arith

update_ipl-mask : {D : Type 0} (c : Cpu D) → ((update_ipl c).i_mask ≡ c.i_mask)
unfolding update_ipl
update_ipl-mask c = ground arith

update_ipl-latch :
    {D : Type 0} (c : Cpu D)
    → (update_ipl c).nmi_taken ≡ ((ipl_level c.ipl_lines c.the_int == 7) && c.nmi_taken)
unfolding update_ipl
update_ipl-latch c = ground arith

settled_level :
    {D : Type 0} (c c' : Cpu D)
    → c'.ipl_lines ≡ c.ipl_lines
    → c'.the_int ≡ c.the_int
    → c'.nmi_taken
      ≡ (if taken_level c == 7 then true else (ipl_level c.ipl_lines c.the_int == 7) && c.nmi_taken)
    → c'.i_mask ≡ taken_level c
    → (taken_level c' ≤ c'.i_mask) × (taken_level c' ≢ 7)
settled_level c c' h1 h2 h3 h4 = ground arith

accepted_settles :
    {D : Type 0} (c c1 : Cpu D)
    → c1.pending_interrupt ≡ taken_level c
    → c1.ipl_lines ≡ c.ipl_lines
    → c1.the_int ≡ c.the_int
    → c1.nmi_taken ≡ ((ipl_level c.ipl_lines c.the_int == 7) && c.nmi_taken)
    → c1.i_mask ≡ c1.pending_interrupt
    → let c' = irq_accepted c1.pending_interrupt c1 in
      (c'.pending_interrupt ≤ c'.i_mask) × (c'.pending_interrupt ≢ 7)
unfolding irq_accepted
accepted_settles c c1 h1 h2 h3 h4 h5 =
    let c2 = if c1.pending_interrupt == 7 then record c1 { nmi_taken = true } else c1 in
    rw (update_ipl-pending c2, update_ipl-mask c2)
      (settled_level c c2 (ground arith) (ground arith) (ground arith) (ground arith))

-- Once the level that the lines ask for is accepted, with the mask set to it, nothing is left to
-- accept: the pending level is within the mask and is not level 7, whose latch is set.
pub irq_accepted-settles :
    {D : Type 0} (c : Cpu D)
    → let level = (update_ipl c).pending_interrupt in
      let c' = irq_accepted level (record (update_ipl c) { i_mask = level }) in
      (c'.pending_interrupt ≤ c'.i_mask) × (c'.pending_interrupt ≢ 7)
irq_accepted-settles c =
    let h = update_ipl-lines c in
    accepted_settles c (record (update_ipl c) { i_mask = (update_ipl c).pending_interrupt })
      (update_ipl-pending c) h.0 h.1 (update_ipl-latch c) refl
