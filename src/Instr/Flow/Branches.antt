-- ===== src/Instr/Flow/Branches.antt =====
-- The branches that the source writes out by condition against the general ones.
use s_qlux.Base.{◌≡◌, ◌≢◌, ◌==◌, arith, if◌then◌else◌}
use s_qlux.Base.{bit_and}
use s_qlux.Machine.{Cpu, Act}
use s_qlux.Device.{Bus}
use s_qlux.Status.{condition_true}
use s_qlux.Memory.{is_odd}
use s_qlux.Instr.Flow.{
  bcc_s, beq_s, bne_s, bcs_s, bccc_s, bpl_s, bmi_s, bge_s, blt_s, bgt_s, ble_s, condition_of, bcc_l,
  beq_l, bne_l, bcc_bad, bra_s, bra_l, branch_entry,
}

module _ {D : Type 0} where
  -- A branch by its displacement alone: a word, an odd byte, or an even byte.
  abbrev pub branch_by_displacement : Act D
  branch_by_displacement c =
      (if bit_and c.code 255 == 0 then bcc_l else if is_odd c.code then bcc_bad else bcc_s) c

-- For every instruction of the branch group but BSR, the function that the table holds, with the
-- condition written out or looked up, does what the general branch for its displacement does.
pub branch_entry_lem :
    {D : Type 0} ⦃bus : Bus D⦄ (c : Cpu D)
    → condition_of c.code ≢ 1
    → branch_entry c ≡ branch_by_displacement c
unfolding branch_entry bcc_s bcc_l condition_true beq_s bne_s bcs_s bccc_s bpl_s bmi_s bge_s blt_s
    bgt_s ble_s beq_l bne_l bra_s bra_l
branch_entry_lem c h = ground arith
