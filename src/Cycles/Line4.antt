-- ===== src/Cycles/Line4.antt =====
-- The opcodes that start with 4 (cycles68k.c, `line4`).
use s_qlux.Base.{ℕ, ◌+◌, bit_and, ◌==◌, leb, if◌then◌else◌, Bool, true, false}
use s_qlux.Base.{not, ◌&&◌, ◌||◌}
use s_qlux.Word.{test}
use s_qlux.Cycles.{Model, Mode, Acc, Entry, sz_b, sz_w, sz_l, place, same, acc_make}
use s_qlux.Cycles.{acc_write, bits_at, ea_of, ea_is_mem_alt, ea_is_ctrl}
use s_qlux.Cycles.{
  ea_is_data_alt, ea_ext_words, ea_read, ea_modify, acc_exception, set, set_illegal,
}
use s_qlux.Cycles.Mode.{dn, an, ai, pi, pd, d16, d8x, aw, al, pc16, pc8x, bad}
use s_qlux.Cycles.Kind.{k_none, k_movem_w, k_movem_l}

-- The entry of a control mode in the tables `jmp_in`, `jmp_pw`, `jsr_in` and `jsr_pw`.
abbrev is_indexed : Mode → Bool
is_indexed ea = same ea d8x || same ea pc8x

unfoldable is_ctrl : Mode → Bool
is_ctrl ai = true
is_ctrl d16 = true
is_ctrl d8x = true
is_ctrl aw = true
is_ctrl al = true
is_ctrl pc16 = true
is_ctrl pc8x = true
is_ctrl _ = false

abbrev jump_in : ℕ → Mode → ℕ
jump_in indexed ea = if is_indexed ea then indexed else if same ea ai || same ea al then 0 else 2

abbrev jmp_acc : Mode → Acc
jmp_acc ea = acc_make (jump_in 2 ea) (if is_indexed ea || same ea al then 3 else 2)

abbrev jsr_acc : Mode → Acc
jsr_acc ea = record (acc_make (jump_in 6 ea) (if same ea al then 3 else 2)) { wl = 1 }

-- LEA, and PEA without its write.
abbrev address_acc : Mode → Acc
address_acc ea = acc_make (if is_indexed ea then 4 else 0) (1 + ea_ext_words ea sz_l)

abbrev return_acc : Acc
return_acc = record (acc_make 0 2) { rl = 1 }

abbrev movem_acc : Mode → Bool → Acc
movem_acc ea to_reg =
    let a = acc_make (if is_indexed ea then 2 else 0) (2 + ea_ext_words ea sz_w) in
    if to_reg then record a { rw = 1 } else a

module _ (cpu : Model) where
  abbrev fixed : Acc → Entry
  fixed a = set cpu a k_none

  abbrev where_legal : Bool → Acc → Entry
  where_legal legal a = if legal then fixed a else set_illegal cpu

  -- A data register at one cost, and an operand in memory that is read and written.
  abbrev modify_at : Mode → ℕ → Acc → Acc → Entry
  modify_at ea sz register memory =
      if same ea dn then fixed register else where_legal (ea_is_mem_alt ea) (ea_modify memory ea sz)

  -- The instructions without operands, by the whole opcode, and the others of 0x4E40 to 0x4EFF.
  abbrev control : ℕ → Entry → Entry
  control op other =
      let ea = ea_of op in
      if op == 0x4afc
      then set_illegal cpu
      else if op == 0x4e70
      then fixed (acc_make 128 1)
      else if op == 0x4e71
      then fixed (acc_make 0 1)
      else if op == 0x4e72
      then fixed (acc_make 4 0)
      else if op == 0x4e73 || op == 0x4e77
      then fixed (record return_acc { rw = 1 })
      else if op == 0x4e75
      then fixed return_acc
      else if op == 0x4e76
      then fixed (acc_make 0 1)
      else if bit_and op 0xfff0 == 0x4e40
      then fixed acc_exception
      else if bit_and op 0xfff8 == 0x4e50
      then fixed (record (acc_make 0 2) { wl = 1 })
      else if bit_and op 0xfff8 == 0x4e58
      then fixed (record (acc_make 0 1) { rl = 1 })
      else if bit_and op 0xfff0 == 0x4e60
      then fixed (acc_make 0 1)
      else if bit_and op 0xff80 == 0x4e80
      then where_legal (is_ctrl ea) (if test op 0x0040 then jmp_acc ea else jsr_acc ea)
      else other

  abbrev movem : ℕ → Entry
  movem op =
      let ea = ea_of op in
      let to_reg = test op 0x0400 in
      let ok =
        if to_reg
        then ea_is_ctrl ea || same ea pi
        else (ea_is_ctrl ea && leb (place ea) (place al)) || same ea pd in
      if not ok
      then set_illegal cpu
      else set cpu (movem_acc ea to_reg) (if test op 0x0040 then k_movem_l else k_movem_w)

  abbrev addresses : ℕ → Entry → Entry
  addresses op other =
      let ea = ea_of op in
      if bit_and op 0xfff8 == 0x4840
      then fixed (acc_make 0 1)
      else if bit_and op 0xffc0 == 0x4840
      then where_legal (is_ctrl ea) (record (address_acc ea) { wl = 1 })
      else if bit_and op 0xffb8 == 0x4880
      then fixed (acc_make 0 1)
      else if bit_and op 0xfb80 == 0x4880
      then movem op
      else if bit_and op 0x01c0 == 0x01c0
      then where_legal (is_ctrl ea) (address_acc ea)
      else other

  abbrev operands : ℕ → Entry
  operands op =
      let ea = ea_of op in
      let sz = bits_at op 6 2 in
      let is_data = not (same ea bad || same ea an) in
      let high = bit_and op 0xff00 in
      if bit_and op 0x01c0 == 0x0180
      then where_legal is_data (ea_read (acc_make 6 1) ea sz_w)
      else if bit_and op 0xffc0 == 0x40c0
      then where_legal (ea_is_data_alt ea)
          (if same ea dn then acc_make 2 1 else ea_modify (acc_make 0 1) ea sz_w)
      else if bit_and op 0xffc0 == 0x44c0 || bit_and op 0xffc0 == 0x46c0
      then where_legal is_data (ea_read (acc_make 4 2) ea sz_w)
      else if bit_and op 0xffc0 == 0x4800
      then modify_at ea sz_b (acc_make 2 1) (acc_make 0 1)
      else if bit_and op 0xffc0 == 0x4ac0
      then modify_at ea sz_b (acc_make 0 1) (acc_make 2 1)
      else if high == 0x4a00 && not (sz == 3)
      then where_legal (ea_is_data_alt ea) (ea_read (acc_make 0 1) ea sz)
      else if not (sz == 3)
          && (high == 0x4000 || (high == 0x4200 || (high == 0x4400 || high == 0x4600)))
      then modify_at ea sz (acc_make (if sz == sz_l then 2 else 0) 1) (acc_make 0 1)
      else set_illegal cpu

  unfoldable pub line4 : ℕ → Entry
  unfolding set set_illegal acc_exception ea_of ea_read acc_make acc_write ea_is_mem_alt ea_is_ctrl
      ea_is_data_alt ea_ext_words is_ctrl
  line4 op = control op (addresses op (operands op))
