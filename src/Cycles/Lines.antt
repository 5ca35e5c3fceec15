-- ===== src/Cycles/Lines.antt =====
-- The opcodes by their first four bits, except for line 4 (cycles68k.c, `line0` to `lineE`).
use s_qlux.Base.{
  ℕ, ◌+◌, ◌-◌, ◌*◌, ◌/◌, ◌%◌, ◌^◌, bit_and, ◌==◌, leb, if◌then◌else◌, Bool, true, false,
}
use s_qlux.Base.{not, ◌&&◌, ◌||◌}
use s_qlux.Word.{test}
use s_qlux.Cycles.{Model, Mode, Acc, Entry, sz_b, sz_w, sz_l, same, acc_cycles, acc_make, acc_read}
use s_qlux.Cycles.{acc_write, more, bits_at, ea_decode, ea_of, ea_is_mem, ea_is_reg, ea_is_mem_alt}
use s_qlux.Cycles.{ea_is_data_alt, ea_ext_words, ea_read, ea_modify, set, set_illegal}
use s_qlux.Cycles.Mode.{dn, an, d8x, imm, bad}
use s_qlux.Cycles.Kind.{k_none, k_bcc, k_dbcc, k_scc, k_shift, k_mulu, k_muls, k_divu, k_divs}

unfoldable pub move_is_illegal : Mode → Mode → ℕ → Bool
unfolding ea_is_data_alt
move_is_illegal src dst sz =
    (same src bad || (same src an && sz == sz_b))
    || (not (ea_is_data_alt dst || same dst an) || (same dst an && sz == sz_b))

-- The destination adds nothing for a register, and no cycles but its write for -(An).
unfoldable pub move_to : Acc → Mode → ℕ → Acc
unfolding ea_ext_words acc_write ea_is_reg
move_to a dst sz =
    let w = acc_write a sz in
    if not (ea_is_reg dst)
    then record w {
      pw = w.pw + ea_ext_words dst sz;
      internal = w.internal + (if same dst d8x then 2 else 0);
    }
    else a

module _ (cpu : Model) where
  abbrev fixed : Acc → Entry
  fixed a = set cpu a k_none

  -- Where the condition of the source holds the entry, and an illegal instruction elsewhere.
  abbrev where_legal : Bool → Acc → Entry
  where_legal legal a = if legal then fixed a else set_illegal cpu

  -- Not called with the opmodes 3 and 7.
  unfoldable pub op_dyadic : ℕ → Bool → Entry
  unfolding set set_illegal ea_of ea_read acc_write acc_make ea_is_reg ea_is_mem_alt
  op_dyadic op allow_an =
      let opmode = bits_at op 6 3 in
      let ea = ea_of op in
      let a = acc_make 0 1 in
      if leb opmode 2
      then (if same ea bad || (same ea an && (not allow_an || opmode == sz_b))
          then set_illegal cpu
          else (let a' = ea_read a ea opmode in
              fixed (
                if opmode == sz_l
                then more a' (if ea_is_reg ea || same ea imm then 4 else 2)
                else a')))
      else where_legal (ea_is_mem_alt ea) (ea_modify a ea (opmode - 4))

  unfoldable pub op_extended : ℕ → ℕ → Entry
  unfolding set acc_make acc_read acc_write
  op_extended op sz =
      let a = acc_make 0 1 in
      fixed (
        if test op 0x0008
        then acc_write (acc_read (acc_read (more a 2) sz) sz) sz
        else if sz == sz_l
        then more a 4
        else a)

  -- The internal cycles of BTST, BCHG, BCLR and BSET on a data register.
  abbrev in_dn : ℕ → ℕ
  in_dn t = if t == 0 then 2 else if t == 2 then 6 else 4

  abbrev movep : ℕ → Acc
  movep op =
      let a = acc_make 0 2 in
      let n = if test op 0x0040 then 4 else 2 in
      if test op 0x0080 then record a { wb = n } else record a { rb = n }

  -- A bit operation that reads `pw` words, and on which operands a BTST is legal.
  abbrev bit_op : ℕ → ℕ → Bool → Entry
  bit_op op pw readable =
      let t = bits_at op 6 2 in
      let ea = ea_of op in
      if same ea dn
      then fixed (acc_make (in_dn t) pw)
      else if t == 0 && readable
      then fixed (ea_read (acc_make 0 pw) ea sz_b)
      else where_legal (ea_is_mem_alt ea) (ea_modify (acc_make 0 pw) ea sz_b)

  abbrev immediate : ℕ → Entry
  immediate op =
      let t = bits_at op 9 3 in
      let sz = bits_at op 6 2 in
      let ea = ea_of op in
      let a = acc_make 0 (1 + (if sz == sz_l then 2 else 1)) in
      if (t == 4 || t == 7) || sz == 3
      then set_illegal cpu
      else if same ea imm
      then where_legal ((t == 0 || (t == 1 || t == 5)) && not (sz == sz_l)) (acc_make 8 3)
      else if same ea dn
      then fixed (if sz == sz_l then more a (if t == 6 then 2 else 4) else a)
      else where_legal (ea_is_mem_alt ea) (if t == 6 then ea_read a ea sz else ea_modify a ea sz)

  unfoldable pub line0 : ℕ → Entry
  unfolding set set_illegal ea_of ea_read acc_write acc_make ea_is_mem ea_is_mem_alt
  line0 op =
      let ea = ea_of op in
      if bit_and op 0x0138 == 0x0108
      then fixed (movep op)
      else if test op 0x0100
      then bit_op op 1 (not (same ea an) && not (same ea bad))
      else if bit_and op 0x0f00 == 0x0800
      then bit_op op 2 (ea_is_mem ea)
      else immediate op

  unfoldable pub line_move : ℕ → Entry
  unfolding set set_illegal ea_of ea_decode ea_read acc_make move_to move_is_illegal
  line_move op =
      let line = op / 2 ^ 12 in
      let sz = if line == 1 then sz_b else if line == 3 then sz_w else sz_l in
      let src = ea_of op in
      let dst = ea_decode (bits_at op 6 3) (bits_at op 9 3) in
      if move_is_illegal src dst sz
      then set_illegal cpu
      else fixed (move_to (ea_read (acc_make 0 1) src sz) dst sz)

  unfoldable pub line5 : ℕ → Entry
  unfolding set set_illegal ea_of ea_read acc_write acc_make ea_is_mem_alt
  line5 op =
      let ea = ea_of op in
      let sz = bits_at op 6 2 in
      let a = acc_make 0 1 in
      if sz == 3
      then (if same ea an
          then set cpu (acc_make 0 0) k_dbcc
          else if same ea dn
          then set cpu (acc_make 0 0) k_scc
          else where_legal (ea_is_mem_alt ea) (ea_modify a ea sz_b))
      else if same ea dn
      then fixed (if sz == sz_l then more a 4 else a)
      else if same ea an
      then where_legal (not (sz == sz_b)) (more a 4)
      else where_legal (ea_is_mem_alt ea) (ea_modify a ea sz)

  unfoldable pub line6 : ℕ → Entry
  unfolding set acc_make
  line6 op =
      let cc = bits_at op 8 4 in
      if cc == 0
      then fixed (acc_make 2 2)
      else if cc == 1
      then fixed (record (acc_make 2 2) { wl = 1 })
      else set cpu (acc_make 0 0) k_bcc

  -- DIV and MUL. A division by a register has its time in the dynamic part.
  abbrev multiply_divide : ℕ → Bool → Entry
  multiply_divide op is_and =
      let unsigned = bits_at op 6 3 == 3 in
      let ea = ea_of op in
      let a = acc_make 0 1 in
      let m = ea_read (acc_make 34 1) ea sz_w in
      if same ea bad || same ea an
      then set_illegal cpu
      else if not is_and && same ea dn
      then record (set cpu a (if unsigned then k_divu else k_divs)) {
        cycles = (acc_cycles cpu a - 4) % 2 ^ 16;
      }
      else if not is_and
      then fixed (ea_read (acc_make (if unsigned then 136 else 154) 1) ea sz_w)
      else if same ea dn
      then set cpu m (if unsigned then k_mulu else k_muls)
      else fixed (more m 16)

  unfoldable pub line8_c : ℕ → Bool → Entry
  unfolding set set_illegal ea_of ea_read acc_make acc_cycles op_extended op_dyadic
  line8_c op is_and =
      let opmode = bits_at op 6 3 in
      let mode = bits_at op 3 3 in
      if opmode == 3 || opmode == 7
      then multiply_divide op is_and
      else if opmode == 4 && leb mode 1
      then (if mode == 1 then op_extended op sz_b else fixed (acc_make 2 1))
      else if is_and && ((opmode == 5 && leb mode 1) || (opmode == 6 && mode == 1))
      then fixed (acc_make 2 1)
      else op_dyadic op false

  unfoldable pub line9_d : ℕ → Entry
  unfolding set set_illegal ea_of ea_read acc_make ea_is_reg op_extended op_dyadic
  line9_d op =
      let opmode = bits_at op 6 3 in
      let mode = bits_at op 3 3 in
      let ea = ea_of op in
      let sz = if opmode == 3 then sz_w else sz_l in
      if opmode == 3 || opmode == 7
      then (if same ea bad
          then set_illegal cpu
          else (fixed (
              more (ea_read (acc_make 0 1) ea sz)
                (if sz == sz_w then 4 else if ea_is_reg ea || same ea imm then 4 else 2))))
      else if leb 4 opmode && leb mode 1
      then op_extended op (opmode - 4)
      else op_dyadic op true

  unfoldable pub line_b : ℕ → Entry
  unfolding set set_illegal ea_of ea_read acc_make acc_read acc_write ea_is_mem_alt
  line_b op =
      let opmode = bits_at op 6 3 in
      let ea = ea_of op in
      let sz = opmode - 4 in
      if opmode == 3 || opmode == 7
      then where_legal (not (same ea bad))
          (ea_read (acc_make 2 1) ea (if opmode == 3 then sz_w else sz_l))
      else if leb opmode 2
      then where_legal (not (same ea bad || (same ea an && opmode == sz_b)))
          (ea_read (acc_make (if opmode == sz_l then 2 else 0) 1) ea opmode)
      else if same ea an
      then fixed (acc_read (acc_read (acc_make 0 1) sz) sz)
      else if same ea dn
      then fixed (acc_make (if sz == sz_l then 4 else 0) 1)
      else where_legal (ea_is_mem_alt ea) (ea_modify (acc_make 0 1) ea sz)

  unfoldable pub line_e : ℕ → Entry
  unfolding set set_illegal ea_of ea_read acc_make acc_write ea_is_mem_alt
  line_e op =
      let sz = bits_at op 6 2 in
      let ea = ea_of op in
      let a = acc_make (if sz == sz_l then 4 else 2) 1 in
      let n = bits_at op 9 3 in
      if sz == 3
      then where_legal (not (test op 0x0800 || not (ea_is_mem_alt ea)))
          (ea_modify (acc_make 0 1) ea sz_w)
      else if test op 0x0020
      then set cpu a k_shift
      else fixed (more a (2 * (if n == 0 then 8 else n)))
