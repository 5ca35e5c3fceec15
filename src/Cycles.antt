-- ===== src/Cycles.antt =====
-- The clock cycles of the instructions (cycles68k.c): the accesses of an instruction, what they cost
-- on a 68000 and on a 68008, and the addressing modes.
pub mod Lines
pub mod Line4
pub mod Table
pub mod Dynamic
pub mod Ones
pub mod Manual
pub mod Division
use s_qlux.Base.{
  ℕ, ◌+◌, ◌-◌, ◌*◌, ◌/◌, ◌%◌, ◌^◌, ◌==◌, leb, if◌then◌else◌, Bool, true, false, ◌&&◌, ◌||◌,
}

-- `cyc_cpu`
pub data Model : Type 0 where
  mc68000 mc68008 : Model

-- SZ_B, SZ_W and SZ_L, which the opcodes hold as numbers too.
abbrev pub sz_b : ℕ
sz_b = 0

abbrev pub sz_w : ℕ
sz_w = 1

abbrev pub sz_l : ℕ
sz_l = 2

pub data Mode : Type 0 where
  dn an ai pi pd d16 d8x aw al pc16 pc8x imm bad : Mode

-- The place of a mode in the enumeration, which the code compares.
abbrev pub place : Mode → ℕ
place dn = 0
place an = 1
place ai = 2
place pi = 3
place pd = 4
place d16 = 5
place d8x = 6
place aw = 7
place al = 8
place pc16 = 9
place pc8x = 10
place imm = 11
place bad = 12

abbrev pub same : Mode → Mode → Bool
same m n = place m == place n

-- `internal` is the field `in`.
pub record Acc : Type 0 where
  pub internal : ℕ
  pub pw : ℕ
  pub rb : ℕ
  pub rw : ℕ
  pub rl : ℕ
  pub wb : ℕ
  pub ww : ℕ
  pub wl : ℕ

-- CYC_K_NONE and the others
pub data Kind : Type 0 where
  k_none k_bcc k_dbcc k_scc k_shift k_movem_w k_movem_l k_mulu k_muls k_divu k_divs : Kind

-- What `cyc_table`, `cyc_kind` and `cyc_pw` hold of an opcode.
pub record Entry : Type 0 where
  pub cycles : ℕ
  pub kind : Kind
  pub words : ℕ

unfoldable pub acc_cycles : Model → Acc → ℕ
acc_cycles mc68000 a = a.internal + 4 * (a.pw + a.rb + a.rw + 2 * a.rl + a.wb + a.ww + 2 * a.wl)
acc_cycles mc68008 a =
    a.internal + 4 * (2 * a.pw + a.rb + 2 * a.rw + 4 * a.rl + a.wb + 2 * a.ww + 4 * a.wl)

unfoldable pub acc_make : ℕ → ℕ → Acc
acc_make internal pw = record {
  internal = internal;
  pw = pw;
  rb = 0;
  rw = 0;
  rl = 0;
  wb = 0;
  ww = 0;
  wl = 0;
}

unfoldable pub acc_read : Acc → ℕ → Acc
acc_read a sz =
    if sz == sz_b
    then record a { rb = a.rb + 1 }
    else if sz == sz_w
    then record a { rw = a.rw + 1 }
    else record a { rl = a.rl + 1 }

unfoldable pub acc_write : Acc → ℕ → Acc
acc_write a sz =
    if sz == sz_b
    then record a { wb = a.wb + 1 }
    else if sz == sz_w
    then record a { ww = a.ww + 1 }
    else record a { wl = a.wl + 1 }

abbrev pub more : Acc → ℕ → Acc
more a n = record a { internal = a.internal + n }

unfoldable pub ea_decode : ℕ → ℕ → Mode
ea_decode mode reg =
    if mode == 0
    then dn
    else if mode == 1
    then an
    else if mode == 2
    then ai
    else if mode == 3
    then pi
    else if mode == 4
    then pd
    else if mode == 5
    then d16
    else if mode == 6
    then d8x
    else if reg == 0
    then aw
    else if reg == 1
    then al
    else if reg == 2
    then pc16
    else if reg == 3
    then pc8x
    else if reg == 4
    then imm
    else bad

-- The `n` bits of an opcode from bit `k` on.
abbrev pub bits_at : ℕ → ℕ → ℕ → ℕ
bits_at op k n = op / 2 ^ k % 2 ^ n

unfoldable pub ea_of : ℕ → Mode
unfolding ea_decode
ea_of op = ea_decode (bits_at op 3 3) (bits_at op 0 3)

unfoldable pub ea_is_mem : Mode → Bool
ea_is_mem ea = leb (place ai) (place ea) && leb (place ea) (place pc8x)

unfoldable pub ea_is_reg : Mode → Bool
ea_is_reg ea = same ea dn || same ea an

unfoldable pub ea_is_ctrl : Mode → Bool
ea_is_ctrl ea = same ea ai || (leb (place d16) (place ea) && leb (place ea) (place pc8x))

unfoldable pub ea_is_mem_alt : Mode → Bool
ea_is_mem_alt ea = leb (place ai) (place ea) && leb (place ea) (place al)

unfoldable pub ea_is_data_alt : Mode → Bool
unfolding ea_is_mem_alt
ea_is_data_alt ea = same ea dn || ea_is_mem_alt ea

unfoldable pub ea_ext_words : Mode → ℕ → ℕ
ea_ext_words d16 sz = 1
ea_ext_words d8x sz = 1
ea_ext_words aw sz = 1
ea_ext_words pc16 sz = 1
ea_ext_words pc8x sz = 1
ea_ext_words al sz = 2
ea_ext_words imm sz = if sz == sz_l then 2 else 1
ea_ext_words _ sz = 0

unfoldable pub ea_internal : Mode → ℕ
ea_internal ea = if same ea pd || (same ea d8x || same ea pc8x) then 2 else 0

unfoldable pub ea_read : Acc → Mode → ℕ → Acc
unfolding ea_ext_words ea_internal ea_is_mem acc_read
ea_read a ea sz =
    let a' = record a { pw = a.pw + ea_ext_words ea sz; internal = a.internal + ea_internal ea } in
    if ea_is_mem ea then acc_read a' sz else a'

-- `ea_read` and `acc_write`: an operand that is read and written.
abbrev pub ea_modify : Acc → Mode → ℕ → Acc
ea_modify a ea sz = acc_write (ea_read a ea sz) sz

unfoldable pub acc_exception : Acc
unfolding acc_make
acc_exception = record (acc_make 6 2) { rl = 1; ww = 1; wl = 1 }

abbrev kind_words : Kind → Acc → ℕ
kind_words k_bcc a = 2
kind_words k_dbcc a = 2
kind_words k_scc a = 1
kind_words _ a = a.pw % 2 ^ 8

unfoldable pub set : Model → Acc → Kind → Entry
unfolding acc_cycles
set cpu a kind = record {
  cycles = acc_cycles cpu a % 2 ^ 16;
  kind = kind;
  words = kind_words kind a;
}

unfoldable pub set_illegal : Model → Entry
unfolding set acc_exception
set_illegal cpu = set cpu acc_exception k_none
