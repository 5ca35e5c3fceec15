-- ===== src/Cycles/Manual.antt =====
-- The times of the instructions against the tables of the manuals of the 68000 and the 68008.
pub mod Move
use s_qlux.Base.{
  ℕ, ◌+◌, ◌-◌, ◌*◌, ◌%◌, ◌^◌, ◌≤◌, ◌<◌, ◌≡◌, refl, ◌∙◌, ap, arith, ◌==◌, if◌then◌else◌,
}
use s_qlux.Base.{Bool, true, false, not, ◌&&◌, ◌||◌, leb}
use s_qlux.Cycles.{Model, Mode, Acc, sz_b, sz_l, same, acc_cycles, acc_write, ea_read, ea_is_reg}
use s_qlux.Cycles.Model.{mc68000, mc68008}
use s_qlux.Cycles.Mode.{dn, an, ai, pi, pd, d16, d8x, aw, al, pc16, pc8x, imm, bad}

-- A row of a table: the times of a byte, a word and a long word.
abbrev pub row : ℕ → ℕ → ℕ → ℕ → ℕ
row b w l sz = if sz == 0 then b else if sz == 1 then w else l

-- Effective address calculation times: table 8-1 of the 68000, and the same table of the 68008.
unfoldable pub ea_time : Model → Mode → ℕ → ℕ
ea_time mc68000 dn = row 0 0 0
ea_time mc68000 an = row 0 0 0
ea_time mc68000 ai = row 4 4 8
ea_time mc68000 pi = row 4 4 8
ea_time mc68000 pd = row 6 6 10
ea_time mc68000 d16 = row 8 8 12
ea_time mc68000 d8x = row 10 10 14
ea_time mc68000 aw = row 8 8 12
ea_time mc68000 al = row 12 12 16
ea_time mc68000 pc16 = row 8 8 12
ea_time mc68000 pc8x = row 10 10 14
ea_time mc68000 imm = row 4 4 8
ea_time mc68000 bad = row 0 0 0
ea_time mc68008 dn = row 0 0 0
ea_time mc68008 an = row 0 0 0
ea_time mc68008 ai = row 4 8 16
ea_time mc68008 pi = row 4 8 16
ea_time mc68008 pd = row 6 10 18
ea_time mc68008 d16 = row 12 16 24
ea_time mc68008 d8x = row 14 18 26
ea_time mc68008 aw = row 12 16 24
ea_time mc68008 al = row 20 24 32
ea_time mc68008 pc16 = row 12 16 24
ea_time mc68008 pc8x = row 14 18 26
ea_time mc68008 imm = row 8 8 16
ea_time mc68008 bad = row 0 0 0

-- The time of a write to memory.
abbrev pub write_time : Model → ℕ → ℕ
write_time mc68000 = row 4 4 8
write_time mc68008 = row 4 8 16

module _ (P : Mode → Type 0) where
  -- A fact about a mode, by the modes.
  pub each_mode :
      P dn
      → P an
      → P ai
      → P pi
      → P pd
      → P d16
      → P d8x
      → P aw
      → P al
      → P pc16
      → P pc8x
      → P imm
      → P bad
      → (m : Mode) → P m
  each_mode h _ _ _ _ _ _ _ _ _ _ _ _ dn = h
  each_mode _ h _ _ _ _ _ _ _ _ _ _ _ an = h
  each_mode _ _ h _ _ _ _ _ _ _ _ _ _ ai = h
  each_mode _ _ _ h _ _ _ _ _ _ _ _ _ pi = h
  each_mode _ _ _ _ h _ _ _ _ _ _ _ _ pd = h
  each_mode _ _ _ _ _ h _ _ _ _ _ _ _ d16 = h
  each_mode _ _ _ _ _ _ h _ _ _ _ _ _ d8x = h
  each_mode _ _ _ _ _ _ _ h _ _ _ _ _ aw = h
  each_mode _ _ _ _ _ _ _ _ h _ _ _ _ al = h
  each_mode _ _ _ _ _ _ _ _ _ h _ _ _ pc16 = h
  each_mode _ _ _ _ _ _ _ _ _ _ h _ _ pc8x = h
  each_mode _ _ _ _ _ _ _ _ _ _ _ h _ imm = h
  each_mode _ _ _ _ _ _ _ _ _ _ _ _ h bad = h

pub ea_time-le : (cpu : Model) (sz : ℕ) (ea : Mode) → ea_time cpu ea sz ≤ 32
unfolding ea_time
ea_time-le mc68000 sz =
    each_mode (λ ea. ea_time mc68000 ea sz ≤ 32) (ground arith) (ground arith) (ground arith)
      (ground arith) (ground arith) (ground arith) (ground arith) (ground arith) (ground arith)
      (ground arith) (ground arith) (ground arith) (ground arith)
ea_time-le mc68008 sz =
    each_mode (λ ea. ea_time mc68008 ea sz ≤ 32) (ground arith) (ground arith) (ground arith)
      (ground arith) (ground arith) (ground arith) (ground arith) (ground arith) (ground arith)
      (ground arith) (ground arith) (ground arith) (ground arith)

-- Reading a byte, a word or a long word adds the time of its addressing mode in the manual of the
-- CPU.
pub ea_read-ea_time :
    (cpu : Model) (a : Acc) (sz : ℕ)
    → sz ≤ 2
    → (ea : Mode) → acc_cycles cpu (ea_read a ea sz) ≡ acc_cycles cpu a + ea_time cpu ea sz
unfolding ea_time ea_read acc_cycles
ea_read-ea_time mc68000 a sz le =
    each_mode
      (λ ea. acc_cycles mc68000 (ea_read a ea sz) ≡ acc_cycles mc68000 a + ea_time mc68000 ea sz)
      (ground arith) (ground arith) (ground arith) (ground arith) (ground arith) (ground arith)
      (ground arith) (ground arith) (ground arith) (ground arith) (ground arith) (ground arith)
      (ground arith)
ea_read-ea_time mc68008 a sz le =
    each_mode
      (λ ea. acc_cycles mc68008 (ea_read a ea sz) ≡ acc_cycles mc68008 a + ea_time mc68008 ea sz)
      (ground arith) (ground arith) (ground arith) (ground arith) (ground arith) (ground arith)
      (ground arith) (ground arith) (ground arith) (ground arith) (ground arith) (ground arith)
      (ground arith)

pub acc_write-write_time :
    (cpu : Model) (a : Acc) (sz : ℕ)
    → acc_cycles cpu (acc_write a sz) ≡ acc_cycles cpu a + write_time cpu sz
unfolding acc_write acc_cycles
acc_write-write_time mc68000 a sz = ground arith
acc_write-write_time mc68008 a sz = ground arith
