-- ===== src/Disk/Words.antt =====
-- The words of the first sector and of the map of a medium (QDisk.c), after another one was written.
use s_qlux.Base.{ℕ, ◌+◌, ◌%◌, ◌^◌, ◌<◌, ◌==◌, if◌then◌else◌, ◌≡◌, arith}
use s_qlux.Memory.{peek_word, poke_word}
use s_qlux.Disk.{Fcb, qwa_ffc, qwa_fc}
use s_qlux.Disk.Map.{next_of, set_word, set_entry, set_ffc, set_fc}

module _ {F : Type 0} where
  abbrev pub IsBytes : Fcb F → Type 0
  IsBytes d = (a : ℕ) → d.buffer a < 2 ^ 8

  pub next-set_entry :
      (c v a : ℕ) (d : Fcb F)
      → v < 2 ^ 16
      → next_of (set_entry c v d) a ≡ (if a == c then v else next_of d a)
  unfolding peek_word poke_word
  next-set_entry c v a d small = ground arith

  pub next-set_ffc : (v a : ℕ) (d : Fcb F) → next_of (set_ffc v d) a ≡ next_of d a
  unfolding peek_word poke_word
  next-set_ffc v a d = ground arith

  pub next-set_fc : (v a : ℕ) (d : Fcb F) → next_of (set_fc v d) a ≡ next_of d a
  unfolding peek_word poke_word
  next-set_fc v a d = ground arith

  pub ffc-set_entry : (c v : ℕ) (d : Fcb F) → qwa_ffc (set_entry c v d) ≡ qwa_ffc d
  unfolding peek_word poke_word
  ffc-set_entry c v d = ground arith

  pub ffc-set_ffc : (v : ℕ) (d : Fcb F) → v < 2 ^ 16 → qwa_ffc (set_ffc v d) ≡ v
  unfolding peek_word poke_word
  ffc-set_ffc v d small = ground arith

  pub ffc-set_fc : (v : ℕ) (d : Fcb F) → qwa_ffc (set_fc v d) ≡ qwa_ffc d
  unfolding peek_word poke_word
  ffc-set_fc v d = ground arith

  pub fc-set_entry : (c v : ℕ) (d : Fcb F) → qwa_fc (set_entry c v d) ≡ qwa_fc d
  unfolding peek_word poke_word
  fc-set_entry c v d = ground arith

  pub fc-set_ffc : (v : ℕ) (d : Fcb F) → qwa_fc (set_ffc v d) ≡ qwa_fc d
  unfolding peek_word poke_word
  fc-set_ffc v d = ground arith

  pub fc-set_fc : (v : ℕ) (d : Fcb F) → qwa_fc (set_fc v d) ≡ v % 2 ^ 16
  unfolding peek_word poke_word
  fc-set_fc v d = ground arith

  pub set_word-IsBytes : (a v : ℕ) (d : Fcb F) → IsBytes d → IsBytes (set_word a v d)
  unfolding poke_word
  set_word-IsBytes a v d b i = ground (arith, b i)

  pub word-small : (a : ℕ) (d : Fcb F) → IsBytes d → peek_word d.buffer a < 2 ^ 16
  unfolding peek_word
  word-small a d b = omega (arith, b a, b (a + 1))
