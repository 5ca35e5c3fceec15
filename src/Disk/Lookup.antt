-- ===== src/Disk/Lookup.antt =====
-- The sector of a medium that holds a sector of a file (QDisk.c, `QLWA_GetFileSectNum`).
use s_qlux.Base.{ℕ, suc, ◌+◌, ◌*◌, ◌/◌, ◌%◌, ◌<◌, ◌≤◌}
use s_qlux.Base.{none, some, List, [], ◌∷◌, ◌++◌, ◌≡◌, refl, arith}
use s_qlux.Disk.{Fcb, FileNum, no_file_block, qwa_spc}
use s_qlux.Disk.Map.{next_of, qlwa_get_file_sect_num}
use s_qlux.Disk.Chains.{count, Seg, nth_of, last_of, walk_lem, walk-short}

pub nth-last : (x : ℕ) (l zs : List ℕ) → nth_of x (l ++ zs) (count l) ≡ last_of x l
nth-last x [] zs = refl
nth-last x (y ∷ l) zs =
    let next : count l + 1 ≡ suc (count l) = omega arith in rw next (nth-last y l zs)

module _ {F : Type 0} where
  -- With the file in the clusters `x ∷ l`, a sector within them is found in its cluster; behind them
  -- there is none, and the error says so.
  pub qlwa_get_file_sect_num_lem :
      (fn : FileNum) (x : ℕ) (l : List ℕ) (sector : ℕ) (d : Fcb F)
      → Seg (next_of d) 0 fn.file (x ∷ l)
      → (sector / qwa_spc d ≤ count l
          → qlwa_get_file_sect_num fn sector d
            ≡ (some (nth_of x l (sector / qwa_spc d) * qwa_spc d + sector % qwa_spc d), d))
        × (count l < sector / qwa_spc d
            → qlwa_get_file_sect_num fn sector d ≡ (none, record d { g_error = no_file_block }))
  unfolding qlwa_get_file_sect_num
  qlwa_get_file_sect_num_lem fn x l sector d chain = (
    λ within. rw (walk_lem (next_of d) (sector / qwa_spc d) fn.file x l chain within) refl,
    λ behind. rw (walk-short (next_of d) (sector / qwa_spc d) fn.file x l chain behind) refl,
  )
