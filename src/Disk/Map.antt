-- ===== src/Disk/Map.antt =====
-- The map of a QXL.WIN medium (QDisk.c): for each cluster the next one of its chain, or 0 at the end.
-- A pointer into the map is the number of its cluster. The loops to the end of a chain have 65536
-- rounds, and no result where these do not get there.
use s_qlux.Base.{ℕ, zero, suc, ◌+◌, ◌-◌, ◌*◌, ◌/◌, ◌%◌, ◌^◌, ltb, ◌==◌, if◌then◌else◌}
use s_qlux.Base.{Bool, true, false, not, ◌&&◌, Option, none, some}
use s_qlux.Memory.{peek_word, poke_word}
use s_qlux.Disk.{FileNum, Fcb, DiskFile, OsErr, no_file_block, drive_full, qwa_spc, qwa_fc, qwa_ffc}
use s_qlux.Disk.Cache.{set_changed, get_sector, write_block0}

-- `(uw16 *)(buffer + 0x40) + c`
abbrev pub entry : ℕ → ℕ
entry c = 0x40 + 2 * c

abbrev pub rounds : ℕ
rounds = 65536

-- `for (g = 0; g != n && *p; g++)`: the steps that are left, and the last cluster
unfoldable pub walk : (ℕ → ℕ) → ℕ → ℕ → ℕ × ℕ
walk next zero c = (0, c)
walk next (suc n) c = elim (next c == 0) [ true ↦ (suc n, c) | false ↦ walk next n (next c) ]

-- `while (*p)`: the steps to the end of the chain, and its last cluster
unfoldable pub chain_end : (ℕ → ℕ) → ℕ → ℕ → Option (ℕ × ℕ)
chain_end next zero c = none
chain_end next (suc n) c = elim (next c == 0) [
  | true ↦ some (0, c)
  | false ↦ elim (chain_end next n (next c)) [ none ↦ none | some r ↦ some (r.0 + 1, r.1) ]
]

module _ {F : Type 0} where
  abbrev pub next_of : Fcb F → ℕ → ℕ
  next_of d c = peek_word d.buffer (entry c)

  -- WW of a map entry, QWA_SETFFC and QWA_SETFC
  abbrev pub set_word : ℕ → ℕ → Fcb F → Fcb F
  set_word a v d = record d { buffer = poke_word d.buffer a v }

  abbrev pub set_entry : ℕ → ℕ → Fcb F → Fcb F
  set_entry c v d = set_word (entry c) v d

  abbrev pub set_ffc : ℕ → Fcb F → Fcb F
  set_ffc v d = set_word 0x32 v d

  abbrev pub set_fc : ℕ → Fcb F → Fcb F
  set_fc v d = set_word 0x2c (v % 2 ^ 16) d

  -- The sector of the map with this entry is marked as changed.
  abbrev pub mark : ℕ → Fcb F → Fcb F
  mark c d = set_changed (entry c / 512) true d

  -- `QLWA_GetFileSectNum`
  unfoldable pub qlwa_get_file_sect_num : FileNum → ℕ → Fcb F → Option ℕ × Fcb F
  unfolding walk
  qlwa_get_file_sect_num fn sector d =
      let r = walk (next_of d) (sector / qwa_spc d) fn.file in
      if r.0 == 0
      then (some (r.1 * qwa_spc d + sector % qwa_spc d), d)
      else (none, record d { g_error = no_file_block })

  -- The first free cluster leaves its chain.
  unfoldable pub take_free : ℕ → Fcb F → Fcb F
  take_free nb d = mark nb (set_changed 0 true (set_entry nb 0 (set_ffc (next_of d nb) d)))

  -- The cluster `nb` comes behind the last one of a file.
  unfoldable pub append : (last nb : ℕ) → Fcb F → Fcb F
  append last nb d =
      let d1 = mark last (set_changed 0 true (set_entry last nb d)) in
      set_fc (qwa_fc d1 + 2 ^ 16 - 1) d1

  unfoldable pub has_free : Fcb F → Bool
  has_free d = ltb 0 (qwa_fc d) && not (qwa_ffc d == 0)

  unfoldable pub linked : ℕ → Fcb F → Option (ℕ × ℕ) → Option (ℕ × Fcb F)
  unfolding append
  linked nb d none = none
  linked nb d (some r) = some (nb, append r.1 nb d)

  -- What `QLWA_GetFreeBlock` does before it gets the first sector of the cluster
  unfoldable pub link_free : FileNum → Fcb F → Option (ℕ × Fcb F)
  unfolding take_free chain_end linked
  link_free fn d =
      let nb = qwa_ffc d in
      let d1 = take_free nb d in linked nb d1 (chain_end (next_of d1) rounds fn.file)

  -- The same for the first cluster of a file
  unfoldable pub start_free : Fcb F → ℕ × Fcb F
  unfolding take_free
  start_free d =
      let nb = qwa_ffc d in let d1 = take_free nb d in (nb, set_fc (qwa_fc d1 + 2 ^ 16 - 1) d1)

  -- The clusters behind `p` become free, up to `last`, which is `rels` steps on.
  unfoldable pub cut_tail : (p rels last : ℕ) → Fcb F → Fcb F
  cut_tail p rels last d =
      let d1 = set_entry last (qwa_ffc d) d in
      let d2 = set_entry p 0 (set_ffc (next_of d1 p) d1) in
      let d3 = mark last (mark p d2) in set_fc (qwa_fc d3 + rels) d3

  unfoldable pub cut_behind : ℕ → Fcb F → Option (ℕ × ℕ) → Option (Fcb F)
  unfolding cut_tail
  cut_behind p d none = none
  cut_behind p d (some e) = some (cut_tail p e.0 e.1 d)

  -- `group - 1`
  abbrev pub last_group : ℕ → Fcb F → ℕ
  last_group sector d = (sector + qwa_spc d - 1) / qwa_spc d

  -- `QLWA_KillFileTail`
  unfoldable pub qlwa_kill_file_tail : FileNum → ℕ → Fcb F → Option (Fcb F)
  unfolding walk chain_end cut_behind
  qlwa_kill_file_tail fn sector d =
      let r = walk (next_of d) (last_group sector d) fn.file in
      if r.0 == 0 then cut_behind r.1 d (chain_end (next_of d) rounds r.1) else some d

  -- All the clusters of a file become free.
  unfoldable pub release : (file rels last : ℕ) → Fcb F → Fcb F
  release file rels last d =
      let d1 = set_entry last (qwa_ffc d) d in
      let d2 = set_ffc (file % 2 ^ 16) (mark last (set_changed 0 true d1)) in
      set_fc (qwa_fc d2 + rels) d2

  unfoldable pub released : ℕ → Fcb F → Option (ℕ × ℕ) → Option (Fcb F)
  unfolding release
  released file d none = none
  released file d (some e) = some (release file (e.0 + 1) e.1 d)

  -- What `QLWA_KillFile` does before it writes the map
  unfoldable pub free_chain : FileNum → Fcb F → Option (Fcb F)
  unfolding chain_end released
  free_chain fn d = released fn.file d (chain_end (next_of d) rounds fn.file)

module _ {F : Type 0} ⦃io : DiskFile F⦄ where
  -- `QLWA_GetFreeBlock0`: the file number with its first cluster, and the sector
  unfoldable pub qlwa_get_free_block0 : FileNum → Fcb F → Option ((FileNum × Option ℕ) × Fcb F)
  unfolding has_free start_free get_sector
  qlwa_get_free_block0 fe d =
      if has_free d
      then (let r = start_free d in
          let fn = record fe { file = r.0 } in
          elim (get_sector (r.0 * qwa_spc r.1) fn r.1) [
            | none ↦ none
            | some q ↦ some ((fn, q.0), q.1)
          ])
      else some ((fe, none), record d { g_error = drive_full })

  -- `QLWA_GetFreeBlock`
  unfoldable pub qlwa_get_free_block : FileNum → Fcb F → Option (Option ℕ × Fcb F)
  unfolding has_free link_free get_sector
  qlwa_get_free_block fn d =
      if has_free d
      then elim (link_free fn d) [ none ↦ none | some r ↦ get_sector (r.0 * qwa_spc r.1) fn r.1 ]
      else some (none, record d { g_error = drive_full })

  -- `QLWA_KillFile`
  unfoldable pub qlwa_kill_file : FileNum → Fcb F → Option (OsErr × Fcb F)
  unfolding free_chain write_block0
  qlwa_kill_file fn d = elim (free_chain fn d) [ none ↦ none | some d1 ↦ some (write_block0 d1) ]
