-- ===== src/Disk/Coherence/Flush.antt =====
-- `FlushSectors` (QDisk.c) brings the file of the host up to date.
use s_qlux.Base.{ℕ, zero, suc, ◌+◌, ◌-◌, ◌*◌, ◌<◌, ◌==◌}
use s_qlux.Base.{true, false, ◌≡◌, refl, arith, ◌∙◌, sym, subst}
use s_qlux.Base.{Bool-cases, inl, inr, ◌⊎◌}
use s_qlux.Disk.{Fcb, SectorInfo, DiskFile, fine, write_log_sector}
use s_qlux.Disk.Cache.{holds, is_dirty, write_map, write_block0, flush_buffer, flush_buffers}
use s_qlux.Disk.Cache.{flush_sectors}
use s_qlux.Disk.Coherence.{IsReliable, IsCache, Represents, sector_limit}
use s_qlux.Disk.Coherence.Back.{written, write_log_sector_lem}
use s_qlux.Disk.Coherence.Save.{saved, saved-IsCache, saved-Represents}

module _ {F : Type 0} ⦃io : DiskFile F⦄ (law : IsReliable io) where
  -- While a medium with `n` buffers, `m` of them for the map, is written
  pub record IsSaving (g : ℕ → ℕ → ℕ) (n m : ℕ) (d : Fcb F) : Type 0 where
    pub cache : IsCache law d
    pub same : Represents law d g
    pub total : d.bufcount ≡ n
    pub sectors : d.fat_sectors ≡ m

  saved-IsSaving :
      (g : ℕ → ℕ → ℕ) (n m s k : ℕ) (d : Fcb F)
      → IsSaving g n m d
      → k < n
      → holds s (d.si k) ≡ true
      → (write_log_sector s (k * 512) d ≡ (fine, record d { host = written s (k * 512) d }))
        × IsSaving g n m (saved s k d)
  saved-IsSaving g n m s k d v lt here =
      let k_lt : k < d.bufcount = rw v.total lt in
      let reach : s < sector_limit = let r = v.cache.reach k k_lt in ground arith in
      (
        write_log_sector_lem law s (k * 512) d v.cache reach,
        record {
          cache = saved-IsCache law s k d v.cache k_lt here reach;
          same = saved-Represents law s k d g v.same k_lt here reach;
          total = v.total;
          sectors = v.sectors;
        },
      )

  write_map-IsSaving :
      (g : ℕ → ℕ → ℕ) (n m r i : ℕ) (d : Fcb F)
      → IsSaving g n m d
      → i + r ≡ m
      → ((write_map r i d).0 ≡ fine) × IsSaving g n m (write_map r i d).1
  unfolding write_map
  write_map-IsSaving g n m zero i d v e = (refl, v)
  write_map-IsSaving g n m (suc r) i d v e =
      let under : i < d.fat_sectors = omega (arith, v.sectors) in
      let here = (v.cache.map i under).0 in
      let room : i < n = omega (arith, v.cache.room, v.total, v.sectors) in
      let step = saved-IsSaving g n m i i d v room here in
      let rest = write_map-IsSaving g n m r (i + 1) (saved i i d) step.1 (omega arith) in
      rw step.0 rest

  write_block0-IsSaving :
      (g : ℕ → ℕ → ℕ) (n m : ℕ) (d : Fcb F)
      → IsSaving g n m d
      → 0 < m
      → ((write_block0 d).0 ≡ fine) × IsSaving g n m (write_block0 d).1
  unfolding write_block0
  write_block0-IsSaving g n m d v some_map =
      let others = write_map-IsSaving g n m (d.fat_sectors - 1) 1 d v (omega (arith, v.sectors)) in
      let d1 = (write_map (d.fat_sectors - 1) 1 d).1 in
      let here = (others.1.cache.map 0 (omega (arith, others.1.sectors))).0 in
      let room : 0 < n = omega (arith, v.cache.room, v.total) in
      let step = saved-IsSaving g n m 0 0 d1 others.1 room here in
      rw (others.0, step.0) (refl, step.1)

  flush_buffer-IsSaving :
      (g : ℕ → ℕ → ℕ) (n m k : ℕ) (d : Fcb F)
      → IsSaving g n m d
      → k < n
      → IsSaving g n m (flush_buffer k d)
        × ((i : ℕ)
            → (i == k) ≡ true ⊎ (is_dirty (d.si i) ≡ false)
            → is_dirty ((flush_buffer k d).si i) ≡ false)
  unfolding flush_buffer
  flush_buffer-IsSaving g n m k d v lt = elim (Bool-cases (is_dirty (d.si k))) [
    | inl dirty ↦
        let here : holds (d.si k).log_sector (d.si k) ≡ true = ground arith in
        let step = saved-IsSaving g n m (d.si k).log_sector k d v lt here in
        rw (dirty, step.0) (step.1, λ i h. ground arith)
    | inr spared ↦ rw spared (
      v,
      λ i h. elim h [
        | inl at ↦
            let e : i ≡ k = ground arith in subst (λ q. is_dirty (d.si q) ≡ false) (sym e) spared
        | inr clean ↦ clean
      ],
    )
  ]

  flush_buffers-IsSaving :
      (g : ℕ → ℕ → ℕ) (n m r k : ℕ) (d : Fcb F)
      → IsSaving g n m d
      → k + r ≡ n
      → ((i : ℕ) → i < k → is_dirty (d.si i) ≡ false)
      → IsSaving g n m (flush_buffers r k d)
        × ((i : ℕ) → i < n → is_dirty ((flush_buffers r k d).si i) ≡ false)
  unfolding flush_buffers
  flush_buffers-IsSaving g n m zero k d v e clean = (v, λ i lt. clean i (omega arith))
  flush_buffers-IsSaving g n m (suc r) k d v e clean =
      let step = flush_buffer-IsSaving g n m k d v (omega arith) in
      flush_buffers-IsSaving g n m r (k + 1) (flush_buffer k d) step.0 (omega arith) (λ i lt.
        elim (Bool-cases (i == k)) [
          | inl at ↦ step.1 i (inl at)
          | inr other ↦ step.1 i (inr (clean i (ground arith)))
        ])

  -- A buffer that holds the sector, or none of them
  search :
      (s n : ℕ) (si : ℕ → SectorInfo)
      → ((i : ℕ) × (i < n) × (holds s (si i) ≡ true)) ⊎ ((i : ℕ) → i < n → holds s (si i) ≡ false)
  search s zero si = inr (λ i lt. absurd (omega arith))
  search s (suc n) si = elim (search s n si) [
    | inl (i, lt, h) ↦ inl (i, omega arith, h)
    | inr out ↦ elim (Bool-cases (holds s (si n))) [
      | inl h ↦ inl (n, omega arith, h)
      | inr h ↦ inr (λ i lt. elim (Bool-cases (i == n)) [
        | inl at ↦ let e : i ≡ n = ground arith in subst (λ q. holds s (si q) ≡ false) (sym e) h
        | inr away ↦ out i (ground arith)
      ])
    ]
  ]

  clean-content :
      (g : ℕ → ℕ → ℕ) (d : Fcb F) (s b : ℕ)
      → IsCache law d
      → Represents law d g
      → ((i : ℕ) → i < d.bufcount → is_dirty (d.si i) ≡ false)
      → s < sector_limit
      → b < 512
      → law.content d.host s b ≡ g s b
  clean-content g d s b c r clean reach small = elim (search s d.bufcount d.si) [
    | inl (i, lt, h) ↦
        let unchanged = clean i lt in
        sym (c.clean i b s lt small h (ground arith)) ∙ r.held i b s lt small h
    | inr nowhere ↦ r.stored s b reach small nowhere
  ]

  finish :
      (d1 : Fcb F) (g : ℕ → ℕ → ℕ) (n m : ℕ)
      → IsSaving g n m d1
      → let d' = flush_buffers d1.bufcount 0 d1 in
        IsCache law d'
        × Represents law d' g
        × ((s b : ℕ) → s < sector_limit → b < 512 → law.content d'.host s b ≡ g s b)
  finish d1 g n m first =
      let whole =
        flush_buffers-IsSaving g n m d1.bufcount 0 d1 first (omega (arith, first.total))
          (λ i lt. absurd (omega arith)) in
      (
        whole.0.cache,
        whole.0.same,
        λ s b reach small.
            clean-content g (flush_buffers d1.bufcount 0 d1) s b whole.0.cache whole.0.same
              (λ i lt. whole.1 i (omega (arith, whole.0.total))) reach small,
      )

  -- On a file without errors, after `FlushSectors` every sector of the file is that of the medium,
  -- which stays as it was.
  pub flush_sectors-content :
      (d : Fcb F) (g : ℕ → ℕ → ℕ)
      → IsCache law d
      → Represents law d g
      → 0 < d.fat_sectors
      → let d' = flush_sectors d in
        IsCache law d'
        × Represents law d' g
        × ((s b : ℕ) → s < sector_limit → b < 512 → law.content d'.host s b ≡ g s b)
  unfolding flush_sectors
  flush_sectors-content d g c r some_map =
      let v : IsSaving g d.bufcount d.fat_sectors d = record {
        cache = c;
        same = r;
        total = refl;
        sectors = refl;
      } in
      finish (write_block0 d).1 g d.bufcount d.fat_sectors
        (write_block0-IsSaving g d.bufcount d.fat_sectors d v some_map).1
