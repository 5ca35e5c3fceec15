-- ===== src/Disk/Coherence/Put.antt =====
-- A sector that is changed in its buffer and given to `PutSector` (QDisk.c).
use s_qlux.Base.{ℕ, ◌*◌, ◌/◌, ◌<◌, ◌==◌, if◌then◌else◌}
use s_qlux.Base.{true, false, ◌≡◌, refl, arith, ◌∙◌, sym, subst}
use s_qlux.Base.{Bool-cases, inl, inr, ltb-true}
use s_qlux.Disk.{Fcb, DiskFile, paste}
use s_qlux.Disk.Cache.{holds, touch, put_sector}
use s_qlux.Disk.Coherence.{IsReliable, IsCache, Represents, paste-slot}

module _ {F : Type 0} ⦃io : DiskFile F⦄ (law : IsReliable io) where
  abbrev filled : (k : ℕ) → (ℕ → ℕ) → Fcb F → Fcb F
  filled k bytes d = record d { buffer = paste (k * 512) bytes d.buffer }

  abbrev changed_in : (k : ℕ) → (ℕ → ℕ) → Fcb F → Fcb F
  changed_in k bytes d = touch k (record (d.si k) { changed = true }) (filled k bytes d)

  module _ (s k : ℕ) (bytes : ℕ → ℕ) (d : Fcb F) (c : IsCache law d) (lt : k < d.bufcount)
      (here : holds s (d.si k) ≡ true) where
    put_sector_lem : put_sector (k * 512) (filled k bytes d) ≡ changed_in k bytes d
    unfolding put_sector
    put_sector_lem =
        let at : k * 512 / 512 ≡ k = omega arith in rw (at, ltb-true k d.bufcount lt) refl

    same_holds : (i t : ℕ) → holds t ((changed_in k bytes d).si i) ≡ holds t (d.si i)
    same_holds i t = ground arith

    put-IsCache : IsCache law (changed_in k bytes d)
    put-IsCache = record {
      ready = c.ready;
      kind = c.kind;
      room = c.room;
      locks = λ i over. ground (arith, c.locks i over);
      map = λ i under. let (held, locked) = c.map i under in (same_holds i i ∙ held, ground arith);
      reach = λ i li taken. let r = c.reach i li in ground arith;
      once = λ i j t li lj hi hj.
          c.once i j t li lj (sym (same_holds i t) ∙ hi) (sym (same_holds j t) ∙ hj);
      clean = λ i b t li small held same.
          let away : (i == k) ≡ false = ground arith in
          paste-slot i k b bytes d.buffer small
          ∙ rw away (c.clean i b t li small (sym (same_holds i t) ∙ held) (ground arith));
    }

    put-Represents :
        (g : ℕ → ℕ → ℕ)
        → Represents law d g
        → Represents law (changed_in k bytes d) (λ t b. if t == s then bytes b else g t b)
    put-Represents g r = record {
      held = λ i b t li small held.
          let before : holds t (d.si i) ≡ true = sym (same_holds i t) ∙ held in
          paste-slot i k b bytes d.buffer small ∙ elim (Bool-cases (i == k)) [
            | inl at ↦
                let e : i ≡ k = ground arith in
                let at_k = subst (λ q. holds t (d.si q) ≡ true) e before in
                let mine : (t == s) ≡ true = ground arith in rw (at, mine) refl
            | inr away ↦ elim (Bool-cases (t == s)) [
              | inl mine ↦
                  let e : t ≡ s = ground arith in
                  let twin =
                    c.once i k s li lt (subst (λ q. holds q (d.si i) ≡ true) e before) here in
                  absurd (ground arith)
              | inr other ↦ rw (away, other) (r.held i b t li small before)
            ]
          ];
      stored = λ t b within small nowhere.
          let gone : holds t (d.si k) ≡ false = sym (same_holds k t) ∙ nowhere k lt in
          let other : (t == s) ≡ false = ground arith in
          rw other (r.stored t b within small (λ i li. sym (same_holds i t) ∙ nowhere i li));
    }

  -- A buffer that holds the sector `s` gets other bytes and is given to `PutSector`: the medium has
  -- these bytes in `s`, and all its other sectors as they were.
  pub put_sector-Represents :
      (s k : ℕ) (bytes : ℕ → ℕ) (d : Fcb F) (g : ℕ → ℕ → ℕ)
      → IsCache law d
      → Represents law d g
      → k < d.bufcount
      → holds s (d.si k) ≡ true
      → let d' = put_sector (k * 512) (record d { buffer = paste (k * 512) bytes d.buffer }) in
        IsCache law d' × Represents law d' (λ t b. if t == s then bytes b else g t b)
  put_sector-Represents s k bytes d g c r lt here =
      subst (λ q. IsCache law q × Represents law q (λ t b. if t == s then bytes b else g t b))
        (sym (put_sector_lem s k bytes d c lt here))
        (put-IsCache s k bytes d c lt here, put-Represents s k bytes d c lt here g r)
