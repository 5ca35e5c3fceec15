-- ===== src/Bdi/Sector.antt =====
-- A sector that is written to the block device (sqlux_bdi.c) and read back.
use s_qlux.Base.{ℕ, zero, suc, ◌+◌, ◌<◌}
use s_qlux.Base.{Option, none, some, ◌≡◌, refl, arith, ap}
use s_qlux.Base.{==_false, ltb-true, ◌∙◌}
use s_qlux.Bdi.{Files, Bdi, slot, file_of, command, data_read, read_open}
use s_qlux.Bdi.Upload.{filled, filled_lem, data_writes, IsOpen, written, whole_write}
use s_qlux.Bdi.{load_sector, take_byte, offset}

-- What is written at an offset is read there.
unfoldable pub IsStored : {F : Type 0} → Files F → Type 0
IsStored {F} io =
    (h o i : ℕ) (f : F) (buf old : ℕ → ℕ)
    → i < 512
    → (io.read h old (io.seek h o (io.write h buf (io.seek h o f)))).0 i ≡ buf i

module _ {F : Type 0} ⦃io : Files F⦄ where
  unfoldable pub data_reads : ℕ → Bdi F → Option (Bdi F)
  data_reads zero b = some b
  data_reads (suc n) b = elim (data_reads n b) [
    | none ↦ none
    | some b' ↦ elim (data_read b') [ none ↦ none | some r ↦ some r.1 ]
  ]

  data_reads_next :
      (n : ℕ) (b c : Bdi F) (r : ℕ × Bdi F)
      → data_reads n b ≡ some c
      → data_read c ≡ some r
      → data_reads (suc n) b ≡ some r.1
  unfolding data_reads
  data_reads_next n b c r e f = rw (e, f) refl

  abbrev loaded : ℕ → ℕ → Bdi F → Bdi F
  loaded h n b =
      let r = io.read h b.buffer (io.seek h (offset b) b.host) in
      record b { ctr = n; buffer = r.0; host = r.1 }

  module _ (h : ℕ) (b : Bdi F) (ready : IsOpen h b) (start : b.ctr ≡ 0) where
    read_step : (c : Bdi F) → file_of c ≡ some h → data_read c ≡ some (take_byte (load_sector h c))
    unfolding data_read read_open
    read_step c file = rw (file, data_read, ready.handle) refl

    loaded_file : (n : ℕ) → file_of (loaded h n b) ≡ some h
    unfolding file_of slot
    loaded_file n = ready.file

    read_first : take_byte (load_sector h b) ≡ ((loaded h 1 b).buffer 0, loaded h 1 b)
    unfolding load_sector take_byte
    read_first = rw start refl

    read_middle :
        (c : Bdi F)
        → 0 < c.ctr
        → c.ctr < 512
        → take_byte (load_sector h c) ≡ (c.buffer c.ctr, record c { ctr = c.ctr + 1 })
    unfolding load_sector take_byte
    read_middle c low high = rw (==_false c.ctr 0 (λ e. omega arith), ltb-true c.ctr 512 high) refl

    -- What the call after `n` reads returns
    next_read :
        (n : ℕ)
        → n < 511
        → data_read (loaded h (suc n) b)
          ≡ some ((loaded h (suc n) b).buffer (suc n), loaded h (suc (suc n)) b)
    next_read n small =
        let c = loaded h (suc n) b in
        let next : suc n + 1 ≡ suc (suc n) = omega arith in
        read_step c (loaded_file (suc n))
        ∙ (ap some (read_middle c (omega arith) (omega arith))
            ∙ ap (λ k. some (c.buffer (suc n), loaded h k b)) next)

    partial_read : (n : ℕ) → n < 512 → data_reads (suc n) b ≡ some (loaded h (suc n) b)
    unfolding data_reads
    partial_read zero small =
        data_reads_next 0 b b ((loaded h 1 b).buffer 0, loaded h 1 b) refl
          (read_step b ready.file ∙ ap some read_first)
    partial_read (suc n) small =
        data_reads_next (suc n) b (loaded h (suc n) b)
          ((loaded h 1 b).buffer (suc n), loaded h (suc (suc n)) b) (partial_read n (omega arith))
          (next_read n (omega arith))

  -- The byte that the call of `SQLUXBDIDataRead` after `n` others returns
  unfoldable pub read_at : ℕ → Bdi F → Option ℕ
  read_at n b = elim (data_reads n b) [
    | none ↦ none
    | some b' ↦ elim (data_read b') [ none ↦ none | some r ↦ some r.0 ]
  ]

  read_at_next :
      (n : ℕ) (b c : Bdi F) (r : ℕ × Bdi F)
      → data_reads n b ≡ some c
      → data_read c ≡ some r
      → read_at n b ≡ some r.0
  unfolding read_at
  read_at_next n b c r e f = rw (e, read_at, f) refl

  read_at_lem :
      (h : ℕ) (b : Bdi F)
      → IsOpen h b
      → b.ctr ≡ 0
      → (n : ℕ) → n < 512
      → read_at n b ≡ some ((loaded h 1 b).buffer n)
  unfolding data_reads
  read_at_lem h b ready start zero small =
      read_at_next 0 b b ((loaded h 1 b).buffer 0, loaded h 1 b) refl
        (read_step h b ready start b ready.file ∙ ap some (read_first h b ready start))
  read_at_lem h b ready start (suc n) small =
      read_at_next (suc n) b (loaded h (suc n) b)
        ((loaded h 1 b).buffer (suc n), loaded h (suc (suc n)) b)
        (partial_read h b ready start n (omega arith)) (next_read h b ready start n (omega arith))

  unfoldable pub write_then_read : (ℕ → ℕ) → ℕ → Bdi F → Option ℕ
  write_then_read bytes i b = elim (data_writes 512 bytes (command 3 b)) [
    | none ↦ none
    | some b' ↦ read_at i (command 2 b')
  ]

  write_then_read_next :
      (bytes : ℕ → ℕ) (i : ℕ) (b c : Bdi F)
      → data_writes 512 bytes (command 3 b) ≡ some c
      → write_then_read bytes i b ≡ read_at i (command 2 c)
  unfolding write_then_read
  write_then_read_next bytes i b c e = rw (e, write_then_read) refl

  -- With an open file, a write command with 512 bytes and a read command give each byte back, if the
  -- host's file returns what was written at an offset.
  pub write_then_read_lem :
      (stored : IsStored io) (h : ℕ) (b : Bdi F) (bytes : ℕ → ℕ) (i : ℕ)
      → IsOpen h b
      → i < 512
      → write_then_read bytes i b ≡ some (bytes i)
  unfolding command IsStored file_of slot offset
  write_then_read_lem stored h b bytes i ready small =
      let b0 : Bdi F = record b { ctr = 0 } in
      let ready0 : IsOpen h b0 = record { file = ready.file; handle = ready.handle } in
      let buf = filled 512 bytes b.buffer in
      let b1 : Bdi F = record (written h 512 bytes b0) {
        host = io.write h buf (io.seek h (offset b0) b.host);
      } in
      let b2 : Bdi F = record b1 { ctr = 0 } in
      let ready2 : IsOpen h b2 = record { file = ready.file; handle = ready.handle } in
      let kept : (io.read h buf
              (io.seek h (offset b0) (io.write h buf (io.seek h (offset b0) b.host)))).0
            i
          ≡ buf i =
        stored h (offset b0) i b.host buf buf small in
      write_then_read_next bytes i b b1 (whole_write h b0 ready0 refl bytes)
      ∙ (read_at_lem h b2 ready2 refl i small
          ∙ ap some (kept ∙ filled_lem 512 bytes b.buffer i small))
