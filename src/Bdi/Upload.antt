-- ===== src/Bdi/Upload.antt =====
-- The bytes of a sector that are written to the block device (sqlux_bdi.c).
use s_qlux.Base.{ℕ, zero, suc, ◌+◌, ◌<◌, ◌==◌}
use s_qlux.Base.{false, Option, none, some, ◌≡◌, refl, arith, ap}
use s_qlux.Base.{==_false, ltb-true, Bool-cases, inl, inr, ◌∙◌, sym}
use s_qlux.Machine.{update}
use s_qlux.Bdi.{Files, Bdi, slot, file_of, data_write, write_open}
use s_qlux.Bdi.{seek_sector, put_byte, flush, offset}

-- The first `n` bytes of the data over a buffer
unfoldable pub filled : ℕ → (ℕ → ℕ) → (ℕ → ℕ) → ℕ → ℕ
filled zero bytes old = old
filled (suc n) bytes old = update (filled n bytes old) n (bytes n)

pub filled_lem : (n : ℕ) (bytes old : ℕ → ℕ) (i : ℕ) → i < n → filled n bytes old i ≡ bytes i
unfolding filled
filled_lem (suc n) bytes old i h = elim (Bool-cases (i == n)) [
  | inl last ↦ rw last (let e : i ≡ n = ground arith in ap bytes (sym e))
  | inr before ↦ rw before (filled_lem n bytes old i (ground arith))
]
filled_lem zero bytes old i h = absurd (omega arith)

module _ {F : Type 0} ⦃io : Files F⦄ where
  -- The bytes of a sector, with one call of `SQLUXBDIDataWrite` each
  unfoldable pub data_writes : ℕ → (ℕ → ℕ) → Bdi F → Option (Bdi F)
  data_writes zero bytes b = some b
  data_writes (suc n) bytes b = elim (data_writes n bytes b) [
    | none ↦ none
    | some b' ↦ data_write (bytes n) b'
  ]

  data_writes_next :
      (n : ℕ) (bytes : ℕ → ℕ) (b c : Bdi F)
      → data_writes n bytes b ≡ some c
      → data_writes (suc n) bytes b ≡ data_write (bytes n) c
  unfolding data_writes
  data_writes_next n bytes b c e = rw e refl

  -- A handle is open, and the bytes of a sector are read back where they were written.
  pub record IsOpen (h : ℕ) (b : Bdi F) : Type 0 where
    pub file : file_of b ≡ some h
    pub handle : (h == 0) ≡ false

  abbrev pub written : ℕ → ℕ → (ℕ → ℕ) → Bdi F → Bdi F
  written h n bytes b = record b {
    ctr = n;
    buffer = filled n bytes b.buffer;
    host = io.seek h (offset b) b.host;
  }

  module _ (h : ℕ) (b : Bdi F) (ready : IsOpen h b) (start : b.ctr ≡ 0) where
    write_step :
        (d : ℕ) (c : Bdi F)
        → file_of c ≡ some h
        → data_write d c ≡ some (flush h (put_byte d (seek_sector h c)))
    unfolding data_write write_open
    write_step d c file = rw (file, data_write, ready.handle) refl

    written_file : (n : ℕ) (bytes : ℕ → ℕ) → file_of (written h n bytes b) ≡ some h
    unfolding file_of slot
    written_file n bytes = ready.file

    write_middle :
        (d : ℕ) (c : Bdi F)
        → 0 < c.ctr
        → c.ctr < 511
        → flush h (put_byte d (seek_sector h c))
          ≡ record c { buffer = update c.buffer c.ctr d; ctr = c.ctr + 1 }
    unfolding seek_sector put_byte flush
    write_middle d c low high =
        rw
          (
            ==_false c.ctr 0 (λ e. omega arith),
            ltb-true c.ctr 512 (omega arith),
            ==_false (c.ctr + 1) 512 (λ e. omega arith),
          )
          refl

    write_first :
        (d : ℕ)
        → flush h (put_byte d (seek_sector h b))
          ≡ record b { buffer = update b.buffer 0 d; ctr = 1; host = io.seek h (offset b) b.host }
    unfolding seek_sector put_byte flush
    write_first d = rw start refl

    write_last :
        (d : ℕ) (c : Bdi F)
        → c.ctr ≡ 511
        → flush h (put_byte d (seek_sector h c)) ≡ record c {
          buffer = update c.buffer 511 d;
          ctr = 512;
          host = io.write h (update c.buffer 511 d) c.host;
        }
    unfolding seek_sector put_byte flush
    write_last d c last = rw last refl

    -- In the middle of a sector
    partial_write :
        (n : ℕ) (bytes : ℕ → ℕ)
        → n < 511
        → data_writes (suc n) bytes b ≡ some (written h (suc n) bytes b)
    unfolding data_writes filled
    partial_write zero bytes small =
        write_step (bytes 0) b ready.file ∙ ap some (write_first (bytes 0))
    partial_write (suc n) bytes small =
        let c = written h (suc n) bytes b in
        let next : suc n + 1 ≡ suc (suc n) = omega arith in
        rw (partial_write n bytes (omega arith)) (
          write_step (bytes (suc n)) c (written_file (suc n) bytes)
          ∙ (ap some (write_middle (bytes (suc n)) c (omega arith) small)
              ∙ ap (λ k. some (record (written h (suc (suc n)) bytes b) { ctr = k })) next))

    -- The whole sector
    pub whole_write :
        (bytes : ℕ → ℕ)
        → data_writes 512 bytes b
          ≡ some (record (written h 512 bytes b) {
            host = io.write h (filled 512 bytes b.buffer) (io.seek h (offset b) b.host);
          })
    unfolding filled
    whole_write bytes =
        data_writes_next 511 bytes b (written h 511 bytes b) (partial_write 510 bytes (omega arith))
        ∙ (write_step (bytes 511) (written h 511 bytes b) (written_file 511 bytes)
            ∙ ap some (write_last (bytes 511) (written h 511 bytes b) refl))
