-- ===== src/Mdv/Rotation.antt =====
-- Whole sectors and whole rotations of a tape, and the direction of it.
use s_qlux.Base.{ℕ, zero, suc, ◌+◌, ◌-◌, ◌*◌, ◌^◌, ◌≤◌, ◌<◌, ◌≡◌, refl, ◌∙◌, arith}
use s_qlux.Base.{ltb, ◌==◌, if◌then◌else◌, true, false, ◌⊎◌}
use s_qlux.Mdv.{Drive, next_word, reset_tape_state, start_gap, seek}
use s_qlux.Mdv.Tape.{word, run, run-add, run-zero, run-suc, sector, IsBefore}

-- The tape is where it was but for its place, which is before a sector.
pub record IsAt (d : Drive) (place : ℕ) (e : Drive) : Type 0 where
  pub before : IsBefore e
  pub place_of : e.mem_addr ≡ place
  pub length_of : e.mdv_end ≡ d.mdv_end
  pub direction : e.reverse ≡ d.reverse
  pub words : e.data_at ≡ d.data_at

IsAt-same :
    (d e : Drive) (place : ℕ)
    → IsBefore e
    → e.mem_addr ≡ place
    → e.mdv_end ≡ d.mdv_end
    → e.reverse ≡ d.reverse
    → e.data_at ≡ d.data_at
    → IsAt d place e
IsAt-same d e place b p l r w = record {
  before = b;
  place_of = p;
  length_of = l;
  direction = r;
  words = w;
}

seek-forward : (d : Drive) → d.reverse ≡ false → seek d ≡ d
unfolding seek
seek-forward d h = rw h refl

after_sector :
    (d : Drive)
    → IsAt d
        (d.mem_addr + 343)
        (start_gap (record d { mem_addr = d.mem_addr + 343; gap_state = true }))
unfolding start_gap
after_sector d = record {
  before = record { active = refl; header = refl; start = refl };
  place_of = refl;
  length_of = refl;
  direction = refl;
  words = refl;
}

one_sector :
    (k : ℕ) (d : Drive)
    → IsBefore d
    → d.reverse ≡ false
    → d.mem_addr + 342 ≤ d.mdv_end
    → d.mdv_end < 2 ^ 31
    → let r = run 413 (k, d) in (r.0 ≡ k + 2) × IsAt d (d.mem_addr + 343) r.1
one_sector k d b forward h small =
    let e = start_gap (record d { mem_addr = d.mem_addr + 343; gap_state = true }) in
    let stays : seek e ≡ e = seek-forward e ((after_sector d).direction ∙ forward) in
    rw (sector k d b h small, stays) (omega arith, after_sector d)

-- On a tape that runs forwards, from before a sector that `n` whole ones follow, `n` times 413
-- words go by the head with the `n` sectors of 343 words, and two blocks end in each.
pub sectors :
    (n k : ℕ) (d : Drive)
    → IsBefore d
    → d.reverse ≡ false
    → d.mem_addr + 343 * n ≤ d.mdv_end + 1
    → d.mdv_end < 2 ^ 31
    → let r = run (n * 413) (k, d) in (r.0 ≡ k + 2 * n) × IsAt d (d.mem_addr + 343 * n) r.1
sectors zero k d b forward h small =
    rw (run-zero (k, d))
      (omega arith, IsAt-same d d (d.mem_addr + 343 * 0) b (omega arith) refl refl refl)
sectors (suc n) k d b forward h small =
    let first = one_sector k d b forward (omega arith) small in
    let r = run 413 (k, d) in
    let at = first.1 in
    let rest =
      sectors n r.0 r.1 at.before (at.direction ∙ forward)
        (omega (arith, at.length_of, at.place_of)) (omega (arith, at.length_of)) in
    let e : suc n * 413 ≡ 413 + n * 413 = omega arith in
    rw (e, run-add 413 (n * 413) (k, d))
      (
        omega arith,
        IsAt-same d (run (n * 413) r).1 (d.mem_addr + 343 * suc n) rest.1.before
            (omega (arith, rest.1.place_of, at.place_of)) (rest.1.length_of ∙ at.length_of)
            (rest.1.direction ∙ at.direction) (rest.1.words ∙ at.words),
      )

-- A cartridge of `n` sectors, from its start and forwards: a word after the last sector the tape is
-- at its start again, and two blocks have ended in each sector.
pub rotation :
    (n k : ℕ) (d : Drive)
    → IsBefore d
    → d.reverse ≡ false
    → d.mem_addr ≡ 0
    → d.mdv_end + 1 ≡ 343 * n
    → d.mdv_end < 2 ^ 31
    → let r = run (n * 413 + 1) (k, d) in (r.0 ≡ k + 2 * n) × IsAt d 0 r.1
unfolding word next_word reset_tape_state
rotation n k d b forward start all small =
    let r = run (n * 413) (k, d) in
    let s = sectors n k d b forward (omega arith) small in
    let over : ltb r.1.mdv_end r.1.mem_addr ≡ true = ground (arith, s.1.length_of, s.1.place_of) in
    rw (run-add (n * 413) 1 (k, d), run-suc 0 r (word r) refl, run-zero (word r), over)
      (
        s.0,
        IsAt-same d (reset_tape_state r.1) 0 (record { active = refl; header = refl; start = refl })
            refl s.1.length_of s.1.direction s.1.words,
      )

-- A tape that runs backwards, before a sector: after the first sector it is before the last one;
-- after any other it is one word behind the start of the sector before, at its second word.
pub one_sector-reverse :
    (k : ℕ) (d : Drive)
    → IsBefore d
    → d.reverse ≡ true
    → d.mem_addr + 342 ≤ d.mdv_end
    → d.mdv_end < 2 ^ 31
    → (d.mem_addr ≡ 0) ⊎ (343 ≤ d.mem_addr)
    → (run 413 (k, d)).1.mem_addr
      ≡ (if d.mem_addr == 0 then d.mdv_end - 342 else d.mem_addr - 343 + 1)
unfolding seek start_gap
one_sector-reverse k d b backwards h small place =
    rw (sector k d b h small, backwards) (ground arith)
