-- ===== src/Disk/Files/Read/Loop.antt =====
-- `QRead` (QDisk.c) on a QXL.WIN medium gives the bytes of the file.
use s_qlux.Base.{ℕ, zero, suc, ◌+◌, ◌-◌, ◌*◌, ◌/◌, ◌%◌, ◌≤◌, ltb, ◌==◌}
use s_qlux.Base.{if◌then◌else◌, ◌||◌, List}
use s_qlux.Base.{◌≡◌, refl, arith, Bool-cases, inl, inr}
use s_qlux.Disk.{Fcb, DiskFile, fine, end_of_file}
use s_qlux.Disk.Files.{Channel, move_in, chunk, read_chunk, read_loop, q_read}
use s_qlux.Disk.Coherence.{IsReliable, IsCache, Represents}
use s_qlux.Disk.Files.Read.{place_of, available, IsStored, by_test}
use s_qlux.Disk.Files.Read.Rounds.{
  IsRead, stop-IsRead, last_round, next_round, round-IsGot, still-IsStored,
}

module _ {F : Type 0} ⦃io : DiskFile F⦄ (law : IsReliable io) where
  module _ (spc x : ℕ) (l : List ℕ) (g : ℕ → ℕ → ℕ) where
    read_loop-IsRead :
        (fuel nn done p : ℕ) (mem : ℕ → ℕ) (f : Channel) (d : Fcb F)
        → IsCache law d
        → Represents law d g
        → IsStored spc x l f.number f.eof d
        → f.pos ≤ f.eof
        → nn ≤ fuel
        → IsRead law spc x l g nn done p mem f (read_loop fuel nn done p mem f d)
    unfolding read_loop
    read_loop-IsRead zero nn done p mem f d c r s low enough =
        let none_left : nn ≡ 0 = omega arith in
        stop-IsRead law spc x l g nn done p f.pos fine mem f d c r s (ground arith) refl
          (rw none_left refl)
    read_loop-IsRead (suc fuel) nn done p mem f d c r s low enough = elim (Bool-cases (nn == 0)) [
      | inl e ↦ rw e (
          stop-IsRead law spc x l g nn done p f.pos fine mem f d c r s (ground arith) refl
            (rw e refl))
      | inr e ↦ elim (Bool-cases (ltb f.pos f.eof)) [
        | inr over ↦
            rw (e, over)
              (stop-IsRead law spc x l g nn done p f.eof end_of_file mem f d c r s (ground arith)
                (ground arith) (rw e refl))
        | inl before ↦
            let got = round-IsGot law spc x l g f d c r s (ground arith) in
            let k = read_chunk nn f in
            let mem' = move_in (got.place * 512 + f.pos % 512) p k got.after.buffer mem in
            rw (e, before, got.result)
              (by_test (IsRead law spc x l g nn done p mem f) (ltb f.eof (f.pos + chunk f.pos nn)) _
                _ (last_round law spc x l g nn done p mem f d _ s got e before)
                (λ whole. next_round law spc x l g nn done p mem f d _ _ got e before whole (
                  read_loop-IsRead fuel (nn - k) (done + k) (p + k) mem'
                    (record f { pos = f.pos + k }) got.after got.cache got.same
                    (still-IsStored law spc x l g f d (place_of spc x l (f.pos / 512)) _ s got)
                    (ground arith) (ground arith))))
      ]
    ]

    -- On a medium whose file has no errors below, with the file stored in the clusters `x ∷ l`:
    -- `QRead` of `n` bytes from a position in the file moves the bytes of the file from there on to the
    -- memory at `p`, as many as the file has up to `n`, and nothing else changes in the memory. The
    -- count and the new position say how many they are. It is an error only where there is none of
    -- the bytes, and then the end of the file. The sectors of the medium and the file stay as they were.
    pub q_read-IsRead :
        (n p : ℕ) (mem : ℕ → ℕ) (f : Channel) (d : Fcb F)
        → IsCache law d
        → Represents law d g
        → IsStored spc x l f.number f.eof d
        → f.pos ≤ f.eof
        → (rd : IsRead law spc x l g n 0 p mem f (q_read n p mem f d)) × (rd.error
            ≡ (if ltb 0 (available n f) || n == 0 then fine else end_of_file))
    unfolding q_read
    q_read-IsRead n p mem f d c r s low =
        let rd = read_loop-IsRead n n 0 p mem f d c r s low (omega arith) in
        let at : 0 + available n f ≡ available n f = omega arith in
        (
          record {
            error = if ltb 0 (available n f) then fine else rd.error;
            bytes = rd.bytes;
            after = rd.after;
            result = rw (q_read, rd.result) (rw at refl);
            read = rd.read;
            nothing = λ z. rw z (rd.nothing z);
            cache = rd.cache;
            same = rd.same;
            stored = rd.stored;
          },
          elim (Bool-cases (ltb 0 (available n f))) [
            | inl some_read ↦ rw some_read refl
            | inr none_read ↦ rw none_read (rd.nothing (ground arith))
          ],
        )
