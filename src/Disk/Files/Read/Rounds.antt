-- ===== src/Disk/Files/Read/Rounds.antt =====
-- The rounds of `QRead` (QDisk.c) on a QXL.WIN medium.
use s_qlux.Base.{ℕ, ◌+◌, ◌-◌, ◌*◌, ◌/◌, ◌%◌, ◌<◌, ◌≤◌, ltb, leb, ◌==◌}
use s_qlux.Base.{if◌then◌else◌, true, false, ◌&&◌, Option, some, List}
use s_qlux.Base.{◌≡◌, refl, arith, ◌∙◌, ap, subst}
use s_qlux.Disk.{Fcb, DiskFile, OsErr, fine, end_of_file}
use s_qlux.Disk.Files.{Channel, Reading, move_in, chunk, read_chunk, get_file_sector}
use s_qlux.Disk.Files.Sector.{get_file_sector-IsGot}
use s_qlux.Disk.Coherence.{IsReliable, IsCache, Represents}
use s_qlux.Disk.Coherence.Get.{IsGot}
use s_qlux.Disk.Files.Read.{
  file_byte, place_of, available, IsStored, IsStored-kept, move_in-join, move_in-same,
  available-step, file_byte-within,
}

module _ {F : Type 0} ⦃io : DiskFile F⦄ (law : IsReliable io) where
  -- A call read the bytes of the file that are there, to the memory at `p`. The medium is as it was,
  -- and the file is still in its clusters.
  pub record IsRead (spc x : ℕ) (l : List ℕ) (g : ℕ → ℕ → ℕ) (nn done p : ℕ) (mem : ℕ → ℕ)
      (f : Channel) (r : Option (Reading F)) : Type 0 where
    pub error : OsErr
    pub bytes : ℕ → ℕ
    pub after : Fcb F
    pub result :
        r
        ≡ some (
          (done + available nn f, error),
          (bytes, (record f { pos = f.pos + available nn f }, after)),
        )
    pub read : (a : ℕ) → bytes a ≡ move_in f.pos p (available nn f) (file_byte spc x l g) mem a
    pub nothing : available nn f ≡ 0 → error ≡ (if nn == 0 then fine else end_of_file)
    pub cache : IsCache law after
    pub same : Represents law after g
    pub stored : IsStored spc x l f.number f.eof after

  module _ (spc x : ℕ) (l : List ℕ) (g : ℕ → ℕ → ℕ) where
    pub stop-IsRead :
        (nn done p q : ℕ) (e : OsErr) (mem : ℕ → ℕ) (f : Channel) (d : Fcb F)
        → IsCache law d
        → Represents law d g
        → IsStored spc x l f.number f.eof d
        → available nn f ≡ 0
        → q ≡ f.pos
        → e ≡ (if nn == 0 then fine else end_of_file)
        → IsRead spc x l g nn done p mem f (some ((done, e), (mem, (record f { pos = q }, d))))
    stop-IsRead nn done p q e mem f d c r s none_left at err =
        let same_done : done + 0 ≡ done = omega arith in
        let same_pos : f.pos + 0 ≡ f.pos = omega arith in
        record {
          error = e;
          bytes = mem;
          after = d;
          result = rw (none_left, at, same_done, same_pos) refl;
          read = λ a. rw none_left (ground arith);
          nothing = λ z. err;
          cache = c;
          same = r;
          stored = s;
        }

    got_byte :
        (q i : ℕ) (d : Fcb F) (r : Option (Option ℕ × Fcb F))
        → (got : IsGot law d (place_of spc x l (q / 512)) g r) → q % 512 + i < 512
        → got.after.buffer (got.place * 512 + q % 512 + i) ≡ file_byte spc x l g (q + i)
    got_byte q i d r got small =
        let at : got.place * 512 + q % 512 + i ≡ got.place * 512 + (q % 512 + i) = omega arith in
        rw (at, file_byte-within spc x i q l g small)
          (got.same.held got.place (q % 512 + i) (place_of spc x l (q / 512)) got.within small
            got.held)

    -- The sector of a round, and the file in its clusters behind it
    pub round-IsGot :
        (f : Channel) (d : Fcb F)
        → IsCache law d
        → Represents law d g
        → IsStored spc x l f.number f.eof d
        → f.pos < f.eof
        → IsGot law d (place_of spc x l (f.pos / 512)) g (get_file_sector f.number (f.pos / 512) d)
    round-IsGot f d c r s before =
        let e = s.extent (f.pos / 512) (omega arith) in
        subst
          (λ k.
            IsGot law d (place_of k x l (f.pos / 512)) g (get_file_sector f.number (f.pos / 512) d))
          s.size
          (get_file_sector-IsGot law f.number x l (f.pos / 512) d g c r s.chain (rw s.size e.0)
            (rw s.size e.1))

    -- The bytes that a round moves are those of the file.
    moved :
        (q p k a : ℕ) (mem : ℕ → ℕ) (d : Fcb F) (r : Option (Option ℕ × Fcb F))
        → (got : IsGot law d (place_of spc x l (q / 512)) g r) → k ≤ 512 - q % 512
        → move_in (got.place * 512 + q % 512) p k got.after.buffer mem a
          ≡ move_in q p k (file_byte spc x l g) mem a
    moved q p k a mem d r got small =
        move_in-same (got.place * 512 + q % 512) q k p a got.after.buffer (file_byte spc x l g) mem
          (λ i within. got_byte q i d r got (omega arith))

    pub still-IsStored :
        (f : Channel) (d : Fcb F) (q : ℕ) (r : Option (Option ℕ × Fcb F))
        → IsStored spc x l f.number f.eof d
        → (got : IsGot law d q g r) → IsStored spc x l f.number f.eof got.after
    still-IsStored f d q r s got =
        IsStored-kept spc x l f.number f.eof d got.after s got.sectors got.map_kept

    -- The round that comes to the end of the file
    pub last_round :
        (nn done p : ℕ) (mem : ℕ → ℕ) (f : Channel) (d : Fcb F) (r : Option (Option ℕ × Fcb F))
        → IsStored spc x l f.number f.eof d
        → (got : IsGot law d (place_of spc x l (f.pos / 512)) g r) → (nn == 0) ≡ false
        → ltb f.pos f.eof ≡ true
        → ltb f.eof (f.pos + chunk f.pos nn) ≡ true
        → let k = read_chunk nn f in
          let mem' = move_in (got.place * 512 + f.pos % 512) p k got.after.buffer mem in
          IsRead spc x l g nn done p mem f
            (some ((done + k, end_of_file), (mem', (record f { pos = f.pos + k }, got.after))))
    last_round nn done p mem f d r s got more before cut =
        let k = read_chunk nn f in
        let all : available nn f ≡ k = ground arith in
        record {
          error = end_of_file;
          bytes = move_in (got.place * 512 + f.pos % 512) p k got.after.buffer mem;
          after = got.after;
          result = rw all refl;
          read = λ a. rw all (moved f.pos p k a mem d r got (ground arith));
          nothing = λ z. absurd (ground arith);
          cache = got.cache;
          same = got.same;
          stored = still-IsStored f d (place_of spc x l (f.pos / 512)) r s got;
        }

    -- A round and those behind it
    pub next_round :
        (nn done p : ℕ) (mem : ℕ → ℕ) (f : Channel) (d : Fcb F) (r : Option (Option ℕ × Fcb F))
        (r' : Option (Reading F))
        → (got : IsGot law d (place_of spc x l (f.pos / 512)) g r) → (nn == 0) ≡ false
        → ltb f.pos f.eof ≡ true
        → ltb f.eof (f.pos + chunk f.pos nn) ≡ false
        → let k = read_chunk nn f in
          let mem' = move_in (got.place * 512 + f.pos % 512) p k got.after.buffer mem in
          IsRead spc x l g (nn - k) (done + k) (p + k) mem' (record f { pos = f.pos + k }) r'
          → IsRead spc x l g nn done p mem f r'
    next_round nn done p mem f d r r' got more before whole rest =
        let k = read_chunk nn f in
        let f1 : Channel = record f { pos = f.pos + k } in
        let m = available (nn - k) f1 in
        let all : k + m ≡ available nn f = available-step nn f whole in
        let sum : done + k + m ≡ done + available nn f = omega (arith, all) in
        let at : f.pos + k + m ≡ f.pos + available nn f = omega (arith, all) in
        let h = file_byte spc x l g in
        record {
          error = rest.error;
          bytes = rest.bytes;
          after = rest.after;
          result =
              subst
                (λ n.
                  r'
                  ≡ some (
                    (n, rest.error),
                    (rest.bytes, (record f { pos = f.pos + available nn f }, rest.after)),
                  ))
                sum
                (subst
                  (λ n.
                    r'
                    ≡ some (
                      (done + k + m, rest.error),
                      (rest.bytes, (record f { pos = n }, rest.after)),
                    ))
                  at rest.result);
          read = λ a.
              rest.read a
              ∙ ap
                  (λ b.
                    if leb (p + k) a && ltb a (p + k + m) then h (f.pos + k + (a - (p + k))) else b)
                  (moved f.pos p k a mem d r got (ground arith))
              ∙ move_in-join f.pos k m p a h mem
              ∙ ap (λ n. move_in f.pos p n h mem a) all;
          nothing = λ z. absurd (ground arith);
          cache = rest.cache;
          same = rest.same;
          stored = rest.stored;
        }
