-- ===== src/Disk/Files/Write/Loop.antt =====
-- `QWrite` (QDisk.c) inside a file on a QXL.WIN medium, and `QRead` of what was written.
use s_qlux.Base.{ℕ, zero, suc, ◌+◌, ◌-◌, ◌*◌, ◌/◌, ◌%◌, ◌<◌, ◌≤◌, ltb, ◌==◌, if◌then◌else◌}
use s_qlux.Base.{Bool, true, false, ◌||◌, some, List, ◌∷◌}
use s_qlux.Base.{◌≡◌, refl, arith, ◌∙◌, ap, Bool-cases, inl, inr}
use s_qlux.Disk.{Fcb, DiskFile, fine, end_of_file, paste}
use s_qlux.Disk.Files.{
  Channel, move_in, chunk, get_file_sector, sector_to_write, write_loop, set_length, q_write,
  q_read,
}
use s_qlux.Disk.Coherence.{IsReliable, IsCache, Represents}
use s_qlux.Disk.Coherence.Get.{IsGot}
use s_qlux.Disk.Coherence.Put.{put_sector-Represents}
use s_qlux.Disk.Files.Read.{file_byte, place_of, available, IsStored, move_in-same}
use s_qlux.Disk.Files.Read.Rounds.{round-IsGot, still-IsStored, IsRead}
use s_qlux.Disk.Files.Read.Loop.{q_read-IsRead}
use s_qlux.Disk.Chains.{distinct}
use s_qlux.Disk.Files.Write.Apart.{IsOwn-distinct}
use s_qlux.Disk.Files.Write.{
  IsOwn, IsWritten, new_bytes, round_end, round_end-IsStored, round_end_lem, next_round,
  buffer_behind, put_sector-buffer,
}

if_same : {A : Type 0} (b : Bool) (v : A) → (if b then v else v) ≡ v
if_same true v = refl
if_same false v = refl

module _ {F : Type 0} ⦃io : DiskFile F⦄ (law : IsReliable io) where
  sector_to_write_lem :
      (f : Channel) (d : Fcb F) (s : ℕ) (g : ℕ → ℕ → ℕ)
      → (got : IsGot law d s g (get_file_sector f.number (f.pos / 512) d))
      → sector_to_write f d ≡ some (some (got.place * 512), got.after)
  unfolding sector_to_write
  sector_to_write_lem f d s g got = rw (sector_to_write, got.result) refl

  nothing-IsWritten :
      (spc x : ℕ) (l : List ℕ) (g : ℕ → ℕ → ℕ) (nn done : ℕ) (bytes : ℕ → ℕ) (f : Channel)
      (d : Fcb F)
      → IsCache law d
      → Represents law d g
      → IsStored spc x l f.number f.eof d
      → nn ≡ 0
      → IsWritten law spc x l g nn done bytes f (some ((done, fine), (f, d)))
  nothing-IsWritten spc x l g nn done bytes f d c r s none_left =
      let same_done : done + 0 ≡ done = omega arith in
      let same_pos : f.pos + 0 ≡ f.pos = omega arith in
      record {
        after = d;
        medium = g;
        result = rw (none_left, same_done, same_pos) refl;
        written = λ a low. rw none_left (ground arith);
        others = λ t b away. refl;
        cache = c;
        same = r;
        stored = s;
      }

  module _ (spc x : ℕ) (l : List ℕ) (eof map : ℕ) (own : IsOwn spc x l eof map) where
    write_loop-IsWritten :
        (fuel nn done : ℕ) (bytes : ℕ → ℕ) (f : Channel) (d : Fcb F) (g : ℕ → ℕ → ℕ)
        → IsCache law d
        → Represents law d g
        → IsStored spc x l f.number f.eof d
        → f.eof ≡ eof
        → d.fat_sectors ≡ map
        → f.pos + nn ≤ eof
        → nn ≤ fuel
        → IsWritten law spc x l g nn done bytes f (write_loop fuel nn done bytes f d)
    unfolding write_loop
    write_loop-IsWritten zero nn done bytes f d g c r s end m room enough =
        nothing-IsWritten spc x l g nn done bytes f d c r s (omega arith)
    write_loop-IsWritten (suc fuel) nn done bytes f d g c r s end m room enough =
        elim (Bool-cases (nn == 0)) [
          | inl e ↦ rw e (nothing-IsWritten spc x l g nn done bytes f d c r s (ground arith))
          | inr e ↦
              let got = round-IsGot law spc x l g f d c r s (ground arith) in
              let k = got.place in
              let n = chunk f.pos nn in
              let fresh = new_bytes done f.pos k n bytes got.after.buffer in
              let d2 = round_end law spc x l done nn k bytes f got.after in
              let put =
                put_sector-Represents law (place_of spc x l (f.pos / 512)) k fresh got.after g
                  got.cache got.same got.within got.held in
              let behind =
                buffer_behind law (place_of spc x l (f.pos / 512)) k got.after got.cache got.within
                  got.held (omega (arith, own.behind (f.pos / 512) (ground arith), got.sectors)) in
              let stored =
                round_end-IsStored law spc x l done nn k bytes f got.after behind
                  (still-IsStored law spc x l g f d (place_of spc x l (f.pos / 512)) _ s got) in
              let sectors =
                (put_sector-buffer (k * 512)
                  (record got.after { buffer = paste (k * 512) fresh got.after.buffer })).1
                ∙ got.sectors
                ∙ m in
              rw
                (
                  e,
                  sector_to_write_lem f d (place_of spc x l (f.pos / 512)) g got,
                  round_end_lem law spc x l done nn k bytes f got.after,
                )
                (next_round law spc x l eof map own g nn done k bytes fresh f _ end e room
                  (λ b small.
                    ap (λ v. move_in done (f.pos % 512) n bytes (λ j. v) b)
                      (got.same.held k b (place_of spc x l (f.pos / 512)) got.within small
                        got.held))
                  (write_loop-IsWritten fuel (nn - n) (done + n) bytes
                    (record f { pos = f.pos + n }) d2 _ put.0 put.1 stored end sectors
                    (ground arith) (ground arith)))
        ]

    pub q_write-IsWritten :
        (n : ℕ) (bytes : ℕ → ℕ) (f : Channel) (d : Fcb F) (g : ℕ → ℕ → ℕ)
        → IsCache law d
        → Represents law d g
        → IsStored spc x l f.number f.eof d
        → f.eof ≡ eof
        → d.fat_sectors ≡ map
        → f.pos + n ≤ eof
        → IsWritten law spc x l g n 0 bytes f (q_write n bytes f d)
    unfolding q_write set_length
    q_write-IsWritten n bytes f d g c r s end m room =
        let w = write_loop-IsWritten n n 0 bytes f d g c r s end m room (omega arith) in
        let inside : ltb f.eof (f.pos + n) ≡ false = ground arith in
        record {
          after = w.after;
          medium = w.medium;
          result = rw (q_write, w.result, set_length, inside, if_same (ltb 0 (0 + n)) fine) refl;
          written = w.written;
          others = w.others;
          cache = w.cache;
          same = w.same;
          stored = w.stored;
        }

  -- `QWrite` of `n` bytes inside a file that is stored in the different clusters `x ∷ l`, behind the
  -- map of a medium whose file of the host has no errors, and `QRead` of as many at the same
  -- position: both have no error and count
  -- `n` bytes, the first changes these bytes of the file and no others, and no sector of the medium
  -- that is not in the file, and the second gives back what was written, and nothing else changes in
  -- the memory.
  pub q_read-q_write :
      (spc x : ℕ) (l : List ℕ) (n p : ℕ) (bytes mem : ℕ → ℕ) (f : Channel) (d : Fcb F)
      (g : ℕ → ℕ → ℕ)
      → 0 < spc
      → distinct (x ∷ l) ≡ true
      → ((t : ℕ) → t * 512 < f.eof → d.fat_sectors ≤ place_of spc x l t)
      → IsCache law d
      → Represents law d g
      → IsStored spc x l f.number f.eof d
      → f.pos + n ≤ f.eof
      → (w : IsWritten law spc x l g n 0 bytes f (q_write n bytes f d)) × (rd : IsRead law spc x l
          w.medium n 0 p mem f
          (q_read n p mem f w.after))
        × (rd.error ≡ fine)
        × ((a : ℕ) → rd.bytes a ≡ move_in 0 p n bytes mem a)
  q_read-q_write spc x l n p bytes mem f d g some_sectors different behind c r s room =
      let own = IsOwn-distinct spc x l f.number f.eof d some_sectors different s behind in
      let w =
        q_write-IsWritten spc x l f.eof d.fat_sectors own n bytes f d g c r s refl refl room in
      let rd =
        q_read-IsRead law spc x l w.medium n p mem f w.after w.cache w.same w.stored
          (omega arith) in
      let all : available n f ≡ n = ground arith in
      let no_error : (if ltb 0 n || n == 0 then fine else end_of_file) ≡ fine = ground arith in
      let given : (i : ℕ) → i < n → file_byte spc x l w.medium (f.pos + i) ≡ bytes (0 + i) =
        λ i low.
          let at : f.pos + i - f.pos ≡ 0 + i = omega arith in
          w.written (f.pos + i) (omega (arith, low, room)) ∙ ground (arith, at) in
      (
        w,
        rd.0,
        rd.1 ∙ rw all no_error,
        λ a.
            rd.0.read a
            ∙ rw all (move_in-same f.pos 0 n p a (file_byte spc x l w.medium) bytes mem given),
      )
