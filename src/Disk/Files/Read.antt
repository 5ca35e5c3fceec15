-- ===== src/Disk/Files/Read.antt =====
-- Bytes of a file on a QXL.WIN medium, as `QRead` (QDisk.c) reads them.
pub mod Rounds
pub mod Loop
use s_qlux.Base.{ℕ, zero, suc, ◌+◌, ◌-◌, ◌*◌, ◌/◌, ◌%◌, ◌^◌, ◌<◌, ◌≤◌, ltb, leb, ◌==◌}
use s_qlux.Base.{
  if◌then◌else◌, Bool, true, false, not, ◌&&◌, ◌||◌, Option, none, some, List, [], ◌∷◌,
}
use s_qlux.Base.{◌≡◌, refl, arith, ◌∙◌, ap, sym, subst, Bool-cases, inl, inr}
use s_qlux.Memory.{peek_word}
use s_qlux.Disk.{Fcb, FileNum, DiskFile, OsErr, fine, end_of_file, qwa_spc}
use s_qlux.Disk.Map.{entry, next_of}
use s_qlux.Disk.Chains.{count, Seg, nth_of, has, frame}
use s_qlux.Disk.Files.{
  Channel, Reading, move_in, chunk, read_chunk, get_file_sector, read_loop, q_read,
}
use s_qlux.Disk.Files.Sector.{get_file_sector-IsGot}
use s_qlux.Disk.Coherence.{IsReliable, IsCache, Represents, sector_limit}
use s_qlux.Disk.Coherence.Get.{IsGot}

-- The sector of the medium with the sector `t` of a file in the clusters `x ∷ l`, and the bytes of it
abbrev pub place_of : (spc x : ℕ) → List ℕ → ℕ → ℕ
place_of spc x l t = nth_of x l (t / spc) * spc + t % spc

abbrev pub file_byte : (spc x : ℕ) → List ℕ → (ℕ → ℕ → ℕ) → ℕ → ℕ
file_byte spc x l g a = g (place_of spc x l (a / 512)) (a % 512)

-- The bytes that can be read at most
abbrev pub available : ℕ → Channel → ℕ
available n f = if ltb (f.eof - f.pos) n then f.eof - f.pos else n

module _ {F : Type 0} where
  -- The file is in the clusters `x ∷ l`, whose entries are in the map that is in memory.
  pub record IsStored (spc x : ℕ) (l : List ℕ) (number : FileNum) (eof : ℕ) (d : Fcb F)
      : Type 0 where
    pub size : qwa_spc d ≡ spc
    pub chain : Seg (next_of d) 0 number.file (x ∷ l)
    pub map : 0 < d.fat_sectors
    pub entries : (c : ℕ) → has c (x ∷ l) ≡ true → entry c + 1 < d.fat_sectors * 512
    pub extent : (t : ℕ) → t * 512 < eof → (t / spc ≤ count l) × (place_of spc x l t < sector_limit)

  kept_word :
      (a : ℕ) (d d' : Fcb F)
      → ((b : ℕ) → b < d.fat_sectors * 512 → d'.buffer b ≡ d.buffer b)
      → a + 1 < d.fat_sectors * 512
      → peek_word d'.buffer a ≡ peek_word d.buffer a
  unfolding peek_word
  kept_word a d d' same low = rw (same a (omega arith), same (a + 1) low) refl

  pub IsStored-kept :
      (spc x : ℕ) (l : List ℕ) (number : FileNum) (eof : ℕ) (d d' : Fcb F)
      → IsStored spc x l number eof d
      → d'.fat_sectors ≡ d.fat_sectors
      → ((a : ℕ) → a < d.fat_sectors * 512 → d'.buffer a ≡ d.buffer a)
      → IsStored spc x l number eof d'
  IsStored-kept spc x l number eof d d' s sectors same = record {
    size = kept_word 0x22 d d' same (omega (arith, s.map)) ∙ s.size;
    chain =
        frame (next_of d) (next_of d') 0 number.file (x ∷ l)
          (λ c m. kept_word (entry c) d d' same (s.entries c m)) s.chain;
    map = rw sectors s.map;
    entries = λ c m. rw sectors (s.entries c m);
    extent = s.extent;
  }

pub move_in-join :
    (q l1 l2 p a : ℕ) (h mem : ℕ → ℕ)
    → move_in (q + l1) (p + l1) l2 h (move_in q p l1 h mem) a ≡ move_in q p (l1 + l2) h mem a
move_in-join q l1 l2 p a h mem =
    let same : leb (p + l1) a ≡ true → q + l1 + (a - (p + l1)) ≡ q + (a - p) = λ e. ground arith in
    elim (Bool-cases (leb (p + l1) a)) [ inl e ↦ rw (same e) (ground arith) | inr e ↦ ground arith ]

pub move_in-same :
    (q q' l p a : ℕ) (h h' mem : ℕ → ℕ)
    → ((i : ℕ) → i < l → h (q + i) ≡ h' (q' + i))
    → move_in q p l h mem a ≡ move_in q' p l h' mem a
move_in-same q q' l p a h h' mem same = elim (Bool-cases (leb p a && ltb a (p + l))) [
  | inl e ↦ rw e (same (a - p) (ground arith))
  | inr e ↦ rw e refl
]

pub available-step :
    (nn : ℕ) (f : Channel)
    → ltb f.eof (f.pos + chunk f.pos nn) ≡ false
    → read_chunk nn f
        + available (nn - read_chunk nn f) (record f { pos = f.pos + read_chunk nn f })
      ≡ available nn f
available-step nn f whole = ground arith

pub by_test :
    {A : Type 0} (P : A → Type 0) (b : Bool) (u v : A)
    → (b ≡ true → P u)
    → (b ≡ false → P v)
    → P (elim b [ true ↦ u | false ↦ v ])
by_test P true u v first second = first refl
by_test P false u v first second = second refl

pub file_byte-within :
    (spc x i b : ℕ) (l : List ℕ) (g : ℕ → ℕ → ℕ)
    → b % 512 + i < 512
    → file_byte spc x l g (b + i) ≡ g (place_of spc x l (b / 512)) (b % 512 + i)
file_byte-within spc x i b l g small =
    let at : (b + i) / 512 ≡ b / 512 = omega arith in
    let rest : (b + i) % 512 ≡ b % 512 + i = omega arith in rw (at, rest) refl
