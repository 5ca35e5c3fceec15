-- ===== src/Disk/Files/Write.antt =====
-- Bytes of a file on a QXL.WIN medium that `QWrite` (QDisk.c) replaces.
pub mod Apart
pub mod Loop
use s_qlux.Base.{ℕ, ◌+◌, ◌-◌, ◌*◌, ◌/◌, ◌%◌, ◌<◌, ◌≤◌, ltb, leb, ◌==◌, if◌then◌else◌}
use s_qlux.Base.{Bool, true, false, not, ◌&&◌, Option, some, List, ◌∷◌}
use s_qlux.Base.{◌≡◌, refl, arith, ◌∙◌, ap, sym, subst, Bool-cases, inl, inr}
use s_qlux.Disk.{Fcb, FileNum, DiskFile, OsErr, fine, slice, paste}
use s_qlux.Disk.Cache.{holds, put_sector}
use s_qlux.Disk.Files.{
  Channel, move_in, chunk, get_file_sector, sector_to_write, write_loop, set_length, q_write,
}
use s_qlux.Disk.Coherence.{IsReliable, IsCache, Represents}
use s_qlux.Disk.Coherence.Get.{IsGot}
use s_qlux.Disk.Coherence.Put.{put_sector-Represents}
use s_qlux.Disk.Files.Read.{file_byte, place_of, IsStored, IsStored-kept, move_in-join}
use s_qlux.Disk.Files.Read.Rounds.{round-IsGot}

-- The sectors of the file are different ones, behind the map.
pub record IsOwn (spc x : ℕ) (l : List ℕ) (eof map : ℕ) : Type 0 where
  pub behind : (t : ℕ) → t * 512 < eof → map ≤ place_of spc x l t
  pub apart :
      (t u : ℕ) → t * 512 < eof → u * 512 < eof → place_of spc x l t ≡ place_of spc x l u → t ≡ u

-- The bytes of a buffer after a round
abbrev pub new_bytes : (done q k n : ℕ) → (ℕ → ℕ) → (ℕ → ℕ) → ℕ → ℕ
new_bytes done q k n bytes buffer = move_in done (q % 512) n bytes (slice (k * 512) buffer)

-- A round changes the 512 bytes of its buffer.
move_in-paste :
    (done q k n a : ℕ) (bytes buffer : ℕ → ℕ)
    → n ≤ 512 - q % 512
    → move_in done (k * 512 + q % 512) n bytes buffer a
      ≡ paste (k * 512) (new_bytes done q k n bytes buffer) buffer a
move_in-paste done q k n a bytes buffer small = elim (Bool-cases (leb (k * 512) a)) [
  | inl e ↦
      let at : k * 512 + (a - k * 512) ≡ a = ground arith in
      let from : a - (k * 512 + q % 512) ≡ a - k * 512 - q % 512 = omega arith in
      rw (at, from) (ground arith)
  | inr e ↦ ground arith
]

pub put_sector-buffer :
    {F : Type 0} (p : ℕ) (d : Fcb F)
    → ((put_sector p d).buffer ≡ d.buffer) × ((put_sector p d).fat_sectors ≡ d.fat_sectors)
unfolding put_sector
put_sector-buffer p d = elim (Bool-cases (ltb (p / 512) d.bufcount)) [
  | inl e ↦ rw e (refl, refl)
  | inr e ↦ rw e (refl, refl)
]

module _ (spc x : ℕ) (l : List ℕ) (eof map : ℕ) (own : IsOwn spc x l eof map) where
  -- What a round makes of the bytes of the file
  new_file_byte :
      (done q n a : ℕ) (bytes fresh : ℕ → ℕ) (g : ℕ → ℕ → ℕ)
      → n ≤ 512 - q % 512
      → q < eof
      → a < eof
      → ((b : ℕ)
          → b < 512
          → fresh b ≡ move_in done (q % 512) n bytes (g (place_of spc x l (q / 512))) b)
      → file_byte spc x l (λ t b. if t == place_of spc x l (q / 512) then fresh b else g t b) a
        ≡ move_in done q n bytes (file_byte spc x l g) a
  new_file_byte done q n a bytes fresh g small at_q at_a new =
      elim (Bool-cases (a / 512 == q / 512)) [
        | inl e ↦
            let here : a / 512 ≡ q / 512 = ground arith in
            let low : a ≡ q / 512 * 512 + a % 512 = omega (arith, here) in
            let from : a % 512 - q % 512 ≡ a - q = omega (arith, here) in
            rw here (ground (arith, new (a % 512) (omega arith), from, low))
        | inr e ↦
            let other : (place_of spc x l (a / 512) == place_of spc x l (q / 512)) ≡ false =
              elim (Bool-cases (place_of spc x l (a / 512) == place_of spc x l (q / 512))) [
                | inl one ↦
                    let twice =
                      own.apart (a / 512) (q / 512) (omega arith) (omega arith) (ground arith) in
                    absurd (ground arith)
                | inr two ↦ two
              ] in
            rw other (ground arith)
      ]

module _ {F : Type 0} ⦃io : DiskFile F⦄ (law : IsReliable io) where
  -- A buffer with a sector of the file is behind the map.
  pub buffer_behind :
      (s k : ℕ) (d : Fcb F)
      → IsCache law d
      → k < d.bufcount
      → holds s (d.si k) ≡ true
      → d.fat_sectors ≤ s
      → d.fat_sectors ≤ k
  buffer_behind s k d c lt held behind = elim (Bool-cases (ltb k d.fat_sectors)) [
    | inl e ↦ let m = c.map k (ground arith) in absurd (ground arith)
    | inr e ↦ ground arith
  ]

  -- A call wrote `nn` bytes, from the place `done` of the data to the position of the file: its other
  -- bytes are as they were, and so are the sectors of the medium that are not in the file.
  pub record IsWritten (spc x : ℕ) (l : List ℕ) (g : ℕ → ℕ → ℕ) (nn done : ℕ) (bytes : ℕ → ℕ)
      (f : Channel) (r : Option ((ℕ × OsErr) × (Channel × Fcb F))) : Type 0 where
    pub after : Fcb F
    pub medium : ℕ → ℕ → ℕ
    pub result : r ≡ some ((done + nn, fine), (record f { pos = f.pos + nn }, after))
    pub written :
        (a : ℕ)
        → a < f.eof
        → file_byte spc x l medium a ≡ move_in done f.pos nn bytes (file_byte spc x l g) a
    pub others :
        (s b : ℕ)
        → ((t : ℕ) → t * 512 < f.eof → (s == place_of spc x l t) ≡ false)
        → medium s b ≡ g s b
    pub cache : IsCache law after
    pub same : Represents law after medium
    pub stored : IsStored spc x l f.number f.eof after

  module _ (spc x : ℕ) (l : List ℕ) where
    -- The state after a round
    abbrev pub round_end : (done nn k : ℕ) → (ℕ → ℕ) → Channel → Fcb F → Fcb F
    round_end done nn k bytes f d = put_sector (k * 512) (record d {
      buffer = paste (k * 512) (new_bytes done f.pos k (chunk f.pos nn) bytes d.buffer) d.buffer;
    })

    pub round_end-IsStored :
        (done nn k : ℕ) (bytes : ℕ → ℕ) (f : Channel) (d : Fcb F)
        → d.fat_sectors ≤ k
        → IsStored spc x l f.number f.eof d
        → IsStored spc x l f.number f.eof (round_end done nn k bytes f d)
    round_end-IsStored done nn k bytes f d behind s =
        let fresh = new_bytes done f.pos k (chunk f.pos nn) bytes d.buffer in
        let kept =
          put_sector-buffer (k * 512) (record d { buffer = paste (k * 512) fresh d.buffer }) in
        IsStored-kept spc x l f.number f.eof d (round_end done nn k bytes f d) s kept.1
          (λ a low. ap (λ h. h a) kept.0 ∙ ground arith)

    pub round_end_lem :
        (done nn k : ℕ) (bytes : ℕ → ℕ) (f : Channel) (d : Fcb F)
        → put_sector (k * 512) (record d {
          buffer = move_in done (k * 512 + f.pos % 512) (chunk f.pos nn) bytes d.buffer;
        })
          ≡ round_end done nn k bytes f d
    round_end_lem done nn k bytes f d =
        ap (λ h. put_sector (k * 512) (record d { buffer = h }))
          (λ i a. move_in-paste done f.pos k (chunk f.pos nn) a bytes d.buffer (ground arith) i)

    -- A round, and the others behind it
    pub next_round :
        (eof map : ℕ)
        → (own : IsOwn spc x l eof map)
        → (g : ℕ → ℕ → ℕ) (nn done k : ℕ) (bytes fresh : ℕ → ℕ) (f : Channel)
          (r : Option ((ℕ × OsErr) × (Channel × Fcb F)))
        → f.eof ≡ eof
        → (nn == 0) ≡ false
        → f.pos + nn ≤ eof
        → let n = chunk f.pos nn in
          let s = place_of spc x l (f.pos / 512) in
          ((b : ℕ) → b < 512 → fresh b ≡ move_in done (f.pos % 512) n bytes (g s) b)
          → IsWritten spc x l
              (λ t b. if t == s then fresh b else g t b)
              (nn - n)
              (done + n)
              bytes
              (record f { pos = f.pos + n })
              r
          → IsWritten spc x l g nn done bytes f r
    next_round eof map own g nn done k bytes fresh f r end more room new rest =
        let n = chunk f.pos nn in
        let s = place_of spc x l (f.pos / 512) in
        let all : n + (nn - n) ≡ nn = ground arith in
        let sum : done + n + (nn - n) ≡ done + nn = omega (arith, all) in
        let at : f.pos + n + (nn - n) ≡ f.pos + nn = omega (arith, all) in
        record {
          after = rest.after;
          medium = rest.medium;
          result =
              subst (λ q. r ≡ some ((q, fine), (record f { pos = f.pos + nn }, rest.after))) sum
                (subst
                  (λ q. r ≡ some ((done + n + (nn - n), fine), (record f { pos = q }, rest.after)))
                  at rest.result);
          written = λ a low.
              rest.written a low
              ∙ ap
                  (λ b.
                    if leb (f.pos + n) a && ltb a (f.pos + n + (nn - n))
                    then bytes (done + n + (a - (f.pos + n)))
                    else b)
                  (new_file_byte spc x l eof map own done f.pos n a bytes fresh g (ground arith)
                    (ground arith) (omega (arith, low, end)) new)
              ∙ move_in-join done n (nn - n) f.pos a bytes (file_byte spc x l g)
              ∙ ap (λ q. move_in done f.pos q bytes (file_byte spc x l g) a) all;
          others = λ t b away. rest.others t b away ∙ rw (away (f.pos / 512) (ground arith)) refl;
          cache = rest.cache;
          same = rest.same;
          stored = rest.stored;
        }
