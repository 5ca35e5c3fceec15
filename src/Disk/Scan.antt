-- ===== src/Disk/Scan.antt =====
-- What `GetSector` (QDisk.c) finds among the buffers of a medium.
use s_qlux.Base.{ℕ, zero, suc, ◌+◌, ◌<◌, ◌≤◌, ◌==◌, if◌then◌else◌}
use s_qlux.Base.{Bool, true, false, Option, none, some}
use s_qlux.Base.{◌≡◌, refl, arith, Bool-cases, inl, inr}
use s_qlux.Disk.{SectorInfo}
use s_qlux.Disk.Cache.{Found, hit, miss, holds, is_usable, scan}

-- What the scan of the buffers from `lo` to `hi` finds, when it starts with the buffer `k`
abbrev pub IsTarget : ℕ → (ℕ → SectorInfo) → Option ℕ → Type 0
IsTarget hi si none = Unit {0}
IsTarget hi si (some q) = (q < hi) × (is_usable (si q) ≡ true)

abbrev pub IsFound : (s lo hi : ℕ) → Option ℕ → (ℕ → SectorInfo) → Found → Type 0
IsFound s lo hi k si (hit j) = (j < hi) × (holds s (si j) ≡ true)
IsFound s lo hi k si (miss none) =
    (k ≡ none) × ((j : ℕ) → lo ≤ j → j < hi → is_usable (si j) ≡ false)
IsFound s lo hi k si (miss (some q)) =
    ((j : ℕ) → lo ≤ j → j < hi → holds s (si j) ≡ false) × (q < hi) × (is_usable (si q) ≡ true)

IsTarget-next :
    (i hi : ℕ) (k : Option ℕ) (si : ℕ → SectorInfo)
    → i < hi
    → IsTarget hi si k
    → IsTarget hi si (if is_usable (si i) then some i else k)
IsTarget-next i hi k si lt t = elim (Bool-cases (is_usable (si i))) [
  | inl u ↦ rw u (lt, u)
  | inr u ↦ rw u t
]

IsFound-step :
    (s i hi : ℕ) (k : Option ℕ) (si : ℕ → SectorInfo) (r : Found)
    → i < hi
    → holds s (si i) ≡ false
    → IsFound s (i + 1) hi (if is_usable (si i) then some i else k) si r
    → IsFound s i hi k si r
IsFound-step s i hi k si (hit j) lt off f = f
IsFound-step s i hi k si (miss none) lt off f = elim (Bool-cases (is_usable (si i))) [
  | inl u ↦ absurd (ground arith)
  | inr u ↦ (
    ground arith,
    λ j a b. elim (Bool-cases (j == i)) [ inl e ↦ ground arith | inr e ↦ f.1 j (ground arith) b ],
  )
]
IsFound-step s i hi k si (miss (some q)) lt off f = (
  λ j a b. elim (Bool-cases (j == i)) [ inl e ↦ ground arith | inr e ↦ f.0 j (ground arith) b ],
  f.1,
  f.2,
)

IsFound-test :
    (s i hi : ℕ) (k : Option ℕ) (si : ℕ → SectorInfo) (r : Found) (test : Bool)
    → i < hi
    → holds s (si i) ≡ test
    → IsFound s (i + 1) hi (if is_usable (si i) then some i else k) si r
    → IsFound s i hi k si (if test then hit i else r)
IsFound-test s i hi k si r true lt at f = (lt, at)
IsFound-test s i hi k si r false lt off f = IsFound-step s i hi k si r lt off f

pub scan-IsFound :
    (s n i hi : ℕ) (k : Option ℕ) (si : ℕ → SectorInfo)
    → i + n ≡ hi
    → IsTarget hi si k
    → IsFound s i hi k si (scan s n i k si)
unfolding scan
scan-IsFound s zero i hi none si e t = (refl, λ j a b. absurd (omega arith))
scan-IsFound s zero i hi (some q) si e t = (λ j a b. absurd (omega arith), t.0, t.1)
scan-IsFound s (suc n) i hi k si e t =
    IsFound-test s i hi k si (scan s n (i + 1) (if is_usable (si i) then some i else k) si)
      (holds s (si i)) (omega arith) refl
      (scan-IsFound s n (i + 1) hi (if is_usable (si i) then some i else k) si (omega arith)
        (IsTarget-next i hi k si (omega arith) t))
