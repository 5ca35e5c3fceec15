-- ===== src/Disk/Files/Write/Apart.antt =====
-- Two sectors of a file of QDisk.c are different sectors of the medium.
use s_qlux.Base.{ℕ, zero, suc, ◌+◌, ◌*◌, ◌/◌, ◌%◌, ◌<◌, ◌≤◌}
use s_qlux.Base.{true, List, [], ◌∷◌, ◌≡◌, refl, arith, ◌∙◌, ap, sym}
use native.Mathlib.Nat.{
  add-mul-div_right, add-mul-mod_self_right, mod-lt, mod-eq_of_lt, div-eq_of_lt, div-add-mod',
}
use s_qlux.Disk.{Fcb, FileNum}
use s_qlux.Disk.Chains.{count, has, distinct, nth_of}
use s_qlux.Disk.Files.Read.{place_of, IsStored}
use s_qlux.Disk.Files.Write.{IsOwn}

has-nth_of : (i x : ℕ) (l : List ℕ) → has (nth_of x l i) (x ∷ l) ≡ true
has-nth_of zero x l = ground arith
has-nth_of (suc i) x [] = ground arith
has-nth_of (suc i) x (y ∷ l) = ground (arith, has-nth_of i y l)

nth_apart :
    (i j x : ℕ) (l : List ℕ)
    → distinct (x ∷ l) ≡ true
    → i ≤ count l
    → j ≤ count l
    → nth_of x l i ≡ nth_of x l j
    → i ≡ j
nth_apart zero zero x l d hi hj e = refl
nth_apart (suc i) j x [] d hi hj e = absurd (omega arith)
nth_apart zero (suc j) x [] d hi hj e = absurd (omega arith)
nth_apart zero (suc j) x (y ∷ l) d hi hj e = absurd (ground (arith, has-nth_of j y l))
nth_apart (suc i) zero x (y ∷ l) d hi hj e = absurd (ground (arith, has-nth_of i y l))
nth_apart (suc i) (suc j) x (y ∷ l) d hi hj e =
    ap suc (nth_apart i j y l (ground arith) (omega arith) (omega arith) e)

-- The cluster and the sector in it, from the number of a sector
cluster_of : (c t k : ℕ) → 0 < k → (c * k + t % k) / k ≡ c
cluster_of c t k some_sectors =
    let swap : c * k + t % k ≡ t % k + c * k = omega arith in
    rw (swap, add-mul-div_right (t % k) c some_sectors, div-eq_of_lt (mod-lt t some_sectors))
      (omega arith)

rest_of : (c t k : ℕ) → 0 < k → (c * k + t % k) % k ≡ t % k
rest_of c t k some_sectors =
    let swap : c * k + t % k ≡ t % k + c * k = omega arith in
    rw (swap, add-mul-mod_self_right (t % k) c k) (mod-eq_of_lt (mod-lt t some_sectors))

pub IsOwn-distinct :
    {F : Type 0} (spc x : ℕ) (l : List ℕ) (number : FileNum) (eof : ℕ) (d : Fcb F)
    → 0 < spc
    → distinct (x ∷ l) ≡ true
    → IsStored spc x l number eof d
    → ((t : ℕ) → t * 512 < eof → d.fat_sectors ≤ place_of spc x l t)
    → IsOwn spc x l eof d.fat_sectors
IsOwn-distinct spc x l number eof d some_sectors different s behind = record {
  behind = behind;
  apart = λ t u in_t in_u e.
      let ct = nth_of x l (t / spc) in
      let cu = nth_of x l (u / spc) in
      let clusters : ct ≡ cu =
        sym (cluster_of ct t spc some_sectors)
        ∙ ap (λ q. q / spc) e
        ∙ cluster_of cu u spc some_sectors in
      let rests : t % spc ≡ u % spc =
        sym (rest_of ct t spc some_sectors) ∙ ap (λ q. q % spc) e ∙ rest_of cu u spc some_sectors in
      let steps : t / spc ≡ u / spc =
        nth_apart (t / spc) (u / spc) x l different (s.extent t in_t).0 (s.extent u in_u).0
          clusters in
      sym (div-add-mod' t spc)
      ∙ ap (λ q. q * spc + t % spc) steps
      ∙ ap (λ q. u / spc * spc + q) rests
      ∙ div-add-mod' u spc;
}
