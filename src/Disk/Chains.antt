-- ===== src/Disk/Chains.antt =====
-- Chains of clusters in the map of a medium (QDisk.c), and how the two loops go along them.
use s_qlux.Base.{ℕ, zero, suc, ◌+◌, ◌<◌, ◌≤◌, ◌==◌}
use s_qlux.Base.{Bool, true, false, not, ◌&&◌, ◌||◌, some, List, [], ◌∷◌, ◌++◌}
use s_qlux.Base.{◌≡◌, refl, arith, ap}
use s_qlux.Disk.Map.{walk, chain_end}

abbrev pub count : List ℕ → ℕ
count [] = 0
count (x ∷ l) = count l + 1

abbrev pub has : ℕ → List ℕ → Bool
has a [] = false
has a (x ∷ l) = a == x || has a l

abbrev pub distinct : List ℕ → Bool
distinct [] = true
distinct (x ∷ l) = not (has x l) && distinct l

-- The last of the clusters `x ∷ l`, and the one after `n` steps
abbrev pub last_of : ℕ → List ℕ → ℕ
last_of x [] = x
last_of x (y ∷ l) = last_of y l

abbrev pub nth_of : ℕ → List ℕ → ℕ → ℕ
nth_of x l zero = x
nth_of x [] (suc n) = x
nth_of x (y ∷ l) (suc n) = nth_of y l n

-- From `c` the map leads through the clusters of the list, which are not 0, to `stop`.
abbrev pub Seg : (ℕ → ℕ) → ℕ → ℕ → List ℕ → Type 0
Seg next stop c [] = c ≡ stop
Seg next stop c (x ∷ l) = (c ≡ x) × ((x == 0) ≡ false) × Seg next stop (next x) l

pub count-++ : (xs ys : List ℕ) → count (xs ++ ys) ≡ count xs + count ys
count-++ [] ys = omega arith
count-++ (x ∷ xs) ys = omega (arith, count-++ xs ys)

pub has-++ : (a : ℕ) (xs ys : List ℕ) → has a (xs ++ ys) ≡ (has a xs || has a ys)
has-++ a [] ys = refl
has-++ a (x ∷ xs) ys = ground (arith, has-++ a xs ys)

pub ++_assoc : (xs ys zs : List ℕ) → (xs ++ ys) ++ zs ≡ xs ++ (ys ++ zs)
++_assoc [] ys zs = refl
++_assoc (x ∷ xs) ys zs = ap (λ l. x ∷ l) (++_assoc xs ys zs)

pub has-last : (x : ℕ) (l : List ℕ) → has (last_of x l) (x ∷ l) ≡ true
has-last x [] = ground arith
has-last x (y ∷ l) = ground (arith, has-last y l)

-- The parts of a list of distinct clusters
pub distinct-left : (xs ys : List ℕ) → distinct (xs ++ ys) ≡ true → distinct xs ≡ true
distinct-left [] ys h = refl
distinct-left (x ∷ xs) ys h = ground (arith, has-++ x xs ys, distinct-left xs ys)

pub distinct-right : (xs ys : List ℕ) → distinct (xs ++ ys) ≡ true → distinct ys ≡ true
distinct-right [] ys h = h
distinct-right (x ∷ xs) ys h = distinct-right xs ys (ground arith)

pub distinct-apart :
    (xs ys : List ℕ) (a : ℕ) → distinct (xs ++ ys) ≡ true → has a ys ≡ true → has a xs ≡ false
distinct-apart [] ys a h m = refl
distinct-apart (x ∷ xs) ys a h m = ground (arith, has-++ x xs ys, distinct-apart xs ys a)

-- A segment survives a change of the map that spares its clusters.
pub frame :
    (n n' : ℕ → ℕ) (stop c : ℕ) (l : List ℕ)
    → ((a : ℕ) → has a l ≡ true → n' a ≡ n a)
    → Seg n stop c l
    → Seg n' stop c l
frame n n' stop c [] same s = s
frame n n' stop c (x ∷ l) same s = (
  s.0,
  s.1,
  rw (same x (ground arith)) (frame n n' stop (n x) l (λ a m. same a (ground arith)) s.2),
)

pub join :
    (n : ℕ → ℕ) (mid stop c : ℕ) (xs ys : List ℕ)
    → Seg n mid c xs
    → Seg n stop mid ys
    → Seg n stop c (xs ++ ys)
join n mid stop c [] ys s t = rw s t
join n mid stop c (x ∷ xs) ys s t = (s.0, s.1, join n mid stop (n x) xs ys s.2 t)

-- With another cluster behind the last one, the segment leads to that.
pub relink :
    (n n' : ℕ → ℕ) (stop c x : ℕ) (l : List ℕ)
    → distinct (x ∷ l) ≡ true
    → ((a : ℕ) → has a (x ∷ l) ≡ true → (a == last_of x l) ≡ false → n' a ≡ n a)
    → Seg n stop c (x ∷ l)
    → Seg n' (n' (last_of x l)) c (x ∷ l)
relink n n' stop c x [] d same s = (s.0, s.1, refl)
relink n n' stop c x (y ∷ l) d same s = (
  s.0,
  s.1,
  rw (same x (ground arith) (ground (arith, has-last y l)))
      (relink n n' stop (n x) y l (ground arith) (λ a m. same a (ground arith)) s.2),
)

pub chain_end_lem :
    (n : ℕ → ℕ) (fuel c x : ℕ) (l : List ℕ)
    → Seg n 0 c (x ∷ l)
    → count l < fuel
    → chain_end n fuel c ≡ some (count l, last_of x l)
unfolding chain_end
chain_end_lem n zero c x l s h = absurd (omega arith)
chain_end_lem n (suc fuel) c x [] s h = ground (arith, s)
chain_end_lem n (suc fuel) c x (y ∷ l) s h =
    ground (arith, s, chain_end_lem n fuel (n x) y l s.2 (omega arith))

pub walk_lem :
    (n : ℕ → ℕ) (g c x : ℕ) (l : List ℕ)
    → Seg n 0 c (x ∷ l)
    → g ≤ count l
    → walk n g c ≡ (0, nth_of x l g)
unfolding walk
walk_lem n zero c x l s h = ground (arith, s)
walk_lem n (suc g) c x [] s h = absurd (omega arith)
walk_lem n (suc g) c x (y ∷ l) s h = ground (arith, s, walk_lem n g (n x) y l s.2 (omega arith))

pub walk-short :
    (n : ℕ → ℕ) (g c x : ℕ) (l : List ℕ)
    → Seg n 0 c (x ∷ l)
    → count l < g
    → ((walk n g c).0 == 0) ≡ false
unfolding walk
walk-short n zero c x l s h = absurd (omega arith)
walk-short n (suc g) c x [] s h = ground (arith, s)
walk-short n (suc g) c x (y ∷ l) s h = ground (arith, s, walk-short n g (n x) y l s.2 (omega arith))

-- The two parts of a segment
pub split :
    (n : ℕ → ℕ) (stop c x : ℕ) (l zs : List ℕ)
    → Seg n stop c ((x ∷ l) ++ zs)
    → Seg n stop (n (last_of x l)) zs
split n stop c x [] zs s = s.2
split n stop c x (y ∷ l) zs s = split n stop (n x) y l zs s.2

pub last_not_zero :
    (n : ℕ → ℕ) (stop c x : ℕ) (l zs : List ℕ)
    → Seg n stop c ((x ∷ l) ++ zs)
    → (last_of x l == 0) ≡ false
last_not_zero n stop c x [] zs s = s.1
last_not_zero n stop c x (y ∷ l) zs s = last_not_zero n stop (n x) y l zs s.2

pub first_part :
    (n : ℕ → ℕ) (stop c x : ℕ) (l zs : List ℕ)
    → Seg n stop c ((x ∷ l) ++ zs)
    → Seg n (n (last_of x l)) c (x ∷ l)
first_part n stop c x [] zs s = (s.0, s.1, refl)
first_part n stop c x (y ∷ l) zs s = (s.0, s.1, first_part n stop (n x) y l zs s.2)
