-- ===== src/Charset.antt =====
-- The two character sets (QL_cconv.c): ISO Latin 1 on the host, and the set of the QL. The table of
-- a printer, `tra_conv`, is left out.
pub mod RoundTrip
use s_qlux.Base.{ℕ, zero, suc, ◌+◌, ◌==◌, if◌then◌else◌, List, [], ◌∷◌}
use s_qlux.Machine.{update}

-- `codetable` without its end: an ISO code and the code of the QL
abbrev pub codetable : List (ℕ × ℕ)
codetable =
    (96, 159)
    ∷ (161, 179)
    ∷ (162, 157)
    ∷ (163, 96)
    ∷ (164, 183)
    ∷ (165, 158)
    ∷ (167, 182)
    ∷ (169, 127)
    ∷ (171, 184)
    ∷ (176, 186)
    ∷ (180, 159)
    ∷ (181, 176)
    ∷ (187, 185)
    ∷ (191, 180)
    ∷ (197, 162)
    ∷ (196, 160)
    ∷ (195, 161)
    ∷ (198, 170)
    ∷ (199, 168)
    ∷ (201, 163)
    ∷ (214, 164)
    ∷ (213, 165)
    ∷ (216, 166)
    ∷ (220, 167)
    ∷ (223, 156)
    ∷ (224, 141)
    ∷ (233, 131)
    ∷ (227, 129)
    ∷ (228, 128)
    ∷ (229, 130)
    ∷ (230, 138)
    ∷ (231, 136)
    ∷ (232, 144)
    ∷ (234, 145)
    ∷ (236, 148)
    ∷ (237, 147)
    ∷ (238, 149)
    ∷ (239, 146)
    ∷ (240, 173)
    ∷ (241, 137)
    ∷ (242, 151)
    ∷ (243, 150)
    ∷ (244, 152)
    ∷ (246, 132)
    ∷ (247, 187)
    ∷ (248, 134)
    ∷ (249, 154)
    ∷ (250, 153)
    ∷ (251, 155)
    ∷ (252, 135)
    ∷ []

unfoldable pub find_ql : List (ℕ × ℕ) → ℕ → ℕ
find_ql [] c = c
find_ql ((iso, ql) ∷ l) c = if iso == c then ql else find_ql l c

unfoldable pub find_iso : List (ℕ × ℕ) → ℕ → ℕ
find_iso [] c = c
find_iso ((iso, ql) ∷ l) c = if ql == c then iso else find_iso l c

-- `x__iso2ql` and `x__ql2iso`
unfoldable pub x_iso2ql : ℕ → ℕ
unfolding find_ql
x_iso2ql c = find_ql codetable c

unfoldable pub x_ql2iso : ℕ → ℕ
unfolding find_iso
x_ql2iso c = find_iso codetable c

-- `for (i = 0; i < 256; i++) t[i] = f(i);` with the rounds that are left
unfoldable pub fill_codes : (ℕ → ℕ) → ℕ → ℕ → (ℕ → ℕ) → ℕ → ℕ
fill_codes f zero i t = t
fill_codes f (suc n) i t = fill_codes f n (i + 1) (update t i (f i))

pub record Tables : Type 0 where
  pub i2q : ℕ → ℕ
  pub q2i : ℕ → ℕ

-- `init_iso`
unfoldable pub init_iso : Tables → Tables
init_iso t = record { i2q = fill_codes x_iso2ql 256 0 t.i2q; q2i = fill_codes x_ql2iso 256 0 t.q2i }

-- `while (len-- > 0) buf[len] = t[buf[len]];`
unfoldable pub convert_mem : (ℕ → ℕ) → ℕ → (ℕ → ℕ) → ℕ → ℕ
convert_mem t zero buf = buf
convert_mem t (suc len) buf = convert_mem t len (update buf len (t (buf len)))

unfoldable pub iso2ql_mem : Tables → ℕ → (ℕ → ℕ) → ℕ → ℕ
unfolding convert_mem
iso2ql_mem t len buf = convert_mem t.i2q len buf

unfoldable pub ql2iso_mem : Tables → ℕ → (ℕ → ℕ) → ℕ → ℕ
unfolding convert_mem
ql2iso_mem t len buf = convert_mem t.q2i len buf
