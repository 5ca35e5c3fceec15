-- ===== src/Charset/RoundTrip.antt =====
-- Text of the QL that goes through the character set of the host (QL_cconv.c) and back.
use s_qlux.Base.{
  ℕ, zero, suc, ◌+◌, ◌<◌, ltb, leb, ◌==◌, if◌then◌else◌, Bool, true, false, not, eqb, ==_refl, ◌&&◌,
  ◌||◌, List, [], ◌∷◌,
}
use s_qlux.Base.{
  ◌≡◌, refl, arith, ◌∙◌, all_below, all_below_sound, Bool-cases, inl, inr, leb-true, ltb-true,
}
use s_qlux.Machine.{update}
use s_qlux.Charset.{
  codetable, x_iso2ql, x_ql2iso, fill_codes, Tables, init_iso, convert_mem, iso2ql_mem,
}
use s_qlux.Charset.{ql2iso_mem}

fill_codes_lem :
    (f : ℕ → ℕ) (n i : ℕ) (t : ℕ → ℕ) (k : ℕ)
    → fill_codes f n i t k ≡ (if leb i k && ltb k (i + n) then f k else t k)
unfolding fill_codes
fill_codes_lem f zero i t k = ground arith
fill_codes_lem f (suc n) i t k = ground (arith, fill_codes_lem f n (i + 1) (update t i (f i)) k)

filled : (f t : ℕ → ℕ) (c : ℕ) → c < 256 → fill_codes f 256 0 t c ≡ f c
filled f t c h = fill_codes_lem f 256 0 t c ∙ rw (leb-true 0 c (omega arith), ltb-true c 256 h) refl

convert_mem_lem :
    (t : ℕ → ℕ) (len : ℕ) (buf : ℕ → ℕ) (k : ℕ)
    → convert_mem t len buf k ≡ (if ltb k len then t (buf k) else buf k)
unfolding convert_mem
convert_mem_lem t zero buf k = ground arith
convert_mem_lem t (suc len) buf k =
    ground (arith, convert_mem_lem t len (update buf len (t (buf len))) k)

-- The tables that `init_iso` fills
table_i2q : (t : Tables) (c : ℕ) → c < 256 → (init_iso t).i2q c ≡ x_iso2ql c
unfolding init_iso
table_i2q t c h = filled x_iso2ql t.i2q c h

table_q2i : (t : Tables) (c : ℕ) → c < 256 → (init_iso t).q2i c ≡ x_ql2iso c
unfolding init_iso
table_q2i t c h = filled x_ql2iso t.q2i c h

unfoldable pub has_iso : List (ℕ × ℕ) → ℕ → Bool
has_iso [] c = false
has_iso ((iso, ql) ∷ l) c = iso == c || has_iso l c

unfoldable pub has_ql : List (ℕ × ℕ) → ℕ → Bool
has_ql [] c = false
has_ql ((iso, ql) ∷ l) c = ql == c || has_ql l c

-- A code of the QL that is not in the table, but is the ISO code of another one
unfoldable pub is_lost : ℕ → Bool
unfolding has_iso has_ql
is_lost c = has_iso codetable c && not (has_ql codetable c)

eq_bool : (a b : Bool) → eqb a b ≡ true → a ≡ b
eq_bool true true e = refl
eq_bool true false e = absurd (ground arith)
eq_bool false true e = absurd (ground arith)
eq_bool false false e = refl

agrees : ℕ → Bool
agrees c = eqb (x_iso2ql (x_ql2iso c) == c) (not (is_lost c)) && ltb (x_ql2iso c) 256

all_agree : (c : ℕ) → c < 256 → agrees c ≡ true
unfolding all_below agrees x_iso2ql x_ql2iso is_lost
all_agree c h = all_below_sound 256 agrees c refl h

-- Text of the QL that is converted to ISO Latin 1 and back: a byte in the length is as before
-- exactly where its code is in the table or is not the ISO code of another one, and the bytes
-- behind the length are as before.
pub iso2ql_mem-ql2iso_mem :
    (t : Tables) (len : ℕ) (buf : ℕ → ℕ)
    → ((k : ℕ) → k < len → buf k < 256)
    → (k : ℕ)
    → (iso2ql_mem (init_iso t) len (ql2iso_mem (init_iso t) len buf) k == buf k)
      ≡ not (ltb k len && is_lost (buf k))
unfolding iso2ql_mem ql2iso_mem agrees
iso2ql_mem-ql2iso_mem t len buf small k =
    let there = convert_mem_lem (init_iso t).q2i len buf k in
    let back = convert_mem_lem (init_iso t).i2q len (convert_mem (init_iso t).q2i len buf) k in
    elim (Bool-cases (ltb k len)) [
      | inl inside ↦
          (let low : buf k < 256 = small k (ground arith) in
            let good : agrees (buf k) ≡ true = all_agree (buf k) low in
            let iso : (init_iso t).q2i (buf k) ≡ x_ql2iso (buf k) = table_q2i t (buf k) low in
            let fits : x_ql2iso (buf k) < 256 = ground (arith, good) in
            let again = table_i2q t (x_ql2iso (buf k)) fits in
            let same =
              eq_bool (x_iso2ql (x_ql2iso (buf k)) == buf k) (not (is_lost (buf k)))
                (ground (arith, good)) in
            rw (back, inside, there, inside, iso, again) same)
      | inr outside ↦ rw (back, outside, there, outside) (==_refl (buf k))
    ]
