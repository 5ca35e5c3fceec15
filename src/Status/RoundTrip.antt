-- ===== src/Status/RoundTrip.antt =====
-- The status word packs the flags, the mask and the two mode bits, and gives them back.
use s_qlux.Base.{ℕ, ◌/◌, ◌^◌, ◌<◌, ◌≡◌, refl, arith, bit_and, ◌==◌, Bool, true, ◌&&◌, eqb}
use s_qlux.Base.{all_below, all_below_sound, all_conditions, all_conditions_sound}
use s_qlux.Word.{test}
use s_qlux.Machine.{Ccr}
use s_qlux.Bits.{bit_or-lt}
use s_qlux.Status.{sr_of, ccr_of, or_if}

-- What `PutSR` reads out of a status word.
pub record Unpacked : Type 0 where
  pub i_mask : ℕ
  pub trace : Bool
  pub supervisor : Bool
  pub ccr : Ccr

abbrev pub unpack : ℕ → Unpacked
unpack sr = record {
  i_mask = bit_and (sr / 2 ^ 8) 7;
  trace = test sr 0x8000;
  supervisor = test sr 0x2000;
  ccr = ccr_of sr;
}

abbrev packed : ℕ → Bool → Bool → Bool → Bool → Bool → Bool → Bool → Unpacked
packed k t s x n z v c = record {
  i_mask = k;
  trace = t;
  supervisor = s;
  ccr = record { xflag = x; negative = n; is_zero = z; overflow = v; carry = c };
}

eq_unpacked : Unpacked → Unpacked → Bool
eq_unpacked a b =
    a.i_mask == b.i_mask
    && (eqb a.trace b.trace
        && (eqb a.supervisor b.supervisor
            && (eqb a.ccr.xflag b.ccr.xflag
                && (eqb a.ccr.negative b.ccr.negative
                    && (eqb a.ccr.is_zero b.ccr.is_zero
                        && (eqb a.ccr.overflow b.ccr.overflow && eqb a.ccr.carry b.ccr.carry))))))

eq_unpacked_lem : (a b : Unpacked) → eq_unpacked a b ≡ true → a ≡ b
unfolding eq_unpacked
eq_unpacked_lem a b h = ground arith

agrees : ℕ → Bool → Bool → Bool → Bool → Bool → Bool → Bool → Bool
agrees k t s x n z v c =
    let p = packed k t s x n z v c in eq_unpacked (unpack (sr_of k t s p.ccr)) p

-- All the status words there are.
table : ℕ → Bool
table k = all_conditions λ t. all_conditions λ s. all_conditions λ x.
    all_conditions
      λ n. all_conditions λ z. all_conditions λ v. all_conditions λ c. agrees k t s x n z v c

table_checks : all_below 8 table ≡ true
unfolding all_below table agrees eq_unpacked sr_of ccr_of
table_checks = refl

agrees_lem : (k : ℕ) (t s x n z v c : Bool) → k < 8 → agrees k t s x n z v c ≡ true
unfolding table
agrees_lem k t s x n z v c h =
    let a = all_below_sound 8 table k table_checks h in
    let at =
      all_conditions_sound
        (λ t. all_conditions λ s. all_conditions λ x.
          all_conditions
            λ n. all_conditions λ z. all_conditions λ v. all_conditions λ c. agrees k t s x n z v c)
        t a in
    let a_s =
      all_conditions_sound
        (λ s. all_conditions λ x.
          all_conditions
            λ n. all_conditions λ z. all_conditions λ v. all_conditions λ c. agrees k t s x n z v c)
        s at in
    let ax =
      all_conditions_sound
        (λ x.
          all_conditions
            λ n. all_conditions λ z. all_conditions λ v. all_conditions λ c. agrees k t s x n z v c)
        x a_s in
    let an =
      all_conditions_sound
        (λ n. all_conditions λ z. all_conditions λ v. all_conditions λ c. agrees k t s x n z v c) n
        ax in
    let az =
      all_conditions_sound (λ z. all_conditions λ v. all_conditions λ c. agrees k t s x n z v c) z
        an in
    let av = all_conditions_sound (λ v. all_conditions λ c. agrees k t s x n z v c) v az in
    all_conditions_sound (λ c. agrees k t s x n z v c) c av

-- Unpacking the status word of `GetSR`, for a mask below 8, gives back the mask, the mode bits
-- and the flags it was made of.
pub unpack-sr_of :
    (k : ℕ) (t s : Bool) (f : Ccr)
    → k < 8
    → unpack (sr_of k t s f) ≡ record { i_mask = k; trace = t; supervisor = s; ccr = f }
unfolding agrees
unpack-sr_of k t s f h =
    eq_unpacked_lem _ _ (agrees_lem k t s f.xflag f.negative f.is_zero f.overflow f.carry h)

or_if-lt : (b : Bool) (m sr : ℕ) → m < 2 ^ 16 → sr < 2 ^ 16 → or_if b m sr < 2 ^ 16
or_if-lt b m sr h1 h2 = ground (arith, bit_or-lt 16 sr m h2 h1)

-- The status register is a word.
pub sr_of-Fits : (k : ℕ) (t s : Bool) (f : Ccr) → sr_of k t s f < 2 ^ 16
unfolding sr_of
sr_of-Fits k t s f = or_if-lt f.carry 1 _ (omega arith) (
    or_if-lt f.overflow 2 _ (omega arith) (
      or_if-lt f.is_zero 4 _ (omega arith) (
        or_if-lt f.negative 8 _ (omega arith) (
          or_if-lt f.xflag 16 _ (omega arith) (
            or_if-lt s 0x2000 _ (omega arith) (or_if-lt t 0x8000 _ (omega arith) (omega arith)))))))
