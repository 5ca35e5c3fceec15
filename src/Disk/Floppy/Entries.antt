-- ===== src/Disk/Floppy/Entries.antt =====
-- The entries of the map of a floppy disk (QDisk.c): what the search finds after one was written.
use s_qlux.Base.{
  ℕ, zero, suc, ◌+◌, ◌*◌, ◌/◌, ◌%◌, ◌^◌, ◌<◌, ◌≤◌, ◌-◌, bit_and, bit_or, leb, ◌==◌, if◌then◌else◌,
}
use s_qlux.Base.{true, false, none, some}
use s_qlux.Base.{◌≡◌, refl, arith, ◌∙◌, sym, subst, Bool-cases, ◌⊎◌, inl, inr, ==_false, ==_refl}
use s_qlux.Bits.{bit_and_mask, bit_or_fields}
use s_qlux.Memory.{peek_word, peek_long, poke_word}
use s_qlux.Disk.Floppy.{long_shr8, pair, value_of, find_entry, find_free, put_entry}

-- The three bytes of the entry `j`
abbrev pub triple : (ℕ → ℕ) → ℕ → ℕ
triple buf j = buf (96 + 3 * j) * 2 ^ 16 + buf (96 + 3 * j + 1) * 2 ^ 8 + buf (96 + 3 * j + 2)

abbrev pub IsBytes : (ℕ → ℕ) → Type 0
IsBytes buf = (a : ℕ) → buf a < 2 ^ 8

-- What a comparison reads of the entry `j`: the number at an even place has a sign.
abbrev pub seen : (ℕ → ℕ) → ℕ → ℕ
seen buf j =
    triple buf j
    + (if j % 2 == 0 then if leb (2 ^ 23) (triple buf j) then 2 ^ 32 - 2 ^ 24 else 0 else 0)

-- The two comparisons of a pair read its two entries.
even_seen :
    (buf : ℕ → ℕ) (i : ℕ) → IsBytes buf → long_shr8 (peek_long buf (pair i)) ≡ seen buf (2 * i)
unfolding peek_long peek_word
even_seen buf i b =
    let at : 96 + 3 * (2 * i) ≡ pair i = omega arith in
    let even : (2 * i) % 2 ≡ 0 = omega arith in
    rw (at, even) ground (arith, b (pair i), b (pair i + 1), b (pair i + 2), b (pair i + 2 + 1))

odd_seen :
    (buf : ℕ → ℕ) (i : ℕ) → IsBytes buf → peek_long buf (pair i + 2) % 2 ^ 24 ≡ seen buf (2 * i + 1)
unfolding peek_long peek_word
odd_seen buf i b =
    let at0 : 96 + 3 * (2 * i + 1) ≡ pair i + 2 + 1 = omega arith in
    let at1 : pair i + 2 + 1 + 1 ≡ pair i + 2 + 2 = omega arith in
    let at2 : pair i + 2 + 1 + 2 ≡ pair i + 2 + 2 + 1 = omega arith in
    let odd : (2 * i + 1) % 2 ≡ 1 = omega arith in
    rw (at0, at1, at2, odd) omega
      (arith, b (pair i + 2), b (pair i + 2 + 1), b (pair i + 2 + 2), b (pair i + 2 + 2 + 1))

find_entry-none :
    (buf : ℕ → ℕ) (v n i j : ℕ)
    → IsBytes buf
    → find_entry buf v n i ≡ none
    → 2 * i ≤ j
    → j < 2 * (i + n)
    → (seen buf j == v) ≡ false
unfolding find_entry
find_entry-none buf v zero i j b e lo hi = absurd (omega arith)
find_entry-none buf v (suc n) i j b e lo hi =
    let even = even_seen buf i b in
    let odd = odd_seen buf i b in
    let next : (long_shr8 (peek_long buf (pair i)) == v) ≡ false
        × ((peek_long buf (pair i + 2) % 2 ^ 24 == v) ≡ false)
        × (find_entry buf v n (i + 1) ≡ none) =
      (ground arith, ground arith, ground arith) in
    elim (Bool-cases (j == 2 * i)) [
      | inl at ↦
          let at' : j ≡ 2 * i = ground arith in
          subst (λ q. (seen buf q == v) ≡ false) (sym at')
            (subst (λ q. (q == v) ≡ false) even next.0)
      | inr off ↦ elim (Bool-cases (j == 2 * i + 1)) [
        | inl at ↦
            let at' : j ≡ 2 * i + 1 = ground arith in
            subst (λ q. (seen buf q == v) ≡ false) (sym at')
              (subst (λ q. (q == v) ≡ false) odd next.1)
        | inr away ↦ find_entry-none buf v n (i + 1) j b next.2 (ground arith) (omega arith)
      ]
    ]

find_entry-first :
    (buf : ℕ → ℕ) (v n i m : ℕ)
    → IsBytes buf
    → 2 * i ≤ m
    → m < 2 * (i + n)
    → seen buf m ≡ v
    → ((j : ℕ) → 2 * i ≤ j → j < m → (seen buf j == v) ≡ false)
    → find_entry buf v n i ≡ some m
unfolding find_entry
find_entry-first buf v zero i m b lo hi at before = absurd (omega arith)
find_entry-first buf v (suc n) i m b lo hi at before =
    let even = even_seen buf i b in
    let odd = odd_seen buf i b in
    elim (Bool-cases (m == 2 * i)) [
      | inl first ↦
          let e : m ≡ 2 * i = ground arith in
          let hit : (long_shr8 (peek_long buf (pair i)) == v) ≡ true =
            rw (even, ← e, at) (==_refl v) in
          rw (hit, e) refl
      | inr late ↦
          let miss0 : (long_shr8 (peek_long buf (pair i)) == v) ≡ false =
            rw even (before (2 * i) (omega arith) (ground arith)) in
          rw miss0 (elim (Bool-cases (m == 2 * i + 1)) [
            | inl second ↦
                let e : m ≡ 2 * i + 1 = ground arith in
                let hit : (peek_long buf (pair i + 2) % 2 ^ 24 == v) ≡ true =
                  rw (odd, ← e, at) (==_refl v) in
                rw (hit, e) refl
            | inr later ↦
                let miss1 : (peek_long buf (pair i + 2) % 2 ^ 24 == v) ≡ false =
                  rw odd (before (2 * i + 1) (omega arith) (ground arith)) in
                rw miss1 (
                  find_entry-first buf v n (i + 1) m b (ground arith) (omega arith) at
                    (λ j lo' lt. before j (omega arith) lt))
          ])
    ]

find_entry-absent :
    (buf : ℕ → ℕ) (v n i : ℕ)
    → IsBytes buf
    → ((j : ℕ) → 2 * i ≤ j → j < 2 * (i + n) → (seen buf j == v) ≡ false)
    → find_entry buf v n i ≡ none
unfolding find_entry
find_entry-absent buf v zero i b away = refl
find_entry-absent buf v (suc n) i b away =
    let miss0 : (long_shr8 (peek_long buf (pair i)) == v) ≡ false =
      rw (even_seen buf i b) (away (2 * i) (omega arith) (omega arith)) in
    let miss1 : (peek_long buf (pair i + 2) % 2 ^ 24 == v) ≡ false =
      rw (odd_seen buf i b) (away (2 * i + 1) (omega arith) (omega arith)) in
    rw (miss0, miss1)
      (find_entry-absent buf v n (i + 1) b (λ j lo lt. away j (omega arith) (omega arith)))

find_free-range : (buf : ℕ → ℕ) (n i j : ℕ) → find_free buf n i ≡ some j → j < 2 * (i + n)
unfolding find_free
find_free-range buf zero i j e = absurd (ground arith)
find_free-range buf (suc n) i j e = ground (arith, find_free-range buf n (i + 1) j)

-- The entry that is written, and the others
put_entry-IsBytes : (j f b : ℕ) (buf : ℕ → ℕ) → IsBytes buf → IsBytes (put_entry j f b buf)
unfolding put_entry poke_word
put_entry-IsBytes j f b buf bytes a = ground (arith, bytes a)

put_entry-other :
    (j k f b : ℕ) (buf : ℕ → ℕ) → (k == j) ≡ false → triple (put_entry j f b buf) k ≡ triple buf k
unfolding put_entry poke_word
put_entry-other j k f b buf other = ground arith

value_of_lem : (f b : ℕ) → f < 2 ^ 12 → b < 2 ^ 12 → value_of f b ≡ f * 2 ^ 12 + b
value_of_lem f b hf hb = omega (arith, bit_and_mask 12 f, bit_and_mask 12 b)

put_entry-same :
    (j f b : ℕ) (buf : ℕ → ℕ)
    → f < 2 ^ 12
    → b < 2 ^ 12
    → triple (put_entry j f b buf) j ≡ f * 2 ^ 12 + b
unfolding put_entry poke_word
put_entry-same j f b buf hf hb = elim (Bool-cases (j % 2 == 0)) [
  | inl even ↦
      let at : 96 + 3 * j ≡ pair (j / 2) = ground arith in
      let word = bit_or_fields 4 f (b / 2 ^ 8) (omega arith) in rw (at, even, word) ground arith
  | inr odd ↦
      let at : 96 + 3 * j ≡ pair (j / 2) + 3 = ground arith in
      let word : bit_or (f * 2 ^ 12) (bit_and b 0x0fff) ≡ f * 2 ^ 12 + b =
        let low : bit_and b 0x0fff ≡ b = omega (arith, bit_and_mask 12 b) in
        rw low (bit_or_fields 12 f b hb) in
      rw (at, odd, word) ground arith
]

-- The entry `j` is written for a block that the map did not have: the search finds it, unless the
-- place is even and the number of the file has its high bit set.
pub find_entry-put_entry :
    (buf : ℕ → ℕ) (n j f b : ℕ)
    → IsBytes buf
    → find_free buf n 0 ≡ some j
    → find_entry buf (value_of f b) n 0 ≡ none
    → f < 2 ^ 12
    → b < 2 ^ 12
    → (f < 2 ^ 11) ⊎ (j % 2 ≡ 1)
    → find_entry (put_entry j f b buf) (value_of f b) n 0 ≡ some j
find_entry-put_entry buf n j f b bytes free unknown hf hb plain =
    let own = put_entry-same j f b buf hf hb in
    let mine : seen (put_entry j f b buf) j ≡ f * 2 ^ 12 + b = rw own (ground arith) in
    find_entry-first (put_entry j f b buf) (value_of f b) n 0 j (put_entry-IsBytes j f b buf bytes)
      (omega arith) (find_free-range buf n 0 j free) (mine ∙ sym (value_of_lem f b hf hb))
      (λ k lo lt.
        let range = find_free-range buf n 0 j free in
        rw (put_entry-other j k f b buf (==_false k j (λ e. omega arith)))
          (find_entry-none buf (value_of f b) n 0 k bytes unknown (omega arith) (omega arith)))

seen-high :
    (buf : ℕ → ℕ) (j v : ℕ)
    → j % 2 ≡ 0
    → 2 ^ 23 ≤ triple buf j
    → v < 2 ^ 24
    → (seen buf j == v) ≡ false
seen-high buf j v even high small = ground arith

-- At an even place, a file whose number has its high bit set is not found.
pub find_entry-lost :
    (buf : ℕ → ℕ) (n j f b : ℕ)
    → IsBytes buf
    → find_free buf n 0 ≡ some j
    → find_entry buf (value_of f b) n 0 ≡ none
    → 2 ^ 11 ≤ f
    → f < 2 ^ 12
    → b < 2 ^ 12
    → j % 2 ≡ 0
    → find_entry (put_entry j f b buf) (value_of f b) n 0 ≡ none
find_entry-lost buf n j f b bytes free unknown high hf hb even =
    let own = put_entry-same j f b buf hf hb in
    let value = value_of_lem f b hf hb in
    find_entry-absent (put_entry j f b buf) (value_of f b) n 0 (put_entry-IsBytes j f b buf bytes)
      (λ k lo lt. elim (Bool-cases (k == j)) [
        | inl e ↦
            let at : k ≡ j = ground arith in
            rw at (
              seen-high (put_entry j f b buf) j (value_of f b) even (omega (arith, own))
                (omega (arith, value)))
        | inr other ↦
            rw (put_entry-other j k f b buf other)
              (find_entry-none buf (value_of f b) n 0 k bytes unknown lo (omega arith))
      ])

-- The count of free sectors is in front of the map.
pub find_entry-count :
    (buf : ℕ → ℕ) (v w n i : ℕ) → find_entry (poke_word buf 20 w) v n i ≡ find_entry buf v n i
unfolding find_entry poke_word peek_long peek_word
find_entry-count buf v w zero i = refl
find_entry-count buf v w (suc n) i = ground (arith, find_entry-count buf v w n (i + 1))
