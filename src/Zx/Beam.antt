-- ===== src/Zx/Beam.antt =====
-- The cached line against the place of the beam, at the speed of a QL.
use s_qlux.Base.{
  ℕ, ◌+◌, ◌-◌, ◌*◌, ◌/◌, ◌%◌, ◌^◌, ◌≤◌, ◌<◌, ◌≡◌, ◌⊎◌, inl, inr, refl, arith, ltb, leb, ◌==◌,
}
use s_qlux.Base.{if◌then◌else◌, Bool, false, not, ◌||◌, Bool-cases}
use s_qlux.Zx.{Zx, busy_chunks, locate_line, could_start, chunk_cycles, speed_native}

-- The geometry that `zx8301_init` sets, for one of the two video standards.
pub record IsConfigured (z : Zx) : Type 0 where
  pub lines : (z.line_cyc ≡ 480) ⊎ (z.line_cyc ≡ 474)
  pub native : z.speed ≡ 20

-- No line is cached, or one of this frame is, before 2 ^ 63 cycles.
abbrev pub IsCached : Zx → Type 0
IsCached z =
    ((z.line_t0 ≡ 0) × (z.line_t1 ≡ 0))
    ⊎ ((line : ℕ) × (z.line_t0 ≡ z.frame + line * z.line_cyc)
        × (z.line_t1 ≡ z.line_t0 + z.line_cyc)
        × (z.line_busy ≡ busy_chunks z.first line))

-- Whether the CPU may start at cycle `c`: outside the busy part of its line, or as a chunk begins.
abbrev pub is_free : Zx → ℕ → Bool
is_free z c =
    let place = (c - z.frame) % z.line_cyc in
    leb (busy_chunks z.first ((c - z.frame) / z.line_cyc) * chunk_cycles) place
    || place % chunk_cycles == 0

pub busy_chunks-cases : (first n : ℕ) → (busy_chunks first n ≡ 32) ⊎ (busy_chunks first n ≡ 8)
unfolding busy_chunks
busy_chunks-cases first n = ground arith

-- A cycle within a line, by the start of the line.
within_line :
    (frame line len c : ℕ)
    → (len ≡ 480) ⊎ (len ≡ 474)
    → frame + line * len ≤ c
    → c < frame + line * len + len
    → ((c - frame) / len ≡ line) × ((c - frame) % len ≡ c - (frame + line * len))
within_line frame line len c (inl e) h k =
    rw e (let h' = rw e at h in let k' = rw e at k in omega arith)
within_line frame line len c (inr e) h k =
    rw e (let h' = rw e at h in let k' = rw e at k in omega arith)

line_of :
    (frame len c : ℕ)
    → (len ≡ 480) ⊎ (len ≡ 474)
    → frame ≤ c
    → (frame + (c - frame) / len * len ≤ c) × (c < frame + (c - frame) / len * len + len)
line_of frame len c (inl e) h = rw e (omega arith)
line_of frame len c (inr e) h = rw e (omega arith)

-- The test on a line that is cached, as `zx_could_start` makes it.
abbrev in_line : Zx → ℕ → Bool
in_line z c =
    let x = (c + 2 ^ 64 - z.line_t0) % 2 ^ 64 % 2 ^ 32 in
    leb (z.line_busy * chunk_cycles) x || x % chunk_cycles == 0

in_line-is_free :
    (z : Zx) (line c : ℕ)
    → (z.line_cyc ≡ 480) ⊎ (z.line_cyc ≡ 474)
    → z.line_t0 ≡ z.frame + line * z.line_cyc
    → z.line_busy ≡ busy_chunks z.first line
    → z.line_t0 ≤ c
    → c < z.line_t0 + z.line_cyc
    → c < 2 ^ 62
    → in_line z c ≡ is_free z c
in_line-is_free z line c cfg e0 eb h k small =
    let p = within_line z.frame line z.line_cyc c cfg (rw (← e0) h) (rw (← e0) k) in
    let x : (c + 2 ^ 64 - z.line_t0) % 2 ^ 64 % 2 ^ 32 ≡ c - (z.frame + line * z.line_cyc) =
      ground arith in
    rw (x, p.0, p.1, eb) refl

abbrev relocates : Zx → ℕ → Bool
relocates z c = (ltb c z.line_t0 || leb z.line_t1 c) || ltb c z.frame

not_scaled : (z : Zx) → z.speed ≡ 20 → not (z.speed == speed_native) ≡ false
not_scaled z h = ground arith

could_start-native :
    (z : Zx) (c : ℕ)
    → z.speed ≡ 20
    → could_start c z
      ≡ (let z' = if relocates z c then locate_line c z else z in (in_line z' c, z'))
unfolding could_start
could_start-native z c h = let e = not_scaled z h in rw e refl

located : Zx → ℕ → Zx
located z c =
    let line = (c - z.frame) / z.line_cyc in
    record z {
      line_t0 = z.frame + line * z.line_cyc;
      line_t1 = z.frame + line * z.line_cyc + z.line_cyc;
      line_busy = busy_chunks z.first line;
    }

locate_line-located :
    (z : Zx) (c : ℕ)
    → (z.line_cyc ≡ 480) ⊎ (z.line_cyc ≡ 474)
    → z.frame ≤ c
    → c < 2 ^ 62
    → locate_line c z ≡ located z c
unfolding locate_line located
locate_line-located z c cfg h small =
    let d : (c + 2 ^ 64 - z.frame) % 2 ^ 64 ≡ c - z.frame = omega arith in
    let b = line_of z.frame z.line_cyc c cfg h in
    let line = (c - z.frame) / z.line_cyc in
    let m : line * z.line_cyc % 2 ^ 64 ≡ line * z.line_cyc = omega arith in
    let t0 : (z.frame + line * z.line_cyc) % 2 ^ 64 ≡ z.frame + line * z.line_cyc = omega arith in
    let t1 : (z.frame + line * z.line_cyc + z.line_cyc) % 2 ^ 64
        ≡ z.frame + line * z.line_cyc + z.line_cyc =
      ground arith in
    rw (d, m, t0, t1) refl

could_start-located :
    (z : Zx) (c : ℕ)
    → (z.line_cyc ≡ 480) ⊎ (z.line_cyc ≡ 474)
    → z.frame ≤ c
    → c < 2 ^ 62
    → (in_line (located z c) c ≡ is_free z c) × IsCached (located z c)
unfolding located
could_start-located z c cfg h small =
    let b = line_of z.frame z.line_cyc c cfg h in
    let line = (c - z.frame) / z.line_cyc in
    (in_line-is_free (located z c) line c cfg refl refl b.0 b.1 small, inr (line, refl, refl, refl))

-- At the speed of a QL, from the vertical sync on and before 2 ^ 62 cycles, the test is the place
-- of the beam, whatever line is cached; it leaves a line cached.
pub could_start-is_free :
    (z : Zx) (c : ℕ)
    → IsConfigured z
    → IsCached z
    → z.frame ≤ c
    → c < 2 ^ 62
    → ((could_start c z).0 ≡ is_free z c) × IsCached (could_start c z).1
could_start-is_free z c cfg cached h small =
    rw (could_start-native z c cfg.native) (elim (Bool-cases (relocates z c)) [
      | inl out ↦
          rw (out, locate_line-located z c cfg.lines h small)
            (could_start-located z c cfg.lines h small)
      | inr within ↦ rw within (elim cached [
        | inl none ↦ absurd (ground arith)
        | inr (line, e0, e1, eb) ↦ (
          in_line-is_free z line c cfg.lines e0 eb (ground arith) (ground arith) small,
          inr (line, e0, e1, eb),
        )
      ])
    ])

-- The test changes the cached line and nothing else.
pub could_start-frame :
    (z : Zx) (c : ℕ)
    → let z' = (could_start c z).1 in
      (z'.frame ≡ z.frame)
      × (z'.line_cyc ≡ z.line_cyc)
      × (z'.first ≡ z.first)
      × (z'.speed ≡ z.speed)
      × (z'.bus_t ≡ z.bus_t)
      × (z'.cycles ≡ z.cycles)
unfolding could_start locate_line
could_start-frame z c = ground arith
