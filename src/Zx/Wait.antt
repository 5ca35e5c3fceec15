-- ===== src/Zx/Wait.antt =====
-- The loop that waits for the ZX8301 ends within a chunk, at the first cycle that is free
-- (`zx_wait`), at the speed of a QL.
use s_qlux.Base.{ℕ, ◌-◌, ◌*◌, ◌%◌, ◌<◌, ◌≡◌, arith, leb, ◌==◌}
use s_qlux.Base.{if◌then◌else◌, ◌||◌}
use s_qlux.Zx.{Zx, chunk_cycles}
use s_qlux.Zx.Beam.{is_free}

-- The cycles from `c` to the next one that is free.
abbrev pub delay : Zx → ℕ → ℕ
delay z c = if is_free z c then 0 else 12 - (c - z.frame) % z.line_cyc % 12

-- The wait at a place in a line with this many busy chunks.
abbrev place_delay : ℕ → ℕ → ℕ
place_delay busy place =
    if leb (busy * chunk_cycles) place || place % chunk_cycles == 0 then 0 else 12 - place % 12

pub delay-lt : (z : Zx) (c : ℕ) → delay z c < 12
delay-lt z c = ground arith

-- What the loop's steps keep.
abbrev pub SameBeam : Zx → Zx → Type 0
SameBeam z z' =
    (z'.frame ≡ z.frame)
    × (z'.line_cyc ≡ z.line_cyc)
    × (z'.first ≡ z.first)
    × (z'.speed ≡ z.speed)
    × (z'.bus_t ≡ z.bus_t)
    × (z'.cycles ≡ z.cycles)
