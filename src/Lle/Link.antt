-- ===== src/Lle/Link.antt =====
-- A transaction on the serial link between the ZX8302 and the 8049 (ipc.c).
use s_qlux.Base.{ℕ, ◌+◌, ◌*◌, ◌/◌, ◌%◌, ◌^◌, ◌<◌, bit_and, bit_or, ◌==◌, ◌&&◌, ◌≡◌, refl, arith}
use s_qlux.Base.{Bool, true, all_below, all_below_sound}
use s_qlux.Bits.{bit, bit_and_mask, bit_or_fields}
use s_qlux.Lle.{Wires, p2_in, movx_wr, load_comdata, status}

-- What both sides see of the low four bits `r`, by the highest bits `p` and `q` of the latch of port
-- 2 at the two pulses.
sees : ℕ → ℕ → ℕ → Bool
sees r p q =
    let r1 = bit_or (r / 2) 8 in
    let to_cpu1 = bit_and (bit_and r 1) p in
    let to_cpu2 = bit_and (bit_and r1 1) q in
    (bit_or 1 (bit_and r 1 * 128) == 1 + r % 2 * 128)
    && ((bit_or 1 (bit_and r1 1 * 128) == 1 + r / 2 % 2 * 128)
        && ((bit_or (to_cpu1 * 128) (bit_and (3 / 2) 1 * 64) == r % 2 * p * 128 + 64)
            && (bit_or (to_cpu2 * 128) (bit_and (3 / 2 / 2) 1 * 64) == r / 2 % 2 * q * 128)))

all_seen : (r p q : ℕ) → r < 16 → p < 2 → q < 2 → sees r p q ≡ true
unfolding sees all_below
all_seen r p q small high low =
    let rows : all_below 2 (λ y. all_below 2 (λ x. sees r x y)) ≡ true =
      all_below_sound 16 (λ z. all_below 2 (λ y. all_below 2 (λ x. sees z x y))) r refl small in
    all_below_sound 2 (λ x. sees r x q) p
      (all_below_sound 2 (λ y. all_below 2 (λ x. sees r x y)) q rows low) high

-- After the CPU writes `d`, the 8049 reads bit 0 of it at P2.7, and bit 1 after its first COMCTL
-- pulse. The CPU reads the link as busy after that pulse, and as idle after the second; at each it
-- gets the bit that both sides held, where `p` and `q` are the latch of port 2 at the two pulses.
pub link_transaction :
    (d p q : ℕ) (w : Wires)
    → (let w0 = load_comdata d w in
        let w1 = movx_wr p w0 in
        let w2 = movx_wr q w1 in
        (p2_in w0 ≡ 1 + bit 0 d * 128)
        × (p2_in w1 ≡ 1 + bit 1 d * 128)
        × (status w0 ≡ w.comdata_to_cpu * 128 + 64)
        × (status w1 ≡ bit 0 d * bit 7 p * 128 + 64)
        × (status w2 ≡ bit 1 d * bit 7 q * 128))
unfolding load_comdata movx_wr p2_in status sees
link_transaction d p q w =
    let seen : sees (d % 2 ^ 4) (p / 2 ^ 7 % 2 ^ 1) (q / 2 ^ 7 % 2 ^ 1) ≡ true =
      all_seen (d % 2 ^ 4) (p / 2 ^ 7 % 2 ^ 1) (q / 2 ^ 7 % 2 ^ 1) (omega arith) (omega arith)
        (omega arith) in
    let e0 : bit 0 d ≡ d % 2 ^ 4 % 2 = omega arith in
    let e1 : bit 1 d ≡ d % 2 ^ 4 / 2 % 2 = omega arith in
    rw
      (
        e0,
        e1,
        bit_and_mask 4 d,
        bit_and_mask 1 (p / 2 ^ 7),
        bit_and_mask 1 (q / 2 ^ 7),
        bit_or_fields 7 w.comdata_to_cpu 64 (omega arith),
      )
      (ground arith, ground arith, refl, ground arith, ground arith)
