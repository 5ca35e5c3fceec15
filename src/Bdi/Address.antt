-- ===== src/Bdi/Address.antt =====
-- The address and the size of the block device (sqlux_bdi.c), in two words of 16 bits.
use s_qlux.Base.{ℕ, ◌+◌, ◌*◌, ◌/◌, ◌%◌, ◌^◌, ◌<◌, ◌==◌, if◌then◌else◌, bit_and, bit_or}
use s_qlux.Base.{some, ◌≡◌, refl, arith, ap, ◌∙◌, Bool}
use s_qlux.Bits.{bit_and_mask, bit_and-shift, bit_or_comm, bit_or_fields}
use s_qlux.Bdi.{Files, Bdi, address_high, address_low, size_high, file_of}

high_part :
    (a r : ℕ) → a < 2 ^ 16 → r < 2 ^ 16 → bit_and (bit_or r (a * 2 ^ 16)) 0xffff0000 ≡ a * 2 ^ 16
high_part a r h k =
    let joined : bit_or r (a * 2 ^ 16) ≡ a * 2 ^ 16 + r =
      bit_or_comm r (a * 2 ^ 16) ∙ bit_or_fields 16 a r k in
    let shifted = bit_and-shift 16 (a * 2 ^ 16 + r) 0xffff in
    let quotient : (a * 2 ^ 16 + r) / 2 ^ 16 ≡ a = omega arith in
    let kept : bit_and a 0xffff ≡ a = bit_and_mask 16 a ∙ omega arith in
    rw (joined, shifted, quotient, kept) refl

-- The two words of an address, in either order, make the sector that is used.
pub address_words :
    {F : Type 0} (hi lo : ℕ) (b : Bdi F)
    → hi < 2 ^ 16
    → lo < 2 ^ 16
    → ((address_low lo (address_high hi b)).address ≡ hi * 2 ^ 16 + lo)
      × ((address_high hi (address_low lo b)).address ≡ hi * 2 ^ 16 + lo)
unfolding address_high address_low
address_words hi lo b h k =
    let low : bit_and b.address 0xffff < 2 ^ 16 = rw (bit_and_mask 16 b.address) (omega arith) in
    let rest = bit_and-shift 16 b.address 0xffff in
    (
      rw (high_part hi (bit_and b.address 0xffff) h low) (bit_or_fields 16 hi lo k),
      rw
          (
            rest,
            bit_or_fields 16 (bit_and (b.address / 2 ^ 16) 0xffff) lo k,
            bit_and_mask 16 (bit_and (b.address / 2 ^ 16) 0xffff * 2 ^ 16 + lo),
            bit_or_comm ((bit_and (b.address / 2 ^ 16) 0xffff * 2 ^ 16 + lo) % 2 ^ 16)
                (hi * 2 ^ 16),
            bit_or_fields 16 hi ((bit_and (b.address / 2 ^ 16) 0xffff * 2 ^ 16 + lo) % 2 ^ 16)
                (omega arith),
          )
          (omega arith),
    )

same : (b : Bool) → ◌≡◌ {A = ℕ} (if b then 0 else 0) 0
same b = ground arith

-- The high word of the size is 0 for every unit of the table, however large its file is.
pub size_high-zero :
    {F : Type 0} ⦃io : Files F⦄ (h : ℕ) (b : Bdi F) → file_of b ≡ some h → size_high b ≡ some 0
unfolding size_high
size_high-zero ⦃io = io⦄ h b file =
    let none_left : io.size h b.host / 512 % 2 ^ 16 / 2 ^ 16 ≡ 0 = omega arith in
    rw (file, size_high, none_left) (ap some (same (h == 0)))
