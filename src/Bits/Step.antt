-- ===== src/Bits/Step.antt =====
-- One digit of `&`, `|` and `^`. The native operations are `bitwise`, a recursion on the binary
-- digits of the first number that counts its rounds; the count is dropped here.
use Prim.Native.Nat.{min, max, differ, digits, bitwise}
use Prim.Native.Nat.{bit_and-bitwise, bit_or-bitwise, bit_xor-bitwise}
use s_qlux.Base.{
  ℕ, zero, suc, ◌+◌, ◌-◌, ◌*◌, ◌/◌, ◌%◌, ◌≤◌, ◌<◌, bit_and, bit_or, bit_xor, ◌≡◌, refl, sym, ap,
  ◌∙◌, arith,
}

module _ (rest : ℕ → ℕ) (digit : ℕ → ℕ → ℕ) where
  -- Without a digit left there is nothing to do in any number of rounds.
  digits-none : (n b : ℕ) → digits rest digit n zero b ≡ digits rest digit zero zero b
  digits-none zero b = refl
  digits-none (suc n) b = refl

  -- More rounds than the first number has digits change nothing.
  digits_rounds : (a b n k : ℕ) → a ≤ n → digits rest digit (n + k) a b ≡ digits rest digit n a b
  digits_rounds zero b n k h = digits-none (n + k) b ∙ sym (digits-none n b)
  digits_rounds (suc a) b zero k h = absurd (omega arith)
  digits_rounds (suc a) b (suc n) k h =
      let one_more : suc n + k ≡ suc (n + k) = omega arith in
      rw one_more (
        ap (λ t. t * 2 + digit (suc a % 2) (b % 2))
          (digits_rounds (suc a / 2) (b / 2) n k (omega arith)))

  bitwise-suc :
      (a b : ℕ)
      → bitwise rest digit (suc a) b
        ≡ bitwise rest digit (suc a / 2) (b / 2) * 2 + digit (suc a % 2) (b % 2)
  bitwise-suc a b =
      let half = suc a / 2 in
      let e : half + (a - half) ≡ a = omega arith in
      ap (λ t. t * 2 + digit (suc a % 2) (b % 2))
        (ap (λ n. digits rest digit n half (b / 2)) (sym e)
          ∙ digits_rounds half (b / 2) half (a - half) (omega arith))

pub bit_xor_step : (m n : ℕ) → bit_xor m n ≡ bit_xor (m / 2) (n / 2) * 2 + differ (m % 2) (n % 2)
bit_xor_step (suc m) n = simp bit_xor-bitwise (bitwise-suc (λ low. low) differ m n)
bit_xor_step zero n = simp bit_xor-bitwise (omega arith)

pub bit_and_step : (m n : ℕ) → bit_and m n ≡ bit_and (m / 2) (n / 2) * 2 + min (m % 2) (n % 2)
bit_and_step (suc m) n = simp bit_and-bitwise (bitwise-suc (λ low. 0) min m n)
bit_and_step zero n = simp bit_and-bitwise (omega arith)

pub bit_or_step : (m n : ℕ) → bit_or m n ≡ bit_or (m / 2) (n / 2) * 2 + max (m % 2) (n % 2)
bit_or_step (suc m) n = simp bit_or-bitwise (bitwise-suc (λ low. low) max m n)
bit_or_step zero n = simp bit_or-bitwise (omega arith)

pub differ_digits : (x y : ℕ) → x < 2 → y < 2 → differ x y ≡ (x + y) % 2
differ_digits zero y p q = omega arith
differ_digits (suc zero) zero p q = refl
differ_digits (suc zero) (suc zero) p q = refl
differ_digits (suc zero) (suc (suc y)) p q = absurd (omega arith)
differ_digits (suc (suc x)) y p q = absurd (omega arith)
