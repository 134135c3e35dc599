-- ===== src/Base/Bits/Step.antt =====
-- One binary digit of the native bit operations: the lowest digit, and the rest.
use Prim.Native.Nat.{
  ℕ, zero, suc, ◌+◌, ◌*◌, ◌/◌, ◌%◌, ◌≤◌, ◌<◌, min, max, bit_and, bit_or, bit_xor, digits, differ,
  bitwise, bit_and-bitwise, bit_or-bitwise, bit_xor-bitwise,
}
use mathlib.Core.Path.{◌≡◌, refl, sym, ◌∙◌}
use native.Mathlib.Nat.{le_refl}
use native.Mathlib.Omega.{arith}

-- `digits` has more fuel than it needs, so the fuel can be changed.
module _ (last : ℕ → ℕ) (op : ℕ → ℕ → ℕ) where
  zero-digits : (fuel b : ℕ) → digits last op fuel 0 b ≡ last b
  zero-digits zero b = refl
  zero-digits (suc fuel) b = refl

  digits_enough :
      (a b more less : ℕ) → a ≤ less → a ≤ more → digits last op more a b ≡ digits last op less a b
  digits_enough zero b more less small large = zero-digits more b ∙ sym (zero-digits less b)
  digits_enough (suc a) b (suc more) (suc less) small large =
      rw (digits_enough (suc a / 2) (b / 2) more less (omega arith) (omega arith))
  digits_enough (suc a) b zero less small large = absurd (omega arith)
  digits_enough (suc a) b (suc more) zero small large = absurd (omega arith)

  bitwise_unroll :
      (a b : ℕ)
      → bitwise last op (suc a) b ≡ op (suc a % 2) (b % 2) + 2 * bitwise last op (suc a / 2) (b / 2)
  bitwise_unroll a b =
      omega (arith, digits_enough (suc a / 2) (b / 2) a (suc a / 2) (le_refl _) (omega arith))

pub bit_and_step : (a b : ℕ) → bit_and a b ≡ min (a % 2) (b % 2) + 2 * bit_and (a / 2) (b / 2)
bit_and_step zero b = simp bit_and-bitwise (omega arith)
bit_and_step (suc a) b = simp bit_and-bitwise (bitwise_unroll (λ y. 0) min a b)

-- `differ` is the sum of two digits without the carry.
differ-bits : (x y : ℕ) → x < 2 → y < 2 → differ x y ≡ (x + y) % 2
differ-bits zero y p q = omega arith
differ-bits (suc zero) zero p q = refl
differ-bits (suc zero) (suc zero) p q = refl
differ-bits (suc zero) (suc (suc y)) p q = absurd (omega arith)
differ-bits (suc (suc x)) y p q = absurd (omega arith)

pub bit_xor_step : (a b : ℕ) → bit_xor a b ≡ (a % 2 + b % 2) % 2 + 2 * bit_xor (a / 2) (b / 2)
bit_xor_step zero b = simp bit_xor-bitwise (omega arith)
bit_xor_step (suc a) b =
    simp (bit_xor-bitwise, ← differ-bits (suc a % 2) (b % 2) (omega arith) (omega arith))
      (bitwise_unroll (λ y. y) differ a b)

pub bit_or_step : (a b : ℕ) → bit_or a b ≡ max (a % 2) (b % 2) + 2 * bit_or (a / 2) (b / 2)
bit_or_step zero b = simp bit_or-bitwise (omega arith)
bit_or_step (suc a) b = simp bit_or-bitwise (bitwise_unroll (λ y. y) max a b)
