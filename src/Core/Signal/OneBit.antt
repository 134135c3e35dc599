-- ===== src/Core/Signal/OneBit.antt =====
-- What one turn of the bit-by-bit writing does to a byte.
use canforge.Base.{
  if_intro, ℕ, suc, ◌+◌, ◌-◌, ◌*◌, ◌%◌, ◌^◌, ◌<◌, ◌≡◌, ◌≢◌, refl, sym, ap, ◌∙◌, min, max, arith,
  ◌==◌, if◌then◌else◌, bit_and, bit_or,
}
use native.Mathlib.Nat.{pow-suc, pow-le-pow_right}
use native.Mathlib.Decide.{dec_le}
use canforge.Base.Bits.{
  digit, digit-lt, zero-digit, digit-shl, digit-shl_below, digit_above, digit-bit_or, digit-bit_and,
  digit-complement, digit-mod, two-pow-pos,
}
use canforge.Core.Signal.{not8}

one-digit : digit 1 0 ≡ 1
unfolding digit
one-digit = refl

digit-two_pow_self : (s : ℕ) → digit (2 ^ s) s ≡ 1
digit-two_pow_self s =
    let e : 1 * 2 ^ s ≡ 2 ^ s = omega arith in
    let z : s + 0 ≡ s = omega arith in
    ap (λ (x : ℕ). digit x s) (sym e)
    ∙ ap (λ (k : ℕ). digit (1 * 2 ^ s) k) (sym z)
    ∙ digit-shl 1 s 0
    ∙ one-digit

digit-two_pow_ne : (s j : ℕ) → s ≢ j → digit (2 ^ s) j ≡ 0
digit-two_pow_ne s j ne = elim (dec_le j s) [
  | yes below ↦
      let lt : j < s = elim (dec_le s j) [
        | yes above ↦ absurd (ne (omega arith))
        | no other ↦ omega arith
      ] in
      let e : 1 * 2 ^ s ≡ 2 ^ s = omega arith in
      ap (λ (x : ℕ). digit x j) (sym e) ∙ digit-shl_below 1 s j lt
  | no above ↦
      digit_above (2 ^ s) (suc s) j (omega (arith, pow-suc 2 s, two-pow-pos s)) (omega arith)
]

pub two-pow-lt : (s : ℕ) → s < 8 → 2 ^ s < 2 ^ 8
two-pow-lt s low =
    omega (arith, pow-le-pow_right {n = 2} (omega arith) {i = s} {j = 7} (omega arith))

-- A byte with its bit `s` replaced.
abbrev pub with_bit : ℕ → ℕ → ℕ → ℕ
with_bit old s bit = bit_or (bit_and old (not8 (2 ^ s))) (if bit == 0 then 0 else 2 ^ s) % 2 ^ 8

module _ (old s bit : ℕ) (low : s < 8) (is_bit : bit < 2) where
  added : (j : ℕ) → digit (if bit == 0 then 0 else 2 ^ s) j ≡ min bit (digit (2 ^ s) j)
  added j =
      if_intro (λ x. digit x j ≡ min bit (digit (2 ^ s) j)) (bit == 0) 0 (2 ^ s)
        (λ e. let z : bit ≡ 0 = ground arith in omega (arith, zero-digit j))
        (λ e. let z : bit ≡ 1 = ground arith in omega (arith, digit-lt (2 ^ s) j))

  with_bit-digit :
      (j : ℕ)
      → j < 8
      → digit (with_bit old s bit) j
        ≡ max (min (digit old j) (1 - digit (2 ^ s) j)) (min bit (digit (2 ^ s) j))
  with_bit-digit j h = omega (
    arith,
    digit-mod (bit_or (bit_and old (not8 (2 ^ s))) (if bit == 0 then 0 else 2 ^ s)) 8 j h,
    digit-bit_or (bit_and old (not8 (2 ^ s))) (if bit == 0 then 0 else 2 ^ s) j,
    digit-bit_and old (not8 (2 ^ s)) j,
    digit-complement (2 ^ s) 8 j (two-pow-lt s low) h,
    added j,
  )

  pub with_bit-digit_self : digit (with_bit old s bit) s ≡ bit
  with_bit-digit_self = omega (arith, with_bit-digit s low, digit-two_pow_self s)

  pub with_bit-digit_ne : (j : ℕ) → j < 8 → s ≢ j → digit (with_bit old s bit) j ≡ digit old j
  with_bit-digit_ne j h ne =
      omega (arith, with_bit-digit j h, digit-two_pow_ne s j ne, digit-lt old j)
