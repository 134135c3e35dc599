-- ===== src/Base/Bits.antt =====
-- Binary digits of the native numbers: what `&`, `|`, `^`, `~`, the shifts and the masks of the
-- C++ code do to each digit, at every width.
mod Step
mod Fields
pub use Fields.*
use Step.{bit_and_step, bit_or_step, bit_xor_step}
use Prim.Native.Nat.{
  ℕ, zero, suc, ◌+◌, ◌-◌, ◌*◌, ◌/◌, ◌%◌, ◌^◌, ◌≤◌, ◌<◌, min, max, bit_and, bit_or, bit_xor,
}
use mathlib.Core.Path.{◌≡◌, refl, ap, ◌∙◌}
use native.Mathlib.Nat.{
  pow-suc, one-le-pow, mod-lt, div-add-mod', mul-add-div_right, div-eq_of_lt, zero-add, mul-one,
  div-one,
}
use native.Mathlib.Omega.{arith}

-- The digit of weight `2 ^ k`.
unfoldable pub digit : ℕ → ℕ → ℕ
digit x zero = x % 2
digit x (suc k) = digit (x / 2) k

pub digit-lt : (x k : ℕ) → digit x k < 2
unfolding digit
digit-lt x zero = omega arith
digit-lt x (suc k) = digit-lt (x / 2) k

pub zero-digit : (k : ℕ) → digit 0 k ≡ 0
unfolding digit
zero-digit zero = refl
zero-digit (suc k) = zero-digit k

pub digit-bit_and : (a b k : ℕ) → digit (bit_and a b) k ≡ min (digit a k) (digit b k)
unfolding digit
digit-bit_and a b zero = omega (arith, bit_and_step a b)
digit-bit_and a b (suc k) =
    let e : bit_and a b / 2 ≡ bit_and (a / 2) (b / 2) = omega (arith, bit_and_step a b) in
    omega (arith, ap (λ (t : ℕ). digit t k) e, digit-bit_and (a / 2) (b / 2) k)

pub digit-bit_or : (a b k : ℕ) → digit (bit_or a b) k ≡ max (digit a k) (digit b k)
unfolding digit
digit-bit_or a b zero = omega (arith, bit_or_step a b)
digit-bit_or a b (suc k) =
    let e : bit_or a b / 2 ≡ bit_or (a / 2) (b / 2) = omega (arith, bit_or_step a b) in
    omega (arith, ap (λ (t : ℕ). digit t k) e, digit-bit_or (a / 2) (b / 2) k)

pub digit-bit_xor : (a b k : ℕ) → digit (bit_xor a b) k ≡ (digit a k + digit b k) % 2
unfolding digit
digit-bit_xor a b zero = omega (arith, bit_xor_step a b)
digit-bit_xor a b (suc k) =
    let e : bit_xor a b / 2 ≡ bit_xor (a / 2) (b / 2) = omega (arith, bit_xor_step a b) in
    omega (arith, ap (λ (t : ℕ). digit t k) e, digit-bit_xor (a / 2) (b / 2) k)

pub two-pow-pos : (w : ℕ) → 0 < 2 ^ w
two-pow-pos w = one-le-pow w 2 (omega arith)

-- How a power of two doubles.
pub mul-two-pow-suc : (x s : ℕ) → x * 2 ^ suc s ≡ x * 2 ^ s * 2
mul-two-pow-suc x s = omega (arith, ap (λ (t : ℕ). x * t) (pow-suc 2 s))

-- Quotient and remainder are what the division with remainder says.
pub div_of_split : (m q t : ℕ) → t < m → (q * m + t) / m ≡ q
div_of_split m q t h = omega (arith, mul-add-div_right {m = m} (omega arith) q t, div-eq_of_lt h)

pub mod_of_split : (m q t : ℕ) → t < m → (q * m + t) % m ≡ t
mod_of_split m q t h =
    omega (arith, div-add-mod' (q * m + t) m, ap (λ (y : ℕ). y * m) (div_of_split m q t h))

module _ (x s : ℕ) where
  split_twice :
      (x ≡ x / 2 / 2 ^ s * 2 ^ suc s + (x / 2 % 2 ^ s * 2 + x % 2))
      × (x / 2 % 2 ^ s * 2 + x % 2 < 2 ^ suc s)
  split_twice = omega (
    arith,
    div-add-mod' (x / 2) (2 ^ s),
    mod-lt (x / 2) (two-pow-pos s),
    mul-two-pow-suc (x / 2 / 2 ^ s) s,
    pow-suc 2 s,
  )

  pub div-two-pow-suc : x / 2 ^ suc s ≡ x / 2 / 2 ^ s
  div-two-pow-suc =
      ap (λ (y : ℕ). y / 2 ^ suc s) split_twice.0
      ∙ div_of_split (2 ^ suc s) (x / 2 / 2 ^ s) (x / 2 % 2 ^ s * 2 + x % 2) split_twice.1

  pub mod-two-pow-suc : x % 2 ^ suc s ≡ x / 2 % 2 ^ s * 2 + x % 2
  mod-two-pow-suc =
      ap (λ (y : ℕ). y % 2 ^ suc s) split_twice.0
      ∙ mod_of_split (2 ^ suc s) (x / 2 / 2 ^ s) (x / 2 % 2 ^ s * 2 + x % 2) split_twice.1

-- `x << s`, above and below the shift.
pub digit-shl : (x s k : ℕ) → digit (x * 2 ^ s) (s + k) ≡ digit x k
unfolding digit
digit-shl x zero k = cc (zero-add k, mul-one x)
digit-shl x (suc s) k =
    let e : x * 2 ^ suc s / 2 ≡ x * 2 ^ s = omega (arith, mul-two-pow-suc x s) in
    let n : suc s + k ≡ suc (s + k) = omega arith in rw (n, digit) (rw e (digit-shl x s k))

pub digit-shl_below : (x s k : ℕ) → k < s → digit (x * 2 ^ s) k ≡ 0
unfolding digit
digit-shl_below x zero k h = absurd (omega arith)
digit-shl_below x (suc s) zero h = omega (arith, mul-two-pow-suc x s)
digit-shl_below x (suc s) (suc k) h =
    let e : x * 2 ^ suc s / 2 ≡ x * 2 ^ s = omega (arith, mul-two-pow-suc x s) in
    rw e (digit-shl_below x s k (omega arith))

-- `x >> s`.
pub digit-shr : (x s k : ℕ) → digit (x / 2 ^ s) k ≡ digit x (s + k)
unfolding digit
digit-shr x zero k = cc (zero-add k, div-one x)
digit-shr x (suc s) k =
    let n : suc s + k ≡ suc (s + k) = omega arith in
    rw (n, digit, div-two-pow-suc x s) (digit-shr (x / 2) s k)

-- `x % 2 ^ w`: a cast to `w` bits.
pub digit-mod : (x w k : ℕ) → k < w → digit (x % 2 ^ w) k ≡ digit x k
unfolding digit
digit-mod x zero k h = absurd (omega arith)
digit-mod x (suc w) zero h = omega (arith, mod-two-pow-suc x w)
digit-mod x (suc w) (suc k) h =
    let e : x % 2 ^ suc w / 2 ≡ x / 2 % 2 ^ w = omega (arith, mod-two-pow-suc x w) in
    rw e (digit-mod (x / 2) w k (omega arith))

-- A number below `2 ^ w` has no digit from `w` on.
pub digit_above : (x w k : ℕ) → x < 2 ^ w → w ≤ k → digit x k ≡ 0
unfolding digit
digit_above x zero k h le = let e : x ≡ 0 = omega arith in rw e (zero-digit k)
digit_above x (suc w) zero h le = absurd (omega arith)
digit_above x (suc w) (suc k) h le =
    digit_above (x / 2) w k (omega (arith, pow-suc 2 w)) (omega arith)

pub digit-mod_above : (x w k : ℕ) → w ≤ k → digit (x % 2 ^ w) k ≡ 0
digit-mod_above x w k h = digit_above (x % 2 ^ w) w k (mod-lt x (two-pow-pos w)) h

-- `~x` at width `w`.
pub digit-complement : (x w k : ℕ) → x < 2 ^ w → k < w → digit (2 ^ w - 1 - x) k ≡ 1 - digit x k
unfolding digit
digit-complement x zero k h lt = absurd (omega arith)
digit-complement x (suc w) zero h lt = omega (arith, pow-suc 2 w)
digit-complement x (suc w) (suc k) h lt =
    let e : (2 ^ suc w - 1 - x) / 2 ≡ 2 ^ w - 1 - x / 2 = omega (arith, pow-suc 2 w) in
    rw e (digit-complement (x / 2) w k (omega (arith, pow-suc 2 w)) (omega arith))

-- Numbers of the same width with the same digits are equal.
pub digit_ext :
    (w x y : ℕ) → x < 2 ^ w → y < 2 ^ w → ((k : ℕ) → k < w → digit x k ≡ digit y k) → x ≡ y
unfolding digit
digit_ext zero x y hx hy h = omega arith
digit_ext (suc w) x y hx hy h =
    let low : x % 2 ≡ y % 2 = h 0 (omega arith) in
    let high : x / 2 ≡ y / 2 =
      digit_ext w (x / 2) (y / 2) (omega (arith, pow-suc 2 w)) (omega (arith, pow-suc 2 w))
        (λ k lt. h (suc k) (omega arith)) in
    omega arith

-- `a & (2 ^ k - 1)`.
pub bit_and-low_mask : (k a : ℕ) → bit_and a (2 ^ k - 1) ≡ a % 2 ^ k
bit_and-low_mask zero a = omega (arith, bit_and-zero a)
bit_and-low_mask (suc k) a =
    let m : (2 ^ suc k - 1) / 2 ≡ 2 ^ k - 1 = omega (arith, pow-suc 2 k) in
    omega (
      arith,
      pow-suc 2 k,
      two-pow-pos k,
      bit_and_step a (2 ^ suc k - 1),
      ap (λ (t : ℕ). bit_and (a / 2) t) m,
      bit_and-low_mask k (a / 2),
      mod-two-pow-suc a k,
    )

-- `a & (1 << k)`.
pub bit_and-single : (k a : ℕ) → bit_and a (2 ^ k) ≡ digit a k * 2 ^ k
unfolding digit
bit_and-single zero a = omega (arith, bit_and_step a 1, bit_and-zero (a / 2))
bit_and-single (suc k) a =
    let h : 2 ^ suc k / 2 ≡ 2 ^ k = omega (arith, pow-suc 2 k) in
    omega (
      arith,
      pow-suc 2 k,
      bit_and_step a (2 ^ suc k),
      ap (λ (t : ℕ). bit_and (a / 2) t) h,
      bit_and-single k (a / 2),
      mul-two-pow-suc (digit (a / 2) k) k,
    )
