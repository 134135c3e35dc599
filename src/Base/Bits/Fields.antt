-- ===== src/Base/Bits/Fields.antt =====
-- Fields of a word as arithmetic: `|` of fields that do not overlap, and `&` and `|` with zero.
use Prim.Native.Nat.{ℕ, zero, suc, ◌+◌, ◌*◌, ◌/◌, ◌^◌, ◌≤◌, ◌<◌, bit_and, bit_or}
use mathlib.Core.Path.{◌≡◌, refl, ap}
use native.Mathlib.Nat.{pow-suc}
use native.Mathlib.Omega.{arith}
use native.Mathlib.Decide.{dec_le}
use canforge.Base.Bits.Step.{bit_and_step, bit_or_step}

-- A bound on the number is the fuel of these two inductions.
bit_or-zero_below : (n a : ℕ) → a ≤ n → bit_or a 0 ≡ a
bit_or-zero_below n zero h = refl
bit_or-zero_below zero (suc a) h = absurd (omega arith)
bit_or-zero_below (suc n) (suc a) h =
    omega (arith, bit_or_step (suc a) 0, bit_or-zero_below n (suc a / 2) (omega arith))

pub bit_or-zero : (a : ℕ) → bit_or a 0 ≡ a
bit_or-zero a = bit_or-zero_below a a (omega arith)

bit_and-zero_below : (n a : ℕ) → a ≤ n → bit_and a 0 ≡ 0
bit_and-zero_below n zero h = refl
bit_and-zero_below zero (suc a) h = absurd (omega arith)
bit_and-zero_below (suc n) (suc a) h =
    omega (arith, bit_and_step (suc a) 0, bit_and-zero_below n (suc a / 2) (omega arith))

pub bit_and-zero : (a : ℕ) → bit_and a 0 ≡ 0
bit_and-zero a = bit_and-zero_below a a (omega arith)

zero-bit_and_below : (n b : ℕ) → b ≤ n → bit_and 0 b ≡ 0
zero-bit_and_below n zero h = refl
zero-bit_and_below zero (suc b) h = absurd (omega arith)
zero-bit_and_below (suc n) (suc b) h =
    omega (arith, bit_and_step 0 (suc b), zero-bit_and_below n (suc b / 2) (omega arith))

-- `(q << k) | r`, where `r` has `k` bits.
pub bit_or_join : (k q r : ℕ) → r < 2 ^ k → bit_or (q * 2 ^ k) r ≡ q * 2 ^ k + r
bit_or_join zero q r h = let e : r ≡ 0 = omega arith in rw e (omega (arith, bit_or-zero (q * 1)))
bit_or_join (suc k) q r h =
    let p : q * 2 ^ suc k ≡ q * 2 ^ k * 2 = omega (arith, ap (λ (t : ℕ). q * t) (pow-suc 2 k)) in
    let e : q * 2 ^ suc k / 2 ≡ q * 2 ^ k = omega arith in
    omega (
      arith,
      bit_or_step (q * 2 ^ suc k) r,
      ap (λ (t : ℕ). bit_or t (r / 2)) e,
      bit_or_join k q (r / 2) (omega (arith, pow-suc 2 k)),
    )

bit_or_comm_below : (n a b : ℕ) → a ≤ n → b ≤ n → bit_or a b ≡ bit_or b a
bit_or_comm_below zero a b p q = let e : a ≡ b = omega arith in rw e
bit_or_comm_below (suc n) a b p q = omega (
  arith,
  bit_or_step a b,
  bit_or_step b a,
  bit_or_comm_below n (a / 2) (b / 2) (omega arith) (omega arith),
)

pub bit_or_comm : (a b : ℕ) → bit_or a b ≡ bit_or b a
bit_or_comm a b = bit_or_comm_below (a + b) a b (omega arith) (omega arith)

-- A word of `w` bits stays one.
pub bit_or-lt : (w a b : ℕ) → a < 2 ^ w → b < 2 ^ w → bit_or a b < 2 ^ w
bit_or-lt zero a b ha hb =
    let ea : a ≡ 0 = omega arith in
    let eb : b ≡ 0 = omega arith in rw (ea, eb) (omega (arith, bit_or-zero 0))
bit_or-lt (suc w) a b ha hb = omega (
  arith,
  bit_or_step a b,
  bit_or-lt w (a / 2) (b / 2) (omega (arith, pow-suc 2 w)) (omega (arith, pow-suc 2 w)),
  pow-suc 2 w,
)

pub bit_and-le : (n a b : ℕ) → a ≤ n → bit_and a b ≤ a
bit_and-le zero a b h =
    let e : a ≡ 0 = omega arith in rw e (omega (arith, zero-bit_and_below b b (omega arith)))
bit_and-le (suc n) a b h = elim (dec_le a 0) [
  | yes nothing ↦
      let e : a ≡ 0 = omega arith in rw e (omega (arith, zero-bit_and_below b b (omega arith)))
  | no more ↦ omega (arith, bit_and_step a b, bit_and-le n (a / 2) (b / 2) (omega arith))
]
