-- ===== src/Core/Signal/Store.antt =====
-- What the stores and the masks of the raw codec do to each bit.
use canforge.Base.{
  ℕ, zero, suc, ◌+◌, ◌-◌, ◌*◌, ◌/◌, ◌^◌, ◌<◌, ◌≤◌, ◌≡◌, ◌≢◌, refl, sym, ap, ◌∙◌, arith, bit_and,
  bit_or, List, [], ◌∷◌, get_or, set, length, length-set, get_or-set_self, get_or-set_ne,
}
use native.Mathlib.Nat.{mod-lt}
use native.Mathlib.Decide.{dec_le}
use canforge.Base.Bits.{
  digit, digit-lt, zero-digit, digit-bit_or, digit-bit_and, digit-shr, digit-mod, digit_above,
  digit-complement, bit_and-low_mask, two-pow-pos,
}
use canforge.Core.Signal.{store_le, shl64}
use canforge.Core.Signal.Intel.{AreBytes, digit-shl64, digit-shl64_below}

-- The bits of a mask of `len` ones.
pub digit-ones : (len k : ℕ) → k < len → digit (2 ^ len - 1) k ≡ 1
digit-ones len k h =
    let e : 2 ^ len - 1 - 0 ≡ 2 ^ len - 1 = omega arith in
    ap (λ (x : ℕ). digit x k) (sym e)
    ∙ digit-complement 0 len k (two-pow-pos len) h
    ∙ omega (arith, zero-digit k)

pub digit-ones_above : (len k : ℕ) → len ≤ k → digit (2 ^ len - 1) k ≡ 0
digit-ones_above len k h = digit_above (2 ^ len - 1) len k (omega (arith, two-pow-pos len)) h

-- Where a window has a one, the new value's bit is taken, elsewhere the old one's.
module _ (w old window new k : ℕ) (inside : window < 2 ^ w) (low : k < w) where
  abbrev merged : ℕ
  merged = bit_or (bit_and old (2 ^ w - 1 - window)) (bit_and new window)

  pub digit-merged_in : digit window k ≡ 1 → digit merged k ≡ digit new k
  digit-merged_in e = omega (
    arith,
    e,
    digit-bit_or (bit_and old (2 ^ w - 1 - window)) (bit_and new window) k,
    digit-bit_and old (2 ^ w - 1 - window) k,
    digit-bit_and new window k,
    digit-complement window w k inside low,
    digit-lt new k,
  )

  pub digit-merged_out : digit window k ≡ 0 → digit merged k ≡ digit old k
  digit-merged_out e = omega (
    arith,
    e,
    digit-bit_or (bit_and old (2 ^ w - 1 - window)) (bit_and new window) k,
    digit-bit_and old (2 ^ w - 1 - window) k,
    digit-bit_and new window k,
    digit-complement window w k inside low,
    digit-lt old k,
  )

-- A window of `len` ones from `off` on.
pub digit-window_in :
    (len off k : ℕ) → off ≤ k → k < off + len → k < 64 → digit (shl64 (2 ^ len - 1) off) k ≡ 1
digit-window_in len off k lo hi top =
    let e : off + (k - off) ≡ k = omega arith in
    ap (λ (x : ℕ). digit (shl64 (2 ^ len - 1) off) x) (sym e)
    ∙ digit-shl64 (2 ^ len - 1) off (k - off) (omega arith)
    ∙ digit-ones len (k - off) (omega arith)

pub digit-window_below :
    (len off k : ℕ) → k < off → off ≤ 64 → digit (shl64 (2 ^ len - 1) off) k ≡ 0
digit-window_below len off k h le = digit-shl64_below (2 ^ len - 1) off k h le

pub digit-window_above :
    (len off k : ℕ) → off + len ≤ k → k < 64 → digit (shl64 (2 ^ len - 1) off) k ≡ 0
digit-window_above len off k h top =
    let e : off + (k - off) ≡ k = omega arith in
    ap (λ (x : ℕ). digit (shl64 (2 ^ len - 1) off) x) (sym e)
    ∙ digit-shl64 (2 ^ len - 1) off (k - off) (omega arith)
    ∙ digit-ones_above len (k - off) (omega arith)

pub shl64-lt : (x s : ℕ) → shl64 x s < 2 ^ 64
shl64-lt x s = mod-lt (x * 2 ^ s) (two-pow-pos 64)

-- A byte of a word.
pub digit-byte : (v s j : ℕ) → j < 8 → digit (bit_and (v / 2 ^ s) 0xFF) j ≡ digit v (s + j)
digit-byte v s j h =
    ap (λ (x : ℕ). digit x j) (bit_and-low_mask 8 (v / 2 ^ s))
    ∙ digit-mod (v / 2 ^ s) 8 j h
    ∙ digit-shr v s j

module _ (bytes : List ℕ) (at v : ℕ) where
  pub length-store_le : (n : ℕ) → length (store_le bytes at n v) ≡ length bytes
  unfolding store_le
  length-store_le zero = refl
  length-store_le (suc n) =
      length-set (store_le bytes at n v) (at + n) (bit_and (v / 2 ^ (8 * n)) 0xFF)
      ∙ length-store_le n

  pub store_le-digit :
      (n i j : ℕ)
      → at + n ≤ length bytes
      → i < n
      → j < 8
      → digit (get_or (store_le bytes at n v) (at + i) 0) j ≡ digit v (8 * i + j)
  unfolding store_le
  store_le-digit zero i j fits h lt = absurd (omega arith)
  store_le-digit (suc n) i j fits h lt =
      let b = bit_and (v / 2 ^ (8 * n)) 0xFF in
      elim (dec_le n i) [
        | yes last ↦
            let e : i ≡ n = omega arith in
            rw
              (
                e,
                get_or-set_self (store_le bytes at n v) (at + n) b 0
                    (omega (arith, length-store_le n)),
              )
              (digit-byte v (8 * n) j lt)
        | no earlier ↦
            let ne : at + n ≢ at + i = λ e. absurd (omega arith) in
            ap (λ (x : ℕ). digit x j)
              (get_or-set_ne (store_le bytes at n v) (at + n) (at + i) b 0 ne)
            ∙ store_le-digit n i j (omega arith) (omega arith) lt
      ]

  pub store_le-below : (n k : ℕ) → k < at → get_or (store_le bytes at n v) k 0 ≡ get_or bytes k 0
  unfolding store_le
  store_le-below zero k h = refl
  store_le-below (suc n) k h =
      get_or-set_ne (store_le bytes at n v) (at + n) k (bit_and (v / 2 ^ (8 * n)) 0xFF) 0
        (λ e. absurd (omega arith))
      ∙ store_le-below n k h

  pub store_le-above :
      (n k : ℕ) → at + n ≤ k → get_or (store_le bytes at n v) k 0 ≡ get_or bytes k 0
  unfolding store_le
  store_le-above zero k h = refl
  store_le-above (suc n) k h =
      get_or-set_ne (store_le bytes at n v) (at + n) k (bit_and (v / 2 ^ (8 * n)) 0xFF) 0
        (λ e. absurd (omega arith))
      ∙ store_le-above n k (omega arith)

pub set-AreBytes :
    (bytes : List ℕ) → AreBytes bytes → (i v : ℕ) → v < 2 ^ 8 → AreBytes (set bytes i v)
set-AreBytes [] small i v h k = small k
set-AreBytes (x ∷ xs) small zero v h zero = h
set-AreBytes (x ∷ xs) small zero v h (suc k) = small (suc k)
set-AreBytes (x ∷ xs) small (suc i) v h zero = small 0
set-AreBytes (x ∷ xs) small (suc i) v h (suc k) = set-AreBytes xs (λ j. small (suc j)) i v h k

module _ (bytes : List ℕ) (small : AreBytes bytes) where
  pub store_le-AreBytes : (at n v : ℕ) → AreBytes (store_le bytes at n v)
  unfolding store_le
  store_le-AreBytes at zero v = small
  store_le-AreBytes at (suc n) v =
      set-AreBytes (store_le bytes at n v) (store_le-AreBytes at n v) (at + n)
        (bit_and (v / 2 ^ (8 * n)) 0xFF)
        (omega
          (arith, bit_and-low_mask 8 (v / 2 ^ (8 * n)), mod-lt (v / 2 ^ (8 * n)) (two-pow-pos 8)))
