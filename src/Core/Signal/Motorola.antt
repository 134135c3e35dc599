-- ===== src/Core/Signal/Motorola.antt =====
-- Reading a Motorola signal a word at a time is reading it bit by bit.
use canforge.Base.{
  ℕ, zero, suc, ◌+◌, ◌-◌, ◌*◌, ◌/◌, ◌%◌, ◌^◌, ◌<◌, ◌≤◌, ◌≡◌, refl, sym, ap, ◌∙◌, arith, true, false,
  leb, if◌then◌else◌, bit_and, bit_or, List, get_or,
}
use native.Mathlib.Nat.{mod-lt, pow-suc, pow-le-pow_right}
use native.Mathlib.Decide.{dec_le}
use canforge.Base.Bits.{
  digit, digit-lt, digit-bit_or, digit-shr, digit-mod, digit_above, digit_ext, bit_and-low_mask,
  two-pow-pos, bit_or_join,
}
use canforge.Core.Signal.{
  SignalLayout, ByteOrder, is_intel, load_be, shl64, bit_mask, extract_intel, extract_motorola,
  spanned_bytes, decode_bits, bit_at, decode_raw, decode_raw_reference, canonical_start,
}
use canforge.Core.Signal.Intel.{AreBytes, digit-shl64, digit-shl64_below, bit_mask_lem}

-- The bit at a canonical position of the Motorola order.
abbrev pub high_bit_of : List ℕ → ℕ → ℕ
high_bit_of bytes q = digit (get_or bytes (q / 8) 0) (7 - q % 8)

module _ (bytes : List ℕ) (at : ℕ) (small : AreBytes bytes) where
  -- A word read from the bytes has their bits, the first byte's highest at the top.
  load_be-digit :
      (n p : ℕ)
      → n ≤ 8
      → p < 8 * n
      → digit (load_be bytes at n) (8 * n - 1 - p) ≡ digit (get_or bytes (at + p / 8) 0) (7 - p % 8)
  unfolding load_be
  load_be-digit zero p le h = absurd (omega arith)
  load_be-digit (suc n) p le h =
      let b = get_or bytes (at + n) 0 in
      let x = load_be bytes at n in
      let both = digit-bit_or (shl64 x 8) b (8 * suc n - 1 - p) in
      elim (dec_le (8 * n) p) [
        | yes last ↦
            let i : n ≡ p / 8 = omega arith in
            let k : 8 * suc n - 1 - p ≡ 7 - p % 8 = omega arith in
            let here : digit b (8 * suc n - 1 - p)
                ≡ digit (get_or bytes (at + p / 8) 0) (7 - p % 8) =
              ap (λ (j : ℕ). digit b j) k
              ∙ ap (λ (j : ℕ). digit (get_or bytes (at + j) 0) (7 - p % 8)) i in
            omega (
              arith,
              both,
              here,
              digit-shl64_below x 8 (8 * suc n - 1 - p) (omega arith) (omega arith),
            )
        | no earlier ↦
            let k : 8 * suc n - 1 - p ≡ 8 + (8 * n - 1 - p) = omega arith in
            let up : digit (shl64 x 8) (8 * suc n - 1 - p) ≡ digit x (8 * n - 1 - p) =
              ap (λ (j : ℕ). digit (shl64 x 8) j) k
              ∙ digit-shl64 x 8 (8 * n - 1 - p) (omega arith) in
            omega (
              arith,
              both,
              up,
              load_be-digit n p (omega arith) (omega arith),
              digit_above b 8 (8 * suc n - 1 - p) (small (at + n)) (omega arith),
            )
      ]

module _ (bytes : List ℕ) (small : AreBytes bytes) (q0 len j : ℕ) (most : len ≤ 64)
    (h : j < len) where
  abbrev first : ℕ
  first = q0 / 8

  abbrev off : ℕ
  off = q0 % 8

  -- The position of the bit with the weight 2^j.
  abbrev place : ℕ
  place = q0 + (len - 1 - j)

  from_first :
      (p : ℕ)
      → p ≡ off + (len - 1 - j)
      → digit (get_or bytes (first + p / 8) 0) (7 - p % 8) ≡ high_bit_of bytes place
  from_first p e =
      let i : first + p / 8 ≡ place / 8 = omega arith in
      let k : p % 8 ≡ place % 8 = omega arith in
      ap (λ (x : ℕ). digit (get_or bytes x 0) (7 - p % 8)) i
      ∙ ap (λ (x : ℕ). digit (get_or bytes (place / 8) 0) (7 - x)) k

  narrow-digit :
      (nb : ℕ)
      → nb ≤ 8
      → off + len ≤ nb * 8
      → digit (load_be bytes first nb / 2 ^ (nb * 8 - off - len)) j ≡ high_bit_of bytes place
  narrow-digit nb le fits =
      let p = off + (len - 1 - j) in
      let k : nb * 8 - off - len + j ≡ 8 * nb - 1 - p = omega arith in
      digit-shr (load_be bytes first nb) (nb * 8 - off - len) j
      ∙ ap (λ (x : ℕ). digit (load_be bytes first nb) x) k
      ∙ load_be-digit bytes first small nb p le (omega arith)
      ∙ from_first p refl

  wide-digit :
      64 < off + len
      → let tail = off + len - 64 in
        digit
          (bit_or
            (shl64 (load_be bytes first 8) tail)
            (get_or bytes (first + 8) 0 / 2 ^ (8 - tail)))
          j
        ≡ high_bit_of bytes place
  wide-digit far =
      let tail = off + len - 64 in
      let x = load_be bytes first 8 in
      let b = get_or bytes (first + 8) 0 in
      let p = off + (len - 1 - j) in
      let both = digit-bit_or (shl64 x tail) (b / 2 ^ (8 - tail)) j in
      let low = digit-shr b (8 - tail) j in
      elim (dec_le tail j) [
        | yes above ↦
            let k : tail + (j - tail) ≡ j = omega arith in
            let c : j - tail ≡ 8 * 8 - 1 - p = omega arith in
            let up : digit (shl64 x tail) j ≡ high_bit_of bytes place =
              ap (λ (i : ℕ). digit (shl64 x tail) i) (sym k)
              ∙ digit-shl64 x tail (j - tail) (omega arith)
              ∙ ap (λ (i : ℕ). digit x i) c
              ∙ load_be-digit bytes first small 8 p (omega arith) (omega arith)
              ∙ from_first p refl in
            omega (
              arith,
              both,
              low,
              up,
              digit_above b 8 (8 - tail + j) (small (first + 8)) (omega arith),
            )
        | no below ↦
            let i : 8 ≡ p / 8 = omega arith in
            let k : 8 - tail + j ≡ 7 - p % 8 = omega arith in
            let last : digit b (8 - tail + j) ≡ high_bit_of bytes place =
              ap (λ (x : ℕ). digit b x) k
              ∙ ap (λ (x : ℕ). digit (get_or bytes (first + x) 0) (7 - p % 8)) i
              ∙ from_first p refl in
            omega (arith, both, low, last, digit-shl64_below x tail j (omega arith) (omega arith))
      ]

  masked : (w : ℕ) → digit (bit_and w (bit_mask len)) j ≡ digit w j
  masked w =
      ap (λ (m : ℕ). digit (bit_and w m) j) (bit_mask_lem len most)
      ∙ ap (λ (x : ℕ). digit x j) (bit_and-low_mask len w)
      ∙ digit-mod w len j h

  extract_motorola-digit : digit (extract_motorola bytes q0 len) j ≡ high_bit_of bytes place
  unfolding extract_motorola
  extract_motorola-digit =
      let nb = spanned_bytes off len in
      elim (dec_le nb 8) [
        | yes narrow ↦
            let e : leb nb 8 ≡ true = ground arith in
            rw e (masked _ ∙ narrow-digit nb narrow (omega arith))
        | no wide ↦
            let e : leb nb 8 ≡ false = ground arith in rw e (masked _ ∙ wide-digit (omega arith))
      ]

extract_motorola-lt :
    (bytes : List ℕ) (q0 len : ℕ) → len ≤ 64 → extract_motorola bytes q0 len < 2 ^ len
unfolding extract_motorola
extract_motorola-lt bytes q0 len most =
    let nb = spanned_bytes (q0 % 8) len in
    elim (dec_le nb 8) [
      | yes narrow ↦ let e : leb nb 8 ≡ true = ground arith in rw e (cut _)
      | no wide ↦ let e : leb nb 8 ≡ false = ground arith in rw e (cut _)
    ]
  where
    cut : (w : ℕ) → bit_and w (bit_mask len) < 2 ^ len
    cut w = omega (
      arith,
      ap (λ (m : ℕ). bit_and w m) (bit_mask_lem len most),
      bit_and-low_mask len w,
      mod-lt w (two-pow-pos len),
    )

bit_at-motorola : (bytes : List ℕ) (q : ℕ) → bit_at bytes ByteOrder.motorola q ≡ high_bit_of bytes q
unfolding bit_at digit
bit_at-motorola bytes q =
    let p = get_or bytes (q / 8) 0 in
    let e : 7 - q % 8 + 0 ≡ 7 - q % 8 = omega arith in
    bit_and-low_mask 1 (p / 2 ^ (7 - q % 8))
    ∙ digit-shr p (7 - q % 8) 0
    ∙ ap (λ (x : ℕ). digit p x) e

module _ (bytes : List ℕ) (q0 : ℕ) where
  abbrev high_bits : ℕ → ℕ
  high_bits n = decode_bits bytes ByteOrder.motorola q0 n

  -- The loop shifts the bits read so far up by one.
  high_bits-suc :
      (n : ℕ)
      → n < 64
      → high_bits n < 2 ^ n
      → high_bits (suc n) ≡ high_bits n * 2 + high_bit_of bytes (q0 + n)
  unfolding decode_bits
  high_bits-suc n h small =
      let x = high_bits n in
      let top : 2 ^ n ≤ 2 ^ 63 =
        pow-le-pow_right {n = 2} (omega arith) {i = n} {j = 63} (omega arith) in
      let s : shl64 x 1 ≡ x * 2 ^ 1 = omega (arith, small, top) in
      let b = high_bit_of bytes (q0 + n) in
      let low : b < 2 = digit-lt (get_or bytes ((q0 + n) / 8) 0) (7 - (q0 + n) % 8) in
      rw (bit_at-motorola bytes (q0 + n), s) (omega (arith, bit_or_join 1 x b (omega (arith, low))))

  high_bits-zero : high_bits 0 ≡ 0
  unfolding decode_bits
  high_bits-zero = refl

  high_bits-lt : (n : ℕ) → n ≤ 64 → high_bits n < 2 ^ n
  high_bits-lt zero le = omega (arith, high_bits-zero)
  high_bits-lt (suc n) le =
      let small = high_bits-lt n (omega arith) in
      omega (
        arith,
        high_bits-suc n (omega arith) small,
        digit-lt (get_or bytes ((q0 + n) / 8) 0) (7 - (q0 + n) % 8),
        small,
        pow-suc 2 n,
      )

  high_bits-digit :
      (n j : ℕ) → n ≤ 64 → j < n → digit (high_bits n) j ≡ high_bit_of bytes (q0 + (n - 1 - j))
  unfolding digit
  high_bits-digit zero j le h = absurd (omega arith)
  high_bits-digit (suc n) zero le h =
      let s = high_bits-suc n (omega arith) (high_bits-lt n (omega arith)) in
      let low = digit-lt (get_or bytes ((q0 + n) / 8) 0) (7 - (q0 + n) % 8) in
      let e : suc n - 1 - 0 ≡ n = omega arith in rw e (omega (arith, s, low))
  high_bits-digit (suc n) (suc j) le h =
      let s = high_bits-suc n (omega arith) (high_bits-lt n (omega arith)) in
      let low = digit-lt (get_or bytes ((q0 + n) / 8) 0) (7 - (q0 + n) % 8) in
      let half : high_bits (suc n) / 2 ≡ high_bits n = omega (arith, s, low) in
      let e : suc n - 1 - suc j ≡ n - 1 - j = omega arith in
      rw (half, e) (high_bits-digit n j (omega arith) (omega arith))

taken : (o : ByteOrder) (x y : ℕ) → o ≡ ByteOrder.motorola → (if is_intel o then x else y) ≡ y
taken ByteOrder.motorola x y e = refl
taken ByteOrder.intel x y e = absurd (cc e)

-- On any payload of bytes, for a Motorola signal of at most 64 bits at any position, decode_raw()
-- reads what the bit-by-bit decode_raw_reference() reads.
pub decode_raw-decode_raw_reference_motorola :
    (l : SignalLayout) (bytes : List ℕ)
    → AreBytes bytes
    → l.byte_order ≡ ByteOrder.motorola
    → l.bit_length ≤ 64
    → decode_raw l bytes ≡ decode_raw_reference l bytes
unfolding decode_raw decode_raw_reference
decode_raw-decode_raw_reference_motorola l bytes small order most =
    let q0 = canonical_start l in
    let len = l.bit_length in
    taken l.byte_order (extract_intel bytes q0 len) (extract_motorola bytes q0 len) order
    ∙ digit_ext len (extract_motorola bytes q0 len) (high_bits bytes q0 len)
        (extract_motorola-lt bytes q0 len most) (high_bits-lt bytes q0 len most)
        (λ j h.
          extract_motorola-digit bytes small q0 len j most h
          ∙ sym (high_bits-digit bytes q0 len j most h))
    ∙ ap (λ (o : ByteOrder). decode_bits bytes o q0 len) (sym order)
