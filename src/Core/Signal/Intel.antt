-- ===== src/Core/Signal/Intel.antt =====
-- Reading an Intel signal a word at a time is reading it bit by bit.
use canforge.Base.{
  ℕ, zero, suc, ◌+◌, ◌-◌, ◌*◌, ◌/◌, ◌%◌, ◌^◌, ◌<◌, ◌≤◌, ◌≡◌, refl, sym, ap, ◌∙◌, min, arith, Bool,
  true, false, ◌==◌, if◌then◌else◌, bit_and, bit_or, List, get_or,
}
use native.Mathlib.Nat.{mod-lt, pow-suc, pow-le-pow_right}
use native.Mathlib.Decide.{dec_le}
use canforge.Base.Bits.{
  digit, digit-lt, zero-digit, digit-bit_or, digit-shl, digit-shl_below, digit-shr, digit-mod,
  digit-mod_above, digit_above, digit_ext, bit_and-low_mask, two-pow-pos, bit_or_comm, bit_or_join,
}
use canforge.Core.Signal.{
  SignalLayout, ByteOrder, is_intel, load_le, shl64, bit_mask, extract_intel, extract_motorola,
  spanned_bytes, decode_bits, bit_at, decode_raw, decode_raw_reference, canonical_start,
}

abbrev pub AreBytes : List ℕ → Type 0
AreBytes bytes = (i : ℕ) → get_or bytes i 0 < 2 ^ 8

pub digit-shl64_below : (x s k : ℕ) → k < s → s ≤ 64 → digit (shl64 x s) k ≡ 0
digit-shl64_below x s k h le = digit-mod (x * 2 ^ s) 64 k (omega arith) ∙ digit-shl_below x s k h

pub digit-shl64 : (x s k : ℕ) → s + k < 64 → digit (shl64 x s) (s + k) ≡ digit x k
digit-shl64 x s k h = digit-mod (x * 2 ^ s) 64 (s + k) h ∙ digit-shl x s k

module _ (bytes : List ℕ) (at : ℕ) (small : AreBytes bytes) where
  load_le-digit_above : (n k : ℕ) → n ≤ 8 → 8 * n ≤ k → digit (load_le bytes at n) k ≡ 0
  unfolding load_le
  load_le-digit_above zero k le h = zero-digit k
  load_le-digit_above (suc n) k le h =
      let b = get_or bytes (at + n) 0 in
      let e : 8 * n + (k - 8 * n) ≡ k = omega arith in
      let z : digit (shl64 b (8 * n)) k ≡ 0 = elim (dec_le 64 k) [
        | yes wide ↦ digit-mod_above (b * 2 ^ (8 * n)) 64 k wide
        | no narrow ↦ rw⁻¹ e (
            digit-shl64 b (8 * n) (k - 8 * n) (omega arith)
            ∙ digit_above b 8 (k - 8 * n) (small (at + n)) (omega arith))
      ] in
      omega (
        arith,
        digit-bit_or (load_le bytes at n) (shl64 b (8 * n)) k,
        load_le-digit_above n k (omega arith) (omega arith),
        z,
      )

  -- A word read from the bytes has their bits, from the first byte's lowest on.
  pub load_le-digit :
      (n i j : ℕ)
      → n ≤ 8
      → i < n
      → j < 8
      → digit (load_le bytes at n) (8 * i + j) ≡ digit (get_or bytes (at + i) 0) j
  unfolding load_le
  load_le-digit zero i j le h lt = absurd (omega arith)
  load_le-digit (suc n) i j le h lt = elim (dec_le n i) [
    | yes last ↦
        let e : i ≡ n = omega arith in
        let same : digit (get_or bytes (at + i) 0) j ≡ digit (get_or bytes (at + n) 0) j =
          ap (λ (x : ℕ). digit (get_or bytes (at + x) 0) j) e in
        let b = get_or bytes (at + n) 0 in
        let place : digit (shl64 b (8 * n)) (8 * i + j) ≡ digit b j =
          rw e (digit-shl64 b (8 * n) j (omega arith)) in
        omega (
          arith,
          same,
          place,
          digit-bit_or (load_le bytes at n) (shl64 b (8 * n)) (8 * i + j),
          load_le-digit_above n (8 * i + j) (omega arith) (omega arith),
        )
    | no earlier ↦
        let b = get_or bytes (at + n) 0 in
        omega (
          arith,
          load_le-digit n i j (omega arith) (omega arith) lt,
          digit-bit_or (load_le bytes at n) (shl64 b (8 * n)) (8 * i + j),
          digit-shl64_below b (8 * n) (8 * i + j) (omega arith) (omega arith),
        )
  ]

pub bit_mask_lem : (len : ℕ) → len ≤ 64 → bit_mask len ≡ 2 ^ len - 1
unfolding bit_mask
bit_mask_lem len h = elim (dec_le 64 len) [
  | yes wide ↦ let e : len ≡ 64 = omega arith in rw e refl
  | no narrow ↦ ground arith
]

-- The bit at a canonical position of the Intel order.
abbrev pub bit_of : List ℕ → ℕ → ℕ
bit_of bytes q = digit (get_or bytes (q / 8) 0) (q % 8)

module _ (bytes : List ℕ) (small : AreBytes bytes) (q0 len k : ℕ) (most : len ≤ 64)
    (h : k < len) where
  abbrev first : ℕ
  first = q0 / 8

  abbrev off : ℕ
  off = q0 % 8

  abbrev head : ℕ
  head = min (spanned_bytes off len) 8

  -- A bit in the first eight bytes.
  head-digit : off + k < 64 → digit (load_le bytes first head / 2 ^ off) k ≡ bit_of bytes (q0 + k)
  head-digit near =
      let j = (off + k) / 8 in
      let b = (off + k) % 8 in
      let at : off + k ≡ 8 * j + b = omega arith in
      let p : first + j ≡ (q0 + k) / 8 = omega arith in
      let r : b ≡ (q0 + k) % 8 = omega arith in
      digit-shr (load_le bytes first head) off k
      ∙ ap (λ (x : ℕ). digit (load_le bytes first head) x) at
      ∙ load_le-digit bytes first small head j b (omega arith) (omega arith) (omega arith)
      ∙ ap (λ (x : ℕ). digit (get_or bytes x 0) b) p
      ∙ ap (λ (x : ℕ). digit (get_or bytes ((q0 + k) / 8) 0) x) r

  head-digit_above : 64 ≤ off + k → digit (load_le bytes first head / 2 ^ off) k ≡ 0
  head-digit_above far =
      digit-shr (load_le bytes first head) off k
      ∙ load_le-digit_above bytes first small head (off + k) (omega arith) (omega arith)

  -- The ninth byte.
  ninth : ℕ
  ninth = shl64 (get_or bytes (first + 8) 0) (64 - off)

  ninth-digit_below : off + k < 64 → digit ninth k ≡ 0
  unfolding ninth
  ninth-digit_below near =
      digit-shl64_below (get_or bytes (first + 8) 0) (64 - off) k (omega arith) (omega arith)

  ninth-digit : 64 ≤ off + k → digit ninth k ≡ bit_of bytes (q0 + k)
  unfolding ninth
  ninth-digit far =
      let e : (64 - off) + (k - (64 - off)) ≡ k = omega arith in
      let p : first + 8 ≡ (q0 + k) / 8 = omega arith in
      let r : k - (64 - off) ≡ (q0 + k) % 8 = omega arith in
      ap (λ (x : ℕ). digit (shl64 (get_or bytes (first + 8) 0) (64 - off)) x) (sym e)
      ∙ digit-shl64 (get_or bytes (first + 8) 0) (64 - off) (k - (64 - off)) (omega arith)
      ∙ ap (λ (x : ℕ). digit (get_or bytes x 0) (k - (64 - off))) p
      ∙ ap (λ (x : ℕ). digit (get_or bytes ((q0 + k) / 8) 0) x) r

  wide-digit : digit (bit_or (load_le bytes first head / 2 ^ off) ninth) k ≡ bit_of bytes (q0 + k)
  wide-digit = elim (dec_le 64 (off + k)) [
    | yes far ↦ omega (
      arith,
      digit-bit_or (load_le bytes first head / 2 ^ off) ninth k,
      head-digit_above far,
      ninth-digit far,
    )
    | no near ↦ omega (
      arith,
      digit-bit_or (load_le bytes first head / 2 ^ off) ninth k,
      head-digit (omega arith),
      ninth-digit_below (omega arith),
    )
  ]

  word-digit :
      (t : Bool)
      → (t ≡ false → off + k < 64)
      → digit
          (if t
            then bit_or (load_le bytes first head / 2 ^ off) ninth
            else load_le bytes first head / 2 ^ off)
          k
        ≡ bit_of bytes (q0 + k)
  word-digit true near = wide-digit
  word-digit false near = head-digit (near refl)

  short : (spanned_bytes off len == 9) ≡ false → off + k < 64
  short e = ground arith

  pub extract_intel-digit : digit (extract_intel bytes q0 len) k ≡ bit_of bytes (q0 + k)
  unfolding extract_intel ninth
  extract_intel-digit =
      let raw = load_le bytes first head / 2 ^ off in
      let word = if spanned_bytes off len == 9 then bit_or raw ninth else raw in
      let cut : bit_and word (bit_mask len) ≡ word % 2 ^ len =
        ap (λ (x : ℕ). bit_and word x) (bit_mask_lem len most) ∙ bit_and-low_mask len word in
      ap (λ (x : ℕ). digit x k) cut
      ∙ digit-mod word len k h
      ∙ word-digit (spanned_bytes off len == 9) short

pub extract_intel-lt :
    (bytes : List ℕ) (q0 len : ℕ) → len ≤ 64 → extract_intel bytes q0 len < 2 ^ len
unfolding extract_intel
extract_intel-lt bytes q0 len most =
    let off = q0 % 8 in
    let raw = load_le bytes (q0 / 8) (min (spanned_bytes off len) 8) / 2 ^ off in
    let word =
      if spanned_bytes off len == 9
      then bit_or raw (shl64 (get_or bytes (q0 / 8 + 8) 0) (64 - off))
      else raw in
    let cut : bit_and word (bit_mask len) ≡ word % 2 ^ len =
      ap (λ (x : ℕ). bit_and word x) (bit_mask_lem len most) ∙ bit_and-low_mask len word in
    omega (arith, cut, mod-lt word (two-pow-pos len))

bit_at-intel : (bytes : List ℕ) (q : ℕ) → bit_at bytes ByteOrder.intel q ≡ bit_of bytes q
unfolding bit_at digit
bit_at-intel bytes q =
    let p = get_or bytes (q / 8) 0 in
    let e : q % 8 + 0 ≡ q % 8 = omega arith in
    bit_and-low_mask 1 (p / 2 ^ (q % 8)) ∙ digit-shr p (q % 8) 0 ∙ ap (λ (x : ℕ). digit p x) e

low_digit : (b : ℕ) → b < 2 → digit b 0 ≡ b
unfolding digit
low_digit b h = omega arith

one_bit : (b n : ℕ) → b < 2 → n < 64 → (shl64 b n ≡ b * 2 ^ n) × (b * 2 ^ n ≤ 2 ^ n)
one_bit zero n lt h = (omega arith, omega arith)
one_bit (suc zero) n lt h =
    let top : 2 ^ n ≤ 2 ^ 63 =
      pow-le-pow_right {n = 2} (omega arith) {i = n} {j = 63} (omega arith) in
    (omega arith, omega arith)
one_bit (suc (suc b)) n lt h = absurd (omega arith)

module _ (bytes : List ℕ) (q0 : ℕ) where
  abbrev bits : ℕ → ℕ
  bits n = decode_bits bytes ByteOrder.intel q0 n

  bits-suc : (n : ℕ) → n < 64 → bits (suc n) ≡ bit_or (bits n) (bit_of bytes (q0 + n) * 2 ^ n)
  unfolding decode_bits
  bits-suc n h =
      let b = bit_of bytes (q0 + n) in
      let s = (one_bit b n (digit-lt (get_or bytes ((q0 + n) / 8) 0) ((q0 + n) % 8)) h).0 in
      rw (bit_at-intel bytes (q0 + n), s) refl

  bits-zero : bits 0 ≡ 0
  unfolding decode_bits
  bits-zero = refl

  -- The loop's word is the sum of its bits, each at its weight.
  bits-lt : (n : ℕ) → n ≤ 64 → bits n < 2 ^ n
  bits-lt zero le = omega (arith, bits-zero)
  bits-lt (suc n) le =
      let b = bit_of bytes (q0 + n) in
      let small = bits-lt n (omega arith) in
      let most =
        (one_bit b n (digit-lt (get_or bytes ((q0 + n) / 8) 0) ((q0 + n) % 8)) (omega arith)).1 in
      omega (
        arith,
        bits-suc n (omega arith),
        bit_or_comm (bits n) (b * 2 ^ n),
        bit_or_join n b (bits n) small,
        most,
        small,
        pow-suc 2 n,
      )

  bits-digit : (n k : ℕ) → n ≤ 64 → k < n → digit (bits n) k ≡ bit_of bytes (q0 + k)
  bits-digit zero k le h = absurd (omega arith)
  bits-digit (suc n) k le h =
      let b = bit_of bytes (q0 + n) in
      let e = ap (λ (x : ℕ). digit x k) (bits-suc n (omega arith)) in
      let d = digit-bit_or (bits n) (b * 2 ^ n) k in
      elim (dec_le n k) [
        | yes last ↦
            let same : k ≡ n = omega arith in
            let here : digit (b * 2 ^ n) k ≡ bit_of bytes (q0 + k) =
              (let z : n + 0 ≡ k = omega arith in
                ap (λ (x : ℕ). digit (b * 2 ^ n) x) (sym z)
                ∙ digit-shl b n 0
                ∙ low_digit b (digit-lt (get_or bytes ((q0 + n) / 8) 0) ((q0 + n) % 8))
                ∙ ap (λ (x : ℕ). bit_of bytes (q0 + x)) (sym same)) in
            omega (arith, e, d, here, digit_above (bits n) n k (bits-lt n (omega arith)) last)
        | no low ↦ omega (
          arith,
          e,
          d,
          bits-digit n k (omega arith) (omega arith),
          digit-shl_below b n k (omega arith),
        )
      ]

taken : (o : ByteOrder) (x y : ℕ) → o ≡ ByteOrder.intel → (if is_intel o then x else y) ≡ x
taken ByteOrder.intel x y e = refl
taken ByteOrder.motorola x y e = absurd (cc e)

-- On any payload of bytes, for an Intel signal of at most 64 bits at any position, decode_raw()
-- reads what the bit-by-bit decode_raw_reference() reads.
pub decode_raw-decode_raw_reference :
    (l : SignalLayout) (bytes : List ℕ)
    → AreBytes bytes
    → l.byte_order ≡ ByteOrder.intel
    → l.bit_length ≤ 64
    → decode_raw l bytes ≡ decode_raw_reference l bytes
unfolding decode_raw decode_raw_reference
decode_raw-decode_raw_reference l bytes small order most =
    let q0 = canonical_start l in
    let len = l.bit_length in
    taken l.byte_order (extract_intel bytes q0 len) (extract_motorola bytes q0 len) order
    ∙ digit_ext len (extract_intel bytes q0 len) (bits bytes q0 len)
        (extract_intel-lt bytes q0 len most) (bits-lt bytes q0 len most)
        (λ k h.
          extract_intel-digit bytes small q0 len k most h ∙ sym (bits-digit bytes q0 len k most h))
    ∙ ap (λ (o : ByteOrder). decode_bits bytes o q0 len) (sym order)
