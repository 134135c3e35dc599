-- ===== src/Core/Signal/ByBit.antt =====
-- Writing an Intel signal a word at a time is writing it bit by bit.
use canforge.Base.{
  ℕ, zero, suc, ◌+◌, ◌-◌, ◌*◌, ◌/◌, ◌%◌, ◌^◌, ◌<◌, ◌≤◌, ◌≡◌, ◌≢◌, ◌⊎◌, inl, inr, refl, sym, ap, ◌∙◌,
  arith, true, bit_and, List, get_or, set, length, length-set, get_or-set_self, get_or-set_ne,
  get_or_ext,
}
use native.Mathlib.Nat.{mod-lt}
use native.Mathlib.Decide.{dec_le, ℕ_discrete}
use canforge.Base.Bits.{
  digit, digit-lt, digit-shr, digit-mod, digit_ext, bit_and-low_mask, two-pow-pos,
}
use canforge.Core.Signal.{
  SignalLayout, ByteOrder, fits, bit_mask, bit_address, value_shift, encode_bits,
  encode_raw_reference, encode_raw, canonical_start,
}
use canforge.Core.Signal.Intel.{AreBytes, bit_of, bit_mask_lem}
use canforge.Core.Signal.OneBit.{with_bit, with_bit-digit_self, with_bit-digit_ne, two-pow-lt}
use canforge.Core.Signal.Store.{set-AreBytes}
use canforge.Core.Signal.Roundtrip.{
  encode_raw_in, encode_raw_out, encode_raw-AreBytes, length-encode_raw, fits-bounds, taken,
}

-- Payloads of bytes with the same bits are equal.
bit_of_ext :
    (xs ys : List ℕ)
    → AreBytes xs
    → AreBytes ys
    → length xs ≡ length ys
    → ((q : ℕ) → bit_of xs q ≡ bit_of ys q)
    → xs ≡ ys
bit_of_ext xs ys small_x small_y e same =
    get_or_ext xs ys 0 e
      (λ i. digit_ext 8 (get_or xs i 0) (get_or ys i 0) (small_x i) (small_y i) (λ j h. at i j h))
  where
    at : (i j : ℕ) → j < 8 → digit (get_or xs i 0) j ≡ digit (get_or ys i 0) j
    at i j h =
        let d : i ≡ (8 * i + j) / 8 = omega arith in
        let m : j ≡ (8 * i + j) % 8 = omega arith in
        ap (λ (x : ℕ). digit (get_or xs x 0) j) d
        ∙ ap (λ (x : ℕ). digit (get_or xs ((8 * i + j) / 8) 0) x) m
        ∙ same (8 * i + j)
        ∙ ap (λ (x : ℕ). digit (get_or ys ((8 * i + j) / 8) 0) x) (sym m)
        ∙ ap (λ (x : ℕ). digit (get_or ys x 0) j) (sym d)

module _ (l : SignalLayout) (raw : ℕ) (bytes : List ℕ) (small : AreBytes bytes)
    (order : l.byte_order ≡ ByteOrder.intel) (most : l.bit_length ≤ 64)
    (room : canonical_start l + l.bit_length ≤ length bytes * 8) where
  abbrev q0 : ℕ
  q0 = canonical_start l

  abbrev written : ℕ → List ℕ
  written n = encode_bits l raw bytes n

  picked :
      (k : ℕ)
      → k < l.bit_length
      → bit_and (bit_and raw (bit_mask l.bit_length) / 2 ^ k) 1 ≡ digit raw k
  unfolding digit
  picked k h =
      let len = l.bit_length in
      let z : k + 0 ≡ k = omega arith in
      bit_and-low_mask 1 (bit_and raw (bit_mask len) / 2 ^ k)
      ∙ digit-shr (bit_and raw (bit_mask len)) k 0
      ∙ ap (λ (x : ℕ). digit (bit_and raw (bit_mask len)) x) z
      ∙ ap (λ (m : ℕ). digit (bit_and raw m) k) (bit_mask_lem len most)
      ∙ ap (λ (x : ℕ). digit x k) (bit_and-low_mask len raw)
      ∙ digit-mod raw len k h

  written-suc :
      (k : ℕ)
      → k < l.bit_length
      → written (suc k)
        ≡ set
            (written k)
            ((q0 + k) / 8)
            (with_bit (get_or (written k) ((q0 + k) / 8) 0) ((q0 + k) % 8) (digit raw k))
  unfolding encode_bits
  written-suc k h =
      let s = (q0 + k) % 8 in
      let at : bit_address (q0 + k) l.byte_order ≡ s =
        taken l.byte_order s (7 - (q0 + k) % 8) order in
      let down : value_shift l k ≡ k = taken l.byte_order k (l.bit_length - 1 - k) order in
      let mask : 1 * 2 ^ s % 2 ^ 8 ≡ 2 ^ s = omega (arith, two-pow-lt s (omega arith)) in
      rw (at, down, mask, picked k h) refl

  length-written : (n : ℕ) → n ≤ l.bit_length → length (written n) ≡ length bytes
  unfolding encode_bits
  length-written zero le = refl
  length-written (suc n) le =
      ap (λ (xs : List ℕ). length xs) (written-suc n (omega arith))
      ∙ length-set (written n) ((q0 + n) / 8)
          (with_bit (get_or (written n) ((q0 + n) / 8) 0) ((q0 + n) % 8) (digit raw n))
      ∙ length-written n (omega arith)

  written-AreBytes : (n : ℕ) → n ≤ l.bit_length → AreBytes (written n)
  unfolding encode_bits
  written-AreBytes zero le = small
  written-AreBytes (suc n) le = rw (written-suc n (omega arith)) (
      set-AreBytes (written n) (written-AreBytes n (omega arith)) ((q0 + n) / 8)
        (with_bit (get_or (written n) ((q0 + n) / 8) 0) ((q0 + n) % 8) (digit raw n))
        (mod-lt _ (two-pow-pos 8)))

  -- One turn of the loop writes the bit it is at.
  written_at : (n : ℕ) → n < l.bit_length → bit_of (written (suc n)) (q0 + n) ≡ digit raw n
  written_at n h =
      let i = (q0 + n) / 8 in
      let s = (q0 + n) % 8 in
      let old = get_or (written n) i 0 in
      ap (λ (xs : List ℕ). bit_of xs (q0 + n)) (written-suc n h)
      ∙ ap (λ (x : ℕ). digit x s)
          (get_or-set_self (written n) i (with_bit old s (digit raw n)) 0
            (omega (arith, length-written n (omega arith))))
      ∙ with_bit-digit_self old s (digit raw n) (omega arith) (digit-lt raw n)

  written_ne :
      (n q : ℕ) → n < l.bit_length → q0 + n ≢ q → bit_of (written (suc n)) q ≡ bit_of (written n) q
  written_ne n q h ne =
      let i = (q0 + n) / 8 in
      let s = (q0 + n) % 8 in
      let old = get_or (written n) i 0 in
      let b = with_bit old s (digit raw n) in
      ap (λ (xs : List ℕ). bit_of xs q) (written-suc n h) ∙ elim (ℕ_discrete i (q / 8)) [
        | no other ↦ ap (λ (x : ℕ). digit x (q % 8)) (get_or-set_ne (written n) i (q / 8) b 0 other)
        | yes same ↦
            ap (λ (x : ℕ). digit (get_or (set (written n) i b) x 0) (q % 8)) (sym same)
            ∙ ap (λ (x : ℕ). digit x (q % 8))
                (get_or-set_self (written n) i b 0 (omega (arith, length-written n (omega arith))))
            ∙ with_bit-digit_ne old s (digit raw n) (omega arith) (digit-lt raw n) (q % 8)
                (omega arith) (λ e. ne (omega arith))
            ∙ ap (λ (x : ℕ). digit (get_or (written n) x 0) (q % 8)) same
      ]

  written_out :
      (n q : ℕ) → n ≤ l.bit_length → (q < q0) ⊎ (q0 + n ≤ q) → bit_of (written n) q ≡ bit_of bytes q
  unfolding encode_bits
  written_out zero q le out = refl
  written_out (suc n) q le (inl h) =
      written_ne n q (omega arith) (λ e. absurd (omega arith))
      ∙ written_out n q (omega arith) (inl h)
  written_out (suc n) q le (inr h) =
      written_ne n q (omega arith) (λ e. absurd (omega arith))
      ∙ written_out n q (omega arith) (inr (omega arith))

  written_in : (n k : ℕ) → n ≤ l.bit_length → k < n → bit_of (written n) (q0 + k) ≡ digit raw k
  written_in zero k le h = absurd (omega arith)
  written_in (suc n) k le h = elim (ℕ_discrete k n) [
    | yes e ↦
        ap (λ (x : ℕ). bit_of (written (suc n)) (q0 + x)) e
        ∙ written_at n (omega arith)
        ∙ ap (λ (x : ℕ). digit raw x) (sym e)
    | no ne ↦
        let lt : k < n = elim (dec_le n k) [
          | yes above ↦ absurd (ne (omega arith))
          | no below ↦ omega arith
        ] in
        written_ne n (q0 + k) (omega arith) (λ e. ne (omega arith))
        ∙ written_in n k (omega arith) lt
  ]

-- For an Intel signal that fits the payload, the word-at-a-time encode_raw() writes the payload that
-- the bit-by-bit encode_raw_reference() writes.
pub encode_raw-encode_raw_reference :
    (l : SignalLayout) (raw : ℕ) (bytes : List ℕ)
    → AreBytes bytes
    → l.byte_order ≡ ByteOrder.intel
    → fits l (length bytes) ≡ true
    → encode_raw l raw bytes ≡ encode_raw_reference l raw bytes
unfolding encode_raw_reference
encode_raw-encode_raw_reference l raw bytes small order inside =
    let len = l.bit_length in
    let start = canonical_start l in
    let (some_bits, most, room) = fits-bounds l (length bytes) inside in
    let lists =
      bit_of_ext (encode_raw l raw bytes) (encode_bits l raw bytes len)
        (encode_raw-AreBytes l raw bytes small order inside)
        (written-AreBytes l raw bytes small order most room len (omega arith))
        (length-encode_raw l raw bytes small order inside
          ∙ sym (length-written l raw bytes small order most room len (omega arith))) in
    lists (λ q. elim (dec_le start q) [
      | no below ↦
          encode_raw_out l raw bytes small order inside q (inl (omega arith))
          ∙ sym (
              written_out l raw bytes small order most room len q (omega arith) (inl (omega arith)))
      | yes from ↦ elim (dec_le (start + len) q) [
        | yes past ↦
            encode_raw_out l raw bytes small order inside q (inr past)
            ∙ sym (written_out l raw bytes small order most room len q (omega arith) (inr past))
        | no within ↦
            let e : q ≡ start + (q - start) = omega arith in
            ap (λ (x : ℕ). bit_of (encode_raw l raw bytes) x) e
            ∙ encode_raw_in l raw bytes small order inside (q - start) (omega arith)
            ∙ sym (
                written_in l raw bytes small order most room len (q - start) (omega arith)
                  (omega arith))
            ∙ ap (λ (x : ℕ). bit_of (encode_bits l raw bytes len) x) (sym e)
      ]
    ])
