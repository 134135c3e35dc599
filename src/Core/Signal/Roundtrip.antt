-- ===== src/Core/Signal/Roundtrip.antt =====
-- Writing an Intel signal and reading it back.
use canforge.Base.{
  ℕ, ◌+◌, ◌-◌, ◌*◌, ◌%◌, ◌^◌, ◌<◌, ◌≤◌, ◌≡◌, ◌⊎◌, refl, sym, ap, ◌∙◌, arith, true, if◌then◌else◌,
  List, length,
}
use mathlib.Core.Path.{subst⁻¹}
use native.Mathlib.Nat.{mod-lt}
use canforge.Base.Bits.{digit, digit-mod, digit_ext, two-pow-pos}
use canforge.Core.Signal.{
  SignalLayout, ByteOrder, is_intel, fits, extract_intel, extract_motorola, insert_intel,
  insert_motorola, decode_raw, encode_raw, canonical_start, canonical_end,
}
use canforge.Core.Signal.Intel.{AreBytes, bit_of, extract_intel-digit, extract_intel-lt}
use canforge.Core.Signal.Writing.{
  insert_intel-in, insert_intel-out, insert_intel-AreBytes, length-insert_intel,
}

pub taken :
    {A : Type 0} (o : ByteOrder) (x y : A) → o ≡ ByteOrder.intel → (if is_intel o then x else y) ≡ x
taken ByteOrder.intel x y e = refl
taken ByteOrder.motorola x y e = absurd (cc e)

pub fits-bounds :
    (l : SignalLayout) (n : ℕ)
    → fits l n ≡ true
    → (1 ≤ l.bit_length) × (l.bit_length ≤ 64) × (canonical_start l + l.bit_length ≤ n * 8)
unfolding fits canonical_end
fits-bounds l n e = (ground arith, ground arith, ground arith)

module _ (l : SignalLayout) (raw : ℕ) (bytes : List ℕ) (small : AreBytes bytes)
    (order : l.byte_order ≡ ByteOrder.intel) (inside : fits l (length bytes) ≡ true) where
  abbrev q0 : ℕ
  q0 = canonical_start l

  abbrev len : ℕ
  len = l.bit_length

  some_bits : 1 ≤ len
  some_bits = (fits-bounds l (length bytes) inside).0

  most : len ≤ 64
  most = (fits-bounds l (length bytes) inside).1

  room : q0 + len ≤ length bytes * 8
  room = (fits-bounds l (length bytes) inside).2

  written : encode_raw l raw bytes ≡ insert_intel bytes q0 len raw
  unfolding encode_raw
  written =
      taken l.byte_order (insert_intel bytes q0 len raw) (insert_motorola bytes q0 len raw) order

  pub encode_raw_in : (k : ℕ) → k < len → bit_of (encode_raw l raw bytes) (q0 + k) ≡ digit raw k
  encode_raw_in k h =
      let e : q0 + k - q0 ≡ k = omega arith in
      rw written (
        insert_intel-in bytes small q0 len raw some_bits most room (q0 + k) (omega arith)
          (omega arith)
        ∙ ap (λ (x : ℕ). digit raw x) e)

  pub encode_raw_out :
      (q : ℕ) → (q < q0) ⊎ (q0 + len ≤ q) → bit_of (encode_raw l raw bytes) q ≡ bit_of bytes q
  encode_raw_out q out =
      rw written (insert_intel-out bytes small q0 len raw some_bits most room q out)

  pub encode_raw-AreBytes : AreBytes (encode_raw l raw bytes)
  encode_raw-AreBytes =
      subst⁻¹ AreBytes written (insert_intel-AreBytes bytes small q0 len raw some_bits most room)

  pub length-encode_raw : length (encode_raw l raw bytes) ≡ length bytes
  length-encode_raw = rw written (length-insert_intel bytes small q0 len raw some_bits most room)

  -- For an Intel signal that fits the payload, decode_raw() of what encode_raw() wrote is the raw
  -- value's low bits, as many as the signal has.
  pub decode_raw-encode_raw : decode_raw l (encode_raw l raw bytes) ≡ raw % 2 ^ l.bit_length
  unfolding decode_raw
  decode_raw-encode_raw =
      let after = encode_raw l raw bytes in
      taken l.byte_order (extract_intel after q0 len) (extract_motorola after q0 len) order
      ∙ digit_ext len (extract_intel after q0 len) (raw % 2 ^ len)
          (extract_intel-lt after q0 len most) (mod-lt raw (two-pow-pos len))
          (λ k h.
            extract_intel-digit after encode_raw-AreBytes q0 len k most h
            ∙ encode_raw_in k h
            ∙ sym (digit-mod raw len k h))
