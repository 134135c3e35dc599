-- ===== src/Transport/Inflate/Fuel.antt =====
-- What the reader's operations use up, and results and loops that end.
use canforge.Base.{
  if_intro, ℕ, zero, suc, ◌+◌, ◌-◌, ◌*◌, ◌^◌, ◌≤◌, ◌≡◌, refl, arith, Bool, true, false, Bool-cases,
  inl, inr, ltb, leb, if◌then◌else◌, ◌||◌, bit_and, bit_or, Option, none, some, length, get_or,
}
use canforge.Core.Result.{Result, ok, err}
use canforge.Transport.Inflate.BitReader.{
  BitReader, Huffman, is_empty, filled, shifted, bits_from, bits, decode_from, decode,
}
use canforge.Transport.Inflate.Tables.{Fuelled, then_turn}

-- The bits that a reader has left.
abbrev pub left : BitReader → ℕ
left r = (length r.bytes - r.pos) * 8 + r.held

-- A result that, if it is a value, has the property; a loop that ends with such a result.
abbrev pub Gives : {A : Type 0} → (A → Type 0) → Result A → Type 0
Gives P (err e) = Unit {0}
Gives P (ok a) = P a

abbrev pub Ends : {A : Type 0} → (A → Type 0) → Fuelled A → Type 0
Ends P none = ⊥
Ends P (some r) = Gives P r

pub then_turn-Ends :
    {A B : Type 0} (P : A → Type 0) (Q : B → Type 0) (r : Result A) (k : A → Fuelled B)
    → Gives P r
    → ((a : A) → P a → Ends Q (k a))
    → Ends Q (then_turn r k)
then_turn-Ends P Q (err e) k g h = tt
then_turn-Ends P Q (ok a) k g h = h a g

one_bit : (r : BitReader) → is_empty r ≡ false → left (shifted (filled r)) + 1 ≡ left r
unfolding shifted filled
one_bit r h = ground arith

-- Reading `n` bits uses up `n`, unless the reader overruns.
bits_from-left :
    (r : BitReader) (i value n : ℕ)
    → (left (bits_from r i value n).0 ≤ left r)
      × ((bits_from r i value n).0.overrun || leb (left (bits_from r i value n).0 + n) (left r)
          ≡ true)
unfolding bits_from
bits_from-left r i value zero = (omega arith, ground arith)
bits_from-left r i value (suc n) = elim (Bool-cases (is_empty r)) [
  | inl e ↦ rw e (omega arith, refl)
  | inr more ↦
      let t = filled r in
      let rest = bits_from-left (shifted t) (i + 1) (bit_or value (bit_and t.buffer 1 * 2 ^ i)) n in
      let one = one_bit r more in rw more (omega (arith, rest.0, one), ground (arith, rest.1, one))
]

pub bits-left : (r : BitReader) (n : ℕ) → left (bits r n).0 ≤ left r
unfolding bits
bits-left r n = (bits_from-left r 0 0 n).0

pub bits-left_ok :
    (r : BitReader) (n : ℕ) → (bits r n).0.overrun ≡ false → left (bits r n).0 + n ≤ left r
unfolding bits
bits-left_ok r n h = ground (arith, (bits_from-left r 0 0 n).1)

abbrev pub taken : Option ℕ → ℕ
taken none = 0
taken (some symbol) = 1

-- A symbol takes at least one bit.
abbrev pub Uses : BitReader → BitReader × Option ℕ → Type 0
Uses r q = left q.0 + taken q.1 ≤ left r

found : (b : Bool) (x : ℕ) → taken (if b then none else some x) ≤ 1
found b x = ground arith

decode_from-Uses :
    (r : BitReader) (table : Huffman) (len code first index n : ℕ)
    → Uses r (decode_from r table len code first index n)
unfolding decode_from
decode_from-Uses r table len code first index zero = omega arith
decode_from-Uses r table len code first index (suc n) =
    let next = bits r 1 in
    let read = bit_or code next.1 in
    let count = get_or table.counts len 0 in
    let at = index + (read - first) in
    if_intro (Uses r) next.0.overrun _ _ (λ over. omega (arith, bits-left r 1))
      (λ fine.
        if_intro (Uses r) (ltb read (first + count)) _ _
          (λ hit. omega (
            arith,
            bits-left_ok r 1 fine,
            found (leb (length table.symbols) at) (get_or table.symbols at 0),
          ))
          (λ miss. omega (
            arith,
            bits-left r 1,
            decode_from-Uses next.0 table (len + 1) (read * 2) ((first + count) * 2) (index + count)
                n,
          )))

pub decode-Uses : (r : BitReader) (table : Huffman) → Uses r (decode r table)
unfolding decode
decode-Uses r table = decode_from-Uses r table 1 0 0 0 15
