-- ===== src/Transport/Inflate/Turns.antt =====
-- What one block of stored bytes, one symbol and one back reference leave.
use canforge.Base.{
  if_intro, ℕ, zero, suc, ◌+◌, ◌-◌, ◌%◌, ◌^◌, ◌≤◌, ◌<◌, ◌≡◌, arith, Bool, true, not, ltb, leb, ◌==◌,
  ◌||◌, Option, none, some, List, [], ◌∷◌, ◌++◌, length, length-append, length-take, take, drop,
  get_or,
}
use canforge.Core.Result.{Result, ok, err, ◌>>=◌}
use canforge.Transport.Inflate.BitReader.{
  BitReader, Huffman, bits, decode, align_to_byte, copy_bytes, read_u16_le,
}
use canforge.Transport.Inflate.Tables.{length_extra, length_base, distance_extra, distance_base}
use canforge.Transport.Inflate.Stream.{
  max_inflate_output, stored_of, stored_block, copy_back, back_reference, match_symbol, symbol_turn,
  copied_of,
}
use canforge.Transport.Inflate.Fuel.{left, Gives, bits-left, Uses, decode-Uses}

-- A state that is reached from the reader `r`, with the output within the limit.
abbrev pub Within : BitReader → BitReader × List ℕ → Type 0
Within r q = (left q.0 ≤ left r) × (length q.1 ≤ max_inflate_output)

length-copy_back : (out : List ℕ) (from n : ℕ) → length (copy_back out from n) ≡ length out + n
unfolding copy_back
length-copy_back out from zero = omega arith
length-copy_back out from (suc n) = omega (
  arith,
  length-copy_back (out ++ get_or out from 0 ∷ []) (from + 1) n,
  length-append out (get_or out from 0 ∷ []),
)

align_to_byte-left : (r : BitReader) → left (align_to_byte r) ≤ left r
unfolding align_to_byte
align_to_byte-left r = omega arith

read_u16_le-left : (r : BitReader) → left (read_u16_le r).0 ≤ left r
unfolding read_u16_le
read_u16_le-left r = ground arith

copied-Within :
    (r : BitReader) (out : List ℕ) (n : ℕ)
    → length out + n ≤ max_inflate_output
    → Gives (Within r) (copied_of (copy_bytes r out n))
unfolding copy_bytes
copied-Within r out n h =
    let l = length-append out (take n (drop r.pos r.bytes)) in
    let t = length-take n (drop r.pos r.bytes) in
    if_intro (λ q. Gives (Within r) (copied_of q)) (ltb (length r.bytes) (r.pos + n)) _ _
      (λ past. tt) (λ fits. (omega arith, omega (arith, l, t)))

stored_of-Within :
    (r : BitReader) (out : List ℕ) (len inverse : ℕ)
    → Gives (Within r) (stored_of r out len inverse)
unfolding stored_of
stored_of-Within r out len inverse =
    if_intro (Gives (Within r)) r.overrun _ _ (λ e. tt)
      (λ e.
        if_intro (Gives (Within r)) (not (2 ^ 16 - 1 - len == inverse)) _ _ (λ x. tt)
          (λ x.
            if_intro (Gives (Within r)) (ltb max_inflate_output (length out + len)) _ _ (λ y. tt)
              (λ y. copied-Within r out len (ground arith))))

pub Gives-le :
    (r t : BitReader) (x : Result (BitReader × List ℕ))
    → left t ≤ left r
    → Gives (Within t) x
    → Gives (Within r) x
Gives-le r t (err e) h g = tt
Gives-le r t (ok a) h g = (omega (arith, g.0, h), g.1)

pub stored_block-Within : (r : BitReader) (out : List ℕ) → Gives (Within r) (stored_block r out)
unfolding stored_block
stored_block-Within r out =
    let a = align_to_byte r in
    let len = read_u16_le a in
    let inverse = read_u16_le len.0 in
    Gives-le r inverse.0 (stored_of inverse.0 out len.1 inverse.1)
      (omega (arith, align_to_byte-left r, read_u16_le-left a, read_u16_le-left len.0))
      (stored_of-Within inverse.0 out len.1 inverse.1)

back_reference-Within :
    (q : BitReader × Option ℕ) (len : ℕ) (out : List ℕ)
    → Gives (Within q.0) (back_reference q len out)
unfolding back_reference
back_reference-Within (r, none) len out = tt
back_reference-Within (r, some symbol) len out =
    let extra = bits r (get_or distance_extra symbol 0) in
    let distance = get_or distance_base symbol 0 + extra.1 in
    if_intro (Gives (Within r)) (leb 30 symbol) _ _ (λ e. tt)
      (λ e.
        if_intro (Gives (Within r)) extra.0.overrun _ _ (λ x. tt)
          (λ x.
            if_intro (Gives (Within r)) (distance == 0 || ltb (length out) distance) _ _ (λ y. tt)
              (λ y.
                if_intro (Gives (Within r)) (ltb max_inflate_output (length out + len)) _ _
                  (λ z. tt)
                  (λ z. (
                    bits-left r (get_or distance_extra symbol 0),
                    ground (arith, length-copy_back out (length out - distance) len),
                  )))))

match_symbol-Within :
    (r : BitReader) (distances : Huffman) (symbol : ℕ) (out : List ℕ)
    → Gives (Within r) (match_symbol r distances symbol out)
unfolding match_symbol
match_symbol-Within r distances symbol out =
    let extra = bits r (get_or length_extra (symbol - 257) 0) in
    let next = decode extra.0 distances in
    if_intro (Gives (Within r)) (leb 29 (symbol - 257)) _ _ (λ e. tt)
      (λ e.
        Gives-le r next.0 (back_reference next (get_or length_base (symbol - 257) 0 + extra.1) out)
          (omega (
            arith,
            decode-Uses extra.0 distances,
            bits-left r (get_or length_extra (symbol - 257) 0),
          ))
          (back_reference-Within next (get_or length_base (symbol - 257) 0 + extra.1) out))

-- A turn that uses up at least one bit.
abbrev pub Turned : BitReader → BitReader × List ℕ × Bool → Type 0
Turned r q = (left q.0 < left r) × (length q.1 ≤ max_inflate_output)

matched :
    (r t : BitReader) (x : Result (BitReader × List ℕ))
    → left t < left r
    → Gives (Within t) x
    → Gives (Turned r) (x >>= λ next. ok (next.0, next.1, true))
matched r t (err e) h g = tt
matched r t (ok a) h g = (omega (arith, g.0, h), g.1)

pub symbol_turn-Turned :
    (r : BitReader) (q : BitReader × Option ℕ) (distances : Huffman) (out : List ℕ)
    → Uses r q
    → Gives (Turned r) (symbol_turn q distances out)
unfolding symbol_turn
symbol_turn-Turned r (t, none) distances out u = tt
symbol_turn-Turned r (t, some symbol) distances out u =
    if_intro (Gives (Turned r)) (leb max_inflate_output (length out)) _ _ (λ e. tt)
      (λ e.
        if_intro (Gives (Turned r)) (ltb symbol 256) _ _
          (λ x. (omega (arith, u), ground (arith, length-append out (symbol % 2 ^ 8 ∷ []))))
          (λ x.
            if_intro (Gives (Turned r)) (symbol == 256) _ _ (λ y. (omega (arith, u), ground arith))
              (λ y.
                matched r t (match_symbol t distances symbol out) (omega (arith, u))
                  (match_symbol-Within t distances symbol out))))
