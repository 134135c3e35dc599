-- ===== src/Transport/Inflate/Returns.antt =====
-- inflate_raw() returns for every input, and its output is bounded.
use canforge.Base.{
  if_intro, ℕ, zero, suc, ◌≤◌, ◌<◌, ◌≡◌, ◌⊎◌, inl, inr, refl, arith, Bool-cases, true, ◌==◌, none,
  some, List, [], length,
}
use canforge.Core.Result.{Result, Error, ok, err}
use canforge.Transport.Inflate.BitReader.{BitReader, new, bits, decode}
use canforge.Transport.Inflate.Tables.{Codes, Fuelled, fixed_tables, dynamic_tables}
use canforge.Transport.Inflate.Stream.{
  max_inflate_output, symbol_turn, symbols, coded_block, fixed_codes, block, then_block, blocks,
  turns, inflate_raw,
}
use canforge.Transport.Inflate.Termination.{dynamic_tables-Ends}
use canforge.Transport.Inflate.Fuel.{
  left, Gives, Ends, then_turn-Ends, bits-left, bits-left_ok, decode-Uses,
}
use canforge.Transport.Inflate.Turns.{
  Within, Turned, symbol_turn-Turned, stored_block-Within, Gives-le,
}

Ends-Within :
    (r t : BitReader) (x : Fuelled (BitReader × List ℕ))
    → left t ≤ left r
    → Ends (Within t) x
    → Ends (Within r) x
Ends-Within r t none h g = g
Ends-Within r t (some x) h g = Gives-le r t x h g

-- The symbols of a block: the fuel is more than the bits that are left.
symbols-Ends :
    (fuel : ℕ) (r : BitReader) (codes : Codes) (out : List ℕ)
    → left r < fuel
    → Ends (Within r) (symbols fuel r codes out)
unfolding symbols
symbols-Ends zero r codes out h = absurd (omega arith)
symbols-Ends (suc less) r codes out h =
    then_turn-Ends (Turned r) (Within r) (symbol_turn (decode r codes.0) codes.1 out) _
      (symbol_turn-Turned r (decode r codes.0) codes.1 out (decode-Uses r codes.0))
      (λ next g.
        if_intro (Ends (Within r)) next.2 _ _
          (λ more.
            Ends-Within r next.0 (symbols less next.0 codes next.1) (omega (arith, g.0))
              (symbols-Ends less next.0 codes next.1 (omega (arith, g.0))))
          (λ last. (omega (arith, g.0), g.1)))

coded_block-Ends :
    (fuel : ℕ) (r : BitReader) (x : Fuelled (BitReader × Codes)) (out : List ℕ)
    → left r < fuel
    → Ends (λ q. left q.0 ≤ left r) x
    → Ends (Within r) (coded_block fuel x out)
unfolding coded_block
coded_block-Ends fuel r none out h g = absurd g
coded_block-Ends fuel r (some (err e)) out h g = tt
coded_block-Ends fuel r (some (ok (t, codes))) out h g =
    Ends-Within r t (symbols fuel t codes out) g (symbols-Ends fuel t codes out (omega (arith, g)))

fixed_codes-Ends : (r : BitReader) → Ends (λ q. left q.0 ≤ left r) (fixed_codes r)
unfolding fixed_codes
fixed_codes-Ends r =
    then_turn-Ends (λ codes. Unit {0}) (λ q. left q.0 ≤ left r) fixed_tables _
      (trivially fixed_tables) (λ codes g. omega arith)
  where
    trivially : (x : Result Codes) → Gives (λ codes. Unit {0}) x
    trivially (err e) = tt
    trivially (ok codes) = tt

block-Ends :
    (fuel : ℕ) (r : BitReader) (type : ℕ) (out : List ℕ)
    → left r < fuel
    → Ends (Within r) (block fuel r type out)
unfolding block
block-Ends fuel r type out h =
    if_intro (Ends (Within r)) r.overrun _ _ (λ e. tt)
      (λ e.
        if_intro (Ends (Within r)) (type == 0) _ _ (λ x. stored_block-Within r out)
          (λ x.
            if_intro (Ends (Within r)) (type == 3) _ _ (λ y. tt)
              (λ y.
                if_intro (Ends (Within r)) (type == 1) _ _
                  (λ z. coded_block-Ends fuel r (fixed_codes r) out h (fixed_codes-Ends r))
                  (λ z. coded_block-Ends fuel r (dynamic_tables r) out h (dynamic_tables-Ends r)))))

-- A block uses up its header, or is refused.
abbrev Stepped : BitReader → BitReader × List ℕ → Type 0
Stepped r q = (left q.0 < left r) × (length q.1 ≤ max_inflate_output)

refused :
    (fuel : ℕ) (r t : BitReader) (type : ℕ) (out : List ℕ)
    → t.overrun ≡ true
    → Ends (Stepped r) (block fuel t type out)
unfolding block
refused fuel r t type out e =
    if_intro (Ends (Stepped r)) t.overrun _ _ (λ x. tt) (λ x. absurd (cc (e, x)))

stepped :
    (r t : BitReader) (x : Fuelled (BitReader × List ℕ))
    → left t < left r
    → Ends (Within t) x
    → Ends (Stepped r) x
stepped r t none h g = g
stepped r t (some (err e)) h g = tt
stepped r t (some (ok a)) h g = (omega (arith, g.0, h), g.1)

block-Steps :
    (fuel : ℕ) (r : BitReader) (out : List ℕ)
    → left r < fuel
    → let type = bits (bits r 1).0 2 in Ends (Stepped r) (block fuel type.0 type.1 out)
block-Steps fuel r out h =
    let final = bits r 1 in
    let type = bits final.0 2 in
    let some_left : left type.0 ≤ left r = omega (arith, bits-left r 1, bits-left final.0 2) in
    elim (Bool-cases type.0.overrun) [
      | inl over ↦ refused fuel r type.0 type.1 out over
      | inr fine ↦
          stepped r type.0 (block fuel type.0 type.1 out)
            (omega (arith, bits-left r 1, bits-left_ok final.0 2 fine))
            (block-Ends fuel type.0 type.1 out (omega arith))
    ]

then_block-Ends :
    {A B : Type 0} (P : A → Type 0) (Q : B → Type 0) (x : Fuelled A) (k : A → Fuelled B)
    → Ends P x
    → ((a : A) → P a → Ends Q (k a))
    → Ends Q (then_block x k)
then_block-Ends P Q none k g h = absurd g
then_block-Ends P Q (some (err e)) k g h = tt
then_block-Ends P Q (some (ok a)) k g h = h a g

abbrev Bounded : List ℕ → Type 0
Bounded out = length out ≤ max_inflate_output

blocks-Ends :
    (within fuel : ℕ) (r : BitReader) (out : List ℕ)
    → left r < within
    → left r < fuel
    → Ends Bounded (blocks within fuel r out)
unfolding blocks
blocks-Ends within zero r out w h = absurd (omega arith)
blocks-Ends within (suc less) r out w h =
    let type = bits (bits r 1).0 2 in
    then_block-Ends (Stepped r) Bounded (block within type.0 type.1 out) _
      (block-Steps within r out w)
      (λ next g.
        if_intro (Ends Bounded) ((bits r 1).1 == 0) _ _
          (λ more. blocks-Ends within less next.0 next.1 (omega (arith, g.0)) (omega (arith, g.0)))
          (λ last. g.1))

returned :
    (x : Fuelled (List ℕ))
    → Ends Bounded x
    → ((out : List ℕ) × (x ≡ some (ok out)) × (length out ≤ max_inflate_output))
      ⊎ ((e : Error) × (x ≡ some (err e)))
returned none g = absurd g
returned (some (err e)) g = inr (e, refl)
returned (some (ok out)) g = inl (out, refl, g)

-- Whatever the bytes, decompressing them ends: with an output of at most kMaxInflateOutput bytes
-- or with an error. The fuel of one turn more than there are bits is never used up.
pub inflate_raw_returns :
    (bytes : List ℕ)
    → ((out : List ℕ) × (inflate_raw bytes ≡ some (ok out)) × (length out ≤ max_inflate_output))
      ⊎ ((e : Error) × (inflate_raw bytes ≡ some (err e)))
unfolding inflate_raw new
inflate_raw_returns bytes =
    returned (blocks (turns bytes) (turns bytes) (new bytes) [])
      (blocks-Ends (turns bytes) (turns bytes) (new bytes) [] (omega arith) (omega arith))
