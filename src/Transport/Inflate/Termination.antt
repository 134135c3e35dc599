-- ===== src/Transport/Inflate/Termination.antt =====
-- The loops over the tables of a dynamic block end.
use canforge.Base.{
  if_intro, ℕ, zero, suc, ◌+◌, ◌%◌, ◌^◌, ◌≤◌, arith, ltb, ◌==◌, if◌then◌else◌, ◌||◌, Option, none,
  some, List, [], ◌∷◌, ◌++◌, length, length-append, length-replicate, replicate, get_or, set, take,
  drop,
}
use canforge.Core.Result.{Result, ok, err, ◌>>=◌}
use canforge.Transport.Inflate.BitReader.{BitReader, Huffman, bits, decode}
use canforge.Transport.Inflate.Huffman.{bad, build}
use canforge.Transport.Inflate.Tables.{
  Codes, Fuelled, then_result, repeated, expanded, expand_turn, expand, dynamic_header,
  code_lengths_from, code_length_table, code_order, tables_of, dynamic_tables,
}
use canforge.Transport.Inflate.Fuel.{
  left, Gives, Ends, then_turn-Ends, bits-left, Uses, decode-Uses,
}

-- What one turn adds to the lengths.
abbrev Grows : BitReader → List ℕ → BitReader × List ℕ → Type 0
Grows r written q = (left q.0 ≤ left r) × (suc (length written) ≤ length q.1)

-- What a symbol repeats.
abbrev Runs : BitReader → BitReader × ℕ × ℕ → Type 0
Runs r q = (left q.0 ≤ left r) × (1 ≤ q.2)

repeated-Runs :
    (r : BitReader) (written : List ℕ) (symbol : ℕ) → Gives (Runs r) (repeated r written symbol)
unfolding repeated
repeated-Runs r written symbol =
    if_intro (Gives (Runs r)) (symbol == 16) _ _
      (λ copy.
        if_intro (Gives (Runs r)) (length written == 0) _ _ (λ first. tt)
          (λ later. (bits-left r 2, omega arith)))
      (λ zeros.
        if_intro (Gives (Runs r)) (symbol == 17) _ _ (λ few. (bits-left r 3, omega arith))
          (λ many. (bits-left r 7, omega arith)))

ran :
    (r : BitReader) (written : List ℕ) (total : ℕ) (q : Result (BitReader × ℕ × ℕ))
    → Gives (Runs r) q
    → Gives (Grows r written) (
        q >>= λ run.
        if run.0.overrun || ltb total (length written + run.2)
        then err bad
        else ok (run.0, written ++ replicate run.2 run.1))
ran r written total (err e) h = tt
ran r written total (ok run) h =
    if_intro (Gives (Grows r written)) (run.0.overrun || ltb total (length written + run.2)) _ _
      (λ past. tt)
      (λ fits. (
        h.0,
        omega (
          arith,
          h.1,
          length-append written (replicate run.2 run.1),
          length-replicate run.2 run.1,
        ),
      ))

expanded-Grows :
    (r : BitReader) (written : List ℕ) (total symbol : ℕ)
    → Gives (Grows r written) (expanded r written total symbol)
unfolding expanded
expanded-Grows r written total symbol =
    if_intro (Gives (Grows r written)) (ltb symbol 16) _ _
      (λ plain. (omega arith, omega (arith, length-append written (symbol ∷ []))))
      (λ special. ran r written total (repeated r written symbol) (repeated-Runs r written symbol))

expand_turn-Grows :
    (r : BitReader) (q : BitReader × Option ℕ) (written : List ℕ) (total : ℕ)
    → Uses r q
    → Gives (Grows r written) (expand_turn q written total)
unfolding expand_turn
expand_turn-Grows r (t, none) written total u = tt
expand_turn-Grows r (t, some symbol) written total u =
    weaken (expanded t written total symbol) (expanded-Grows t written total symbol)
  where
    weaken :
        (x : Result (BitReader × List ℕ)) → Gives (Grows t written) x → Gives (Grows r written) x
    weaken (err e) h = tt
    weaken (ok a) h = (omega (arith, u, h.0), h.1)

Ends-le :
    {A : Type 0} (r t : BitReader) (x : Fuelled (BitReader × A))
    → left t ≤ left r
    → Ends (λ q. left q.0 ≤ left t) x
    → Ends (λ q. left q.0 ≤ left r) x
Ends-le r t none h e = e
Ends-le r t (some (err x)) h e = tt
Ends-le r t (some (ok a)) h e = omega (arith, e, h)

-- The loop over the lengths ends: its fuel is the number of lengths to come.
expand-Ends :
    (fuel : ℕ) (r : BitReader) (table : Huffman) (written : List ℕ) (total : ℕ)
    → total ≤ length written + fuel
    → Ends (λ q. left q.0 ≤ left r) (expand fuel r table written total)
unfolding expand
expand-Ends zero r table written total h =
    if_intro (Ends (λ q. left q.0 ≤ left r)) (ltb (length written) total) _ _
      (λ short. absurd (ground arith)) (λ full. omega arith)
expand-Ends (suc less) r table written total h =
    if_intro (Ends (λ q. left q.0 ≤ left r)) (ltb (length written) total) _ _
      (λ short.
        then_turn-Ends (Grows r written) (λ q. left q.0 ≤ left r)
          (expand_turn (decode r table) written total)
          (λ next. expand less next.0 table next.1 total)
          (expand_turn-Grows r (decode r table) written total (decode-Uses r table))
          (λ next g.
            Ends-le r next.0 (expand less next.0 table next.1 total) g.0
              (expand-Ends less next.0 table next.1 total (omega (arith, g.1)))))
      (λ full. omega arith)

code_lengths_from-left :
    (r : BitReader) (lengths : List ℕ) (i n : ℕ) → left (code_lengths_from r lengths i n).0 ≤ left r
unfolding code_lengths_from
code_lengths_from-left r lengths i zero = omega arith
code_lengths_from-left r lengths i (suc n) =
    let next = bits r 3 in
    omega (
      arith,
      bits-left r 3,
      code_lengths_from-left next.0 (set lengths (get_or code_order i 0) (next.1 % 2 ^ 8)) (i + 1)
          n,
    )

dynamic_header-Gives : (r : BitReader) → Gives (λ h. left h.0 ≤ left r) (dynamic_header r)
unfolding dynamic_header
dynamic_header-Gives r =
    let a = bits r 5 in
    let b = bits a.0 5 in
    let c = bits b.0 4 in
    if_intro (Gives (λ h. left h.0 ≤ left r))
      (c.0.overrun || ltb 286 (a.1 + 257) || ltb 30 (b.1 + 1)) _ _ (λ e. tt)
      (λ e. omega (arith, bits-left r 5, bits-left a.0 5, bits-left b.0 4))

-- A table that is built leaves the reader alone.
with_table :
    {B : Type 0} (r t : BitReader) (x : Result B)
    → left t ≤ left r
    → Gives (λ (q : BitReader × B). left q.0 ≤ left r) (x >>= λ table. ok (t, table))
with_table r t (err e) h = tt
with_table r t (ok table) h = h

code_length_table-Gives :
    (r : BitReader) (hclen : ℕ) → Gives (λ q. left q.0 ≤ left r) (code_length_table r hclen)
unfolding code_length_table
code_length_table-Gives r hclen =
    let read = code_lengths_from r (replicate 19 0) 0 hclen in
    if_intro (Gives (λ q. left q.0 ≤ left r)) read.0.overrun _ _ (λ e. tt)
      (λ e. with_table r read.0 (build read.1) (code_lengths_from-left r (replicate 19 0) 0 hclen))

tables_of-Gives :
    (hlit : ℕ) (r t : BitReader) (lengths : List ℕ)
    → left t ≤ left r
    → Gives (λ q. left q.0 ≤ left r) (tables_of hlit (t, lengths))
unfolding tables_of
tables_of-Gives hlit r t lengths h = both (build (take hlit lengths)) (build (drop hlit lengths))
  where
    both :
        (x y : Result Huffman)
        → Gives
            (λ (q : BitReader × Codes). left q.0 ≤ left r)
            (x >>= λ literals. y >>= λ distances. ok (t, (literals, distances)))
    both (err e) y = tt
    both (ok literals) (err e) = tt
    both (ok literals) (ok distances) = h

then_result-Ends :
    {A B : Type 0} (P : A → Type 0) (Q : B → Type 0) (x : Fuelled A) (k : A → Result B)
    → Ends P x
    → ((a : A) → P a → Gives Q (k a))
    → Ends Q (then_result x k)
then_result-Ends P Q none k g h = absurd g
then_result-Ends P Q (some (err e)) k g h = tt
then_result-Ends P Q (some (ok a)) k g h = h a g

-- Reading the tables of a dynamic block ends.
pub dynamic_tables-Ends : (r : BitReader) → Ends (λ q. left q.0 ≤ left r) (dynamic_tables r)
unfolding dynamic_tables
dynamic_tables-Ends r =
    then_turn-Ends (λ h. left h.0 ≤ left r) (λ q. left q.0 ≤ left r) (dynamic_header r) _
      (dynamic_header-Gives r)
      (λ header hh.
        then_turn-Ends (λ a. left a.0 ≤ left header.0) (λ q. left q.0 ≤ left r)
          (code_length_table header.0 header.3) _ (code_length_table-Gives header.0 header.3)
          (λ alphabet ha.
            let total = header.1 + header.2 in
            then_result-Ends (λ q. left q.0 ≤ left alphabet.0) (λ q. left q.0 ≤ left r)
              (expand total alphabet.0 alphabet.1 [] total) (tables_of header.1)
              (expand-Ends total alphabet.0 alphabet.1 [] total (omega arith))
              (λ q hq. tables_of-Gives header.1 r q.0 q.1 (omega (arith, hq, ha, hh)))))
