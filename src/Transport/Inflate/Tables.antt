-- ===== src/Transport/Inflate/Tables.antt =====
-- The tables of RFC 1951 in transport/src/Inflate.cpp, fixed_tables() and dynamic_tables(). The
-- latter gives `none` where its loop would run out of fuel.
use canforge.Base.{
  ℕ, zero, suc, ◌+◌, ◌-◌, ◌%◌, ◌^◌, ltb, ◌==◌, if◌then◌else◌, ◌||◌, Option, none, some, List, [],
  ◌∷◌, ◌++◌, take, drop, replicate, get_or, set, length,
}
use canforge.Core.Result.{Result, ok, err, ◌>>=◌}
use canforge.Transport.Inflate.BitReader.{BitReader, Huffman, bits, decode}
use canforge.Transport.Inflate.Huffman.{bad, build}

abbrev pub length_base : List ℕ
length_base =
    3 ∷ 4 ∷ 5 ∷ 6 ∷ 7 ∷ 8 ∷ 9 ∷ 10 ∷ 11 ∷ 13 ∷ 15 ∷ 17 ∷ 19 ∷ 23 ∷ 27 ∷ 31 ∷ 35 ∷ 43 ∷ 51 ∷ 59 ∷ 67
    ∷ 83 ∷ 99 ∷ 115 ∷ 131 ∷ 163 ∷ 195 ∷ 227 ∷ 258 ∷ []

abbrev pub length_extra : List ℕ
length_extra =
    0 ∷ 0 ∷ 0 ∷ 0 ∷ 0 ∷ 0 ∷ 0 ∷ 0 ∷ 1 ∷ 1 ∷ 1 ∷ 1 ∷ 2 ∷ 2 ∷ 2 ∷ 2 ∷ 3 ∷ 3 ∷ 3 ∷ 3 ∷ 4 ∷ 4 ∷ 4 ∷ 4
    ∷ 5 ∷ 5 ∷ 5 ∷ 5 ∷ 0 ∷ []

abbrev pub distance_base : List ℕ
distance_base =
    1 ∷ 2 ∷ 3 ∷ 4 ∷ 5 ∷ 7 ∷ 9 ∷ 13 ∷ 17 ∷ 25 ∷ 33 ∷ 49 ∷ 65 ∷ 97 ∷ 129 ∷ 193 ∷ 257 ∷ 385 ∷ 513 ∷ 769
    ∷ 1025 ∷ 1537 ∷ 2049 ∷ 3073 ∷ 4097 ∷ 6145 ∷ 8193 ∷ 12289 ∷ 16385 ∷ 24577 ∷ []

abbrev pub distance_extra : List ℕ
distance_extra =
    0 ∷ 0 ∷ 0 ∷ 0 ∷ 1 ∷ 1 ∷ 2 ∷ 2 ∷ 3 ∷ 3 ∷ 4 ∷ 4 ∷ 5 ∷ 5 ∷ 6 ∷ 6 ∷ 7 ∷ 7 ∷ 8 ∷ 8 ∷ 9 ∷ 9 ∷ 10 ∷ 10
    ∷ 11 ∷ 11 ∷ 12 ∷ 12 ∷ 13 ∷ 13 ∷ []

-- The literals' table and the distances'.
abbrev pub Codes : Type 0
Codes = Huffman × Huffman

unfoldable pub fixed_tables : Result Codes
fixed_tables =
    build (replicate 144 8 ++ replicate 112 9 ++ replicate 24 7 ++ replicate 8 8) >>= λ literals.
    build (replicate 30 5) >>= λ distances. ok (literals, distances)

-- kOrder
abbrev pub code_order : List ℕ
code_order = 16 ∷ 17 ∷ 18 ∷ 0 ∷ 8 ∷ 7 ∷ 9 ∷ 6 ∷ 10 ∷ 5 ∷ 11 ∷ 4 ∷ 12 ∷ 3 ∷ 13 ∷ 2 ∷ 14 ∷ 1 ∷ 15 ∷ []

-- The loop that reads the lengths of the code length alphabet, from `i` on.
unfoldable pub code_lengths_from : BitReader → List ℕ → ℕ → ℕ → BitReader × List ℕ
code_lengths_from r lengths i zero = (r, lengths)
code_lengths_from r lengths i (suc n) =
    let next = bits r 3 in
    code_lengths_from next.0 (set lengths (get_or code_order i 0) (next.1 % 2 ^ 8)) (i + 1) n

-- What one symbol of 16 to 18 repeats, and how often: `written` are the lengths so far.
unfoldable pub repeated : BitReader → List ℕ → ℕ → Result (BitReader × ℕ × ℕ)
repeated r written symbol =
    let two = bits r 2 in
    let three = bits r 3 in
    let seven = bits r 7 in
    if symbol == 16
    then if length written == 0
      then err bad
      else ok (two.0, get_or written (length written - 1) 0, 3 + two.1)
    else if symbol == 17
    then ok (three.0, 0, 3 + three.1)
    else ok (seven.0, 0, 11 + seven.1)

-- What one symbol adds to the lengths, of which there are `total` in the end.
unfoldable pub expanded : BitReader → List ℕ → ℕ → ℕ → Result (BitReader × List ℕ)
expanded r written total symbol =
    if ltb symbol 16
    then ok (r, written ++ symbol ∷ [])
    else repeated r written symbol >>= λ run.
        if run.0.overrun || ltb total (length written + run.2)
        then err bad
        else ok (run.0, written ++ replicate run.2 run.1)

-- One turn of the loop over the lengths.
unfoldable pub expand_turn : BitReader × Option ℕ → List ℕ → ℕ → Result (BitReader × List ℕ)
expand_turn (r, none) written total = err bad
expand_turn (r, some symbol) written total = expanded r written total symbol

abbrev pub Fuelled : Type 0 → Type 0
Fuelled A = Option (Result A)

-- A turn that fails ends the loop.
abbrev pub then_turn : {A B : Type 0} → Result A → (A → Fuelled B) → Fuelled B
then_turn (err e) k = some (err e)
then_turn (ok a) k = k a

-- The loop while `written` is shorter than `total`.
unfoldable pub expand : ℕ → BitReader → Huffman → List ℕ → ℕ → Fuelled (BitReader × List ℕ)
expand zero r table written total =
    if ltb (length written) total then none else some (ok (r, written))
expand (suc less) r table written total =
    let rest =
      then_turn (expand_turn (decode r table) written total)
        (λ next. expand less next.0 table next.1 total) in
    if ltb (length written) total then rest else some (ok (r, written))

-- The header of a dynamic block: the reader, hlit, hdist and hclen.
unfoldable pub dynamic_header : BitReader → Result (BitReader × ℕ × ℕ × ℕ)
dynamic_header r =
    let a = bits r 5 in
    let b = bits a.0 5 in
    let c = bits b.0 4 in
    let hlit = a.1 + 257 in
    let hdist = b.1 + 1 in
    if c.0.overrun || ltb 286 hlit || ltb 30 hdist then err bad else ok (c.0, hlit, hdist, c.1 + 4)

-- The code length alphabet of a dynamic block.
unfoldable pub code_length_table : BitReader → ℕ → Result (BitReader × Huffman)
code_length_table r hclen =
    let read = code_lengths_from r (replicate 19 0) 0 hclen in
    if read.0.overrun then err bad else build read.1 >>= λ table. ok (read.0, table)

-- The tables of the lengths that were read.
unfoldable pub tables_of : ℕ → BitReader × List ℕ → Result (BitReader × Codes)
tables_of hlit (r, lengths) = build (take hlit lengths) >>= λ literals.
    build (drop hlit lengths) >>= λ distances. ok (r, (literals, distances))

-- A result, with what follows it.
abbrev pub then_result : {A B : Type 0} → Fuelled A → (A → Result B) → Fuelled B
then_result none k = none
then_result (some (err e)) k = some (err e)
then_result (some (ok a)) k = some (k a)

-- The fuel is the number of lengths, since each turn adds one.
unfoldable pub dynamic_tables : BitReader → Fuelled (BitReader × Codes)
dynamic_tables r = then_turn (dynamic_header r) (λ header.
    then_turn (code_length_table header.0 header.3) (λ alphabet.
      let total = header.1 + header.2 in
      then_result (expand total alphabet.0 alphabet.1 [] total) (tables_of header.1)))
