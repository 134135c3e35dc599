-- ===== src/Transport/Inflate/Stream.antt =====
-- adler32(), inflate_raw() and inflate_zlib() of transport/src/Inflate.cpp. `none` is a loop that
-- runs out of fuel. `expected_size`, which only reserves memory, and the messages of the errors are
-- left out.
use canforge.Base.{
  ℕ, zero, suc, ◌+◌, ◌-◌, ◌*◌, ◌%◌, ◌^◌, Bool, true, false, not, ltb, leb, ◌==◌, if◌then◌else◌,
  ◌||◌, bit_and, bit_or, Option, none, some, List, [], ◌∷◌, ◌++◌, take, drop, get_or, length,
}
use canforge.Core.Result.{Result, ok, err, error_at, ErrorCode, ◌>>=◌}
use canforge.Transport.Inflate.BitReader.{
  BitReader, Huffman, new, bits, align_to_byte, copy_bytes, read_u16_le, decode,
}
use canforge.Transport.Inflate.Huffman.{bad}
use canforge.Transport.Inflate.Tables.{
  Codes, Fuelled, then_turn, length_base, length_extra, distance_base, distance_extra, fixed_tables,
  dynamic_tables,
}

-- kMaxInflateOutput
abbrev pub max_inflate_output : ℕ
max_inflate_output = 268435456

-- The loop of adler32().
unfoldable pub adler_from : ℕ → ℕ → List ℕ → ℕ × ℕ
adler_from a b [] = (a, b)
adler_from a b (x ∷ xs) = let next = (a + x) % 65521 in adler_from next ((b + next) % 65521) xs

unfoldable pub adler32 : List ℕ → ℕ
adler32 bytes = let sums = adler_from 1 0 bytes in bit_or (sums.1 * 2 ^ 16 % 2 ^ 32) sums.0

-- The end of a stored block.
abbrev pub copied_of : BitReader × Option (List ℕ) → Result (BitReader × List ℕ)
copied_of (r, none) = err bad
copied_of (r, some out) = ok (r, out)

-- A stored block, once its length and the complement are read.
unfoldable pub stored_of : BitReader → List ℕ → ℕ → ℕ → Result (BitReader × List ℕ)
stored_of r out len inverse =
    let copied = copy_bytes r out len in
    if r.overrun
    then err bad
    else if not (2 ^ 16 - 1 - len == inverse)
    then err bad
    else if ltb max_inflate_output (length out + len)
    then err bad
    else copied_of copied

unfoldable pub stored_block : BitReader → List ℕ → Result (BitReader × List ℕ)
stored_block r out =
    let len = read_u16_le (align_to_byte r) in
    let inverse = read_u16_le len.0 in stored_of inverse.0 out len.1 inverse.1

-- The byte loop of a back reference.
unfoldable pub copy_back : List ℕ → ℕ → ℕ → List ℕ
copy_back out from zero = out
copy_back out from (suc n) = copy_back (out ++ get_or out from 0 ∷ []) (from + 1) n

-- A back reference of `len` bytes, once the symbol of its distance is read.
unfoldable pub back_reference : BitReader × Option ℕ → ℕ → List ℕ → Result (BitReader × List ℕ)
back_reference (r, none) len out = err bad
back_reference (r, some symbol) len out =
    let extra = bits r (get_or distance_extra symbol 0) in
    let distance = get_or distance_base symbol 0 + extra.1 in
    if leb 30 symbol
    then err bad
    else if extra.0.overrun
    then err bad
    else if distance == 0 || ltb (length out) distance
    then err bad
    else if ltb max_inflate_output (length out + len)
    then err bad
    else ok (extra.0, copy_back out (length out - distance) len)

-- A symbol above 256.
unfoldable pub match_symbol : BitReader → Huffman → ℕ → List ℕ → Result (BitReader × List ℕ)
match_symbol r distances symbol out =
    let index = symbol - 257 in
    let extra = bits r (get_or length_extra index 0) in
    if leb 29 index
    then err bad
    else back_reference (decode extra.0 distances) (get_or length_base index 0 + extra.1) out

-- One turn of the loop over the symbols: the reader, the output, and whether the block goes on.
unfoldable pub symbol_turn :
    BitReader × Option ℕ → Huffman → List ℕ → Result (BitReader × List ℕ × Bool)
symbol_turn (r, none) distances out = err bad
symbol_turn (r, some symbol) distances out =
    if leb max_inflate_output (length out)
    then err bad
    else if ltb symbol 256
    then ok (r, out ++ symbol % 2 ^ 8 ∷ [], true)
    else if symbol == 256
    then ok (r, out, false)
    else match_symbol r distances symbol out >>= λ next. ok (next.0, next.1, true)

unfoldable pub symbols : ℕ → BitReader → Codes → List ℕ → Fuelled (BitReader × List ℕ)
symbols zero r codes out = none
symbols (suc less) r codes out = then_turn (symbol_turn (decode r codes.0) codes.1 out) (λ next.
    let rest = symbols less next.0 codes next.1 in
    if next.2 then rest else some (ok (next.0, next.1)))

-- A block with the codes that are given.
unfoldable pub coded_block : ℕ → Fuelled (BitReader × Codes) → List ℕ → Fuelled (BitReader × List ℕ)
coded_block fuel none out = none
coded_block fuel (some (err e)) out = some (err e)
coded_block fuel (some (ok (r, codes))) out = symbols fuel r codes out

-- The tables of a block of type 1.
unfoldable pub fixed_codes : BitReader → Fuelled (BitReader × Codes)
fixed_codes r = then_turn fixed_tables (λ codes. some (ok (r, codes)))

-- One block after its three header bits.
unfoldable pub block : ℕ → BitReader → ℕ → List ℕ → Fuelled (BitReader × List ℕ)
block fuel r type out =
    if r.overrun
    then some (err bad)
    else if type == 0
    then some (stored_block r out)
    else if type == 3
    then some (err bad)
    else if type == 1
    then coded_block fuel (fixed_codes r) out
    else coded_block fuel (dynamic_tables r) out

-- A block's result, with what follows it.
abbrev pub then_block : {A B : Type 0} → Fuelled A → (A → Fuelled B) → Fuelled B
then_block none k = none
then_block (some (err e)) k = some (err e)
then_block (some (ok a)) k = k a

-- The blocks up to the final one. `within` is the fuel of the loop in each block.
unfoldable pub blocks : ℕ → ℕ → BitReader → List ℕ → Fuelled (List ℕ)
blocks within zero r out = none
blocks within (suc less) r out =
    let final = bits r 1 in
    let type = bits final.0 2 in
    then_block (block within type.0 type.1 out) (λ next.
      let rest = blocks within less next.0 next.1 in
      if final.1 == 0 then rest else some (ok next.1))

-- More turns than there are bits.
abbrev pub turns : List ℕ → ℕ
turns bytes = suc (length bytes * 8)

unfoldable pub inflate_raw : List ℕ → Fuelled (List ℕ)
inflate_raw bytes = blocks (turns bytes) (turns bytes) (new bytes) []

-- The big-endian word of the last four bytes.
unfoldable pub stored_checksum : List ℕ → ℕ
stored_checksum bytes =
    let at = length bytes - 4 in
    bit_or
      (bit_or (bit_or (get_or bytes at 0 * 2 ^ 24) (get_or bytes (at + 1) 0 * 2 ^ 16))
        (get_or bytes (at + 2) 0 * 2 ^ 8))
      (get_or bytes (at + 3) 0)

-- The comparison of the checksums.
unfoldable pub checked : ℕ → Fuelled (List ℕ) → Fuelled (List ℕ)
checked stored none = none
checked stored (some (err e)) = some (err e)
checked stored (some (ok out)) =
    if not (stored == adler32 out) then some (err bad) else some (ok out)

unfoldable pub inflate_zlib : List ℕ → Fuelled (List ℕ)
inflate_zlib bytes =
    let cmf = get_or bytes 0 0 in
    let flg = get_or bytes 1 0 in
    if ltb (length bytes) 6
    then some (err bad)
    else if not (bit_and cmf 0x0F == 8)
    then some (err (error_at ErrorCode.log_bad_format cmf 0))
    else if not (bit_or (cmf * 2 ^ 8) flg % 31 == 0)
    then some (err bad)
    else if not (bit_and flg 0x20 == 0)
    then some (err bad)
    else checked (stored_checksum bytes) (inflate_raw (take (length bytes - 6) (drop 2 bytes)))
