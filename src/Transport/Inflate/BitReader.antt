-- ===== src/Transport/Inflate/BitReader.antt =====
-- class Huffman's members and class BitReader of transport/src/Inflate.cpp: bits from the lowest of
-- each byte on. The member data_ is the list `bytes`.
use canforge.Base.{
  ℕ, zero, suc, ◌+◌, ◌-◌, ◌*◌, ◌/◌, ◌%◌, ◌^◌, Bool, true, false, ltb, leb, ◌==◌, if◌then◌else◌,
  ◌&&◌, bit_and, bit_or, Option, none, some, List, ◌++◌, take, drop, get_or, length,
}

-- counts_ by code length, and symbols_ in the order of their codes.
pub record Huffman : Type 0 where
  pub counts : List ℕ
  pub symbols : List ℕ

pub record BitReader : Type 0 where
  pub bytes : List ℕ
  pub pos : ℕ
  pub buffer : ℕ
  pub held : ℕ
  pub overrun : Bool

unfoldable pub new : List ℕ → BitReader
new bytes = record { bytes = bytes; pos = 0; buffer = 0; held = 0; overrun = false }

-- No bit is left.
abbrev pub is_empty : BitReader → Bool
is_empty r = r.held == 0 && leb (length r.bytes) r.pos

-- The next byte is fetched when none is held.
unfoldable pub filled : BitReader → BitReader
filled r =
    if r.held == 0
    then record r { buffer = get_or r.bytes r.pos 0; pos = r.pos + 1; held = 8 }
    else r

-- One bit is taken from the byte that is held.
unfoldable pub shifted : BitReader → BitReader
shifted r = record r { buffer = r.buffer / 2; held = r.held - 1 }

-- The loop of bits() from `i` on, with `n` bits to come.
unfoldable pub bits_from : BitReader → ℕ → ℕ → ℕ → BitReader × ℕ
bits_from r i value zero = (r, value)
bits_from r i value (suc n) =
    let t = filled r in
    let rest = bits_from (shifted t) (i + 1) (bit_or value (bit_and t.buffer 1 * 2 ^ i)) n in
    if is_empty r then (record r { overrun = true }, value) else rest

unfoldable pub bits : BitReader → ℕ → BitReader × ℕ
bits r count = bits_from r 0 0 count

unfoldable pub align_to_byte : BitReader → BitReader
align_to_byte r = record r { held = 0; buffer = 0 }

-- copy_bytes(): the reader, and the output if the bytes are there.
unfoldable pub copy_bytes : BitReader → List ℕ → ℕ → BitReader × Option (List ℕ)
copy_bytes r out n =
    if ltb (length r.bytes) (r.pos + n)
    then (record r { overrun = true }, none)
    else (record r { pos = r.pos + n }, some (out ++ take n (drop r.pos r.bytes)))

unfoldable pub read_u16_le : BitReader → BitReader × ℕ
read_u16_le r = if ltb (length r.bytes) (r.pos + 2) then (record r { overrun = true }, 0) else (
  record r { pos = r.pos + 2 },
  bit_or (get_or r.bytes r.pos 0) (get_or r.bytes (r.pos + 1) 0 * 2 ^ 8) % 2 ^ 16,
)

-- The loop of decode() from `len` on, with `n` lengths to come. `none` is the result -1, and
-- `code - first < count` is written as a sum, since `first` is at most `code`.
unfoldable pub decode_from : BitReader → Huffman → ℕ → ℕ → ℕ → ℕ → ℕ → BitReader × Option ℕ
decode_from r table len code first index zero = (r, none)
decode_from r table len code first index (suc n) =
    let next = bits r 1 in
    let read = bit_or code next.1 in
    let count = get_or table.counts len 0 in
    let at = index + (read - first) in
    let rest =
      decode_from next.0 table (len + 1) (read * 2) ((first + count) * 2) (index + count) n in
    if next.0.overrun
    then (next.0, none)
    else if ltb read (first + count)
    then (next.0, if leb (length table.symbols) at then none else some (get_or table.symbols at 0))
    else rest

unfoldable pub decode : BitReader → Huffman → BitReader × Option ℕ
decode r table = decode_from r table 1 0 0 0 15
