-- ===== src/Transport/Inflate/Stored.antt =====
-- Data in stored blocks comes out of inflate_raw() as it is.
use canforge.Base.{
  ℕ, zero, suc, ◌+◌, ◌-◌, ◌*◌, ◌/◌, ◌%◌, ◌^◌, ◌≤◌, ◌<◌, ◌≡◌, refl, sym, ap, ◌∙◌, arith, true, false,
  ltb, ◌==◌, if◌then◌else◌, bit_or, some, List, [], ◌∷◌, ◌++◌, length, length-append, length-drop,
  take, drop, take_exact, drop_exact, drop-drop, get_or, get_or-drop,
}
use canforge.Base.Bits.{bit_or_join, bit_or_comm}
use mathlib.Core.List.{append_assoc, append-nil}
use canforge.Core.Result.{ok}
use canforge.Transport.Inflate.BitReader.{
  BitReader, new, filled, shifted, bits_from, bits, align_to_byte, copy_bytes, read_u16_le,
}
use canforge.Transport.Inflate.Stream.{
  max_inflate_output, stored_of, stored_block, block, blocks, turns, inflate_raw,
}

-- A stored block of RFC 1951 on a byte boundary: `final` is 1 for the last block.
unfoldable pub stored_piece : ℕ → List ℕ → List ℕ
stored_piece final chunk =
    let len = length chunk in
    final ∷ len % 256 ∷ len / 256 ∷ (65535 - len) % 256 ∷ (65535 - len) / 256 ∷ chunk

-- The chunks in a block each, and an empty last one.
unfoldable pub stored_stream : List (List ℕ) → List ℕ
stored_stream [] = stored_piece 1 []
stored_stream (chunk ∷ chunks) = stored_piece 0 chunk ++ stored_stream chunks

unfoldable pub joined : List (List ℕ) → List ℕ
joined [] = []
joined (chunk ∷ chunks) = chunk ++ joined chunks

abbrev pub AreChunks : List (List ℕ) → Type 0
AreChunks [] = Unit {0}
AreChunks (chunk ∷ chunks) = (length chunk < 65536) × AreChunks chunks

-- A reader on a byte boundary.
abbrev at_byte : List ℕ → ℕ → BitReader
at_byte bytes n = record { bytes = bytes; pos = n; buffer = 0; held = 0; overrun = false }

-- The first byte's three bits.
module _ (bytes : List ℕ) (n : ℕ) (inside : n < length bytes) where
  abbrev past : BitReader
  past = record { bytes = bytes; pos = n + 1; buffer = 0; held = 7; overrun = false }

  first_bit : (h : ℕ) → get_or bytes n 0 ≡ h → h < 2 → bits (at_byte bytes n) 1 ≡ (past, h)
  unfolding bits bits_from filled shifted
  first_bit zero e lt = ground (arith, e)
  first_bit (suc zero) e lt = ground (arith, e)
  first_bit (suc (suc h)) e lt = absurd (omega arith)

  two_bits : bits past 2 ≡ (record past { held = 5 }, 0)
  unfolding bits bits_from filled shifted
  two_bits = ground arith

word : (n : ℕ) → n < 65536 → bit_or (n % 256) (n / 256 * 2 ^ 8) % 2 ^ 16 ≡ n
word n h = omega (
  arith,
  bit_or_comm (n % 256) (n / 256 * 2 ^ 8),
  bit_or_join 8 (n / 256) (n % 256) (omega arith),
)

-- A stored block that stands at `n`.
module _ (bytes : List ℕ) (n final : ℕ) (chunk rest : List ℕ)
    (here : drop n bytes ≡ stored_piece final chunk ++ rest) (small : length chunk < 65536)
    (bit : final < 2) where
  abbrev len : ℕ
  len = length chunk

  inside : n + 5 + len ≤ length bytes
  unfolding stored_piece
  inside =
      omega
        (arith, length-drop n bytes, ap (λ (xs : List ℕ). length xs) here, length-append chunk rest)

  byte_of :
      (k v : ℕ) → get_or (stored_piece final chunk ++ rest) k 0 ≡ v → get_or bytes (n + k) 0 ≡ v
  byte_of k v e = get_or-drop bytes n k 0 ∙ ap (λ (xs : List ℕ). get_or xs k 0) here ∙ e

  -- The reader after the header bits, and after each of the two words.
  abbrev opened : BitReader
  opened = record { bytes = bytes; pos = n + 1; buffer = 0; held = 5; overrun = false }

  length_word : read_u16_le (align_to_byte opened) ≡ (at_byte bytes (n + 3), len)
  unfolding align_to_byte read_u16_le stored_piece
  length_word =
      let lo = byte_of 1 (len % 256) refl in
      let hi = byte_of 2 (len / 256) refl in
      let fits : ltb (length bytes) (n + 1 + 2) ≡ false = ground (arith, inside) in
      let a : n + 1 + 1 ≡ n + 2 = omega arith in
      let b : n + 1 + 2 ≡ n + 3 = omega arith in rw (fits, lo, a, hi, word len small, b) refl

  inverse_word : read_u16_le (at_byte bytes (n + 3)) ≡ (at_byte bytes (n + 5), 65535 - len)
  unfolding read_u16_le stored_piece
  inverse_word =
      let lo = byte_of 3 ((65535 - len) % 256) refl in
      let hi = byte_of 4 ((65535 - len) / 256) refl in
      let fits : ltb (length bytes) (n + 3 + 2) ≡ false = ground (arith, inside) in
      let a : n + 3 + 1 ≡ n + 4 = omega arith in
      let b : n + 3 + 2 ≡ n + 5 = omega arith in
      rw (fits, lo, a, hi, word (65535 - len) (omega arith), b) refl

  copied :
      (out : List ℕ)
      → copy_bytes (at_byte bytes (n + 5)) out len
        ≡ (at_byte bytes (n + 5 + len), some (out ++ chunk))
  unfolding copy_bytes stored_piece
  copied out =
      let fits : ltb (length bytes) (n + 5 + len) ≡ false = ground (arith, inside) in
      let body : take len (drop (n + 5) bytes) ≡ chunk =
        ap (λ (xs : List ℕ). take len xs) (sym (drop-drop n 5 bytes) ∙ ap (drop 5) here)
        ∙ take_exact len chunk rest refl in
      rw (fits, body) refl

  module _ (out : List ℕ) (room : length out + len ≤ max_inflate_output) where
    stored : stored_block opened out ≡ ok (at_byte bytes (n + 5 + len), out ++ chunk)
    unfolding stored_block stored_of
    stored =
        let same : (2 ^ 16 - 1 - len == 65535 - len) ≡ true = ground arith in
        let fits : ltb max_inflate_output (length out + len) ≡ false = ground arith in
        rw (length_word, inverse_word, copied out, same, fits) refl

    block_of : (within : ℕ) → block within opened 0 out ≡ some (stored_block opened out)
    unfolding block
    block_of within = refl

    first_read : bits (at_byte bytes n) 1 ≡ (past bytes n (omega (arith, inside)), final)
    unfolding stored_piece
    first_read =
        let z : n + 0 ≡ n = omega arith in
        first_bit bytes n (omega (arith, inside)) final
          (ap (λ (i : ℕ). get_or bytes i 0) (sym z) ∙ byte_of 0 final refl) bit

    header : bits (bits (at_byte bytes n) 1).0 2 ≡ (opened, 0)
    header =
        ap (λ (x : BitReader × ℕ). bits x.0 2) first_read ∙ two_bits bytes n (omega (arith, inside))

    block_lem :
        (within : ℕ)
        → let type = bits (bits (at_byte bytes n) 1).0 2 in
          block within type.0 type.1 out ≡ some (ok (at_byte bytes (n + 5 + len), out ++ chunk))
    block_lem within =
        ap (λ (x : BitReader × ℕ). block within x.0 x.1 out) header
        ∙ block_of within
        ∙ ap some stored

    next_block :
        (within less : ℕ)
        → blocks within (suc less) (at_byte bytes n) out ≡ (
            if final == 0
            then blocks within less (at_byte bytes (n + 5 + len)) (out ++ chunk)
            else some (ok (out ++ chunk)))
    unfolding blocks
    next_block within less = rw (block_lem within, first_read) refl

pub length-stored_stream :
    (chunks : List (List ℕ)) → suc (length chunks) ≤ length (stored_stream chunks)
unfolding stored_stream stored_piece
length-stored_stream [] = omega arith
length-stored_stream (chunk ∷ chunks) = omega (
  arith,
  length-append (stored_piece 0 chunk) (stored_stream chunks),
  length-stored_stream chunks,
)

after_piece :
    (bytes : List ℕ) (n : ℕ) (chunk rest : List ℕ)
    → drop n bytes ≡ stored_piece 0 chunk ++ rest
    → drop (n + 5 + length chunk) bytes ≡ rest
unfolding stored_piece
after_piece bytes n chunk rest here =
    let place : n + (5 + length chunk) ≡ n + 5 + length chunk = omega arith in
    ap (λ (i : ℕ). drop i bytes) (sym place)
    ∙ sym (drop-drop n (5 + length chunk) bytes)
    ∙ ap (drop (5 + length chunk)) here
    ∙ drop_exact (5 + length chunk) (stored_piece 0 chunk) rest (omega arith)

blocks-stored_stream :
    (bytes : List ℕ) (n : ℕ) (chunks : List (List ℕ)) (within less : ℕ) (out : List ℕ)
    → drop n bytes ≡ stored_stream chunks
    → AreChunks chunks
    → length out + length (joined chunks) ≤ max_inflate_output
    → length chunks ≤ less
    → blocks within (suc less) (at_byte bytes n) out ≡ some (ok (out ++ joined chunks))
unfolding stored_stream joined
blocks-stored_stream bytes n [] within less out here small room fuel =
    next_block bytes n 1 [] [] (here ∙ sym (append-nil (stored_piece 1 []))) (omega arith)
      (omega arith) out room within less
blocks-stored_stream bytes n (chunk ∷ chunks) within zero out here small room fuel =
    absurd (omega arith)
blocks-stored_stream bytes n (chunk ∷ chunks) within (suc less) out here small room fuel =
    let l = length-append chunk (joined chunks) in
    let rest = stored_stream chunks in
    let after : drop (n + 5 + length chunk) bytes ≡ rest = after_piece bytes n chunk rest here in
    next_block bytes n 0 chunk rest here small.0 (omega arith) out (omega (arith, l)) within
      (suc less)
    ∙ blocks-stored_stream bytes (n + 5 + length chunk) chunks within less (out ++ chunk) after
        small.1 (omega (arith, l, length-append out chunk)) (omega arith)
    ∙ ap (λ (o : List ℕ). some (ok o)) (append_assoc out chunk (joined chunks))

-- Chunks of fewer than 65536 bytes, at most kMaxInflateOutput bytes together, each in a stored
-- block of RFC 1951 with an empty last block behind them, decompress to the chunks joined.
pub inflate_raw-stored_stream :
    (chunks : List (List ℕ))
    → AreChunks chunks
    → length (joined chunks) ≤ max_inflate_output
    → inflate_raw (stored_stream chunks) ≡ some (ok (joined chunks))
unfolding inflate_raw new
inflate_raw-stored_stream chunks small room =
    let bytes = stored_stream chunks in
    blocks-stored_stream bytes 0 chunks (turns bytes) (length bytes * 8) [] refl small (omega arith)
      (omega (arith, length-stored_stream chunks))
