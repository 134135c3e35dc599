-- ===== src/Transport/Inflate/Tests.antt =====
-- Runs of the decompressor on concrete streams.
use canforge.Base.{ℕ, ◌≤◌, ◌≡◌, ◌⊎◌, refl, arith, ◌&&◌, leb, ◌^◌, some, List, [], ◌∷◌, ◌++◌, length}
use canforge.Core.Result.{Error, ok, err}
use canforge.Transport.Inflate.BitReader.{
  bits, bits_from, filled, shifted, decode, decode_from, new,
}
use canforge.Transport.Inflate.Huffman.{bad, build, tally, subscribe, place, offsets_from}
use canforge.Transport.Inflate.Tables.{fixed_tables}
use canforge.Transport.Inflate.Stream.{
  inflate_raw, inflate_zlib, max_inflate_output, adler32, adler_from, blocks, block, coded_block,
  fixed_codes, symbols, symbol_turn, match_symbol, back_reference, copy_back, checked,
  stored_checksum,
}
use canforge.Transport.Inflate.Returns.{inflate_raw_returns}
use canforge.Transport.Inflate.Stored.{joined}
use canforge.Transport.Inflate.Checksum.{
  zlib_stream, inflate_zlib-zlib_stream, inflate_zlib_damaged,
}
use canforge.Transport.Inflate.Kraft.{is_ok, are_short, kraft_sum, build-is_ok}

-- A zlib stream with a block of fixed codes and a back reference that overlaps itself.
abbrev packed : List ℕ
packed =
    120 ∷ 218 ∷ 75 ∷ 78 ∷ 204 ∷ 75 ∷ 203 ∷ 47 ∷ 74 ∷ 79 ∷ 85 ∷ 72 ∷ 70 ∷ 103 ∷ 40 ∷ 2 ∷ 0 ∷ 145
    ∷ 180 ∷ 10 ∷ 49 ∷ []

abbrev plain : List ℕ
plain =
    99 ∷ 97 ∷ 110 ∷ 102 ∷ 111 ∷ 114 ∷ 103 ∷ 101 ∷ 32 ∷ 99 ∷ 97 ∷ 110 ∷ 102 ∷ 111 ∷ 114 ∷ 103 ∷ 101
    ∷ 32 ∷ 99 ∷ 97 ∷ 110 ∷ 102 ∷ 111 ∷ 114 ∷ 103 ∷ 101 ∷ 33 ∷ []

unpacked : inflate_zlib packed ≡ some (ok plain)
unfolding inflate_zlib inflate_raw blocks block coded_block fixed_codes fixed_tables build tally
    subscribe place offsets_from symbols decode decode_from bits bits_from filled shifted new
    symbol_turn match_symbol back_reference copy_back checked stored_checksum adler32 adler_from
unpacked = refl

-- The stream without its wrapper.
abbrev raw : List ℕ
raw = 75 ∷ 78 ∷ 204 ∷ 75 ∷ 203 ∷ 47 ∷ 74 ∷ 79 ∷ 85 ∷ 72 ∷ 70 ∷ 103 ∷ 40 ∷ 2 ∷ 0 ∷ []

inflate_raw_returns_example :
    ((out : List ℕ) × (inflate_raw raw ≡ some (ok out)) × (length out ≤ max_inflate_output))
    ⊎ ((e : Error) × (inflate_raw raw ≡ some (err e)))
inflate_raw_returns_example = inflate_raw_returns raw

abbrev chunks : List (List ℕ)
chunks = (1 ∷ 2 ∷ 3 ∷ []) ∷ [] ∷ (4 ∷ 5 ∷ []) ∷ []

inflate_zlib-zlib_stream_example :
    inflate_zlib (zlib_stream chunks (adler32 (joined chunks))) ≡ some (ok (1 ∷ 2 ∷ 3 ∷ 4 ∷ 5 ∷ []))
unfolding joined
inflate_zlib-zlib_stream_example =
    inflate_zlib-zlib_stream chunks (omega arith, (omega arith, (omega arith, tt))) (omega arith)

-- The byte 9 arrived as 3.
abbrev sent : List ℕ
sent = (1 ∷ 2 ∷ []) ++ 9 ∷ 4 ∷ 5 ∷ []

inflate_zlib_damaged_example : inflate_zlib (zlib_stream chunks (adler32 sent)) ≡ some (err bad)
unfolding joined
inflate_zlib_damaged_example =
    inflate_zlib_damaged chunks (1 ∷ 2 ∷ []) (4 ∷ 5 ∷ []) 9 3
      (omega arith, (omega arith, (omega arith, tt))) (omega arith) refl (omega arith) (omega arith)
      (λ e. cc e)

-- Two codes of one bit and one of two bits: over-subscribed.
abbrev too_many : List ℕ
too_many = 1 ∷ 0 ∷ 1 ∷ 2 ∷ []

build-is_ok_example :
    is_ok (build too_many) ≡ are_short too_many && leb (kraft_sum too_many) (2 ^ 15)
build-is_ok_example = build-is_ok too_many (omega arith)
