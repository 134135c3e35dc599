-- ===== src/Transport/Inflate/Huffman.antt =====
-- Huffman::build() of transport/src/Inflate.cpp. The message of an error is left out.
use canforge.Base.{
  ℕ, zero, suc, ◌+◌, ◌-◌, ◌*◌, ◌%◌, ◌^◌, ltb, ◌==◌, if◌then◌else◌, List, [], ◌∷◌, replicate, get_or,
  set, drop, length,
}
use canforge.Core.Result.{Result, Error, ok, err, error_at, ErrorCode, ◌>>=◌}
use canforge.Transport.Inflate.BitReader.{Huffman}

-- bad()
abbrev pub bad : Error
bad = error_at ErrorCode.log_bad_format 0 0

-- The first loop: how many codes there are of each length.
unfoldable pub tally : List ℕ → List ℕ → Result (List ℕ)
tally counts [] = ok counts
tally counts (len ∷ lengths) =
    let rest = tally (set counts len ((get_or counts len 0 + 1) % 2 ^ 16)) lengths in
    if ltb 15 len then err bad else rest

-- The second loop, over the counts from length 1 on: an over-subscribed code is an error.
unfoldable pub subscribe : ℕ → List ℕ → Result (Unit {0})
subscribe left [] = ok tt
subscribe left (count ∷ counts) =
    let rest = subscribe (left * 2 - count) counts in if ltb (left * 2) count then err bad else rest

-- The third loop, from `bits` on.
unfoldable pub offsets_from : List ℕ → List ℕ → ℕ → ℕ → List ℕ
offsets_from counts offsets bits zero = offsets
offsets_from counts offsets bits (suc n) =
    offsets_from counts
      (set offsets (bits + 1) ((get_or offsets bits 0 + get_or counts bits 0) % 2 ^ 16)) (bits + 1)
      n

-- The last loop, from the symbol `i` on.
unfoldable pub place : List ℕ → List ℕ → List ℕ → ℕ → List ℕ
place offsets symbols [] i = symbols
place offsets symbols (len ∷ lengths) i =
    let at = get_or offsets len 0 in
    let next = if len == 0 then offsets else set offsets len ((at + 1) % 2 ^ 16) in
    let placed = if len == 0 then symbols else set symbols at (i % 2 ^ 16) in
    place next placed lengths (i + 1)

unfoldable pub build : List ℕ → Result Huffman
build lengths = tally (replicate 16 0) lengths >>= λ all.
    let counts = set all 0 0 in
    subscribe 1 (drop 1 counts) >>= λ _. ok (record {
      counts = counts;
      symbols =
          place (offsets_from counts (replicate 16 0) 1 14) (replicate (length lengths) 0) lengths
            0;
    })
