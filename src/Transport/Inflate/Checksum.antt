-- ===== src/Transport/Inflate/Checksum.antt =====
-- What the Adler-32 checksum of inflate_zlib() accepts and what it detects.
use canforge.Base.{
  ℕ, ◌+◌, ◌-◌, ◌*◌, ◌/◌, ◌%◌, ◌^◌, ◌≤◌, ◌<◌, ◌≡◌, ◌≢◌, refl, ap, ◌∙◌, arith, true, false, ltb, ◌==◌,
  bit_or, some, List, [], ◌∷◌, ◌++◌, length, length-append, take, drop, take_exact, get_or-append,
}
use canforge.Base.Bits.{bit_or_join}
use canforge.Core.Result.{ok, err}
use canforge.Transport.Inflate.Huffman.{bad}
use canforge.Transport.Inflate.Stream.{
  adler_from, adler32, stored_checksum, checked, inflate_zlib, max_inflate_output,
}
use canforge.Transport.Inflate.Stored.{stored_stream, joined, AreChunks, inflate_raw-stored_stream}

adler_from-lt :
    (a b : ℕ) (xs : List ℕ)
    → a < 65521
    → b < 65521
    → ((adler_from a b xs).0 < 65521) × ((adler_from a b xs).1 < 65521)
unfolding adler_from
adler_from-lt a b [] ha hb = (ha, hb)
adler_from-lt a b (x ∷ xs) ha hb =
    adler_from-lt ((a + x) % 65521) ((b + (a + x) % 65521) % 65521) xs (omega arith) (omega arith)

-- The two sums side by side.
adler32_sums : (xs : List ℕ) → adler32 xs ≡ (adler_from 1 0 xs).1 * 2 ^ 16 + (adler_from 1 0 xs).0
unfolding adler32
adler32_sums xs =
    let s = adler_from 1 0 xs in
    let h = adler_from-lt 1 0 xs (omega arith) (omega arith) in
    let z : s.1 * 2 ^ 16 % 2 ^ 32 ≡ s.1 * 2 ^ 16 = omega (arith, h.1) in
    rw z (bit_or_join 16 s.1 s.0 (omega (arith, h.0)))

adler32-lt : (xs : List ℕ) → adler32 xs < 2 ^ 32
adler32-lt xs = omega (arith, adler32_sums xs, adler_from-lt 1 0 xs (omega arith) (omega arith))

adler_from-append :
    (a b : ℕ) (xs ys : List ℕ)
    → adler_from a b (xs ++ ys) ≡ adler_from (adler_from a b xs).0 (adler_from a b xs).1 ys
unfolding adler_from
adler_from-append a b [] ys = refl
adler_from-append a b (x ∷ xs) ys =
    adler_from-append ((a + x) % 65521) ((b + (a + x) % 65521) % 65521) xs ys

-- Sums that differ stay different.
adler_from-ne :
    (a b c d : ℕ) (xs : List ℕ)
    → a < 65521
    → c < 65521
    → a ≢ c
    → (adler_from a b xs).0 ≢ (adler_from c d xs).0
unfolding adler_from
adler_from-ne a b c d [] ha hc h = h
adler_from-ne a b c d (x ∷ xs) ha hc h =
    adler_from-ne ((a + x) % 65521) ((b + (a + x) % 65521) % 65521) ((c + x) % 65521)
      ((d + (c + x) % 65521) % 65521) xs (omega arith) (omega arith) (λ e. h (omega arith))

-- A change of one byte changes the checksum.
adler32-ne :
    (xs ys : List ℕ) (x y : ℕ)
    → x < 256
    → y < 256
    → x ≢ y
    → adler32 (xs ++ x ∷ ys) ≢ adler32 (xs ++ y ∷ ys)
unfolding adler_from
adler32-ne xs ys x y hx hy h e =
    let s = adler_from 1 0 xs in
    let l = adler_from-lt 1 0 xs (omega arith) (omega arith) in
    let p = (s.0 + x) % 65521 in
    let q = (s.0 + y) % 65521 in
    let n : p ≢ q = λ e. h (omega (arith, l.0)) in
    let ex = adler_from-append 1 0 xs (x ∷ ys) in
    let ey = adler_from-append 1 0 xs (y ∷ ys) in
    let apart =
      adler_from-ne p ((s.1 + p) % 65521) q ((s.1 + q) % 65521) ys (omega arith) (omega arith) n in
    apart (
      omega (
        arith,
        e,
        adler32_sums (xs ++ x ∷ ys),
        adler32_sums (xs ++ y ∷ ys),
        adler_from-lt 1 0 (xs ++ x ∷ ys) (omega arith) (omega arith),
        adler_from-lt 1 0 (xs ++ y ∷ ys) (omega arith) (omega arith),
        ap (λ (t : ℕ × ℕ). t.0) ex,
        ap (λ (t : ℕ × ℕ). t.0) ey,
      ))

-- A word of RFC 1950, the highest byte first.
unfoldable pub word_be : ℕ → List ℕ
word_be v = v / 2 ^ 24 ∷ v / 2 ^ 16 % 256 ∷ v / 2 ^ 8 % 256 ∷ v % 256 ∷ []

word_be_lem :
    (v : ℕ)
    → bit_or
        (bit_or
          (bit_or (v / 2 ^ 24 * 2 ^ 24) (v / 2 ^ 16 % 256 * 2 ^ 16))
          (v / 2 ^ 8 % 256 * 2 ^ 8))
        (v % 256)
      ≡ v
word_be_lem v =
    let a : bit_or (v / 2 ^ 24 * 2 ^ 24) (v / 2 ^ 16 % 256 * 2 ^ 16) ≡ v / 2 ^ 16 * 2 ^ 16 =
      omega (arith, bit_or_join 24 (v / 2 ^ 24) (v / 2 ^ 16 % 256 * 2 ^ 16) (omega arith)) in
    let b : bit_or (v / 2 ^ 16 * 2 ^ 16) (v / 2 ^ 8 % 256 * 2 ^ 8) ≡ v / 2 ^ 8 * 2 ^ 8 =
      omega (arith, bit_or_join 16 (v / 2 ^ 16) (v / 2 ^ 8 % 256 * 2 ^ 8) (omega arith)) in
    rw (a, b) (omega (arith, bit_or_join 8 (v / 2 ^ 8) (v % 256) (omega arith)))

-- A zlib stream of RFC 1950 without a dictionary, with the checksum `v`.
unfoldable pub zlib_stream : List (List ℕ) → ℕ → List ℕ
zlib_stream chunks v = (0x78 ∷ 0x01 ∷ stored_stream chunks) ++ word_be v

stored_checksum-word_be : (xs : List ℕ) (v : ℕ) → stored_checksum (xs ++ word_be v) ≡ v
unfolding stored_checksum word_be
stored_checksum-word_be xs v =
    let w = word_be v in
    let at : length (xs ++ w) - 4 ≡ length xs + 0 = omega (arith, length-append xs w) in
    let p1 : length xs + 0 + 1 ≡ length xs + 1 = omega arith in
    let p2 : length xs + 0 + 2 ≡ length xs + 2 = omega arith in
    let p3 : length xs + 0 + 3 ≡ length xs + 3 = omega arith in
    rw
      (
        at,
        p1,
        p2,
        p3,
        get_or-append xs w 0 0,
        get_or-append xs w 1 0,
        get_or-append xs w 2 0,
        get_or-append xs w 3 0,
      )
      (word_be_lem v)

four : (v : ℕ) → length (word_be v) ≡ 4
unfolding word_be
four v = refl

ne→==_false : (a b : ℕ) → a ≢ b → (a == b) ≡ false
ne→==_false a b h = ground arith

zlib_stream_lem :
    (chunks : List (List ℕ)) (v : ℕ)
    → AreChunks chunks
    → length (joined chunks) ≤ max_inflate_output
    → inflate_zlib (zlib_stream chunks v) ≡ checked v (some (ok (joined chunks)))
unfolding inflate_zlib zlib_stream
zlib_stream_lem chunks v small room =
    let body = stored_stream chunks in
    let packed = zlib_stream chunks v in
    let n : length packed ≡ length body + 6 =
      omega (arith, length-append body (word_be v), four v) in
    let long : ltb (length packed) 6 ≡ false = ground (arith, n) in
    let inner : take (length packed - 6) (drop 2 packed) ≡ body =
      take_exact (length packed - 6) body (word_be v) (omega (arith, n)) in
    rw (long, inner, stored_checksum-word_be (0x78 ∷ 0x01 ∷ body) v)
      (ap (checked v) (inflate_raw-stored_stream chunks small room))

-- A zlib stream of stored blocks of fewer than 65536 bytes each, at most kMaxInflateOutput
-- together, with the Adler-32 checksum of their contents behind them, decompresses to the
-- contents.
pub inflate_zlib-zlib_stream :
    (chunks : List (List ℕ))
    → AreChunks chunks
    → length (joined chunks) ≤ max_inflate_output
    → inflate_zlib (zlib_stream chunks (adler32 (joined chunks))) ≡ some (ok (joined chunks))
unfolding checked
inflate_zlib-zlib_stream chunks small room =
    let same : (adler32 (joined chunks) == adler32 (joined chunks)) ≡ true = ground arith in
    zlib_stream_lem chunks (adler32 (joined chunks)) small room ∙ rw same refl

-- A change of one byte of the contents, where the checksum still is that of the original, is an
-- error: the damaged contents are not returned.
pub inflate_zlib_damaged :
    (chunks : List (List ℕ)) (xs ys : List ℕ) (x y : ℕ)
    → AreChunks chunks
    → length (joined chunks) ≤ max_inflate_output
    → joined chunks ≡ xs ++ y ∷ ys
    → x < 256
    → y < 256
    → x ≢ y
    → inflate_zlib (zlib_stream chunks (adler32 (xs ++ x ∷ ys))) ≡ some (err bad)
unfolding checked
inflate_zlib_damaged chunks xs ys x y small room e hx hy h =
    let differs : (adler32 (xs ++ x ∷ ys) == adler32 (joined chunks)) ≡ false =
      ap (λ (o : List ℕ). adler32 (xs ++ x ∷ ys) == adler32 o) e
      ∙ ne→==_false (adler32 (xs ++ x ∷ ys)) (adler32 (xs ++ y ∷ ys))
          (adler32-ne xs ys x y hx hy h) in
    zlib_stream_lem chunks (adler32 (xs ++ x ∷ ys)) small room ∙ rw differs refl
