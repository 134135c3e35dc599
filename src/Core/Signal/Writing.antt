-- ===== src/Core/Signal/Writing.antt =====
-- Writing an Intel signal a word at a time changes exactly its own bits.
use canforge.Base.{
  if_intro, ℕ, ◌+◌, ◌-◌, ◌*◌, ◌/◌, ◌%◌, ◌^◌, ◌<◌, ◌≤◌, ◌≡◌, ◌≢◌, ◌⊎◌, inl, inr, refl, sym, ap, ◌∙◌,
  min, arith, ◌==◌, if◌then◌else◌, bit_and, bit_or, List, get_or, set, length, length-set,
  get_or-set_self, get_or-set_ne,
}
use mathlib.Core.Path.{subst⁻¹}
use native.Mathlib.Nat.{mod-lt}
use native.Mathlib.Decide.{dec_le, ℕ_discrete}
use canforge.Base.Bits.{
  digit, digit-lt, digit-bit_or, digit-bit_and, digit-shr, digit-mod, digit-complement,
  bit_and-low_mask, two-pow-pos, bit_or-lt, bit_and-le,
}
use canforge.Core.Signal.{load_le, store_le, shl64, insert_intel, spanned_bytes}
use canforge.Core.Signal.Intel.{AreBytes, bit_of, bit_mask_lem, load_le-digit, digit-shl64}
use canforge.Core.Signal.Store.{
  digit-merged_in, digit-merged_out, digit-window_in, digit-window_below, digit-window_above,
  shl64-lt, length-store_le, store_le-digit, store_le-below, store_le-above, digit-ones,
  digit-ones_above, store_le-AreBytes, set-AreBytes,
}

module _ (bytes : List ℕ) (small : AreBytes bytes) (q0 len value : ℕ) (some_bits : 1 ≤ len)
    (most : len ≤ 64) (room : q0 + len ≤ length bytes * 8) where
  abbrev first : ℕ
  first = q0 / 8

  abbrev off : ℕ
  off = q0 % 8

  abbrev spanned : ℕ
  spanned = spanned_bytes off len

  abbrev head : ℕ
  head = min spanned 8

  -- The value's bits in the run.
  abbrev cut : ℕ
  cut = bit_and value (2 ^ len - 1)

  cut-digit : (k : ℕ) → k < len → digit cut k ≡ digit value k
  cut-digit k h = ap (λ (x : ℕ). digit x k) (bit_and-low_mask len value) ∙ digit-mod value len k h

  -- The word that is stored.
  abbrev window : ℕ
  window = shl64 (2 ^ len - 1) off

  abbrev word : ℕ
  word =
      bit_or (bit_and (load_le bytes first head) (2 ^ 64 - 1 - window))
        (bit_and (shl64 cut off) window)

  word-digit_in : (k : ℕ) → off ≤ k → k < off + len → k < 64 → digit word k ≡ digit value (k - off)
  word-digit_in k lo hi top =
      let e : off + (k - off) ≡ k = omega arith in
      digit-merged_in 64 (load_le bytes first head) window (shl64 cut off) k
        (shl64-lt (2 ^ len - 1) off) top (digit-window_in len off k lo hi top)
      ∙ ap (λ (x : ℕ). digit (shl64 cut off) x) (sym e)
      ∙ digit-shl64 cut off (k - off) (omega arith)
      ∙ cut-digit (k - off) (omega arith)

  outside : (k : ℕ) → k < 64 → (k < off) ⊎ (off + len ≤ k) → digit window k ≡ 0
  outside k top (inl below) = digit-window_below len off k below (omega arith)
  outside k top (inr above) = digit-window_above len off k above top

  word-digit_out :
      (k : ℕ)
      → k < 64
      → (k < off) ⊎ (off + len ≤ k)
      → digit word k ≡ digit (load_le bytes first head) k
  word-digit_out k top out =
      digit-merged_out 64 (load_le bytes first head) window (shl64 cut off) k
        (shl64-lt (2 ^ len - 1) off) top (outside k top out)

  abbrev stored : List ℕ
  stored = store_le bytes first head word

  -- A bit of the bytes that are stored as one word.
  stored-digit :
      (q : ℕ)
      → 8 * first ≤ q
      → q < 8 * (first + head)
      → bit_of stored q ≡ digit word (q - 8 * first)
  stored-digit q lo hi =
      let i = q / 8 - first in
      let e : first + i ≡ q / 8 = omega arith in
      let p : 8 * i + q % 8 ≡ q - 8 * first = omega arith in
      ap (λ (x : ℕ). digit (get_or stored x 0) (q % 8)) (sym e)
      ∙ store_le-digit bytes first word head i (q % 8) (omega arith) (omega arith) (omega arith)
      ∙ ap (λ (x : ℕ). digit word x) p

  stored_else :
      (q : ℕ) → (q < 8 * first) ⊎ (8 * (first + head) ≤ q) → bit_of stored q ≡ bit_of bytes q
  stored_else q (inl below) =
      ap (λ (x : ℕ). digit x (q % 8)) (store_le-below bytes first word head (q / 8) (omega arith))
  stored_else q (inr above) =
      ap (λ (x : ℕ). digit x (q % 8)) (store_le-above bytes first word head (q / 8) (omega arith))

  loaded-digit :
      (q : ℕ)
      → 8 * first ≤ q
      → q < 8 * (first + head)
      → digit (load_le bytes first head) (q - 8 * first) ≡ bit_of bytes q
  loaded-digit q lo hi =
      let i = q / 8 - first in
      let e : first + i ≡ q / 8 = omega arith in
      let p : 8 * i + q % 8 ≡ q - 8 * first = omega arith in
      ap (λ (x : ℕ). digit (load_le bytes first head) x) (sym p)
      ∙ load_le-digit bytes first small head i (q % 8) (omega arith) (omega arith) (omega arith)
      ∙ ap (λ (x : ℕ). digit (get_or bytes x 0) (q % 8)) e

  -- After the word is stored: the run's bits in the first eight bytes are the value's.
  stored_in :
      (q : ℕ)
      → q0 ≤ q
      → q < q0 + len
      → q < 8 * (first + head)
      → bit_of stored q ≡ digit value (q - q0)
  stored_in q lo hi top =
      let p : q - 8 * first - off ≡ q - q0 = omega arith in
      stored-digit q (omega arith) top
      ∙ word-digit_in (q - 8 * first) (omega arith) (omega arith) (omega arith)
      ∙ ap (λ (x : ℕ). digit value x) p

  stored_out : (q : ℕ) → (q < q0) ⊎ (q0 + len ≤ q) → bit_of stored q ≡ bit_of bytes q
  stored_out q out = elim (dec_le (8 * first) q) [
    | no below ↦ stored_else q (inl (omega arith))
    | yes lo ↦ elim (dec_le (8 * (first + head)) q) [
      | yes above ↦ stored_else q (inr above)
      | no hi ↦
          stored-digit q lo (omega arith)
          ∙ word-digit_out (q - 8 * first) (omega arith) (shifted lo out)
          ∙ loaded-digit q lo (omega arith)
    ]
  ]
    where
      shifted :
          8 * first ≤ q
          → (q < q0) ⊎ (q0 + len ≤ q)
          → (q - 8 * first < off) ⊎ (off + len ≤ q - 8 * first)
      shifted lo (inl h) = inl (omega arith)
      shifted lo (inr h) = inr (omega arith)

  -- The ninth byte, when the run reaches it.
  abbrev tail : ℕ
  tail = off + len - 64

  abbrev last : ℕ
  last = get_or stored (first + 8) 0

  abbrev tail_bits : ℕ
  tail_bits = bit_and (cut / 2 ^ (len - tail)) ((2 ^ tail - 1) % 2 ^ 8) % 2 ^ 8

  abbrev joined : ℕ
  joined = bit_or (bit_and last (2 ^ 8 - 1 - (2 ^ tail - 1) % 2 ^ 8)) tail_bits

  abbrev finished : List ℕ
  finished = set stored (first + 8) joined

  module _ (far : 64 < off + len) where
    ones : (j : ℕ) → j < 8 → digit ((2 ^ tail - 1) % 2 ^ 8) j ≡ digit (2 ^ tail - 1) j
    ones j h = digit-mod (2 ^ tail - 1) 8 j h

    ones-lt : (2 ^ tail - 1) % 2 ^ 8 < 2 ^ 8
    ones-lt = mod-lt (2 ^ tail - 1) (two-pow-pos 8)

    tail_bits-digit_in : (j : ℕ) → j < tail → digit tail_bits j ≡ digit value (len - tail + j)
    tail_bits-digit_in j h =
        let m = (2 ^ tail - 1) % 2 ^ 8 in
        omega (
          arith,
          digit-mod (bit_and (cut / 2 ^ (len - tail)) m) 8 j (omega arith),
          digit-bit_and (cut / 2 ^ (len - tail)) m j,
          digit-shr cut (len - tail) j,
          cut-digit (len - tail + j) (omega arith),
          ones j (omega arith),
          digit-ones tail j h,
          digit-lt cut (len - tail + j),
        )

    tail_bits-digit_out : (j : ℕ) → tail ≤ j → j < 8 → digit tail_bits j ≡ 0
    tail_bits-digit_out j h top =
        let m = (2 ^ tail - 1) % 2 ^ 8 in
        omega (
          arith,
          digit-mod (bit_and (cut / 2 ^ (len - tail)) m) 8 j top,
          digit-bit_and (cut / 2 ^ (len - tail)) m j,
          ones j top,
          digit-ones_above tail j h,
        )

    ninth : get_or finished (first + 8) 0 ≡ joined
    ninth =
        get_or-set_self stored (first + 8) joined 0
          (omega (arith, length-store_le bytes first word head))

    ninth-digit_in :
        (j : ℕ) → j < tail → digit (get_or finished (first + 8) 0) j ≡ digit value (len - tail + j)
    ninth-digit_in j h =
        let m = (2 ^ tail - 1) % 2 ^ 8 in
        omega (
          arith,
          ap (λ (x : ℕ). digit x j) ninth,
          digit-bit_or (bit_and last (2 ^ 8 - 1 - m)) tail_bits j,
          digit-bit_and last (2 ^ 8 - 1 - m) j,
          digit-complement m 8 j ones-lt (omega arith),
          ones j (omega arith),
          digit-ones tail j h,
          tail_bits-digit_in j h,
        )

    ninth-digit_out :
        (j : ℕ) → tail ≤ j → j < 8 → digit (get_or finished (first + 8) 0) j ≡ digit last j
    ninth-digit_out j h top =
        let m = (2 ^ tail - 1) % 2 ^ 8 in
        omega (
          arith,
          ap (λ (x : ℕ). digit x j) ninth,
          digit-bit_or (bit_and last (2 ^ 8 - 1 - m)) tail_bits j,
          digit-bit_and last (2 ^ 8 - 1 - m) j,
          digit-complement m 8 j ones-lt top,
          ones j top,
          digit-ones_above tail j h,
          tail_bits-digit_out j h top,
          digit-lt last j,
        )

    finished_else : (q : ℕ) → q / 8 ≢ first + 8 → bit_of finished q ≡ bit_of stored q
    finished_else q h =
        ap (λ (x : ℕ). digit x (q % 8))
          (get_or-set_ne stored (first + 8) (q / 8) joined 0 (λ e. h (sym e)))

    finished_in : (q : ℕ) → q0 ≤ q → q < q0 + len → bit_of finished q ≡ digit value (q - q0)
    finished_in q lo hi = elim (dec_le (8 * (first + 8)) q) [
      | no near ↦ finished_else q (λ e. absurd (omega arith)) ∙ stored_in q lo hi (omega arith)
      | yes in_ninth ↦
          let i : q / 8 ≡ first + 8 = omega arith in
          let p : len - tail + q % 8 ≡ q - q0 = omega arith in
          ap (λ (x : ℕ). digit (get_or finished x 0) (q % 8)) i
          ∙ ninth-digit_in (q % 8) (omega arith)
          ∙ ap (λ (x : ℕ). digit value x) p
    ]

    finished_out : (q : ℕ) → (q < q0) ⊎ (q0 + len ≤ q) → bit_of finished q ≡ bit_of bytes q
    finished_out q out = elim (ℕ_discrete (q / 8) (first + 8)) [
      | no other ↦ finished_else q other ∙ stored_out q out
      | yes i ↦
          ap (λ (x : ℕ). digit (get_or finished x 0) (q % 8)) i
          ∙ ninth-digit_out (q % 8) (past i out) (omega arith)
          ∙ ap (λ (x : ℕ). digit (get_or stored x 0) (q % 8)) (sym i)
          ∙ stored_out q out
    ]
      where
        past : q / 8 ≡ first + 8 → (q < q0) ⊎ (q0 + len ≤ q) → tail ≤ q % 8
        past i (inl h) = absurd (omega arith)
        past i (inr h) = omega arith

  insert_intel_lem : insert_intel bytes q0 len value ≡ (if spanned == 9 then finished else stored)
  unfolding insert_intel
  insert_intel_lem = rw (bit_mask_lem len most) refl

  -- The run has nine bytes exactly if it passes the sixty-fourth bit.
  either :
      (P : List ℕ → Type 0)
      → (64 < off + len → P finished)
      → (off + len ≤ 64 → P stored)
      → P (insert_intel bytes q0 len value)
  either P f g =
      subst⁻¹ P insert_intel_lem
        (if_intro P (spanned == 9) finished stored (λ e. f (ground arith)) (λ e. g (ground arith)))

  -- The bits of the run become the value's, and all others stay.
  pub insert_intel-in :
      (q : ℕ)
      → q0 ≤ q
      → q < q0 + len
      → bit_of (insert_intel bytes q0 len value) q ≡ digit value (q - q0)
  insert_intel-in q lo hi =
      either (λ xs. bit_of xs q ≡ digit value (q - q0)) (λ far. finished_in far q lo hi)
        (λ near. stored_in q lo hi (omega arith))

  pub insert_intel-out :
      (q : ℕ)
      → (q < q0) ⊎ (q0 + len ≤ q)
      → bit_of (insert_intel bytes q0 len value) q ≡ bit_of bytes q
  insert_intel-out q out =
      either (λ xs. bit_of xs q ≡ bit_of bytes q) (λ far. finished_out far q out)
        (λ near. stored_out q out)

  stored-AreBytes : AreBytes stored
  stored-AreBytes = store_le-AreBytes bytes small first head word

  -- The payload stays one of bytes, of the same length.
  pub insert_intel-AreBytes : AreBytes (insert_intel bytes q0 len value)
  insert_intel-AreBytes =
      either AreBytes
        (λ far. set-AreBytes stored stored-AreBytes (first + 8) joined (
          bit_or-lt 8 (bit_and last (2 ^ 8 - 1 - (2 ^ tail - 1) % 2 ^ 8)) tail_bits
            (omega (
              arith,
              stored-AreBytes (first + 8),
              bit_and-le last last (2 ^ 8 - 1 - (2 ^ tail - 1) % 2 ^ 8) (omega arith),
            ))
            (mod-lt _ (two-pow-pos 8))))
        (λ near. stored-AreBytes)

  pub length-insert_intel : length (insert_intel bytes q0 len value) ≡ length bytes
  length-insert_intel =
      either (λ xs. length xs ≡ length bytes)
        (λ far. length-set stored (first + 8) joined ∙ length-store_le bytes first word head)
        (λ near. length-store_le bytes first word head)
