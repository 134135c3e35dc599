-- ===== src/Transport/Bus/Stuffing.antt =====
-- worst_case_stuff_bits() and the time of a classic frame in transport/src/IBus.cpp, beside the bits
-- that go on the wire: after five equal bits the sender puts in one of the other value.
use canforge.Base.{
  ℕ, zero, suc, ◌+◌, ◌*◌, ◌≤◌, ◌<◌, ◌≡◌, refl, ap, arith, Bool, true, false, not, ◌==◌,
  if◌then◌else◌, List, [], ◌∷◌, length, Bool-cases, inl, inr,
}
use canforge.Core.CanId.{is_extended}
use canforge.Core.Frame.{BasicFrame, is_fd, size}
use canforge.Transport.Bus.{
  BusTiming, frame_timing, classic_timing, total_bits, worst_case_stuff_bits,
}

abbrev same_bit : Bool → Bool → Bool
same_bit true true = true
same_bit false false = true
same_bit _ _ = false

-- The wire bits of a sequence, where the last `run` bits before it have the value `last`.
stuff_after : Bool → ℕ → List Bool → List Bool
stuff_after last run [] = []
stuff_after last run (b ∷ bits) =
    let same = stuff_after b (run + 1) bits in
    let fifth = not b ∷ stuff_after (not b) 1 bits in
    let other = stuff_after b 1 bits in
    b ∷ (if same_bit b last then if run == 4 then fifth else same else other)

-- The wire bits of a whole sequence.
pub stuffed : List Bool → List Bool
stuffed [] = []
stuffed (b ∷ bits) = b ∷ stuff_after b 1 bits

stuff_after-le :
    (last : Bool) (run : ℕ) (bits : List Bool)
    → 1 ≤ run
    → run ≤ 4
    → 4 * length (stuff_after last run bits) + 1 ≤ 5 * length bits + run
unfolding stuff_after
stuff_after-le last run [] low high = omega arith
stuff_after-le last run (b ∷ bits) low high = ground (
  arith,
  stuff_after-le b (run + 1) bits,
  stuff_after-le (not b) 1 bits (omega arith) (omega arith),
  stuff_after-le b 1 bits (omega arith) (omega arith),
)

-- The next `n` bits, each equal to the wire bit before it.
repeating_after : Bool → ℕ → ℕ → List Bool
repeating_after last run zero = []
repeating_after last run (suc n) =
    let same = repeating_after last (run + 1) n in
    let fifth = repeating_after (not last) 1 n in last ∷ (if run == 4 then fifth else same)

pub repeating : ℕ → List Bool
repeating zero = []
repeating (suc n) = true ∷ repeating_after true 1 n

length-repeating_after : (last : Bool) (run n : ℕ) → length (repeating_after last run n) ≡ n
unfolding repeating_after
length-repeating_after last run zero = refl
length-repeating_after last run (suc n) =
    ground (arith, length-repeating_after last (run + 1) n, length-repeating_after (not last) 1 n)

length-repeating : (n : ℕ) → length (repeating n) ≡ n
unfolding repeating
length-repeating zero = refl
length-repeating (suc n) = ap suc (length-repeating_after true 1 n)

same_bit_refl : (b : Bool) → same_bit b b ≡ true
same_bit_refl true = refl
same_bit_refl false = refl

-- Such bits are stuffed as often as can be.
repeating_after-stuff :
    (last : Bool) (run n : ℕ)
    → 1 ≤ run
    → run ≤ 4
    → 5 * n + run ≤ 4 * length (stuff_after last run (repeating_after last run n)) + 4
unfolding stuff_after repeating_after
repeating_after-stuff last run zero low high = omega arith
repeating_after-stuff last run (suc n) low high = elim (Bool-cases (run == 4)) [
  | inl e ↦
      let r : run ≡ 4 = ground arith in
      rw (e, same_bit_refl last)
        (omega (arith, r, repeating_after-stuff (not last) 1 n (omega arith) (omega arith)))
  | inr e ↦
      let r : run < 4 = ground arith in
      rw (e, same_bit_refl last)
        (omega (arith, r, repeating_after-stuff last (run + 1) n (omega arith) (omega arith)))
]

stuffed-le :
    (bits : List Bool) → length (stuffed bits) ≤ length bits + worst_case_stuff_bits (length bits)
unfolding stuffed worst_case_stuff_bits
stuffed-le [] = ground arith
stuffed-le (b ∷ bits) = ground (arith, stuff_after-le b 1 bits (omega arith) (omega arith))

stuffed-repeating : (n : ℕ) → n + worst_case_stuff_bits n ≤ length (stuffed (repeating n))
unfolding stuffed repeating worst_case_stuff_bits
stuffed-repeating zero = ground arith
stuffed-repeating (suc n) =
    ground (arith, repeating_after-stuff true 1 n (omega arith) (omega arith))

-- The bits of a classic frame that are stuffed: from the start of frame to the checksum.
unfoldable pub stuffable : BasicFrame → ℕ
stuffable f = (if is_extended f.id then 54 else 34) + 8 * size f

classic_lem :
    (f : BasicFrame) (timing : BusTiming)
    → is_fd f ≡ false
    → total_bits (frame_timing f timing) ≡ stuffable f + worst_case_stuff_bits (stuffable f) + 13
unfolding frame_timing classic_timing stuffable size
classic_lem f timing classic = ground arith

-- For a classic frame, remote frames included, whatever its stuffable bits are (34 in the standard
-- format and 54 in the extended one, and eight for each byte of its payload), stuffing a bit after
-- every five equal ones and the 13 bits of the trailer give at most the bits that frame_timing()
-- counts, and there are bits for which they give exactly these.
pub stuffed-frame_timing :
    (f : BasicFrame) (timing : BusTiming) (bits : List Bool)
    → is_fd f ≡ false
    → length bits ≡ stuffable f
    → (length (stuffed bits) + 13 ≤ total_bits (frame_timing f timing))
      × (length (repeating (stuffable f)) ≡ stuffable f)
      × (length (stuffed (repeating (stuffable f))) + 13 ≡ total_bits (frame_timing f timing))
stuffed-frame_timing f timing bits classic n =
    let n_bits = stuffable f in
    let t = classic_lem f timing classic in
    let l = length-repeating n_bits in
    let upper = stuffed-le (repeating n_bits) in
    let w : worst_case_stuff_bits (length bits) ≡ worst_case_stuff_bits n_bits =
      ap worst_case_stuff_bits n in
    let v : worst_case_stuff_bits (length (repeating n_bits)) ≡ worst_case_stuff_bits n_bits =
      ap worst_case_stuff_bits l in
    (
      omega (arith, t, w, n, stuffed-le bits),
      l,
      omega (arith, t, v, l, upper, stuffed-repeating n_bits),
    )
