-- ===== src/Transport/Inflate/Kraft.antt =====
-- Huffman::build() accepts exactly the code lengths that a prefix code can have.
use canforge.Base.{
  ℕ, zero, suc, ◌+◌, ◌-◌, ◌*◌, ◌%◌, ◌^◌, ◌≤◌, ◌<◌, ◌≡◌, refl, sym, ap, ◌∙◌, arith, Bool, true,
  false, Bool-cases, inl, inr, ltb, leb, ◌==◌, if◌then◌else◌, ◌&&◌, List, [], ◌∷◌, length,
  length-set, drop, set, get_or, replicate,
}
use native.Mathlib.Nat.{pow-suc, mul_assoc, add-mul, mul-le-mul_right}
use canforge.Base.Bits.{two-pow-pos}
use canforge.Core.Result.{Result, ok, err, ◌>>=◌}
use canforge.Transport.Inflate.BitReader.{Huffman}
use canforge.Transport.Inflate.Huffman.{bad, tally, subscribe, build, place, offsets_from}

abbrev pub is_ok : {A : Type 0} → Result A → Bool
is_ok (ok a) = true
is_ok (err e) = false

-- Every length is at most 15 bits.
unfoldable pub are_short : List ℕ → Bool
are_short [] = true
are_short (len ∷ lengths) = let rest = are_short lengths in leb len 15 && rest

-- The sum of Kraft's inequality, times 2^15: a code of `len` bits takes up its share of the
-- words of 15 bits, and the length 0 is no code.
unfoldable pub kraft_sum : List ℕ → ℕ
kraft_sum [] = 0
kraft_sum (len ∷ lengths) = (if len == 0 then 0 else 2 ^ (15 - len)) + kraft_sum lengths

-- The share of the codes that are counted, at the last length's unit.
weight : List ℕ → ℕ
weight [] = 0
weight (count ∷ counts) = count * 2 ^ length counts + weight counts

room-suc : (left n : ℕ) → left * 2 ^ suc n ≡ left * 2 * 2 ^ n
room-suc left n = omega (arith, ap (λ (t : ℕ). left * t) (pow-suc 2 n), mul_assoc left 2 (2 ^ n))

leb-add : (k a b : ℕ) → leb a b ≡ leb (k + a) (k + b)
leb-add k a b = ground arith

leb-false : (a b : ℕ) → b < a → false ≡ leb a b
leb-false a b h = ground arith

subscribe-weight :
    (left : ℕ) (counts : List ℕ)
    → is_ok (subscribe left counts) ≡ leb (weight counts) (left * 2 ^ length counts)
unfolding subscribe weight
subscribe-weight left [] = ground arith
subscribe-weight left (count ∷ counts) =
    let p = 2 ^ length counts in
    let total = room-suc left (length counts) in
    elim (Bool-cases (ltb (left * 2) count)) [
      | inl over ↦
          let one : left * 2 + 1 ≤ count = ground arith in
          rw over (
            leb-false (count * p + weight counts) (left * 2 ^ suc (length counts)) (
              omega (
                arith,
                total,
                mul-le-mul_right p one,
                add-mul (left * 2) 1 p,
                two-pow-pos (length counts),
              )))
      | inr fits ↦
          let parts : count + (left * 2 - count) ≡ left * 2 = ground arith in
          let split : count * p + (left * 2 - count) * p ≡ left * 2 ^ suc (length counts) =
            sym (add-mul count (left * 2 - count) p) ∙ ap (λ (t : ℕ). t * p) parts ∙ sym total in
          rw fits (
            subscribe-weight (left * 2 - count) counts
            ∙ leb-add (count * p) (weight counts) ((left * 2 - count) * p)
            ∙ ap (λ (t : ℕ). leb (count * p + weight counts) t) split)
    ]

weight-set :
    (counts : List ℕ) (i : ℕ)
    → i < length counts
    → weight (set counts i (get_or counts i 0 + 1)) ≡ weight counts + 2 ^ (length counts - 1 - i)
unfolding weight
weight-set [] i h = absurd (omega arith)
weight-set (count ∷ counts) zero h =
    let e : suc (length counts) - 1 - 0 ≡ length counts = omega arith in
    rw e (omega (arith, add-mul count 1 (2 ^ length counts)))
weight-set (count ∷ counts) (suc i) h =
    let e : suc (length counts) - 1 - suc i ≡ length counts - 1 - i = omega arith in
    rw (e, length-set counts i (get_or counts i 0 + 1), weight-set counts i (omega arith))
      (omega arith)

get_or-set_le :
    (counts : List ℕ) (i v j m : ℕ)
    → v ≤ m
    → get_or counts j 0 ≤ m
    → get_or (set counts i v) j 0 ≤ m
get_or-set_le [] i v j m hv h = h
get_or-set_le (c ∷ cs) zero v zero m hv h = hv
get_or-set_le (c ∷ cs) zero v (suc j) m hv h = h
get_or-set_le (c ∷ cs) (suc i) v zero m hv h = h
get_or-set_le (c ∷ cs) (suc i) v (suc j) m hv h = get_or-set_le cs i v j m hv h

-- The counts of the lengths from 1 on.
coded : List ℕ → ℕ
unfolding weight
coded counts = weight (drop 1 counts)

coded-set :
    (counts : List ℕ) (len : ℕ)
    → length counts ≡ 16
    → len ≤ 15
    → coded (set counts len (get_or counts len 0 + 1))
      ≡ coded counts + (if len == 0 then 0 else 2 ^ (15 - len))
unfolding coded
coded-set [] len n h = absurd (omega arith)
coded-set (c ∷ cs) zero n h = omega arith
coded-set (c ∷ cs) (suc i) n h =
    let l : length cs ≡ 15 = omega arith in
    let e : length cs - 1 - i ≡ 15 - suc i = omega arith in
    let z : (if suc i == 0 then 0 else 2 ^ (15 - suc i)) ≡ 2 ^ (15 - suc i) = ground arith in
    weight-set cs i (omega arith) ∙ ap (λ (t : ℕ). weight cs + t) (ap (λ (t : ℕ). 2 ^ t) e ∙ sym z)

-- What the first loop makes of lengths that are all short: 16 counts with the lengths' shares.
record IsTally (counts lengths : List ℕ) (r : Result (List ℕ)) : Type 0 where
  pub all : List ℕ
  pub result : r ≡ ok all
  pub size : length all ≡ 16
  pub shares : coded all ≡ coded counts + kraft_sum lengths

tally-IsTally :
    (counts lengths : List ℕ) (m : ℕ)
    → length counts ≡ 16
    → ((i : ℕ) → get_or counts i 0 ≤ m)
    → m + length lengths < 2 ^ 16
    → are_short lengths ≡ true
    → IsTally counts lengths (tally counts lengths)
unfolding tally are_short kraft_sum
tally-IsTally counts [] m n most few short = record {
  all = counts;
  result = refl;
  size = n;
  shares = omega arith;
}
tally-IsTally counts (len ∷ lengths) m n most few short =
    let low : len ≤ 15 = ground arith in
    let c = get_or counts len 0 in
    let exact : (c + 1) % 2 ^ 16 ≡ c + 1 = omega (arith, most len) in
    let next = set counts len (c + 1) in
    let rest =
      tally-IsTally next lengths (suc m) (omega (arith, length-set counts len (c + 1)))
        (λ i.
          get_or-set_le counts len (c + 1) i (suc m) (omega (arith, most len))
            (omega (arith, most i)))
        (omega arith) (ground (arith, short)) in
    let within : ltb 15 len ≡ false = ground arith in
    record {
      all = rest.all;
      result = rw within (ap (λ (t : ℕ). tally (set counts len t) lengths) exact ∙ rest.result);
      size = rest.size;
      shares = omega (arith, rest.shares, coded-set counts len n low);
    }

tally_long : (counts lengths : List ℕ) → are_short lengths ≡ false → tally counts lengths ≡ err bad
unfolding tally are_short
tally_long counts [] h = absurd (cc h)
tally_long counts (len ∷ lengths) h =
    let c = get_or counts len 0 in
    elim (Bool-cases (ltb 15 len)) [
      | inl over ↦ rw over refl
      | inr fine ↦
          rw fine (tally_long (set counts len ((c + 1) % 2 ^ 16)) lengths (ground (arith, h, fine)))
    ]

coded_empty : coded (replicate 16 0) ≡ 0
unfolding coded weight
coded_empty = refl

get_or-zeros : (n i : ℕ) → get_or (replicate n 0) i 0 ≤ 0
get_or-zeros zero i = omega arith
get_or-zeros (suc n) zero = omega arith
get_or-zeros (suc n) (suc i) = get_or-zeros n i

built : (x : Result (Unit {0})) (h : Huffman) → is_ok (x >>= λ _. ok h) ≡ is_ok x
built (ok a) h = refl
built (err e) h = refl

-- From the counts on.
build_of : List ℕ → List ℕ → Result Huffman
build_of all lengths =
    let counts = set all 0 0 in
    subscribe 1 (drop 1 counts) >>= λ _. ok (record {
      counts = counts;
      symbols =
          place (offsets_from counts (replicate 16 0) 1 14) (replicate (length lengths) 0) lengths
            0;
    })

build_of-is_ok :
    (all lengths : List ℕ)
    → length all ≡ 16
    → is_ok (build_of all lengths) ≡ leb (coded all) (2 ^ 15)
unfolding build_of coded
build_of-is_ok [] lengths n = absurd (omega arith)
build_of-is_ok (c ∷ cs) lengths n =
    let l : length cs ≡ 15 = omega arith in
    built (subscribe 1 cs) _ ∙ subscribe-weight 1 cs ∙ ap (λ (t : ℕ). leb (weight cs) (1 * 2 ^ t)) l

-- Of fewer than 65536 code lengths, build() accepts exactly those that are all at most 15 and that
-- satisfy Kraft's inequality, as the lengths of a prefix code do: over-subscribed ones are refused,
-- incomplete ones are accepted.
pub build-is_ok :
    (lengths : List ℕ)
    → length lengths < 2 ^ 16
    → is_ok (build lengths) ≡ are_short lengths && leb (kraft_sum lengths) (2 ^ 15)
unfolding build build_of
build-is_ok lengths few = elim (Bool-cases (are_short lengths)) [
  | inl short ↦
      let t = tally-IsTally (replicate 16 0) lengths 0 refl (get_or-zeros 16) (omega arith) short in
      rw (t.result, short)
        (build_of-is_ok t.all lengths t.size
          ∙ ap (λ (w : ℕ). leb w (2 ^ 15)) (t.shares ∙ omega (arith, coded_empty)))
  | inr long ↦ rw (tally_long (replicate 16 0) lengths long, long) refl
]
