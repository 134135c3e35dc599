-- ===== src/Core/CanId/Packing.antt =====
-- The packed word as arithmetic, and back from the word to the identifier.
use canforge.Base.{
  ℕ, ◌+◌, ◌^◌, ◌<◌, ◌≡◌, refl, sym, ◌∙◌, true, false, bit_and, bit_or, arith, inl, inr, ltb,
  if◌then◌else◌, Bool-cases,
}
use canforge.Base.Bits.{
  bit_or_join, bit_or_comm, bit_and-low_mask, bit_and-single, digit, digit_above,
}
use canforge.Core.Result.{ok}
use canforge.Core.CanId.{
  CanId, make, eff_flag, standard, extended, standard_id_max, extended_id_max, is_extended,
  id_value, from_packed,
}

-- What the two constructors can produce.
pub data IsValid : CanId → Type 0 where
  is_standard : (id : ℕ) → id < 2 ^ 11 → IsValid (make id false)
  is_extended_format : (id : ℕ) → id < 2 ^ 29 → IsValid (make id true)

-- The extended format as a sum.
pub extended_packed : (id : ℕ) → id < 2 ^ 29 → bit_or id eff_flag ≡ eff_flag + id
extended_packed id h = bit_or_comm id eff_flag ∙ bit_or_join 31 1 id (omega arith)

pub id_value-standard : (id : ℕ) → id < 2 ^ 11 → id_value (make id false) ≡ id
unfolding id_value
id_value-standard id h = omega (arith, bit_and-low_mask 29 id)

pub id_value-extended : (id : ℕ) → id < 2 ^ 29 → id_value (make id true) ≡ id
unfolding id_value
id_value-extended id h =
    rw (extended_packed id h) (omega (arith, bit_and-low_mask 29 (eff_flag + id)))

pub is_extended-standard : (id : ℕ) → id < 2 ^ 11 → is_extended (make id false) ≡ false
unfolding is_extended
is_extended-standard id h =
    let e : bit_and id eff_flag ≡ 0 = omega (arith, bit_and-single 31 id, digit_above id 11 31 h) in
    rw e

pub is_extended-extended : (id : ℕ) → id < 2 ^ 29 → is_extended (make id true) ≡ true
unfolding is_extended digit
is_extended-extended id h =
    let e : bit_and (eff_flag + id) eff_flag ≡ eff_flag =
      omega (arith, bit_and-single 31 (eff_flag + id)) in
    rw (extended_packed id h, e)

-- `from_packed` looks at the format bit and the number only.
from_packed-cases :
    (c : CanId)
    → from_packed c.packed
      ≡ (if is_extended c then extended (id_value c) else standard (id_value c))
unfolding from_packed is_extended id_value
from_packed-cases c = refl

-- A valid identifier read back from its packed word is itself: the format bit and the number are
-- both kept.
pub from_packed-packed : (c : CanId) → IsValid c → from_packed c.packed ≡ ok c
unfolding standard extended
from_packed-packed _ (is_standard id h) =
    from_packed-cases (make id false)
    ∙ rw (is_extended-standard id h, id_value-standard id h) (ground arith)
from_packed-packed _ (is_extended_format id h) =
    from_packed-cases (make id true)
    ∙ rw (is_extended-extended id h, id_value-extended id h) (ground arith)

standard-IsValid : (id : ℕ) (c : CanId) → standard id ≡ ok c → IsValid c
unfolding standard
standard-IsValid id c h = elim (Bool-cases (ltb standard_id_max id)) [
  | inl big ↦ cc
  | inr fits ↦ let e : make id false ≡ c = ground arith in rw (← e) (is_standard id (ground arith))
]

extended-IsValid : (id : ℕ) (c : CanId) → extended id ≡ ok c → IsValid c
unfolding extended
extended-IsValid id c h = elim (Bool-cases (ltb extended_id_max id)) [
  | inl big ↦ cc
  | inr fits ↦
      let e : make id true ≡ c = ground arith in rw (← e) (is_extended_format id (ground arith))
]

-- Whatever the 32-bit word, an identifier that `from_packed` accepts is in range.
pub from_packed-IsValid : (w : ℕ) (c : CanId) → from_packed w ≡ ok c → IsValid c
from_packed-IsValid w c h =
    let raw : CanId = record { packed = w } in
    let g = sym (from_packed-cases raw) ∙ h in
    elim (Bool-cases (is_extended raw)) [
      | inl e ↦ extended-IsValid (id_value raw) c (rw (e, ◌≡◌) at g)
      | inr e ↦ standard-IsValid (id_value raw) c (rw e at g)
    ]
