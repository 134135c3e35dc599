-- ===== src/Core/CanId/Order.antt =====
-- What `arbitration_key` orders: valid identifiers, as the wire does.
use canforge.Base.{
  ℕ, ◌+◌, ◌*◌, ◌/◌, ◌%◌, ◌^◌, ◌<◌, ◌≡◌, true, false, bit_or, arith, ◌⊎◌, if◌then◌else◌, ◌↔◌,
}
use canforge.Base.Bits.{bit_or_join, bit_or-zero, bit_and-low_mask}
use canforge.Core.CanId.{CanId, make, is_extended, id_value, arbitration_key, beats}
use canforge.Core.CanId.Packing.{
  IsValid, is_standard, is_extended_format, id_value-standard, id_value-extended,
  is_extended-standard, is_extended-extended,
}

-- The three parts that are compared on the wire one after the other: the 11 base bits, the IDE bit
-- (dominant in a standard frame), the 18 bits of the extension.
abbrev pub base_id : CanId → ℕ
base_id c = if is_extended c then id_value c / 2 ^ 18 else id_value c

abbrev pub extension : CanId → ℕ
extension c = id_value c % 2 ^ 18

abbrev pub WinsOnTheWire : CanId → CanId → Type 0
WinsOnTheWire a b =
    (base_id a < base_id b)
    ⊎ ((base_id a ≡ base_id b)
        × ((is_extended a ≡ false) × (is_extended b ≡ true)
            ⊎ (is_extended a ≡ true) × (is_extended b ≡ true) × (extension a < extension b)))

key-standard : (id : ℕ) → id < 2 ^ 11 → arbitration_key (make id false) ≡ id * 2 ^ 19
unfolding arbitration_key
key-standard id h =
    rw (is_extended-standard id h, id_value-standard id h)
      (omega (arith, bit_or-zero (bit_or (id * 2 ^ 19) 0), bit_or-zero (id * 2 ^ 19)))

key-extended :
    (id : ℕ)
    → id < 2 ^ 29
    → arbitration_key (make id true) ≡ id / 2 ^ 18 * 2 ^ 19 + 2 ^ 18 + id % 2 ^ 18
unfolding arbitration_key
key-extended id h =
    rw
      (
        is_extended-extended id h,
        id_value-extended id h,
        bit_and-low_mask 18 id,
        bit_or_join 19 (id / 2 ^ 18) (2 ^ 18) (omega arith),
      )
      (let e : id / 2 ^ 18 * 2 ^ 19 + 2 ^ 18 ≡ (id / 2 ^ 18 * 2 + 1) * 2 ^ 18 = omega arith in
        rw e (bit_or_join 18 (id / 2 ^ 18 * 2 + 1) (id % 2 ^ 18) (omega arith)))

-- Distinct valid identifiers never tie.
pub arbitration_key-injective :
    (a b : CanId) → IsValid a → IsValid b → arbitration_key a ≡ arbitration_key b → a ≡ b
arbitration_key-injective _ _ (is_standard i p) (is_standard j q) h =
    let e : i ≡ j = omega (arith, key-standard i p, key-standard j q) in rw e
arbitration_key-injective _ _ (is_standard i p) (is_extended_format j q) h =
    absurd (omega (arith, key-standard i p, key-extended j q))
arbitration_key-injective _ _ (is_extended_format i p) (is_standard j q) h =
    absurd (omega (arith, key-extended i p, key-standard j q))
arbitration_key-injective _ _ (is_extended_format i p) (is_extended_format j q) h =
    let e : i ≡ j = omega (arith, key-extended i p, key-extended j q) in rw e

-- `operator<` on valid identifiers is the outcome of arbitration on the wire.
pub beats-WinsOnTheWire :
    (a b : CanId) → IsValid a → IsValid b → (beats a b ≡ true) ↔ WinsOnTheWire a b
unfolding beats
beats-WinsOnTheWire _ _ (is_standard i p) (is_standard j q) = ground (
  arith,
  key-standard i p,
  key-standard j q,
  is_extended-standard i p,
  is_extended-standard j q,
  id_value-standard i p,
  id_value-standard j q,
)
beats-WinsOnTheWire _ _ (is_standard i p) (is_extended_format j q) = ground (
  arith,
  key-standard i p,
  key-extended j q,
  is_extended-standard i p,
  is_extended-extended j q,
  id_value-standard i p,
  id_value-extended j q,
)
beats-WinsOnTheWire _ _ (is_extended_format i p) (is_standard j q) = ground (
  arith,
  key-extended i p,
  key-standard j q,
  is_extended-extended i p,
  is_extended-standard j q,
  id_value-extended i p,
  id_value-standard j q,
)
beats-WinsOnTheWire _ _ (is_extended_format i p) (is_extended_format j q) = ground (
  arith,
  key-extended i p,
  key-extended j q,
  is_extended-extended i p,
  is_extended-extended j q,
  id_value-extended i p,
  id_value-extended j q,
)
