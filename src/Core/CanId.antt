-- ===== src/Core/CanId.antt =====
-- class CanId of core/include/canforge/core/Frame.hpp and core/src/Frame.cpp: an identifier packed
-- into a 32-bit word, with bit 31 for the extended format.
pub mod Order
pub mod Packing
use canforge.Base.{
  ℕ, ◌+◌, ◌*◌, ◌/◌, ◌^◌, ◌≡◌, Bool, true, false, not, ltb, leb, ◌==◌, if◌then◌else◌, ◌&&◌, bit_and,
  bit_or,
}
use canforge.Core.Result.{Result, ok, err, error_at, ErrorCode}

abbrev pub standard_id_max : ℕ
standard_id_max = 0x7FF

abbrev pub extended_id_max : ℕ
extended_id_max = 0x1FFFFFFF

abbrev pub eff_flag : ℕ
eff_flag = 0x80000000

pub record CanId : Type 0 where
  pub packed : ℕ

-- The private constructor.
abbrev pub make : ℕ → Bool → CanId
make id extended = record { packed = if extended then bit_or id eff_flag else id }

unfoldable pub standard : ℕ → Result CanId
standard id =
    if ltb standard_id_max id
    then err (error_at ErrorCode.frame_bad_identifier id standard_id_max)
    else ok (make id false)

unfoldable pub extended : ℕ → Result CanId
extended id =
    if ltb extended_id_max id
    then err (error_at ErrorCode.frame_bad_identifier id extended_id_max)
    else ok (make id true)

unfoldable pub is_extended : CanId → Bool
is_extended c = not (bit_and c.packed eff_flag == 0)

unfoldable pub id_value : CanId → ℕ
id_value c = bit_and c.packed extended_id_max

unfoldable pub from_packed : ℕ → Result CanId
unfolding standard extended
from_packed packed =
    let id = bit_and packed extended_id_max in
    if not (bit_and packed eff_flag == 0) then extended id else standard id

unfoldable pub bit_count : CanId → ℕ
unfolding is_extended
bit_count c = if is_extended c then 29 else 11

unfoldable pub violates_base_id_rule : CanId → Bool
unfolding is_extended id_value
violates_base_id_rule c = not (is_extended c) && leb 0x7F0 (id_value c)

-- Lower wins. The three parts do not overlap.
unfoldable pub arbitration_key : CanId → ℕ
arbitration_key c =
    let base = if is_extended c then id_value c / 2 ^ 18 else id_value c in
    let ide = if is_extended c then 1 else 0 in
    let ext = if is_extended c then bit_and (id_value c) 0x3FFFF else 0 in
    bit_or (bit_or (base * 2 ^ 19) (ide * 2 ^ 18)) ext

-- operator< and operator==
unfoldable pub beats : CanId → CanId → Bool
unfolding arbitration_key
beats a b = ltb (arbitration_key a) (arbitration_key b)

unfoldable pub same_id : CanId → CanId → Bool
same_id a b = a.packed == b.packed
