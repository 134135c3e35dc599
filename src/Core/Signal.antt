-- ===== src/Core/Signal.antt =====
-- The raw codec of core/include/canforge/core/Signal.hpp and core/src/Signal.cpp: where a signal
-- stands in a payload, reading it and writing it a word at a time and a bit at a time. A payload is
-- a list of bytes. The members of SignalLayout in floating point are left out.
pub mod ByBit
pub mod Intel
pub mod Motorola
pub mod OneBit
pub mod Roundtrip
pub mod Store
pub mod Writing
use canforge.Base.{
  ℕ, zero, suc, ◌+◌, ◌-◌, ◌*◌, ◌/◌, ◌%◌, ◌^◌, ◌≡◌, min, Bool, true, false, not, ltb, leb, ◌==◌,
  if◌then◌else◌, ◌&&◌, ◌||◌, bit_and, bit_or, List, [], ◌∷◌, get_or, set,
}

-- The low `len` bits.
unfoldable pub bit_mask : ℕ → ℕ
bit_mask len = if leb 64 len then 2 ^ 64 - 1 else 2 ^ len - 1

pub data ByteOrder : Type 0 where
  motorola intel : ByteOrder

pub data Signedness : Type 0 where
  unsigned signed : Signedness

pub data ValueType : Type 0 where
  integer float_32 float_64 : ValueType

pub record SignalLayout : Type 0 where
  pub start_bit : ℕ
  pub bit_length : ℕ
  pub byte_order : ByteOrder
  pub signedness : Signedness
  pub value_type : ValueType

abbrev pub is_intel : ByteOrder → Bool
is_intel ByteOrder.intel = true
is_intel ByteOrder.motorola = false

unfoldable pub canonical_start : SignalLayout → ℕ
canonical_start l =
    if is_intel l.byte_order then l.start_bit else l.start_bit / 8 * 8 + (7 - l.start_bit % 8)

unfoldable pub canonical_end : SignalLayout → ℕ
unfolding canonical_start
canonical_end l = canonical_start l + l.bit_length

unfoldable pub fits : SignalLayout → ℕ → Bool
unfolding canonical_end
fits l payload_bytes =
    leb 1 l.bit_length && leb l.bit_length 64 && leb (canonical_end l) (payload_bytes * 8)

abbrev pub spanned_bytes : ℕ → ℕ → ℕ
spanned_bytes off len = (off + len + 7) / 8

-- `<<` on uint64_t.
abbrev pub shl64 : ℕ → ℕ → ℕ
shl64 x s = x * 2 ^ s % 2 ^ 64

-- `data + at` is the list with the index `at`.
unfoldable pub load_le : List ℕ → ℕ → ℕ → ℕ
load_le bytes at zero = 0
load_le bytes at (suc n) = bit_or (load_le bytes at n) (shl64 (get_or bytes (at + n) 0) (8 * n))

unfoldable pub store_le : List ℕ → ℕ → ℕ → ℕ → List ℕ
store_le bytes at zero v = bytes
store_le bytes at (suc n) v = set (store_le bytes at n v) (at + n) (bit_and (v / 2 ^ (8 * n)) 0xFF)

unfoldable pub load_be : List ℕ → ℕ → ℕ → ℕ
load_be bytes at zero = 0
load_be bytes at (suc n) = bit_or (shl64 (load_be bytes at n) 8) (get_or bytes (at + n) 0)

-- The first `count` of the `n` bytes.
store_be_upto : List ℕ → ℕ → ℕ → ℕ → ℕ → List ℕ
store_be_upto bytes at n zero v = bytes
store_be_upto bytes at n (suc i) v =
    set (store_be_upto bytes at n i v) (at + i) (bit_and (v / 2 ^ (8 * (n - 1 - i))) 0xFF)

unfoldable pub store_be : List ℕ → ℕ → ℕ → ℕ → List ℕ
unfolding store_be_upto
store_be bytes at n v = store_be_upto bytes at n n v

-- `~` on uint64_t and on uint8_t.
abbrev pub not64 : ℕ → ℕ
not64 x = 2 ^ 64 - 1 - x

abbrev pub not8 : ℕ → ℕ
not8 x = 2 ^ 8 - 1 - x

unfoldable pub extract_intel : List ℕ → ℕ → ℕ → ℕ
extract_intel bytes q0 len =
    let first = q0 / 8 in
    let off = q0 % 8 in
    let nb = spanned_bytes off len in
    let raw = load_le bytes first (min nb 8) / 2 ^ off in
    let wide = bit_or raw (shl64 (get_or bytes (first + 8) 0) (64 - off)) in
    bit_and (if nb == 9 then wide else raw) (bit_mask len)

unfoldable pub insert_intel : List ℕ → ℕ → ℕ → ℕ → List ℕ
insert_intel bytes q0 len value =
    let first = q0 / 8 in
    let off = q0 % 8 in
    let nb = spanned_bytes off len in
    let head = min nb 8 in
    let v = bit_and value (bit_mask len) in
    let window = shl64 (bit_mask len) off in
    let acc = load_le bytes first head in
    let stored =
      store_le bytes first head
        (bit_or (bit_and acc (not64 window)) (bit_and (shl64 v off) window)) in
    let tail = off + len - 64 in
    let tail_mask = (2 ^ tail - 1) % 2 ^ 8 in
    let tail_bits = bit_and (v / 2 ^ (len - tail)) tail_mask % 2 ^ 8 in
    let last = get_or stored (first + 8) 0 in
    if nb == 9
    then set stored (first + 8) (bit_or (bit_and last (not8 tail_mask)) tail_bits)
    else stored

unfoldable pub extract_motorola : List ℕ → ℕ → ℕ → ℕ
extract_motorola bytes q0 len =
    let first = q0 / 8 in
    let off = q0 % 8 in
    let nb = spanned_bytes off len in
    let tail = off + len - 64 in
    if leb nb 8
    then bit_and (load_be bytes first nb / 2 ^ (nb * 8 - off - len)) (bit_mask len)
    else bit_and
        (bit_or (shl64 (load_be bytes first 8) tail) (get_or bytes (first + 8) 0 / 2 ^ (8 - tail)))
        (bit_mask len)

unfoldable pub insert_motorola : List ℕ → ℕ → ℕ → ℕ → List ℕ
insert_motorola bytes q0 len value =
    let first = q0 / 8 in
    let off = q0 % 8 in
    let nb = spanned_bytes off len in
    let v = bit_and value (bit_mask len) in
    let shift = nb * 8 - off - len in
    let narrow = shl64 (bit_mask len) shift in
    let tail = off + len - 64 in
    let window = bit_mask ((len - tail) % 2 ^ 8) in
    let stored =
      store_be bytes first 8
        (bit_or (bit_and (load_be bytes first 8) (not64 window)) (bit_and (v / 2 ^ tail) window)) in
    let tail_mask = 0xFF * 2 ^ (8 - tail) % 2 ^ 8 in
    let tail_bits = bit_and (shl64 v (8 - tail)) tail_mask % 2 ^ 8 in
    let last = get_or stored (first + 8) 0 in
    if leb nb 8
    then store_be bytes first nb
        (bit_or (bit_and (load_be bytes first nb) (not64 narrow)) (bit_and (shl64 v shift) narrow))
    else set stored (first + 8) (bit_or (bit_and last (not8 tail_mask)) tail_bits)

unfoldable pub decode_raw : SignalLayout → List ℕ → ℕ
decode_raw l bytes =
    if is_intel l.byte_order
    then extract_intel bytes (canonical_start l) l.bit_length
    else extract_motorola bytes (canonical_start l) l.bit_length

unfoldable pub encode_raw : SignalLayout → ℕ → List ℕ → List ℕ
encode_raw l raw bytes =
    if is_intel l.byte_order
    then insert_intel bytes (canonical_start l) l.bit_length raw
    else insert_motorola bytes (canonical_start l) l.bit_length raw

-- address_of(): the byte and the bit of a canonical position.
abbrev pub bit_address : ℕ → ByteOrder → ℕ
bit_address q order = if is_intel order then q % 8 else 7 - q % 8

unfoldable pub bit_at : List ℕ → ByteOrder → ℕ → ℕ
bit_at bytes order q = bit_and (get_or bytes (q / 8) 0 / 2 ^ bit_address q order) 1

-- The first `k` bits of the loop.
unfoldable pub decode_bits : List ℕ → ByteOrder → ℕ → ℕ → ℕ
decode_bits bytes order q0 zero = 0
decode_bits bytes order q0 (suc k) =
    let raw = decode_bits bytes order q0 k in
    if is_intel order
    then bit_or raw (shl64 (bit_at bytes order (q0 + k)) k)
    else bit_or (shl64 raw 1) (bit_at bytes order (q0 + k))

unfoldable pub decode_raw_reference : SignalLayout → List ℕ → ℕ
decode_raw_reference l bytes = decode_bits bytes l.byte_order (canonical_start l) l.bit_length

-- The shift of the value that brings the run's bit `k` down.
abbrev pub value_shift : SignalLayout → ℕ → ℕ
value_shift l k = if is_intel l.byte_order then k else l.bit_length - 1 - k

-- The first `k` bits of the loop.
unfoldable pub encode_bits : SignalLayout → ℕ → List ℕ → ℕ → List ℕ
encode_bits l raw bytes zero = bytes
encode_bits l raw bytes (suc k) =
    let before = encode_bits l raw bytes k in
    let v = bit_and raw (bit_mask l.bit_length) in
    let byte = (canonical_start l + k) / 8 in
    let bit = bit_and (v / 2 ^ value_shift l k) 1 in
    let mask = 1 * 2 ^ bit_address (canonical_start l + k) l.byte_order % 2 ^ 8 in
    set before byte
      (bit_or (bit_and (get_or before byte 0) (not8 mask)) (if bit == 0 then 0 else mask) % 2 ^ 8)

unfoldable pub encode_raw_reference : SignalLayout → ℕ → List ℕ → List ℕ
encode_raw_reference l raw bytes = encode_bits l raw bytes l.bit_length
