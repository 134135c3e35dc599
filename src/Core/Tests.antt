-- ===== src/Core/Tests.antt =====
-- Runs of the core library on concrete frames and identifiers.
use canforge.Base.{
  zero, suc, ◌%◌, ◌^◌, ℕ, ◌≡◌, ◌↔◌, refl, arith, true, false, some, List, [], ◌∷◌, ◌++◌, take, drop,
  replicate, length,
}
use canforge.Core.Result.{ok}
use canforge.Core.CanId.{CanId, make, from_packed, beats}
use canforge.Core.CanId.Packing.{
  IsValid, is_standard, is_extended_format, from_packed-packed, from_packed-IsValid,
}
use canforge.Core.CanId.Order.{WinsOnTheWire, beats-WinsOnTheWire, arbitration_key-injective}
use canforge.Core.Signal.{
  SignalLayout, ByteOrder, Signedness, ValueType, canonical_start, canonical_end, decode_raw,
  decode_raw_reference, encode_raw, encode_raw_reference, fits,
}
use canforge.Core.Signal.Intel.{AreBytes, decode_raw-decode_raw_reference}
use canforge.Core.Signal.ByBit.{encode_raw-encode_raw_reference}
use canforge.Core.Signal.Roundtrip.{decode_raw-encode_raw}
use canforge.Core.Signal.Motorola.{decode_raw-decode_raw_reference_motorola}
use canforge.Core.Frame
use canforge.Core.Frame.{BasicFrame, DlcFit, length_to_dlc, from_wire, size}
use canforge.Core.Frame.Dlc.{Fits, length_to_dlc-Fits}
use canforge.Core.Frame.Laws.{make_lem, from_wire-make}

abbrev engine : CanId
engine = make 0x123 false

abbrev vehicle : CanId
vehicle = make 0x18DB33F1 true

engine-IsValid : IsValid engine
engine-IsValid = is_standard 0x123 (omega arith)

vehicle-IsValid : IsValid vehicle
vehicle-IsValid = is_extended_format 0x18DB33F1 (omega arith)

from_packed-packed_example : from_packed vehicle.packed ≡ ok vehicle
from_packed-packed_example = from_packed-packed vehicle vehicle-IsValid

from_packed_run : from_packed 0x98DB33F1 ≡ ok vehicle
unfolding from_packed
from_packed_run = refl

from_packed-IsValid_example : IsValid vehicle
from_packed-IsValid_example = from_packed-IsValid 0x98DB33F1 vehicle from_packed_run

beats-WinsOnTheWire_example : (beats engine vehicle ≡ true) ↔ WinsOnTheWire engine vehicle
beats-WinsOnTheWire_example = beats-WinsOnTheWire engine vehicle engine-IsValid vehicle-IsValid

arbitration_key-injective_example : engine ≡ engine
arbitration_key-injective_example =
    arbitration_key-injective engine engine engine-IsValid engine-IsValid refl

length_to_dlc-Fits_example : (fit : DlcFit) × (length_to_dlc 20 true ≡ ok fit) × Fits 20 true fit
length_to_dlc-Fits_example = length_to_dlc-Fits 20 true (omega arith)

abbrev payload : List ℕ
payload = 0x11 ∷ 0x22 ∷ 0x33 ∷ []

abbrev three_bytes : BasicFrame
three_bytes = record {
  timestamp_ns = 5;
  id = engine;
  dlc = 3;
  flags = 0;
  bytes = 0x11 ∷ 0x22 ∷ 0x33 ∷ 0 ∷ 0 ∷ 0 ∷ 0 ∷ 0 ∷ [];
}

make_run : Frame.make 8 engine (some payload) 3 0 5 ≡ ok three_bytes
unfolding Frame.make Frame.validate_flags Frame.has_flag length_to_dlc
make_run = refl

make_lem_example :
    (size three_bytes ≡ 3)
    × (three_bytes.bytes ≡ take 3 payload ++ drop 3 (replicate 8 0))
    × (length three_bytes.bytes ≡ 8)
    × (three_bytes.id ≡ engine)
    × (three_bytes.flags ≡ 0)
    × (three_bytes.timestamp_ns ≡ 5)
make_lem_example = make_lem 8 engine payload 3 0 5 three_bytes make_run (omega arith)

from_wire-make_example : from_wire 8 engine 3 (some payload) 0 5 ≡ ok three_bytes
from_wire-make_example = from_wire-make 8 engine payload 3 0 5 three_bytes make_run

-- A signal of 64 bits from bit 4 on touches nine bytes.
abbrev wide_signal : SignalLayout
wide_signal = record {
  start_bit = 4;
  bit_length = 64;
  byte_order = ByteOrder.intel;
  signedness = Signedness.unsigned;
  value_type = ValueType.integer;
}

abbrev nine_bytes : List ℕ
nine_bytes = 0x10 ∷ 0x32 ∷ 0x54 ∷ 0x76 ∷ 0x98 ∷ 0xBA ∷ 0xDC ∷ 0xFE ∷ 0x0F ∷ []

nine_bytes-AreBytes : AreBytes nine_bytes
nine_bytes-AreBytes zero = omega arith
nine_bytes-AreBytes (suc zero) = omega arith
nine_bytes-AreBytes (suc (suc zero)) = omega arith
nine_bytes-AreBytes (suc (suc (suc zero))) = omega arith
nine_bytes-AreBytes (suc (suc (suc (suc zero)))) = omega arith
nine_bytes-AreBytes (suc (suc (suc (suc (suc zero))))) = omega arith
nine_bytes-AreBytes (suc (suc (suc (suc (suc (suc zero)))))) = omega arith
nine_bytes-AreBytes (suc (suc (suc (suc (suc (suc (suc zero))))))) = omega arith
nine_bytes-AreBytes (suc (suc (suc (suc (suc (suc (suc (suc zero)))))))) = omega arith
nine_bytes-AreBytes (suc (suc (suc (suc (suc (suc (suc (suc (suc i))))))))) = omega arith

decode_raw-decode_raw_reference_example :
    decode_raw wide_signal nine_bytes ≡ decode_raw_reference wide_signal nine_bytes
decode_raw-decode_raw_reference_example =
    decode_raw-decode_raw_reference wide_signal nine_bytes nine_bytes-AreBytes refl (omega arith)

abbrev wide_motorola : SignalLayout
wide_motorola = record wide_signal { start_bit = 3; byte_order = ByteOrder.motorola }

decode_raw-decode_raw_reference_motorola_example :
    decode_raw wide_motorola nine_bytes ≡ decode_raw_reference wide_motorola nine_bytes
decode_raw-decode_raw_reference_motorola_example =
    decode_raw-decode_raw_reference_motorola wide_motorola nine_bytes nine_bytes-AreBytes refl
      (omega arith)

wide_signal_fits : fits wide_signal 9 ≡ true
unfolding fits canonical_start canonical_end
wide_signal_fits = refl

decode_raw-encode_raw_example :
    decode_raw wide_signal (encode_raw wide_signal 0x0123456789ABCDEF nine_bytes)
    ≡ 0x0123456789ABCDEF % 2 ^ 64
decode_raw-encode_raw_example =
    decode_raw-encode_raw wide_signal 0x0123456789ABCDEF nine_bytes nine_bytes-AreBytes refl
      wide_signal_fits

encode_raw-encode_raw_reference_example :
    encode_raw wide_signal 0x0123456789ABCDEF nine_bytes
    ≡ encode_raw_reference wide_signal 0x0123456789ABCDEF nine_bytes
encode_raw-encode_raw_reference_example =
    encode_raw-encode_raw_reference wide_signal 0x0123456789ABCDEF nine_bytes nine_bytes-AreBytes
      refl wide_signal_fits
