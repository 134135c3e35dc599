-- ===== src/Transport/Bus.antt =====
-- transport/include/canforge/transport/IBus.hpp and transport/src/IBus.cpp: the worst-case time of
-- a frame, acceptance filters and the counters. The bit counts are plain numbers: at most 64 bytes
-- keep them far below 32 bits, and their nanoseconds below 64.
pub mod Stuffing
use canforge.Base.{
  ℕ, ◌+◌, ◌-◌, ◌*◌, ◌/◌, ◌≡◌, Bool, true, false, not, ltb, leb, ◌==◌, if◌then◌else◌, ◌&&◌, ◌||◌,
  bit_and, bit_or, List, [], ◌∷◌,
}
use canforge.Core.CanId.{CanId, is_extended, extended_id_max, eff_flag}
use canforge.Core.Frame.{BasicFrame, is_remote, is_fd, is_brs, size}

pub record BusTiming : Type 0 where
  pub nominal_bitrate : ℕ
  pub data_bitrate : ℕ

pub record FrameTiming : Type 0 where
  pub arbitration_bits : ℕ
  pub data_bits : ℕ
  pub stuff_bits : ℕ
  pub nanoseconds : ℕ

abbrev pub total_bits : FrameTiming → ℕ
total_bits t = t.arbitration_bits + t.data_bits

unfoldable pub worst_case_stuff_bits : ℕ → ℕ
worst_case_stuff_bits bits = if bits == 0 then 0 else (bits - 1) / 4

-- `bits` at `rate` bits a second; no rate takes no time.
abbrev time_of : ℕ → ℕ → ℕ
time_of bits rate = if rate == 0 then 0 else bits * 1000000000 / rate

-- CRC delimiter, ACK slot, ACK delimiter, EOF and IFS.
abbrev trailer : ℕ
trailer = 1 + 1 + 1 + 7 + 3

unfoldable pub classic_timing : BasicFrame → BusTiming → FrameTiming
classic_timing f timing =
    let payload_bits = (if is_remote f then 0 else size f) * 8 in
    let stuffable = (if is_extended f.id then 54 else 34) + payload_bits in
    let stuff = worst_case_stuff_bits stuffable in
    let bits = stuffable + trailer + stuff in
    record {
      arbitration_bits = bits;
      data_bits = 0;
      stuff_bits = stuff;
      nanoseconds = time_of bits timing.nominal_bitrate;
    }

unfoldable pub fd_timing : BasicFrame → BusTiming → FrameTiming
fd_timing f timing =
    let length = size f in
    let payload_bits = length * 8 in
    let arbitration_core = if is_extended f.id then 37 else 17 in
    let crc_bits = if ltb 16 length then 21 else 17 in
    let crc_field = crc_bits + 4 in
    let fixed_stuff = crc_field / 4 in
    let dynamic_stuff = worst_case_stuff_bits (arbitration_core + 1 + 4 + payload_bits) in
    let stuff = fixed_stuff + dynamic_stuff in
    let arbitration = arbitration_core + trailer in
    let bits = 1 + 4 + payload_bits + crc_field + stuff in
    let data_rate =
      if is_brs f && not (timing.data_bitrate == 0)
      then timing.data_bitrate
      else timing.nominal_bitrate in
    record {
      arbitration_bits = arbitration;
      data_bits = bits;
      stuff_bits = stuff;
      nanoseconds = time_of arbitration timing.nominal_bitrate + time_of bits data_rate;
    }

unfoldable pub frame_timing : BasicFrame → BusTiming → FrameTiming
frame_timing f timing = if is_fd f then fd_timing f timing else classic_timing f timing

pub record Filter : Type 0 where
  pub id : ℕ
  pub mask : ℕ
  pub invert : Bool
  pub match_format : Bool

unfoldable pub exact : CanId → Filter
exact wanted = record {
  id = wanted.packed;
  mask = bit_or extended_id_max eff_flag;
  invert = false;
  match_format = true;
}

unfoldable pub range : ℕ → ℕ → Filter
range base bits = record { id = base; mask = bits; invert = false; match_format = false }

-- Filter::accepts(): `!=` on two truth values is `exclusive or`.
unfoldable pub accepts : Filter → CanId → Bool
accepts f candidate =
    let effective = if f.match_format then f.mask else bit_and f.mask extended_id_max in
    let same = bit_and candidate.packed effective == bit_and f.id effective in
    if f.invert then not same else same

accepted_in : List Filter → CanId → Bool
accepted_in [] id = false
accepted_in (f ∷ filters) id = accepts f id || accepted_in filters id

unfoldable pub accepted_by : List Filter → CanId → Bool
unfolding accepted_in
accepted_by [] id = true
accepted_by (f ∷ filters) id = accepted_in (f ∷ filters) id

pub record BusStatistics : Type 0 where
  pub frames_sent : ℕ
  pub frames_received : ℕ
  pub bytes_sent : ℕ
  pub bytes_received : ℕ
  pub send_errors : ℕ
  pub receive_errors : ℕ
  pub error_frames : ℕ
  pub arbitration_losses : ℕ
  pub dropped : ℕ
  pub wire_bits : ℕ
  pub first_timestamp_ns : ℕ
  pub last_timestamp_ns : ℕ

unfoldable pub no_statistics : BusStatistics
no_statistics = record {
  frames_sent = 0;
  frames_received = 0;
  bytes_sent = 0;
  bytes_received = 0;
  send_errors = 0;
  receive_errors = 0;
  error_frames = 0;
  arbitration_losses = 0;
  dropped = 0;
  wire_bits = 0;
  first_timestamp_ns = 0;
  last_timestamp_ns = 0;
}

-- BusStatistics::span()
unfoldable pub span : BusStatistics → ℕ
span s =
    if leb s.first_timestamp_ns s.last_timestamp_ns
    then s.last_timestamp_ns - s.first_timestamp_ns
    else 0
