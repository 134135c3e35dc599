-- ===== src/IsoTp/Config.antt =====
-- Address, Config, the N_Result values and the STmin encoding of
-- isotp/include/canforge/isotp/IsoTp.hpp and isotp/src/IsoTp.cpp.
pub mod StMin
use canforge.Base.{
  ℕ, ◌+◌, ◌-◌, ◌*◌, ◌/◌, ◌%◌, ◌^◌, ◌≡◌, min, max, Bool, true, false, not, ltb, leb, ◌==◌,
  if◌then◌else◌, ◌&&◌, ◌||◌,
}
use canforge.Core.Result.{Status, ok, err, error, ErrorCode}
use canforge.Core.CanId.{CanId}

-- enum class FlowStatus
pub data FlowStatus : Type 0 where
  continue_to_send wait overflow : FlowStatus

abbrev pub flow_code : FlowStatus → ℕ
flow_code FlowStatus.continue_to_send = 0
flow_code FlowStatus.wait = 1
flow_code FlowStatus.overflow = 2

-- enum class TransferResult
pub data TransferResult : Type 0 where
  in_progress succeeded timeout_a timeout_bs timeout_cr wrong_sequence : TransferResult
  unexpected_pdu buffer_overflow wait_overrun invalid_pdu aborted : TransferResult

abbrev pub is_in_progress : TransferResult → Bool
is_in_progress TransferResult.in_progress = true
is_in_progress _ = false

-- kClassicMaxLength
abbrev pub classic_max_length : ℕ
classic_max_length = 4095

pub data AddressingMode : Type 0 where
  normal extended : AddressingMode

pub record Address : Type 0 where
  pub mode : AddressingMode
  pub tx_id : CanId
  pub rx_id : CanId
  pub tx_extension : ℕ
  pub rx_extension : ℕ

abbrev is_extended_mode : AddressingMode → Bool
is_extended_mode AddressingMode.normal = false
is_extended_mode AddressingMode.extended = true

abbrev pub is_extended : Address → Bool
is_extended a = is_extended_mode a.mode

abbrev pub header_size : Address → ℕ
header_size a = if is_extended a then 1 else 0

pub record Config : Type 0 where
  pub address : Address
  pub n_as_ns : ℕ
  pub n_ar_ns : ℕ
  pub n_bs_ns : ℕ
  pub n_cr_ns : ℕ
  pub n_br_ns : ℕ
  pub n_cs_ns : ℕ
  pub block_size : ℕ
  pub st_min_raw : ℕ
  pub wft_max : ℕ
  pub max_receive_length : ℕ
  pub pad_frames : Bool
  pub padding_byte : ℕ
  pub use_can_fd : Bool
  pub fd_bit_rate_switch : Bool

-- uint64_t arithmetic.
abbrev pub u64 : ℕ → ℕ
u64 n = n % 2 ^ 64

unfoldable pub st_min_to_ns : ℕ → ℕ
st_min_to_ns raw =
    if leb raw 0x7F
    then raw * 1000000
    else if leb 0xF1 raw && leb raw 0xF9
    then (raw - 0xF0) * 100000
    else 127 * 1000000

unfoldable pub ns_to_st_min : ℕ → ℕ
ns_to_st_min ns =
    if ns == 0
    then 0
    else if ltb ns 1000000
    then (0xF0 + min (max (u64 (ns + 99999) / 100000) 1) 9) % 2 ^ 8
    else min (u64 (ns + 999999) / 1000000) 127 % 2 ^ 8

-- Config::validate()
unfoldable pub validate : Config → Status
validate c =
    if c.n_bs_ns == 0 || c.n_cr_ns == 0
    then err (error ErrorCode.invalid_argument)
    else if leb (u64 (c.n_bs_ns * 9) / 10) c.n_br_ns
    then err (error ErrorCode.invalid_argument)
    else if leb (u64 (c.n_cr_ns * 9) / 10) c.n_cs_ns
    then err (error ErrorCode.invalid_argument)
    else if c.max_receive_length == 0
    then err (error ErrorCode.invalid_argument)
    else ok tt
