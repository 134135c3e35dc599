-- ===== src/Core/Result.antt =====
-- core/include/canforge/core/Result.hpp: errors as values. The text of an error is left out: it
-- has static storage and `operator==` does not compare it.
use canforge.Base.{ℕ, Option, none, some}

-- enum class ErrorCode
pub data ErrorCode : Type 0 where
  invalid_argument out_of_range not_implemented unsupported : ErrorCode
  frame_bad_identifier frame_bad_dlc frame_bad_flags frame_payload_too_large : ErrorCode
  codec_signal_out_of_bounds codec_bad_bit_length codec_bad_factor : ErrorCode
  codec_value_not_finite codec_multiplex_mismatch codec_unknown_signal : ErrorCode
  parse_io_error parse_bad_encoding parse_unexpected_token parse_unexpected_eof : ErrorCode
  parse_bad_number parse_unterminated_string parse_unknown_keyword : ErrorCode
  parse_duplicate_definition parse_undefined_reference parse_semantic : ErrorCode
  transport_open_failed transport_not_open transport_write_failed transport_read_failed : ErrorCode
  transport_timeout transport_unsupported transport_overflow : ErrorCode
  log_bad_format log_unsupported_version log_end_of_file : ErrorCode

-- class Error: the code and its ErrorDetail.
pub record Error : Type 0 where
  pub code : ErrorCode
  pub a : ℕ
  pub b : ℕ

-- An error with the default detail, and one with a detail.
abbrev pub error : ErrorCode → Error
error c = record { code = c; a = 0; b = 0 }

abbrev pub error_at : ErrorCode → ℕ → ℕ → Error
error_at c x y = record { code = c; a = x; b = y }

-- template <typename T> class Result
pub data Result {ℓ} (A : Type ℓ) : Type ℓ where
  ok : A → Result A
  err : Error → Result A

-- using Status = Result<void>
abbrev pub Status : Type 0
Status = Result (Unit {0})

-- CANFORGE_TRY, and CANFORGE_CHECK, which does not use the value.
infixl 5 ◌>>=◌ ◌>>◌
abbrev pub ◌>>=◌ {ℓ κ} : {A : Type ℓ} {B : Type κ} → Result A → (A → Result B) → Result B
ok a >>= f = f a
err e >>= f = err e

abbrev pub ◌>>◌ {ℓ} : {B : Type ℓ} → Status → Result B → Result B
m >> k = m >>= λ _. k

-- value(): `none` is the abort of a result that holds an error.
abbrev pub value {ℓ} : {A : Type ℓ} → Result A → Option A
value (ok a) = some a
value (err e) = none
