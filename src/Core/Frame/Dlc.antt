-- ===== src/Core/Frame/Dlc.antt =====
-- Data length codes: the code that length_to_dlc picks.
use canforge.Base.{
  ℕ, ◌+◌, ◌≤◌, ◌<◌, ◌≡◌, refl, Bool, true, false, ltb, leb, ◌==◌, if◌then◌else◌, ◌&&◌, ◌||◌, arith,
  holds_below, holds_at,
}
use canforge.Core.Result.{Result, ok, err, error_at, ErrorCode}
use canforge.Core.Frame.{DlcFit, length_to_dlc, dlc_to_length}

abbrev pub limit : Bool → ℕ
limit fd = if fd then 64 else 8

-- A length code that can carry `len` bytes, the length that it encodes, the bytes to pad, and no
-- smaller code can.
pub record Fits (len : ℕ) (fd : Bool) (fit : DlcFit) : Type 0 where
  pub in_table : fit.dlc ≤ 15
  pub encodes : dlc_to_length fit.dlc fd ≡ fit.length
  pub padded : len + fit.padding ≡ fit.length
  pub least : (d : ℕ) → d < 16 → len ≤ dlc_to_length d fd → fit.dlc ≤ d

-- The same as a test.
abbrev fits_test : ℕ → Bool → DlcFit → Bool
fits_test len fd fit =
    leb fit.dlc 15
    && dlc_to_length fit.dlc fd == fit.length
    && (len + fit.padding) == fit.length
    && holds_below 16 (λ d. ltb (dlc_to_length d fd) len || leb fit.dlc d)

abbrev passes : ℕ → Bool → Result DlcFit → Bool
passes len fd (ok fit) = fits_test len fd fit
passes len fd (err e) = false

fits_table :
    (fd : Bool) → holds_below (limit fd + 1) (λ len. passes len fd (length_to_dlc len fd)) ≡ true
unfolding length_to_dlc dlc_to_length holds_below
fits_table true = refl
fits_table false = refl

Fits-of_test : (len : ℕ) (fd : Bool) (fit : DlcFit) → fits_test len fd fit ≡ true → Fits len fd fit
Fits-of_test len fd fit h = record {
  in_table = ground arith;
  encodes = ground arith;
  padded = ground arith;
  least =
      λ d lt le. ground (arith, holds_at 16 (λ d. ltb (dlc_to_length d fd) len || leb fit.dlc d) d);
}

found :
    (len : ℕ) (fd : Bool) (r : Result DlcFit)
    → passes len fd r ≡ true
    → (fit : DlcFit) × (r ≡ ok fit) × Fits len fd fit
found len fd (ok fit) h = (fit, refl, Fits-of_test len fd fit h)
found len fd (err e) h = cc

-- Every length up to the format's limit gets the smallest code that can carry it, with the length
-- that the code encodes and the padding up to it.
pub length_to_dlc-Fits :
    (len : ℕ) (fd : Bool)
    → len ≤ limit fd
    → (fit : DlcFit) × (length_to_dlc len fd ≡ ok fit) × Fits len fd fit
length_to_dlc-Fits len fd h = found len fd (length_to_dlc len fd) (
    holds_at (limit fd + 1) (λ n. passes n fd (length_to_dlc n fd)) len (fits_table fd)
      (omega arith))

-- A longer payload has no code.
pub length_to_dlc_over :
    (len : ℕ) (fd : Bool)
    → limit fd < len
    → length_to_dlc len fd ≡ err (error_at ErrorCode.frame_payload_too_large len (limit fd))
unfolding length_to_dlc
length_to_dlc_over len fd h = ground arith
