-- ===== src/Core/Frame.antt =====
-- BasicFrame of core/include/canforge/core/Frame.hpp, and length_to_dlc of core/src/Frame.cpp.
-- The capacity is an argument: 8 for Frame, 64 for FdFrame. A pointer to bytes is an optional list.
pub mod Flags
pub mod Dlc
pub mod Laws
use canforge.Base.{
  ℕ, zero, suc, ◌+◌, ◌-◌, ◌*◌, ◌≡◌, Bool, true, false, not, ltb, leb, ◌==◌, if◌then◌else◌, ◌&&◌,
  ◌||◌, bit_and, bit_or, Option, none, some, List, [], ◌∷◌, ◌++◌, take, drop, replicate, get_or,
}
use canforge.Core.Result.{Result, Status, ok, err, error, error_at, ErrorCode, ◌>>=◌, ◌>>◌}
use canforge.Core.CanId.{CanId, same_id}
use Flags

unfoldable pub has_flag : ℕ → ℕ → Bool
has_flag set bit = not (bit_and set bit == 0)

-- kFdDlcToLength
abbrev pub fd_dlc_to_length : List ℕ
fd_dlc_to_length = 0 ∷ 1 ∷ 2 ∷ 3 ∷ 4 ∷ 5 ∷ 6 ∷ 7 ∷ 8 ∷ 12 ∷ 16 ∷ 20 ∷ 24 ∷ 32 ∷ 48 ∷ 64 ∷ []

unfoldable pub dlc_to_length : ℕ → Bool → ℕ
dlc_to_length dlc fd =
    if ltb 15 dlc
    then 0
    else if fd
    then get_or fd_dlc_to_length dlc 0
    else if ltb 8 dlc
    then 8
    else dlc

pub record DlcFit : Type 0 where
  pub dlc : ℕ
  pub length : ℕ
  pub padding : ℕ

-- The loop over the table, from the code `dlc` on.
first_fit : ℕ → List ℕ → ℕ → Result DlcFit
first_fit dlc [] len = err (error ErrorCode.frame_bad_dlc)
first_fit dlc (encoded ∷ table) len =
    if leb len encoded
    then ok (record { dlc = dlc; length = encoded; padding = encoded - len })
    else first_fit (dlc + 1) table len

unfoldable pub length_to_dlc : ℕ → Bool → Result DlcFit
unfolding first_fit
length_to_dlc len fd =
    let limit = if fd then 64 else 8 in
    if ltb limit len
    then err (error_at ErrorCode.frame_payload_too_large len limit)
    else if fd
    then first_fit 0 fd_dlc_to_length len
    else ok (record { dlc = len; length = len; padding = 0 })

pub record BasicFrame : Type 0 where
  pub timestamp_ns : ℕ
  pub id : CanId
  pub dlc : ℕ
  pub flags : ℕ
  pub bytes : List ℕ

-- memcpy of the first `n` bytes of `src` over the start of `dst`.
abbrev pub copy_over : List ℕ → List ℕ → ℕ → List ℕ
copy_over dst src n = take n src ++ drop n dst

abbrev copy_from : List ℕ → Option (List ℕ) → ℕ → List ℕ
copy_from dst none n = dst
copy_from dst (some src) n = copy_over dst src n

unfoldable pub validate_flags : ℕ → ℕ → Status
unfolding has_flag
validate_flags capacity flags =
    let fd = has_flag flags Flags.fd in
    if fd && ltb capacity 64
    then err (error ErrorCode.frame_bad_flags)
    else if fd && has_flag flags Flags.rtr
    then err (error ErrorCode.frame_bad_flags)
    else if not fd && (has_flag flags Flags.brs || has_flag flags Flags.esi)
    then err (error ErrorCode.frame_bad_flags)
    else ok tt

-- The checks of make() after the flags, and the frame that it fills.
make_checked : ℕ → CanId → Option (List ℕ) → ℕ → ℕ → ℕ → Result BasicFrame
make_checked capacity id bytes len flags timestamp =
    if has_flag flags Flags.rtr && not (len == 0)
    then err (error ErrorCode.frame_bad_flags)
    else if ltb capacity len
    then err (error_at ErrorCode.frame_payload_too_large len capacity)
    else length_to_dlc len (has_flag flags Flags.fd) >>= λ fit.
        if not (fit.padding == 0)
        then err (error_at ErrorCode.frame_bad_dlc len fit.length)
        else ok (record {
          timestamp_ns = timestamp;
          id = id;
          dlc = fit.dlc;
          flags = flags;
          bytes = copy_from (replicate capacity 0) bytes len;
        })

unfoldable pub make : ℕ → CanId → Option (List ℕ) → ℕ → ℕ → ℕ → Result BasicFrame
unfolding make_checked
make capacity id bytes len flags timestamp = do
  validate_flags capacity flags
  make_checked capacity id bytes len flags timestamp

unfoldable pub make_empty : ℕ → CanId → ℕ → ℕ → ℕ → Result BasicFrame
unfolding make
make_empty capacity id len flags timestamp = make capacity id none len flags timestamp

unfoldable pub make_remote : ℕ → CanId → ℕ → ℕ → Result BasicFrame
make_remote capacity id requested_len timestamp =
    if ltb 8 requested_len
    then err (error_at ErrorCode.frame_bad_dlc requested_len 8)
    else ok (record {
      timestamp_ns = timestamp;
      id = id;
      dlc = requested_len;
      flags = Flags.rtr;
      bytes = replicate capacity 0;
    })

-- The checks of from_wire() after the flags, and the frame that it fills.
from_wire_checked : ℕ → CanId → ℕ → Option (List ℕ) → ℕ → ℕ → Result BasicFrame
from_wire_checked capacity id dlc bytes flags timestamp =
    let len = dlc_to_length dlc (has_flag flags Flags.fd) in
    if ltb 15 dlc
    then err (error_at ErrorCode.frame_bad_dlc dlc 15)
    else if ltb capacity len
    then err (error_at ErrorCode.frame_payload_too_large len capacity)
    else ok (record {
      timestamp_ns = timestamp;
      id = id;
      dlc = dlc;
      flags = flags;
      bytes = copy_from (replicate capacity 0) bytes len;
    })

unfoldable pub from_wire : ℕ → CanId → ℕ → Option (List ℕ) → ℕ → ℕ → Result BasicFrame
unfolding from_wire_checked
from_wire capacity id dlc bytes flags timestamp = do
  validate_flags capacity flags
  from_wire_checked capacity id dlc bytes flags timestamp

unfoldable pub is_fd : BasicFrame → Bool
unfolding has_flag
is_fd f = has_flag f.flags Flags.fd

unfoldable pub is_remote : BasicFrame → Bool
unfolding has_flag
is_remote f = has_flag f.flags Flags.rtr

unfoldable pub is_error_frame : BasicFrame → Bool
unfolding has_flag
is_error_frame f = has_flag f.flags Flags.error_frame

unfoldable pub is_brs : BasicFrame → Bool
unfolding has_flag
is_brs f = has_flag f.flags Flags.brs

-- size(): the valid payload bytes, none for a remote frame.
unfoldable pub size : BasicFrame → ℕ
unfolding is_remote is_fd dlc_to_length
size f = if is_remote f then 0 else dlc_to_length f.dlc (is_fd f)

-- memcmp of the first `n` bytes.
same_bytes : ℕ → List ℕ → List ℕ → Bool
same_bytes zero xs ys = true
same_bytes (suc n) (x ∷ xs) (y ∷ ys) = x == y && same_bytes n xs ys
same_bytes (suc n) xs ys = true

-- operator==
unfoldable pub same_frame : BasicFrame → BasicFrame → Bool
unfolding same_bytes same_id
same_frame a b =
    if not (same_id a.id b.id) || not (a.dlc == b.dlc) || not (a.flags == b.flags)
    then false
    else same_bytes (size a) a.bytes b.bytes

-- widen<Other>(), by assign_unchecked() on a zeroed frame.
unfoldable pub widen : ℕ → BasicFrame → BasicFrame
unfolding size
widen other f = record f {
  bytes = copy_over (replicate other 0) f.bytes (if ltb other (size f) then other else size f);
}
