-- ===== src/IsoTp/Framing.antt =====
-- How a protocol data unit is put in a CAN frame and taken out of it: Sender::make_frame,
-- Receiver::make_flow_control and the guards of both on_frame of isotp/src/IsoTp.cpp.
pub mod Transport
use canforge.Base.{
  ℕ, ◌+◌, ◌-◌, ◌*◌, ◌/◌, ◌^◌, ◌≡◌, Bool, true, false, not, ltb, leb, ◌==◌, if◌then◌else◌, ◌&&◌,
  ◌||◌, bit_and, bit_or, Option, none, some, List, [], ◌∷◌, ◌++◌, take, drop, replicate, get_or,
  length,
}
use canforge.Core.Result.{value}
use canforge.Core.CanId.{same_id}
use canforge.Core.Frame.{BasicFrame, make, size}
use canforge.Core.Frame.Flags
use canforge.IsoTp.Config.{Config, Address, is_extended, header_size, FlowStatus, flow_code}

-- kLengths
abbrev pub fd_lengths : List ℕ
fd_lengths = 0 ∷ 1 ∷ 2 ∷ 3 ∷ 4 ∷ 5 ∷ 6 ∷ 7 ∷ 8 ∷ 12 ∷ 16 ∷ 20 ∷ 24 ∷ 32 ∷ 48 ∷ 64 ∷ []

-- The loop over the lengths.
first_length : List ℕ → ℕ → ℕ
first_length [] want = 64
first_length (n ∷ ns) want = if leb want n then n else first_length ns want

unfoldable pub fd_padded_length : ℕ → ℕ
unfolding first_length
fd_padded_length want = first_length fd_lengths want

-- The address extension of extended addressing, before the protocol bytes.
abbrev pub with_extension : Address → List ℕ → List ℕ
with_extension a body = if is_extended a then a.tx_extension ∷ body else body

-- The length after padding to `target`, and the 64-byte buffer.
abbrev buffer : Config → List ℕ → ℕ → List ℕ
buffer c content length' =
    content
    ++ (replicate (length' - length content) c.padding_byte
        ++ replicate (64 - length content - (length' - length content)) 0)

abbrev frame_flags : Config → ℕ
frame_flags c =
    if c.use_can_fd
    then if c.fd_bit_rate_switch then bit_or Flags.fd Flags.brs else Flags.fd
    else Flags.empty

-- The common end of both functions; `none` is the abort of value() on an error.
unfoldable pub finish_frame : Config → List ℕ → ℕ → Option BasicFrame
finish_frame c content length' = value (
    make 64 c.address.tx_id (some (buffer c content length'))
      (if c.use_can_fd then fd_padded_length length' else length') (frame_flags c) 0)

-- Sender::make_frame
unfoldable pub make_frame : Config → List ℕ → Option BasicFrame
make_frame c body =
    let content = with_extension c.address body in
    let n = length content in
    let wanted = if c.use_can_fd then fd_padded_length n else 8 in
    finish_frame c content (if c.pad_frames then if ltb wanted n then n else wanted else n)

-- Receiver::make_flow_control
unfoldable pub make_flow_control : Config → FlowStatus → Option BasicFrame
make_flow_control c status =
    let content =
      with_extension c.address
        (bit_or 0x30 (flow_code status) ∷ c.block_size ∷ c.st_min_raw ∷ []) in
    let n = length content in
    finish_frame c content
      (if c.pad_frames then if c.use_can_fd then fd_padded_length n else 8 else n)

-- The bytes of a frame that are valid.
abbrev pub payload_of : BasicFrame → List ℕ
payload_of f = take (size f) f.bytes

-- The guards at the head of both on_frame: the protocol bytes of a frame that is meant for this
-- side, `none` for a frame that is ignored.
unfoldable pub addressed_body : Address → BasicFrame → Option (List ℕ)
unfolding same_id
addressed_body a f =
    if not (same_id f.id a.rx_id)
    then none
    else if leb (size f) (header_size a)
    then none
    else if is_extended a && not (get_or f.bytes 0 0 == a.rx_extension)
    then none
    else some (drop (header_size a) (payload_of f))

-- The protocol control information: the high nibble of the first byte.
abbrev pub byte_at : List ℕ → ℕ → ℕ
byte_at body i = get_or body i 0

unfoldable pub pci : List ℕ → ℕ
pci body = bit_and (byte_at body 0 / 2 ^ 4) 0x0F

unfoldable pub low_nibble : List ℕ → ℕ
low_nibble body = bit_and (byte_at body 0) 0x0F
