-- ===== src/IsoTp/Sender.antt =====
-- class Sender of isotp/src/IsoTp.cpp: segments one outgoing message. A clock reading is an
-- argument of each call. poll() returns `none` where the program would abort.
pub mod Laws
pub mod Payload
pub mod Refusal
use canforge.Base.{
  ℕ, ◌+◌, ◌-◌, ◌/◌, ◌%◌, ◌^◌, min, Bool, true, false, not, ltb, leb, ◌==◌, if◌then◌else◌, ◌&&◌,
  bit_and, bit_or, Option, none, some, List, [], ◌∷◌, ◌++◌, take, drop, length,
}
use mathlib.Core.Option
use canforge.Core.Result.{Result, ok, err, error, ErrorCode, ◌>>=◌}
use canforge.Core.Frame.{BasicFrame}
use canforge.IsoTp.Config.{
  Config, TransferResult, is_in_progress, classic_max_length, header_size, u64, validate,
  st_min_to_ns,
}
use canforge.IsoTp.Framing.{make_frame, addressed_body, byte_at, pci, low_nibble}

-- enum class Sender::State
pub data State : Type 0 where
  idle sending_single sending_first waiting_flow_control sending_consecutive finished : State

pub record Sender : Type 0 where
  pub config : Config
  pub payload : List ℕ
  pub state : State
  pub result : TransferResult
  pub offset : ℕ
  pub sequence : ℕ
  pub block_size : ℕ
  pub st_min_ns : ℕ
  pub frames_in_block : ℕ
  pub wait_count : ℕ
  pub deadline_ns : ℕ
  pub next_send_ns : ℕ

unfoldable pub new : Config → Sender
new c = record {
  config = c;
  payload = [];
  state = State.idle;
  result = TransferResult.in_progress;
  offset = 0;
  sequence = 0;
  block_size = 0;
  st_min_ns = 0;
  frames_in_block = 0;
  wait_count = 0;
  deadline_ns = 0;
  next_send_ns = 0;
}

abbrev pub is_done : Sender → Bool
is_done s = not (is_in_progress s.result)

abbrev pub finish : Sender → TransferResult → Sender
finish s r = record s { result = r; state = State.finished }

abbrev is_idle : State → Bool
is_idle State.idle = true
is_idle _ = false

abbrev pub is_waiting : State → Bool
is_waiting State.waiting_flow_control = true
is_waiting _ = false

unfoldable pub begin : Sender → List ℕ → ℕ → Result Sender
begin s bytes now =
    if not (is_idle s.state)
    then err (error ErrorCode.invalid_argument)
    else validate s.config >>= λ _.
        if ltb 0xFFFFFFFF (length bytes)
        then err (error ErrorCode.frame_payload_too_large)
        else ok (record s {
          payload = bytes;
          offset = 0;
          sequence = 0;
          wait_count = 0;
          frames_in_block = 0;
          result = TransferResult.in_progress;
          state =
              if leb (length bytes) (7 - header_size s.config.address)
              then State.sending_single
              else State.sending_first;
          next_send_ns = now;
        })

abbrev pub Polled : Type 0
Polled = Option (Sender × List BasicFrame)

-- A frame with these protocol bytes goes out and the state becomes `s`.
abbrev emit : Config → Sender → List ℕ → Polled
emit c s body = Option.map (λ f. (s, f ∷ [])) (make_frame c body)

unfoldable pub poll_single : Sender → Polled
poll_single s =
    emit s.config (finish (record s { offset = length s.payload }) TransferResult.succeeded)
      (length s.payload % 2 ^ 8 ∷ s.payload)

-- The protocol bytes of a First Frame that announces `size` bytes.
unfoldable pub first_header : ℕ → List ℕ
first_header size =
    if leb size classic_max_length
    then bit_or 0x10 (bit_and (size / 2 ^ 8) 0x0F) ∷ bit_and size 0xFF ∷ []
    else 0x10
      ∷ 0x00
      ∷ bit_and (size / 2 ^ 24) 0xFF
      ∷ bit_and (size / 2 ^ 16) 0xFF
      ∷ bit_and (size / 2 ^ 8) 0xFF
      ∷ bit_and size 0xFF
      ∷ []

unfoldable pub poll_first : Sender → ℕ → Polled
poll_first s now =
    let head = first_header (length s.payload) in
    let room = 8 - header_size s.config.address - length head in
    let count = min room (length s.payload) in
    emit s.config
      (record s {
        offset = count;
        sequence = 1;
        state = State.waiting_flow_control;
        deadline_ns = u64 (now + s.config.n_bs_ns);
      })
      (head ++ take count s.payload)

-- What follows a Consecutive Frame: the end of the message, the end of the block, or neither.
abbrev pub after_consecutive : Sender → ℕ → Sender
after_consecutive s now =
    if leb (length s.payload) s.offset
    then finish s TransferResult.succeeded
    else if not (s.block_size == 0) && leb s.block_size s.frames_in_block
    then record s {
      frames_in_block = 0;
      state = State.waiting_flow_control;
      deadline_ns = u64 (now + s.config.n_bs_ns);
    }
    else s

unfoldable pub poll_consecutive : Sender → ℕ → Polled
poll_consecutive s now =
    let room = 8 - header_size s.config.address - 1 in
    let count = min room (length s.payload - s.offset) in
    if ltb now s.next_send_ns
    then some (s, [])
    else emit s.config
        (after_consecutive
          (record s {
            offset = s.offset + count;
            sequence = bit_and (s.sequence + 1) 0x0F;
            frames_in_block = (s.frames_in_block + 1) % 2 ^ 8;
            next_send_ns = u64 (now + s.st_min_ns);
          })
          now)
        (bit_or 0x20 (bit_and s.sequence 0x0F) ∷ take count (drop s.offset s.payload))

unfoldable pub poll_state : State → Sender → ℕ → Polled
poll_state State.idle s now = some (s, [])
poll_state State.sending_single s now = poll_single s
poll_state State.sending_first s now = poll_first s now
poll_state State.waiting_flow_control s now =
    some (if leb s.deadline_ns now then finish s TransferResult.timeout_bs else s, [])
poll_state State.sending_consecutive s now = poll_consecutive s now
poll_state State.finished s now = some (s, [])

unfoldable pub poll : Sender → ℕ → Polled
unfolding poll_state
poll s now = if is_done s then some (s, []) else poll_state s.state s now

-- A Flow Control that says to wait, with the wait counted.
on_wait : Sender → ℕ → Sender
on_wait s now =
    if not (s.config.wft_max == 0) && ltb s.config.wft_max s.wait_count
    then finish s TransferResult.wait_overrun
    else record s { deadline_ns = u64 (now + s.config.n_bs_ns) }

-- A Flow Control while one is awaited.
unfoldable pub on_flow_control : Sender → List ℕ → ℕ → Sender
unfolding on_wait
on_flow_control s body now =
    if low_nibble body == 0
    then record s {
      block_size = byte_at body 1;
      st_min_ns = st_min_to_ns (byte_at body 2);
      wait_count = 0;
      frames_in_block = 0;
      state = State.sending_consecutive;
      next_send_ns = u64 (now + s.config.n_cs_ns);
    }
    else if low_nibble body == 1
    then on_wait (record s { wait_count = (s.wait_count + 1) % 2 ^ 8 }) now
    else if low_nibble body == 2
    then finish s TransferResult.buffer_overflow
    else finish s TransferResult.invalid_pdu

on_pdu : Sender → List ℕ → ℕ → Sender
on_pdu s body now =
    if not (pci body == 3)
    then finish s TransferResult.unexpected_pdu
    else if not (is_waiting s.state)
    then finish s TransferResult.unexpected_pdu
    else if ltb (length body) 3
    then finish s TransferResult.invalid_pdu
    else on_flow_control s body now

-- The guards let `none` or the protocol bytes through.
on_body : Sender → Option (List ℕ) → ℕ → Sender
unfolding on_pdu
on_body s none now = s
on_body s (some body) now = on_pdu s body now

unfoldable pub on_frame : Sender → BasicFrame → ℕ → Sender
unfolding on_body
on_frame s f now = if is_done s then s else on_body s (addressed_body s.config.address f) now

unfoldable pub abort : Sender → Sender
abort s = record s { result = TransferResult.aborted }
