-- ===== src/IsoTp/Receiver.antt =====
-- class Receiver of isotp/src/IsoTp.cpp: puts an incoming message together. poll() returns `none`
-- where the program would abort.
pub mod Laws
use canforge.Base.{
  ℕ, ◌+◌, ◌-◌, ◌*◌, ◌/◌, ◌%◌, ◌^◌, ◌≡◌, min, Bool, true, false, not, ltb, leb, ◌==◌, if◌then◌else◌,
  ◌&&◌, ◌||◌, bit_and, bit_or, Option, none, some, List, [], ◌∷◌, ◌++◌, take, drop, length,
}
use mathlib.Core.Option
use canforge.Core.Frame.{BasicFrame}
use canforge.IsoTp.Config.{Config, TransferResult, FlowStatus, header_size, u64}
use canforge.IsoTp.Framing.{make_flow_control, addressed_body, byte_at, pci, low_nibble}

-- enum class Receiver::State
pub data State : Type 0 where
  idle send_flow_control receiving finished : State

pub record Receiver : Type 0 where
  pub config : Config
  pub payload : List ℕ
  pub state : State
  pub result : TransferResult
  pub expected : ℕ
  pub sequence : ℕ
  pub frames_in_block : ℕ
  pub deadline_ns : ℕ
  pub fc_due_ns : ℕ
  pub pending_status : FlowStatus

unfoldable pub new : Config → Receiver
new c = record {
  config = c;
  payload = [];
  state = State.idle;
  result = TransferResult.in_progress;
  expected = 0;
  sequence = 0;
  frames_in_block = 0;
  deadline_ns = 0;
  fc_due_ns = 0;
  pending_status = FlowStatus.continue_to_send;
}

-- The pending status stays as it is.
unfoldable pub reset : Receiver → Receiver
reset r = record r {
  payload = [];
  state = State.idle;
  result = TransferResult.in_progress;
  expected = 0;
  sequence = 0;
  frames_in_block = 0;
  deadline_ns = 0;
  fc_due_ns = 0;
}

abbrev pub finish : Receiver → TransferResult → Receiver
finish r t = record r { result = t; state = State.finished }

abbrev pub is_idle : State → Bool
is_idle State.idle = true
is_idle _ = false

abbrev pub is_receiving : State → Bool
is_receiving State.receiving = true
is_receiving _ = false

abbrev pub is_finished : State → Bool
is_finished State.finished = true
is_finished _ = false

abbrev pub Polled : Type 0
Polled = Option (Receiver × List BasicFrame)

abbrev is_overflow : FlowStatus → Bool
is_overflow FlowStatus.overflow = true
is_overflow _ = false

-- The receiver once its Flow Control is out.
abbrev pub after_flow_control : Receiver → ℕ → Receiver
after_flow_control r now =
    if is_overflow r.pending_status then finish r TransferResult.buffer_overflow else record r {
      state = State.receiving;
      frames_in_block = 0;
      deadline_ns = u64 (now + r.config.n_cr_ns);
    }

unfoldable pub poll_state : State → Receiver → ℕ → Polled
poll_state State.idle r now = some (r, [])
poll_state State.send_flow_control r now =
    if leb r.fc_due_ns now
    then Option.map (λ f. (after_flow_control r now, f ∷ []))
        (make_flow_control r.config r.pending_status)
    else some (r, [])
poll_state State.receiving r now =
    some (if leb r.deadline_ns now then finish r TransferResult.timeout_cr else r, [])
poll_state State.finished r now = some (r, [])

unfoldable pub poll : Receiver → ℕ → Polled
unfolding poll_state
poll r now = poll_state r.state r now

-- A Single Frame: `count` bytes from `at` on.
single_of : Receiver → List ℕ → ℕ → ℕ → Receiver
single_of r body count at =
    if count == 0 || ltb (length body) (at + count)
    then finish r TransferResult.invalid_pdu
    else finish (record r { payload = take count (drop at body); expected = count })
        TransferResult.succeeded

unfoldable pub on_single : Receiver → List ℕ → Receiver
unfolding single_of
on_single r body =
    if not (is_idle r.state)
    then finish r TransferResult.unexpected_pdu
    else if not (low_nibble body == 0)
    then single_of r body (low_nibble body) 1
    else if ltb (length body) 2
    then finish r TransferResult.invalid_pdu
    else single_of r body (byte_at body 1) 2

-- The Flow Control that answers is due after N_Br.
abbrev answer : Receiver → FlowStatus → ℕ → Receiver
answer r status now = record r {
  pending_status = status;
  state = State.send_flow_control;
  fc_due_ns = u64 (now + r.config.n_br_ns);
}

-- A First Frame: `count` bytes are announced, the first of them stand from `at` on.
unfoldable pub first_of_many : Receiver → List ℕ → ℕ → ℕ → ℕ → Receiver
first_of_many r body count at now =
    if leb count (7 - header_size r.config.address)
    then finish r TransferResult.invalid_pdu
    else if ltb r.config.max_receive_length count
    then answer (record r { expected = count }) FlowStatus.overflow now
    else answer (record r { expected = count; payload = take count (drop at body); sequence = 1 })
        FlowStatus.continue_to_send now

-- FF_DL: 12 bits, or 32 bits after the escape.
abbrev pub short_length : List ℕ → ℕ
short_length body = bit_or (bit_and (byte_at body 0) 0x0F * 2 ^ 8) (byte_at body 1)

abbrev pub long_length : List ℕ → ℕ
long_length body =
    bit_or
      (bit_or (bit_or (byte_at body 2 * 2 ^ 24) (byte_at body 3 * 2 ^ 16)) (byte_at body 4 * 2 ^ 8))
      (byte_at body 5)

unfoldable pub on_first : Receiver → List ℕ → ℕ → Receiver
on_first r body now =
    if not (is_idle r.state)
    then finish r TransferResult.unexpected_pdu
    else if ltb (length body) 2
    then finish r TransferResult.invalid_pdu
    else if not (short_length body == 0)
    then first_of_many r body (short_length body) 2 now
    else if ltb (length body) 6
    then finish r TransferResult.invalid_pdu
    else first_of_many r body (long_length body) 6 now

-- What follows the bytes of a Consecutive Frame.
abbrev pub after_consecutive : Receiver → ℕ → Receiver
after_consecutive r now =
    if leb r.expected (length r.payload)
    then finish r TransferResult.succeeded
    else if not (r.config.block_size == 0) && leb r.config.block_size r.frames_in_block
    then answer (record r { deadline_ns = u64 (now + r.config.n_cr_ns) })
        FlowStatus.continue_to_send now
    else record r { deadline_ns = u64 (now + r.config.n_cr_ns) }

unfoldable pub on_consecutive : Receiver → List ℕ → ℕ → Receiver
on_consecutive r body now =
    if not (is_receiving r.state)
    then finish r TransferResult.unexpected_pdu
    else if not (low_nibble body == r.sequence)
    then finish r TransferResult.wrong_sequence
    else after_consecutive
        (record r {
          sequence = bit_and (r.sequence + 1) 0x0F;
          payload =
              r.payload
              ++ take (min (r.expected - length r.payload) (length body - 1)) (drop 1 body);
          frames_in_block = (r.frames_in_block + 1) % 2 ^ 8;
        })
        now

on_pdu : Receiver → List ℕ → ℕ → Receiver
on_pdu r body now =
    if pci body == 0
    then on_single r body
    else if pci body == 1
    then on_first r body now
    else if pci body == 2
    then on_consecutive r body now
    else if pci body == 3
    then finish r TransferResult.unexpected_pdu
    else finish r TransferResult.invalid_pdu

-- The guards let `none` or the protocol bytes through.
on_body : Receiver → Option (List ℕ) → ℕ → Receiver
unfolding on_pdu
on_body r none now = r
on_body r (some body) now = if is_finished r.state then r else on_pdu r body now

unfoldable pub on_frame : Receiver → BasicFrame → ℕ → Receiver
unfolding on_body
on_frame r f now = on_body r (addressed_body r.config.address f) now
