-- ===== src/IsoTp/Tests.antt =====
-- Runs of the transport protocol on concrete messages.
use canforge.Base.{
  ℕ, ◌+◌, ◌≡◌, refl, arith, true, false, inr, some, List, [], ◌∷◌, replicate, bit_or,
}
use canforge.Core.Result.{ok}
use canforge.Core.CanId
use canforge.Core.Frame
use canforge.Core.Frame.{BasicFrame}
use canforge.IsoTp.Config.{
  Config, Address, AddressingMode, FlowStatus, validate, st_min_to_ns, ns_to_st_min, flow_code,
}
use canforge.IsoTp.Config.StMin.{ns_to_st_min-st_min_to_ns, st_min_to_ns-ns_to_st_min}
use canforge.IsoTp.Framing.{make_frame, make_flow_control, addressed_body, pci, low_nibble}
use canforge.IsoTp.Framing.Transport.{
  Brings, mirror, mirror-Peers, make_frame-Brings, make_flow_control-Brings,
}
use canforge.IsoTp.Sender
use canforge.IsoTp.Sender.{Sender}
use canforge.IsoTp.Receiver
use canforge.IsoTp.Receiver.{Receiver}
use canforge.IsoTp.Receiver.Laws.{Answers, poll-Answers, IsBounded, on_frame-IsBounded}
use canforge.IsoTp.Sender.Laws.{IsValid, Returns, poll-Returns}
use canforge.IsoTp.Sender.Refusal
use canforge.IsoTp.Sender.Refusal.{
  Input, polled, arrived, Refused, says, never_clears, waits, run-Refused,
}
use canforge.IsoTp.Exchange.{Link, run}
use canforge.IsoTp.Exchange.Rounds.{Compatible, Delivered}
use canforge.IsoTp.Exchange.Delivery.{run-begin-Delivered}

abbrev tester : Address
tester = record {
  mode = AddressingMode.normal;
  tx_id = CanId.make 0x7E0 false;
  rx_id = CanId.make 0x7E8 false;
  tx_extension = 0;
  rx_extension = 0;
}

abbrev config_of : Address → Config
config_of a = record {
  address = a;
  n_as_ns = 1000000000;
  n_ar_ns = 1000000000;
  n_bs_ns = 1000000000;
  n_cr_ns = 1000000000;
  n_br_ns = 0;
  n_cs_ns = 0;
  block_size = 2;
  st_min_raw = 1;
  wft_max = 8;
  max_receive_length = 4095;
  pad_frames = true;
  padding_byte = 0xCC;
  use_can_fd = false;
  fd_bit_rate_switch = false;
}

-- Thirty bytes: a First Frame and four Consecutive Frames in two blocks.
abbrev message : List ℕ
message = replicate 30 0x5A

message-Compatible : Compatible message (config_of tester) (config_of (mirror tester)) 1000000
unfolding st_min_to_ns
message-Compatible = record {
  there = mirror-Peers (config_of tester);
  back = mirror-Peers (config_of (mirror tester));
  accepted = omega arith;
  describable = omega arith;
  separation = omega arith;
  delay_cs = omega arith;
  delay_br = omega arith;
  patience_bs = (omega arith, omega arith);
  patience_cr = (omega arith, omega arith);
}

validate_run : validate (config_of tester) ≡ ok tt
unfolding validate
validate_run = refl

run-begin-Delivered_example :
    (s : Sender) × (l : Link) × (Sender.begin (Sender.new (config_of tester)) message 0 ≡ ok s)
    × (run 62 1000000 0 (record { sender = s; receiver = Receiver.new (config_of (mirror tester)) })
        ≡ some l)
    × Delivered message l
run-begin-Delivered_example =
    run-begin-Delivered message (config_of tester) (config_of (mirror tester)) 1000000
      message-Compatible 62 0 validate_run (omega arith) (omega arith) (omega arith)

abbrev first_frame : BasicFrame
first_frame = record {
  timestamp_ns = 0;
  id = CanId.make 0x7E0 false;
  dlc = 8;
  flags = 0;
  bytes = 0x10 ∷ 30 ∷ replicate 62 0x5A;
}

fresh-IsBounded : IsBounded (Receiver.new (config_of (mirror tester)))
unfolding Receiver.new
fresh-IsBounded = record {
  empty = λ _. refl;
  announced = omega arith;
  limited = λ e. absurd (cc e);
}

on_frame-IsBounded_example :
    IsBounded (Receiver.on_frame (Receiver.new (config_of (mirror tester))) first_frame 7)
on_frame-IsBounded_example =
    on_frame-IsBounded (Receiver.new (config_of (mirror tester))) first_frame 7 fresh-IsBounded

make_frame-Brings_example :
    (f : BasicFrame) × (make_frame (config_of tester) (0x02 ∷ 0x3E ∷ 0x00 ∷ []) ≡ some f)
    × Brings (mirror tester) (0x02 ∷ 0x3E ∷ 0x00 ∷ []) f
make_frame-Brings_example =
    make_frame-Brings (config_of tester) (mirror tester) (mirror-Peers (config_of tester)) 0x02
      (0x3E ∷ 0x00 ∷ []) (omega arith)

make_flow_control-Brings_example :
    (f : BasicFrame) × (make_flow_control (config_of tester) FlowStatus.wait ≡ some f)
    × Brings (mirror tester) (bit_or 0x30 (flow_code FlowStatus.wait) ∷ 2 ∷ 1 ∷ []) f
make_flow_control-Brings_example =
    make_flow_control-Brings (config_of tester) (mirror tester) (mirror-Peers (config_of tester))
      FlowStatus.wait

ns_to_st_min-st_min_to_ns_example : ns_to_st_min (st_min_to_ns 0xF5) ≡ 0xF5
ns_to_st_min-st_min_to_ns_example = ns_to_st_min-st_min_to_ns 0xF5 (inr (omega arith, omega arith))

st_min_to_ns-ns_to_st_min_example : st_min_to_ns (ns_to_st_min 950000) ≡ 900000
st_min_to_ns-ns_to_st_min_example = st_min_to_ns-ns_to_st_min 950000 (omega arith)

-- The receiver after the First Frame, about to answer.
abbrev answering : Receiver
answering = record (Receiver.new (config_of (mirror tester))) {
  payload = replicate 6 0x5A;
  state = Receiver.State.send_flow_control;
  expected = 30;
  sequence = 1;
}

answering-IsBounded : IsBounded answering
unfolding Receiver.new
answering-IsBounded = record {
  empty = λ e. absurd (cc e);
  announced = omega arith;
  limited = λ e. omega arith;
}

poll-Answers_example : Answers (Receiver.poll answering 8)
poll-Answers_example = poll-Answers answering 8 answering-IsBounded

-- A Sender that has begun to send the message.
abbrev begun : Sender
begun = record (Sender.new (config_of tester)) {
  payload = message;
  state = Sender.State.sending_first;
}

begun-IsValid : IsValid begun
unfolding Sender.new
begun-IsValid = record { fits_single = λ e. absurd (cc e); inside = omega arith }

poll-Returns_example : Returns (Sender.poll begun 0)
poll-Returns_example = poll-Returns begun 0 begun-IsValid

-- A Sender that waits for a Flow Control, and has counted seven Waits of the eight it tolerates.
abbrev waiting : Sender
waiting = record begun {
  state = Sender.State.waiting_flow_control;
  wait_count = 7;
  deadline_ns = 1000;
}

-- A Flow Control that asks to wait.
abbrev wait_frame : BasicFrame
wait_frame = record {
  timestamp_ns = 0;
  id = CanId.make 0x7E8 false;
  dlc = 3;
  flags = 0;
  bytes = 0x31 ∷ 0x02 ∷ 0x01 ∷ [];
}

wait_body : addressed_body waiting.config.address wait_frame ≡ some (0x31 ∷ 0x02 ∷ 0x01 ∷ [])
unfolding addressed_body Frame.size Frame.is_remote Frame.is_fd Frame.has_flag Frame.dlc_to_length
    Sender.new
wait_body = refl

abbrev later : List Input
later = polled 10 ∷ arrived wait_frame 20 ∷ polled 30 ∷ []

later_quiet : never_clears waiting.config.address later ≡ true
unfolding never_clears says addressed_body Frame.size Frame.is_remote Frame.is_fd Frame.has_flag
    Frame.dlc_to_length Sender.new pci low_nibble
later_quiet = refl

run-Refused_example :
    Refused waiting
      (7 + waits waiting.config.address (arrived wait_frame 5 ∷ later))
      (Refusal.run waiting (arrived wait_frame 5 ∷ later))
unfolding Sender.new says pci low_nibble
run-Refused_example =
    run-Refused waiting wait_frame (0x31 ∷ 0x02 ∷ 0x01 ∷ []) 5 7 later refl (omega arith) refl refl
      wait_body refl later_quiet
