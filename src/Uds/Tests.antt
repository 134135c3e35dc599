-- ===== src/Uds/Tests.antt =====
-- Runs of the diagnostic client on concrete requests and frames.
use canforge.Base.{
  ℕ, ◌^◌, ◌≤◌, ◌<◌, ◌≡◌, ◌⊎◌, refl, arith, true, false, ◌||◌, ◌&&◌, ◌==◌, some, List, [], ◌∷◌,
  replicate, length, get_or,
}
use canforge.Core.CanId
use canforge.Core.Frame
use canforge.Core.Frame.{BasicFrame}
use canforge.Core.Result.{Error, ok, err, error, ErrorCode}
use canforge.IsoTp.Config.{Config, Address, AddressingMode, TransferResult, validate, st_min_to_ns}
use canforge.IsoTp.Exchange
use canforge.IsoTp.Exchange.{Link}
use canforge.IsoTp.Exchange.Rounds.{Compatible}
use canforge.IsoTp.Framing.Transport.{mirror, mirror-Peers}
use canforge.IsoTp.Framing
use canforge.IsoTp.Sender
use canforge.IsoTp.Receiver
use canforge.Sim.UdsServer
use canforge.Sim.UdsServer.{UdsServer, UdsServerConfig, SessionType, Dtc}
use canforge.Sim.UdsServer.Server
use canforge.Sim.UdsServer.Server.{handle, dispatch, has_message}
use canforge.Sim.UdsServer.Flash.{begin_download, transfer_data, store_block, write_offset}
use canforge.Uds.Client.{
  Client, ClientConfig, RequestState, new, request, on_frame, poll, handle_message, is_awaiting,
  is_complete, is_failed, busy, after_receiving, on_negative, keepalive, begin_transfer,
  poll_awaiting,
}
use canforge.Uds.Client.Safety.{
  Call, requested, arrived, polled, run, called, IsSound, new-IsSound, run-IsSound,
}
use canforge.Uds.Client.Patience.{IsPatient, run-IsPatient}
use canforge.Uds.Client.Waiting.{Waited, start, late, Waited_over}
use canforge.Uds.Client.Answers.{Taken, Sending, request_lem}
use canforge.Uds.Requests.{
  download_payload, push_be, request_download, read_dtc_information, parse_dtc_list,
}
use canforge.Uds.Wire.{matching, request_download-handle, read_dtc_information-handle}
use canforge.Uds.Dialogue.Served.{taken, handle_message-Served}

abbrev tester : Address
tester = record {
  mode = AddressingMode.normal;
  tx_id = CanId.make 0x7E0 false;
  rx_id = CanId.make 0x7E8 false;
  tx_extension = 0;
  rx_extension = 0;
}

abbrev transport : Config
transport = record {
  address = tester;
  n_as_ns = 1000000000;
  n_ar_ns = 1000000000;
  n_bs_ns = 1000000000;
  n_cr_ns = 1000000000;
  n_br_ns = 0;
  n_cs_ns = 0;
  block_size = 0;
  st_min_raw = 0;
  wft_max = 8;
  max_receive_length = 4095;
  pad_frames = true;
  padding_byte = 0xCC;
  use_can_fd = false;
  fd_bit_rate_switch = false;
}

-- At most one responsePending.
abbrev impatient : ClientConfig
impatient = record {
  transport = transport;
  p2_ns = 50;
  p2_star_ns = 5000;
  max_response_pending = 1;
  s3_ns = 5000;
  tester_present_keepalive = true;
}

abbrev waiting : Client
waiting = record (new impatient) {
  state = RequestState.awaiting_response;
  requested_service = 0x31;
  deadline_ns = 50;
}

-- A Single Frame with responsePending for 0x31.
abbrev pending_frame : BasicFrame
pending_frame = record {
  timestamp_ns = 0;
  id = CanId.make 0x7E8 false;
  dlc = 8;
  flags = 0;
  bytes = 0x03 ∷ 0x7F ∷ 0x31 ∷ 0x78 ∷ replicate 60 0xCC;
}

abbrev calls : List Call
calls = requested (0x3E ∷ 0x00 ∷ []) 0 ∷ polled 1 ∷ arrived pending_frame 2 ∷ polled 3 ∷ []

run-IsSound_example : (d : Client) × (run (new impatient) calls ≡ some d) × IsSound d
run-IsSound_example = run-IsSound (new impatient) calls (new-IsSound impatient)

-- The client that took the responsePending at 10.
abbrev told_to_wait : Client
told_to_wait = record waiting { pending_count = 1; deadline_ns = 5010; last_activity_ns = 10 }

told : run waiting (arrived pending_frame 9 ∷ polled 10 ∷ []) ≡ some told_to_wait
unfolding run called poll on_frame new Receiver.new Receiver.poll Receiver.on_frame Receiver.reset
    Receiver.on_single Framing.addressed_body Framing.pci Framing.low_nibble after_receiving
    handle_message on_negative keepalive poll_awaiting Frame.size
told = refl

waiting-IsPatient : IsPatient 1 waiting
unfolding new
waiting-IsPatient = record { limited = refl; counted = omega arith; over = refl }

run-IsPatient_example : IsPatient 1 told_to_wait
run-IsPatient_example =
    run-IsPatient 1 (omega arith) waiting told_to_wait (arrived pending_frame 9 ∷ polled 10 ∷ [])
      told waiting-IsPatient

abbrev given_up : Client
given_up = record waiting {
  state = RequestState.failed;
  failure = some (error ErrorCode.transport_timeout);
}

gives_up : poll waiting 50 ≡ some (given_up, [])
unfolding poll poll_awaiting new Receiver.new Receiver.poll after_receiving keepalive
gives_up = refl

stays_over : poll given_up 51 ≡ some (given_up, [])
unfolding poll poll_awaiting new keepalive
stays_over = refl

waited : Waited waiting 2 given_up
unfolding new
waited = late (late start 50 (omega arith) gives_up) 51 (omega arith) stays_over

Waited_over_example : is_awaiting given_up.state ≡ false
unfolding new
Waited_over_example =
    Waited_over 1 (omega arith) (omega arith) waited refl refl (omega arith) (omega arith)

abbrev reset_request : List ℕ
reset_request = 0x11 ∷ 0x01 ∷ []

request_lem_example :
    ((busy given_up || length (reset_request) == 0 ≡ true)
      × (request given_up (reset_request) 7 ≡ (given_up, err (error ErrorCode.invalid_argument))))
    ⊎ ((busy given_up || length (reset_request) == 0 ≡ false)
        × ((request given_up (reset_request) 7).1 ≡ ok tt)
        × Taken given_up (reset_request) (request given_up (reset_request) 7).0
        × (((validate transport ≡ ok tt)
              × (length (reset_request) < 2 ^ 32)
              × Sending given_up (reset_request) 7 (request given_up (reset_request) 7).0)
            ⊎ ((e : Error) × ((validate transport ≡ err e)
                  ⊎ ((2 ^ 32 ≤ length (reset_request))
                      × (e ≡ error ErrorCode.frame_payload_too_large)))
                × (is_failed (request given_up (reset_request) 7).0.state ≡ true)
                × ((request given_up (reset_request) 7).0.failure ≡ some e))))
unfolding new
request_lem_example = request_lem given_up (reset_request) 7

abbrev ecu : UdsServerConfig
ecu = record {
  transport = record transport { address = mirror tester };
  security_secret = 0xA5C3F00D;
  flash_size = 16;
  flash_base = 0x08000000;
  pending_responses_per_block = 0;
  erase_duration_ns = 0;
  data_by_identifier = [];
  dtcs = record { code = 0x010301; status = 0x09 } ∷ record { code = 0x011716; status = 0x04 } ∷ [];
}

abbrev server : UdsServer
server = record (UdsServer.new ecu) { unlocked = true; session = SessionType.programming }

valid : validate transport ≡ ok tt
unfolding validate
valid = refl

-- One millisecond a round.
download-Compatible :
    Compatible (download_payload 0x08000004 10 4 1) transport ecu.transport 1000000
unfolding download_payload push_be st_min_to_ns
download-Compatible = record {
  there = mirror-Peers transport;
  back = mirror-Peers ecu.transport;
  accepted = omega arith;
  describable = omega arith;
  separation = omega arith;
  delay_cs = omega arith;
  delay_br = omega arith;
  patience_bs = (omega arith, omega arith);
  patience_cr = (omega arith, omega arith);
}

request_download-handle_example :
    let d = request_download (new impatient) 0x08000004 10 4 1 3 in
    (d.1 ≡ ok tt)
    × ((l : Link) × (Exchange.run 24 1000000 3
            (record { sender = d.0.sender; receiver = Receiver.new ecu.transport })
          ≡ some l)
        × (l.receiver.result ≡ TransferResult.succeeded)
        × (handle server l.receiver.payload 4
            ≡ begin_download server l.receiver.payload 0x08000004 10))
unfolding new UdsServer.new
request_download-handle_example =
    request_download-handle 0x08000004 10 4 1 (omega arith) (omega arith) (omega arith)
      (omega arith) (new impatient) server 3 4 1000000 24 refl refl refl (omega arith) (omega arith)
      valid download-Compatible (omega arith) (omega arith)

abbrev asking : Client
asking = record waiting { requested_service = 0x19 }

asks :
    asking.requested_service
    ≡ (read_dtc_information (new impatient) 0x02 0x08 3).0.requested_service
unfolding read_dtc_information request begin_transfer new Sender.begin Sender.new validate
asks = refl

read_dtc_information-handle_example :
    let d = (read_dtc_information (new impatient) 0x02 0x08 3).0 in
    let answered = handle_message asking (handle server d.pending_request 4).1 5 in
    (is_complete answered.state ≡ true)
    × (answered.response.positive ≡ true)
    × (parse_dtc_list answered.response.body ≡ record { code = 0x010301; status = 0x09 } ∷ [])
unfolding new UdsServer.new matching
read_dtc_information-handle_example =
    read_dtc_information-handle (new impatient) asking server 0x08 3 4 5
      (omega arith, (omega arith, tt)) refl asks

-- A server that answers each block of a download late, after one responsePending.
abbrev slow : UdsServer
slow = record (UdsServer.new (record ecu { pending_responses_per_block = 1 })) {
  unlocked = true;
  session = SessionType.programming;
  download_active = true;
  download_address = 0x08000000;
  download_size = 1;
  expected_block = 1;
}

-- A Single Frame with TransferData.
abbrev block_frame : BasicFrame
block_frame = record {
  timestamp_ns = 0;
  id = CanId.make 0x7E0 false;
  dlc = 8;
  flags = 0;
  bytes = 0x03 ∷ 0x36 ∷ 0x01 ∷ 0xAA ∷ replicate 60 0xCC;
}

slow_complete : has_message (Receiver.on_frame slow.receiver block_frame 9) ≡ true
unfolding has_message UdsServer.new Receiver.new Receiver.on_frame Receiver.on_single
    Framing.addressed_body Framing.pci Framing.low_nibble Frame.size
slow_complete = refl

slow_request : (Receiver.on_frame slow.receiver block_frame 9).payload ≡ 0x36 ∷ 0x01 ∷ 0xAA ∷ []
unfolding UdsServer.new Receiver.new Receiver.on_frame Receiver.on_single Framing.addressed_body
    Framing.pci Framing.low_nibble Frame.size
slow_request = refl

abbrev told_late : UdsServer
told_late = Server.on_frame slow block_frame 9

slow_sends : told_late.sending ≡ true
unfolding Server.on_frame Server.answered Server.respond handle dispatch transfer_data store_block
    write_offset has_message UdsServer.new Receiver.new Receiver.on_frame Receiver.on_single
    Framing.addressed_body Framing.pci Framing.low_nibble Frame.size Sender.begin Sender.new
    validate
slow_sends = refl

abbrev loading : Client
loading = record waiting { requested_service = 0x36 }

handle_message-Served_example :
    let d = handle_message loading told_late.sender.payload 12 in
    is_complete d.state || is_awaiting d.state && get_or told_late.sender.payload 2 0 == 0x78 ≡ true
unfolding new UdsServer.new
handle_message-Served_example =
    handle_message-Served slow block_frame 0x36 (0x01 ∷ 0xAA ∷ []) 9 refl refl slow_complete
      slow_request loading told_late 12 refl refl refl taken slow_sends
