-- ===== src/Uds/Client.antt =====
-- class Client of uds/include/canforge/uds/Uds.hpp and uds/src/Uds.cpp: one request and its
-- response, driven by frames and polls. Service identifiers, negative response codes and sessions
-- are their bytes. poll() returns `none` where a Sender or a Receiver would abort.
pub mod Polls
pub mod Safety
pub mod Patience
pub mod Waiting
pub mod Answers
use canforge.Base.{
  ℕ, ◌+◌, ◌*◌, ◌/◌, ◌%◌, ◌^◌, Bool, true, false, not, ltb, leb, ◌==◌, if◌then◌else◌, ◌&&◌, ◌||◌,
  bit_and, bit_or, Option, none, some, List, [], ◌∷◌, ◌++◌, get_or, drop, length,
}
use mathlib.Core.Option
use canforge.Core.Result.{Result, Status, Error, ok, err, error, error_at, ErrorCode}
use canforge.Core.Frame.{BasicFrame}
use canforge.IsoTp.Config.{Config, TransferResult, u64}
use canforge.IsoTp.Sender
use canforge.IsoTp.Receiver

pub record ClientConfig : Type 0 where
  pub transport : Config
  pub p2_ns : ℕ
  pub p2_star_ns : ℕ
  pub max_response_pending : ℕ
  pub s3_ns : ℕ
  pub tester_present_keepalive : Bool

pub data RequestState : Type 0 where
  idle sending awaiting_response complete failed : RequestState

-- Response: `body` is the member `data`.
pub record Response : Type 0 where
  pub positive : Bool
  pub service : ℕ
  pub nrc : ℕ
  pub body : List ℕ
  pub pending_count : ℕ

abbrev pub no_response : Response
no_response = record { positive = false; service = 0; nrc = 0; body = []; pending_count = 0 }

-- The members. `failure` is `none` before the first failure, where the source holds Error().
pub record Client : Type 0 where
  pub config : ClientConfig
  pub sender : Sender.Sender
  pub receiver : Receiver.Receiver
  pub pending_request : List ℕ
  pub requested_service : ℕ
  pub expect_response : Bool
  pub state : RequestState
  pub response : Response
  pub failure : Option Error
  pub deadline_ns : ℕ
  pub pending_count : ℕ
  pub session : ℕ
  pub last_activity_ns : ℕ
  pub keepalives : ℕ

unfoldable pub new : ClientConfig → Client
new c = record {
  config = c;
  sender = Sender.new c.transport;
  receiver = Receiver.new c.transport;
  pending_request = [];
  requested_service = 0;
  expect_response = true;
  state = RequestState.idle;
  response = no_response;
  failure = none;
  deadline_ns = 0;
  pending_count = 0;
  session = 0x01;
  last_activity_ns = 0;
  keepalives = 0;
}

abbrev pub is_sending : RequestState → Bool
is_sending RequestState.sending = true
is_sending _ = false

abbrev pub is_awaiting : RequestState → Bool
is_awaiting RequestState.awaiting_response = true
is_awaiting _ = false

abbrev pub is_complete : RequestState → Bool
is_complete RequestState.complete = true
is_complete _ = false

abbrev pub is_failed : RequestState → Bool
is_failed RequestState.failed = true
is_failed _ = false

abbrev pub busy : Client → Bool
busy c = is_sending c.state || is_awaiting c.state

abbrev pub finish : Client → Response → Client
finish c r = record c {
  response = record r { pending_count = c.pending_count };
  state = RequestState.complete;
}

abbrev pub fail : Client → Error → Client
fail c e = record c { failure = some e; state = RequestState.failed }

-- The Sender after begin(), or the failure.
begun : Client → Result Sender.Sender → ℕ → Client
begun c (err e) now = fail c e
begun c (ok s) now = record c {
  sender = s;
  deadline_ns = u64 (now + c.config.p2_ns);
  last_activity_ns = now;
}

unfoldable pub begin_transfer : Client → ℕ → Client
unfolding begun
begin_transfer c now =
    let fresh = record c {
      sender = Sender.new c.config.transport;
      receiver = Receiver.reset c.receiver;
    } in
    begun fresh (Sender.begin fresh.sender c.pending_request now) now

-- The services with a sub-function, as request() lists them.
unfoldable pub has_sub_function : ℕ → Bool
has_sub_function service =
    service == 0x10
    || service == 0x11
    || service == 0x27
    || service == 0x28
    || service == 0x31
    || service == 0x3E
    || service == 0x19

unfoldable pub expects_response : List ℕ → Bool
unfolding has_sub_function
expects_response payload = not (
    has_sub_function (get_or payload 0 0)
    && leb 2 (length payload)
    && not (bit_and (get_or payload 1 0) 0x80 == 0))

-- The client that sends `payload`.
abbrev asked : Client → List ℕ → Client
asked c payload = record c {
  requested_service = get_or payload 0 0;
  expect_response = expects_response payload;
  pending_request = payload;
  response = no_response;
  pending_count = 0;
  state = RequestState.sending;
}

-- request(): the client after it, and the status.
unfoldable pub request : Client → List ℕ → ℕ → Client × Status
request c payload now =
    if busy c
    then (c, err (error ErrorCode.invalid_argument))
    else if length payload == 0
    then (c, err (error ErrorCode.invalid_argument))
    else (begin_transfer (asked c payload) now, ok tt)

unfoldable pub on_negative : Client → List ℕ → ℕ → Client
on_negative c message now =
    let counted = record c { pending_count = (c.pending_count + 1) % 2 ^ 32 } in
    if ltb (length message) 3
    then fail c (error ErrorCode.parse_semantic)
    else if not (get_or message 2 0 == 0x78)
    then finish c (record no_response { service = get_or message 1 0; nrc = get_or message 2 0 })
    else if not (c.config.max_response_pending == 0)
        && ltb c.config.max_response_pending counted.pending_count
    then fail counted (error_at ErrorCode.transport_timeout counted.pending_count 0)
    else record counted { deadline_ns = u64 (now + c.config.p2_star_ns) }

-- The session that a positive response reports.
session_after : Client → List ℕ → ℕ
session_after c body =
    if c.requested_service == 0x10 && not (length body == 0)
    then bit_and (get_or body 0 0) 0x7F
    else c.session

unfoldable pub on_positive : Client → List ℕ → Client
unfolding session_after
on_positive c message =
    finish (record c { session = session_after c (drop 1 message) })
      (record no_response { positive = true; service = get_or message 0 0; body = drop 1 message })

unfoldable pub handle_message : Client → List ℕ → ℕ → Client
handle_message c message now =
    let active = record c { last_activity_ns = now } in
    if length message == 0
    then fail active (error ErrorCode.parse_semantic)
    else if get_or message 0 0 == 0x7F
    then on_negative active message now
    else if not (get_or message 0 0 == c.requested_service + 0x40)
    then fail active (error_at ErrorCode.parse_semantic (get_or message 0 0) c.requested_service)
    else on_positive active message

unfoldable pub on_frame : Client → BasicFrame → ℕ → Client
on_frame c frame now =
    if is_sending c.state
    then record c { sender = Sender.on_frame c.sender frame now }
    else if is_awaiting c.state
    then record c { receiver = Receiver.on_frame c.receiver frame now }
    else c

-- static_cast<std::uint32_t> of a TransferResult.
abbrev transfer_code : TransferResult → ℕ
transfer_code TransferResult.in_progress = 0
transfer_code TransferResult.succeeded = 1
transfer_code TransferResult.timeout_a = 2
transfer_code TransferResult.timeout_bs = 3
transfer_code TransferResult.timeout_cr = 4
transfer_code TransferResult.wrong_sequence = 5
transfer_code TransferResult.unexpected_pdu = 6
transfer_code TransferResult.buffer_overflow = 7
transfer_code TransferResult.wait_overrun = 8
transfer_code TransferResult.invalid_pdu = 9
transfer_code TransferResult.aborted = 10

abbrev is_succeeded : TransferResult → Bool
is_succeeded TransferResult.succeeded = true
is_succeeded _ = false

abbrev is_done : TransferResult → Bool
is_done TransferResult.in_progress = false
is_done _ = true

-- Once the Sender is polled: the client, and whether poll() returns at once.
unfoldable pub after_sending : Client → ℕ → Client × Bool
after_sending c now =
    if not (is_done c.sender.result)
    then (c, false)
    else if not (is_succeeded c.sender.result)
    then (
      fail c (error_at ErrorCode.transport_write_failed (transfer_code c.sender.result) 0),
      true,
    )
    else if not c.expect_response
    then (finish c (record no_response { positive = true; service = c.requested_service }), true)
    else (
      record c { state = RequestState.awaiting_response; deadline_ns = u64 (now + c.config.p2_ns) },
      false,
    )

-- Once the Receiver is polled.
unfoldable pub after_receiving : Client → ℕ → Client
after_receiving c now =
    if is_succeeded c.receiver.result
    then handle_message (record c { receiver = Receiver.reset c.receiver }) c.receiver.payload now
    else if is_done c.receiver.result
    then fail c (error_at ErrorCode.transport_read_failed (transfer_code c.receiver.result) 0)
    else if leb c.deadline_ns now
    then fail c (error ErrorCode.transport_timeout)
    else c

abbrev pub Polled : Type 0
Polled = Option (Client × List BasicFrame)

-- The TesterPresent that begins at `now`, sent by a Sender of its own.
keepalive_frames : ClientConfig → ℕ → Result Sender.Sender → Option (List BasicFrame × Bool)
keepalive_frames c now (err e) = some ([], false)
keepalive_frames c now (ok s) = Option.map (λ p. (p.1, true)) (Sender.poll s now)

-- A Sender that refuses the message changes nothing.
kept_alive : Client → ℕ → List BasicFrame × Bool → Client × List BasicFrame
kept_alive c now (frames, false) = (c, [])
kept_alive c now (frames, true) =
    (record c { keepalives = (c.keepalives + 1) % 2 ^ 64; last_activity_ns = now }, frames)

abbrev pub keepalive_due : Client → ℕ → Bool
keepalive_due c now =
    c.config.tester_present_keepalive
    && is_complete c.state
    && not (c.session == 0x01)
    && leb (u64 (c.last_activity_ns + u64 (c.config.s3_ns * 2) / 5)) now

unfoldable pub keepalive : Client → ℕ → Polled
unfolding keepalive_frames kept_alive
keepalive c now =
    if keepalive_due c now
    then Option.map (kept_alive c now) (
        keepalive_frames c.config now
          (Sender.begin (Sender.new c.config.transport) (0x3E ∷ 0x80 ∷ []) now))
    else some (c, [])

-- The steps of poll() from the sending on, each with the frames of those before it.
poll_sending : Client → ℕ → Option (Client × List BasicFrame × Bool)
poll_sending c now =
    if is_sending c.state
    then Option.map
        (λ p. let sent = after_sending (record c { sender = p.0 }) now in (sent.0, p.1, sent.1))
        (Sender.poll c.sender now)
    else some (c, [], false)

unfoldable pub poll_awaiting : Client → ℕ → Polled
poll_awaiting c now =
    if is_awaiting c.state
    then Option.map (λ p. (after_receiving (record c { receiver = p.0 }) now, p.1))
        (Receiver.poll c.receiver now)
    else some (c, [])

append_frames : List BasicFrame → Polled → Polled
append_frames out p = Option.map (λ q. (q.0, out ++ q.1)) p

then_keepalive : Polled → ℕ → Polled
unfolding append_frames
then_keepalive none now = none
then_keepalive (some (c, out)) now = append_frames out (keepalive c now)

unfoldable pub then_await : Option (Client × List BasicFrame × Bool) → ℕ → Polled
unfolding append_frames then_keepalive
then_await none now = none
then_await (some (c, out, true)) now = some (c, out)
then_await (some (c, out, false)) now = append_frames out (then_keepalive (poll_awaiting c now) now)

unfoldable pub poll : Client → ℕ → Polled
unfolding poll_sending then_await
poll c now = then_await (poll_sending c now) now
