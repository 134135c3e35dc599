-- ===== src/Transport/VirtualBus/Medium.antt =====
-- The operations of VirtualMedium and VirtualBus. advance() loops: it has fuel here, and `none` is
-- the end of the fuel.
use canforge.Base.{
  ℕ, zero, suc, ◌+◌, Bool, true, false, not, ltb, leb, ◌==◌, if◌then◌else◌, ◌&&◌, Option, none,
  some, List, [], ◌∷◌, ◌++◌, map, length,
}
use canforge.Core.Result.{Result, Status, ok, err, error, ErrorCode}
use canforge.Core.CanId.{CanId, arbitration_key}
use canforge.Core.Frame.{BasicFrame, is_fd, is_error_frame, size}
use canforge.Transport.Bus.{
  BusTiming, Filter, BusStatistics, no_statistics, frame_timing, total_bits, accepted_by,
}
use canforge.Transport.VirtualBus.{VirtualBus, VirtualMedium, ArbitrationEvent, u64}

-- VirtualMedium::create(). `blank` is the frame that a default FdFrame is.
unfoldable pub create : BusTiming → BasicFrame → VirtualMedium
create timing blank = record {
  timing = timing;
  now_ns = 0;
  busy_until_ns = 0;
  loopback = true;
  in_flight = false;
  current = blank;
  current_sender = none;
  rx_limit = 4096;
  tx_limit = 4096;
  participants = [];
  arbitration_log = [];
}

-- attach(): `handle` is the address of the new participant.
unfoldable pub attach : VirtualMedium → ℕ → List ℕ → VirtualMedium
attach m handle name = record m {
  participants =
      m.participants
      ++ record {
        handle = handle;
        name = name;
        outbox = [];
        inbox = [];
        filters = [];
        stats = no_statistics;
        is_open = false;
      }
        ∷ [];
}

without : ℕ → List VirtualBus → List VirtualBus
without handle [] = []
without handle (p ∷ ps) =
    let rest = without handle ps in if p.handle == handle then rest else p ∷ rest

-- detach()
unfoldable pub detach : VirtualMedium → ℕ → VirtualMedium
unfolding without
detach m handle = record m { participants = without handle m.participants }

-- The outboxes' sizes, added up.
unfoldable pub queued : List VirtualBus → ℕ
queued [] = 0
queued (p ∷ ps) = length p.outbox + queued ps

unfoldable pub pending : VirtualMedium → ℕ
unfolding queued
pending m = queued m.participants

-- The counters of a participant that a frame is delivered to.
unfoldable pub count_received : BusStatistics → BasicFrame → BusStatistics
count_received st f = record st {
  frames_received = u64 (st.frames_received + 1);
  bytes_received = u64 (st.bytes_received + size f);
  error_frames = if is_error_frame f then u64 (st.error_frames + 1) else st.error_frames;
  first_timestamp_ns = if st.first_timestamp_ns == 0 then f.timestamp_ns else st.first_timestamp_ns;
  last_timestamp_ns = f.timestamp_ns;
}

abbrev is_sender : VirtualBus → Option ℕ → Bool
is_sender p none = false
is_sender p (some handle) = p.handle == handle

-- The body of the loop of deliver().
unfoldable pub deliver_to : VirtualMedium → BasicFrame → Option ℕ → VirtualBus → VirtualBus
deliver_to m f sender p =
    if is_sender p sender && not m.loopback
    then p
    else if not p.is_open
    then p
    else if not (accepted_by p.filters f.id)
    then p
    else if leb m.rx_limit (length p.inbox)
    then record p {
      stats = record (p.stats) {
        dropped = u64 (p.stats.dropped + 1);
        receive_errors = u64 (p.stats.receive_errors + 1);
      };
    }
    else record p { inbox = p.inbox ++ f ∷ []; stats = count_received p.stats f }

unfoldable pub deliver : VirtualMedium → BasicFrame → Option ℕ → VirtualMedium
deliver m f sender = record m { participants = map (deliver_to m f sender) m.participants }

-- The head of the queue of a participant that is open.
unfoldable pub offer_of : Bool → List BasicFrame → Option BasicFrame
offer_of false frames = none
offer_of true [] = none
offer_of true (f ∷ frames) = some f

unfoldable pub offer : VirtualBus → Option BasicFrame
unfolding offer_of
offer p = offer_of p.is_open p.outbox

-- The participant that leads the arbitration, the head of its queue and its key.
pub record Bid : Type 0 where
  pub winner : VirtualBus
  pub frame : BasicFrame
  pub key : ℕ

-- The body of the arbitration loop: the first participant among equal keys stays.
unfoldable pub better : VirtualBus → Option BasicFrame → Option Bid → Option Bid
better p none best = best
better p (some f) none = some (record { winner = p; frame = f; key = arbitration_key f.id })
better p (some f) (some b) =
    if ltb (arbitration_key f.id) b.key
    then some (record { winner = p; frame = f; key = arbitration_key f.id })
    else some b

unfoldable pub arbitrate : Option Bid → List VirtualBus → Option Bid
arbitrate best [] = best
arbitrate best (p ∷ ps) = arbitrate (better p (offer p) best) ps

-- The number of participants with an offer.
unfoldable pub count_offer : Option BasicFrame → ℕ
count_offer none = 0
count_offer (some f) = 1

unfoldable pub contenders : List VirtualBus → ℕ
unfolding count_offer
contenders [] = 0
contenders (p ∷ ps) = count_offer (offer p) + contenders ps

-- The identifiers that lose against the winner, and what it does to the losers' counters.
losing_id : Bool → Option BasicFrame → List CanId → List CanId
losing_id true offered rest = rest
losing_id false none rest = rest
losing_id false (some f) rest = f.id ∷ rest

unfoldable pub losers : ℕ → List VirtualBus → List CanId
unfolding losing_id
losers winner [] = []
losers winner (p ∷ ps) = losing_id (p.handle == winner) (offer p) (losers winner ps)

unfoldable pub losing : VirtualBus → Bool → Option BasicFrame → VirtualBus
losing p true offered = p
losing p false none = p
losing p false (some f) = record p {
  stats = record (p.stats) { arbitration_losses = u64 (p.stats.arbitration_losses + 1) };
}

unfoldable pub count_loss : ℕ → VirtualBus → VirtualBus
unfolding losing
count_loss winner p = losing p (p.handle == winner) (offer p)

unfoldable pub tail_of : List BasicFrame → List BasicFrame
tail_of [] = []
tail_of (f ∷ frames) = frames

-- pop_front() on the winner's queue, and its counters for the frame that takes `bits` until `until`.
unfoldable pub count_sent : ℕ → BasicFrame → ℕ → ℕ → ℕ → VirtualBus → VirtualBus
unfolding tail_of
count_sent winner f bits now until p =
    if p.handle == winner
    then record p {
      outbox = tail_of p.outbox;
      stats = record (p.stats) {
        frames_sent = u64 (p.stats.frames_sent + 1);
        bytes_sent = u64 (p.stats.bytes_sent + size f);
        wire_bits = u64 (p.stats.wire_bits + bits);
        first_timestamp_ns =
            if p.stats.first_timestamp_ns == 0 then now else p.stats.first_timestamp_ns;
        last_timestamp_ns = until;
      };
    }
    else p

log_event : VirtualMedium → Bid → List CanId → List ArbitrationEvent
log_event m b [] = m.arbitration_log
log_event m b (i ∷ is) =
    m.arbitration_log
    ++ record {
      at_ns = m.now_ns;
      winner = b.frame.id;
      winner_name = b.winner.name;
      losers = i ∷ is;
    }
      ∷ []

-- The transmission of the bid that won.
unfoldable pub transmit : VirtualMedium → Bid → VirtualMedium
unfolding log_event
transmit m b =
    let t = frame_timing b.frame m.timing in
    let until = u64 (m.now_ns + t.nanoseconds) in
    let contended = ltb 1 (contenders m.participants) in
    record m {
      participants =
          map
            (λ p.
              count_sent b.winner.handle b.frame (total_bits t) m.now_ns until
                (if contended then count_loss b.winner.handle p else p))
            m.participants;
      arbitration_log =
          if contended
          then log_event m b (losers b.winner.handle m.participants)
          else m.arbitration_log;
      busy_until_ns = until;
      current = record (b.frame) { timestamp_ns = until };
      current_sender = some b.winner.handle;
      in_flight = true;
    }

unfoldable pub start_bid : VirtualMedium → Option Bid → VirtualMedium × Bool
start_bid m none = (m, false)
start_bid m (some b) = (transmit m b, true)

unfoldable pub start_transmission : VirtualMedium → VirtualMedium × Bool
unfolding start_bid
start_transmission m =
    if m.in_flight then (m, false) else start_bid m (arbitrate none m.participants)

unfoldable pub complete_transmission : VirtualMedium → VirtualMedium
complete_transmission m =
    if not m.in_flight
    then m
    else record (deliver (record m { in_flight = false }) m.current m.current_sender) {
      current_sender = none;
    }

unfoldable pub complete_due : VirtualMedium → VirtualMedium
complete_due m = if m.in_flight && leb m.busy_until_ns m.now_ns then complete_transmission m else m

-- The first two steps of the loop of advance().
unfoldable pub settle : VirtualMedium → VirtualMedium
unfolding complete_due
settle m =
    let done = complete_due m in if not done.in_flight then (start_transmission done).0 else done

-- The loop of advance(), with fuel. `m` has been through the first two steps.
unfoldable pub advance_to : ℕ → ℕ → VirtualMedium → Option VirtualMedium
unfolding complete_due
advance_to zero target m = none
advance_to (suc fuel) target m =
    let landed = advance_to fuel target (settle (record m { now_ns = m.busy_until_ns })) in
    if m.in_flight && leb m.busy_until_ns target
    then landed
    else some (complete_due (record m { now_ns = target }))

-- advance(), by a number of nanoseconds that is not negative.
unfoldable pub advance : ℕ → VirtualMedium → ℕ → Option VirtualMedium
unfolding advance_to
advance fuel m by = advance_to fuel (u64 (m.now_ns + by)) (settle m)

land : VirtualMedium → VirtualMedium
land m = if m.in_flight then complete_transmission (record m { now_ns = m.busy_until_ns }) else m

drain_rest : ℕ → VirtualMedium → VirtualMedium
unfolding land
drain_rest zero m = land m
drain_rest (suc frames) m =
    let next = start_transmission (land m) in
    let rest = drain_rest frames next.0 in if next.1 then rest else land (land m)

-- drain(): the medium afterwards. The time it took is the difference of the clocks.
unfoldable pub drain : VirtualMedium → ℕ → VirtualMedium
unfolding drain_rest
drain m max_frames = drain_rest max_frames m

-- VirtualBus::open() and close().
unfoldable pub open_bus : VirtualBus → VirtualBus
open_bus p = record p { is_open = true }

unfoldable pub close_bus : VirtualBus → VirtualBus
close_bus p = record p { is_open = false; outbox = []; inbox = [] }

unfoldable pub send : VirtualMedium → VirtualBus → BasicFrame → VirtualBus × Status
send m p f =
    if not p.is_open
    then (p, err (error ErrorCode.transport_not_open))
    else if is_fd f && m.timing.data_bitrate == 0
    then (p, err (error ErrorCode.transport_unsupported))
    else if leb m.tx_limit (length p.outbox)
    then (
      record p { stats = record (p.stats) { send_errors = u64 (p.stats.send_errors + 1) } },
      err (error ErrorCode.transport_overflow),
    )
    else (record p { outbox = p.outbox ++ f ∷ [] }, ok tt)

unfoldable pub set_filters : VirtualBus → List Filter → VirtualBus
set_filters p filters = record p { filters = filters }

take_frame : VirtualBus → List BasicFrame → VirtualBus × Result BasicFrame
take_frame p [] = (p, err (error ErrorCode.transport_timeout))
take_frame p (f ∷ frames) = (record p { inbox = frames }, ok f)

-- receive() after the medium has run: the first frame of the queue.
unfoldable pub receive_now : VirtualBus → VirtualBus × Result BasicFrame
unfolding take_frame
receive_now p =
    if not p.is_open then (p, err (error ErrorCode.transport_not_open)) else take_frame p p.inbox

unfoldable pub find_bus : ℕ → List VirtualBus → Option VirtualBus
find_bus handle [] = none
find_bus handle (p ∷ ps) = if p.handle == handle then some p else find_bus handle ps

put_bus : VirtualBus → VirtualBus → VirtualBus
put_bus q p = if p.handle == q.handle then q else p

abbrev pub Received : Type 0
Received = Option (VirtualMedium × Result BasicFrame)

taken : VirtualMedium → VirtualBus × Result BasicFrame → Received
unfolding put_bus
taken m r = some (record m { participants = map (put_bus r.0) m.participants }, r.1)

receive_from : VirtualMedium → Option VirtualBus → Received
unfolding taken
receive_from m none = none
receive_from m (some p) = taken m (receive_now p)

receive_run : ℕ → Option VirtualMedium → Received
unfolding receive_from
receive_run handle none = none
receive_run handle (some m) = receive_from m (find_bus handle m.participants)

is_waiting : Option VirtualBus → Bool
is_waiting none = false
is_waiting (some p) = p.is_open && length p.inbox == 0

-- receive(), for the participant `handle`: it lets the medium run when nothing has arrived.
unfoldable pub receive : ℕ → VirtualMedium → ℕ → ℕ → Received
unfolding receive_run is_waiting
receive fuel m handle timeout = receive_run handle (
    if is_waiting (find_bus handle m.participants) && ltb 0 timeout
    then advance fuel m timeout
    else some m)
