-- ===== src/Transport/VirtualBus/Clock.antt =====
-- The virtual clock: VirtualMedium::advance() returns, at the time asked for, with nothing overdue.
use canforge.Base.{
  ℕ, zero, suc, ◌+◌, ◌≤◌, ◌<◌, ◌≡◌, refl, ap, ◌∙◌, arith, Bool, true, false, not, ltb, leb, ◌==◌,
  if◌then◌else◌, ◌&&◌, Option, none, some, Bool-cases, inl, inr, List, [], ◌∷◌, get_elem?, map,
  length,
}
use canforge.Core.Frame.{BasicFrame}
use canforge.Transport.VirtualBus.{VirtualBus, VirtualMedium, u64}
use canforge.Transport.Bus.{frame_timing, total_bits}
use canforge.Transport.VirtualBus.Medium.{
  Bid, offer, arbitrate, queued, pending, deliver_to, deliver, count_loss, count_sent, transmit,
  start_transmission, start_bid, complete_transmission, complete_due, settle, advance, advance_to,
  contenders, losing, offer_of, tail_of,
}
use canforge.Transport.VirtualBus.Arbitration.{Leads, arbitrate-Leads}

queued-map :
    (g : VirtualBus → VirtualBus) (ps : List VirtualBus)
    → ((p : VirtualBus) → length (g p).outbox ≤ length p.outbox)
    → queued (map g ps) ≤ queued ps
unfolding queued
queued-map g [] h = omega arith
queued-map g (p ∷ ps) h = omega (arith, h p, queued-map g ps h)

queued-map_lt :
    (g : VirtualBus → VirtualBus) (ps : List VirtualBus) (i : ℕ) (q : VirtualBus)
    → ((p : VirtualBus) → length (g p).outbox ≤ length p.outbox)
    → get_elem? ps i ≡ some q
    → length (g q).outbox < length q.outbox
    → queued (map g ps) < queued ps
unfolding queued
queued-map_lt g [] i q h e lt = absurd (cc e)
queued-map_lt g (p ∷ ps) zero q h e lt =
    let same : p ≡ q = cc e in
    let at : length (g p).outbox < length p.outbox = rw same lt in
    omega (arith, at, queued-map g ps h)
queued-map_lt g (p ∷ ps) (suc i) q h e lt = omega (arith, h p, queued-map_lt g ps i q h e lt)

deliver_to-outbox :
    (m : VirtualMedium) (f : BasicFrame) (sender : Option ℕ) (p : VirtualBus)
    → (deliver_to m f sender p).outbox ≡ p.outbox
unfolding deliver_to
deliver_to-outbox m f sender p = ground arith

losing-outbox :
    (p : VirtualBus) (b : Bool) (o : Option BasicFrame)
    → ((losing p b o).outbox ≡ p.outbox) × ((losing p b o).handle ≡ p.handle)
unfolding losing
losing-outbox p true o = (refl, refl)
losing-outbox p false none = (refl, refl)
losing-outbox p false (some f) = (refl, refl)

count_loss-outbox :
    (w : ℕ) (p : VirtualBus) (contended : Bool)
    → let q = if contended then count_loss w p else p in
      (q.outbox ≡ p.outbox) × (q.handle ≡ p.handle)
unfolding count_loss
count_loss-outbox w p true = losing-outbox p (p.handle == w) (offer p)
count_loss-outbox w p false = (refl, refl)

length-tail_of : (fs : List BasicFrame) → length (tail_of fs) ≤ length fs
unfolding tail_of
length-tail_of [] = omega arith
length-tail_of (f ∷ fs) = omega arith

has_frame :
    (p : VirtualBus) (b : Bool) (fs : List BasicFrame) (f : BasicFrame)
    → offer_of b fs ≡ some f
    → length (tail_of fs) < length fs
unfolding offer_of tail_of
has_frame p false fs f e = absurd (cc e)
has_frame p true [] f e = absurd (cc e)
has_frame p true (g ∷ fs) f e = omega arith

offer-tail :
    (p : VirtualBus) (f : BasicFrame)
    → offer p ≡ some f
    → length (tail_of p.outbox) < length p.outbox
unfolding offer
offer-tail p f e = has_frame p p.is_open p.outbox f e

-- What transmit() does to a participant.
module _ (w : ℕ) (f : BasicFrame) (bits now until : ℕ) (contended : Bool) where
  sent : VirtualBus → VirtualBus
  sent p = count_sent w f bits now until (if contended then count_loss w p else p)

  sent-outbox : (p : VirtualBus) → length (sent p).outbox ≤ length p.outbox
  unfolding sent count_sent
  sent-outbox p = ground (arith, length-tail_of p.outbox, count_loss-outbox w p contended)

  popped :
      (q : VirtualBus) → q.handle ≡ w → (count_sent w f bits now until q).outbox ≡ tail_of q.outbox
  unfolding count_sent
  popped q e = ground arith

  sent-winner :
      (p : VirtualBus)
      → p.handle ≡ w
      → length (tail_of p.outbox) < length p.outbox
      → length (sent p).outbox < length p.outbox
  unfolding sent
  sent-winner p e lt =
      let q = if contended then count_loss w p else p in
      let same = count_loss-outbox w p contended in rw (popped q (same.1 ∙ e), same.0) lt

queued-transmit :
    (m : VirtualMedium) (b : Bid) → Leads m.participants b → pending (transmit m b) < pending m
unfolding pending transmit sent
queued-transmit m b l =
    let t = frame_timing b.frame m.timing in
    let g =
      sent b.winner.handle b.frame (total_bits t) m.now_ns (u64 (m.now_ns + t.nanoseconds))
        (ltb 1 (contenders m.participants)) in
    queued-map_lt g m.participants l.index b.winner
      (sent-outbox b.winner.handle b.frame (total_bits t) m.now_ns (u64 (m.now_ns + t.nanoseconds))
        (ltb 1 (contenders m.participants)))
      l.at
      (sent-winner b.winner.handle b.frame (total_bits t) m.now_ns (u64 (m.now_ns + t.nanoseconds))
        (ltb 1 (contenders m.participants)) b.winner refl (offer-tail b.winner b.frame l.offers))

pending_complete : (m : VirtualMedium) → pending (complete_transmission m) ≤ pending m
unfolding pending complete_transmission deliver
pending_complete m = ground (
  arith,
  queued-map (deliver_to (record m { in_flight = false }) m.current m.current_sender) m.participants
      (λ p. omega (
        arith,
        ap length (deliver_to-outbox (record m { in_flight = false }) m.current m.current_sender p),
      )),
)

-- What holds after the first two steps of a turn of the loop.
record IsSettled (before : ℕ) (m : VirtualMedium) : Type 0 where
  pub less : pending m ≤ before
  pub quiet : m.in_flight ≡ false → arbitrate none m.participants ≡ none

record IsStarted (m : VirtualMedium) (n : VirtualMedium) : Type 0 where
  pub settled : IsSettled (pending m) n
  pub fewer : n.in_flight ≡ true → pending n < pending m
  pub now : n.now_ns ≡ m.now_ns

idle-IsStarted :
    (m : VirtualMedium) → m.in_flight ≡ false → arbitrate none m.participants ≡ none → IsStarted m m
idle-IsStarted m e q = record {
  settled = record { less = omega arith; quiet = λ _. q };
  fewer = λ t. absurd (cc (e, t));
  now = refl;
}

sent-IsStarted : (m : VirtualMedium) (b : Bid) → Leads m.participants b → IsStarted m (transmit m b)
unfolding transmit
sent-IsStarted m b l = record {
  settled = record { less = omega (arith, queued-transmit m b l); quiet = λ t. absurd (cc t) };
  fewer = λ _. queued-transmit m b l;
  now = refl;
}

if-true : {A : Type 0} (b : Bool) (x y : A) → b ≡ true → (if b then x else y) ≡ x
if-true true x y e = refl
if-true false x y e = absurd (cc e)

if-false : {A : Type 0} (b : Bool) (x y : A) → b ≡ false → (if b then x else y) ≡ y
if-false true x y e = absurd (cc e)
if-false false x y e = refl

start_transmission-idle :
    (m : VirtualMedium) (o : Option Bid)
    → m.in_flight ≡ false
    → arbitrate none m.participants ≡ o
    → (start_transmission m).0 ≡ (start_bid m o).0
unfolding start_transmission
start_transmission-idle m o e w =
    ap (λ (r : VirtualMedium × Bool). r.0)
      (if-false m.in_flight (m, false) (start_bid m (arbitrate none m.participants)) e
        ∙ ap (start_bid m) w)

start_transmission-IsStarted :
    (m : VirtualMedium) → m.in_flight ≡ false → IsStarted m (start_transmission m).0
unfolding start_bid
start_transmission-IsStarted m e = elim (arbitrate-Leads m.participants) [
  | inl (none_wins, h) ↦
      rw (start_transmission-idle m none e none_wins) (idle-IsStarted m e none_wins)
  | inr (b, wins, l) ↦ rw (start_transmission-idle m (some b) e wins) (sent-IsStarted m b l)
]

complete_transmission-idle :
    (m : VirtualMedium)
    → m.in_flight ≡ true
    → ((complete_transmission m).in_flight ≡ false) × ((complete_transmission m).now_ns ≡ m.now_ns)
unfolding complete_transmission deliver
complete_transmission-idle m e = ground arith

-- A frame in flight that is not due stays; one that is due is delivered before the next starts.
record IsTurn (m : VirtualMedium) (n : VirtualMedium) : Type 0 where
  pub settled : IsSettled (pending m) n
  pub fewer :
      n.in_flight ≡ true
      → (m.in_flight && not (leb m.busy_until_ns m.now_ns)) ≡ false
      → pending n < pending m
  pub now : n.now_ns ≡ m.now_ns

settle-idle :
    (m c : VirtualMedium)
    → complete_due m ≡ c
    → c.in_flight ≡ false
    → settle m ≡ (start_transmission c).0
unfolding settle
settle-idle m c e f = rw e (if-true (not c.in_flight) (start_transmission c).0 c (ap not f))

settle-busy : (m c : VirtualMedium) → complete_due m ≡ c → c.in_flight ≡ true → settle m ≡ c
unfolding settle
settle-busy m c e f = rw e (if-false (not c.in_flight) (start_transmission c).0 c (ap not f))

due-IsTurn :
    (m : VirtualMedium)
    → m.in_flight ≡ true
    → leb m.busy_until_ns m.now_ns ≡ true
    → IsTurn m (settle m)
unfolding complete_due
due-IsTurn m e due =
    let c = complete_transmission-idle m e in
    let d =
      if-true (m.in_flight && leb m.busy_until_ns m.now_ns) (complete_transmission m) m
        (ground arith) in
    let s = start_transmission-IsStarted (complete_transmission m) c.0 in
    let p = pending_complete m in
    rw (settle-idle m (complete_transmission m) d c.0) (record {
      settled = record { less = omega (arith, s.settled.less); quiet = s.settled.quiet };
      fewer = λ t _. omega (arith, s.fewer t);
      now = s.now ∙ c.1;
    })

undue-IsTurn :
    (m : VirtualMedium)
    → m.in_flight ≡ true
    → leb m.busy_until_ns m.now_ns ≡ false
    → IsTurn m (settle m)
unfolding complete_due
undue-IsTurn m e later =
    let d =
      if-false (m.in_flight && leb m.busy_until_ns m.now_ns) (complete_transmission m) m
        (ground arith) in
    rw (settle-busy m m d e) (record {
      settled = record { less = omega arith; quiet = λ t. absurd (cc (e, t)) };
      fewer = λ t h. ground arith;
      now = refl;
    })

idle-IsTurn : (m : VirtualMedium) → m.in_flight ≡ false → IsTurn m (settle m)
unfolding complete_due
idle-IsTurn m e =
    let d =
      if-false (m.in_flight && leb m.busy_until_ns m.now_ns) (complete_transmission m) m
        (ground arith) in
    let s = start_transmission-IsStarted m e in
    rw (settle-idle m m d e) (record { settled = s.settled; fewer = λ t _. s.fewer t; now = s.now })

settle-IsTurn : (m : VirtualMedium) → IsTurn m (settle m)
settle-IsTurn m = elim (Bool-cases m.in_flight) [
  | inl e ↦ elim (Bool-cases (leb m.busy_until_ns m.now_ns)) [
    | inl due ↦ due-IsTurn m e due
    | inr later ↦ undue-IsTurn m e later
  ]
  | inr e ↦ idle-IsTurn m e
]

-- What advance() leaves.
pub record IsAdvanced (target : ℕ) (m : VirtualMedium) : Type 0 where
  pub clock : m.now_ns ≡ target
  pub not_due : m.in_flight ≡ true → target < m.busy_until_ns
  pub no_offer : m.in_flight ≡ false → arbitrate none m.participants ≡ none

stop-IsAdvanced :
    (target before : ℕ) (m : VirtualMedium)
    → IsSettled before m
    → (m.in_flight && leb m.busy_until_ns target) ≡ false
    → IsAdvanced target (complete_due (record m { now_ns = target }))
unfolding complete_due
stop-IsAdvanced target before m s stop =
    let n = record m { now_ns = target } in
    let d =
      if-false (n.in_flight && leb n.busy_until_ns n.now_ns) (complete_transmission n) n stop in
    rw d (record { clock = refl; not_due = λ t. ground arith; no_offer = s.quiet })

advance_to-IsAdvanced :
    (fuel target before : ℕ) (m : VirtualMedium)
    → IsSettled before m
    → 0 < fuel
    → (m.in_flight ≡ true → pending m + 1 < fuel)
    → (n : VirtualMedium) × (advance_to fuel target m ≡ some n) × IsAdvanced target n
unfolding advance_to pending
advance_to-IsAdvanced zero target before m s pos h = absurd (omega arith)
advance_to-IsAdvanced (suc fuel) target before m s pos h =
    let landing = record m { now_ns = m.busy_until_ns } in
    let turn = settle-IsTurn landing in
    elim (Bool-cases (m.in_flight && leb m.busy_until_ns target)) [
      | inl go ↦
          let flying : m.in_flight ≡ true = ground arith in
          let rest =
            advance_to-IsAdvanced fuel target (pending landing) (settle landing) turn.settled
              (omega (arith, h flying))
              (λ t. omega (arith, h flying, turn.fewer t (ground arith))) in
          (
            rest.0,
            if-true (m.in_flight && leb m.busy_until_ns target)
                  (advance_to fuel target (settle landing))
                  (some (complete_due (record m { now_ns = target }))) go
                ∙ rest.1,
            rest.2,
          )
      | inr stop ↦ (
        complete_due (record m { now_ns = target }),
        if-false (m.in_flight && leb m.busy_until_ns target)
            (advance_to fuel target (settle landing))
            (some (complete_due (record m { now_ns = target }))) stop,
        stop-IsAdvanced target before m s stop,
      )
    ]

-- With fuel for two turns more than there are frames queued, advance() returns: the clock then
-- stands at the time asked for, a frame still in flight ends later than that, and the medium is
-- idle only if no open participant has a frame queued.
pub advance-IsAdvanced :
    (fuel : ℕ) (m : VirtualMedium) (by : ℕ)
    → pending m + 2 ≤ fuel
    → (n : VirtualMedium) × (advance fuel m by ≡ some n) × IsAdvanced (u64 (m.now_ns + by)) n
unfolding advance
advance-IsAdvanced fuel m by h =
    let turn = settle-IsTurn m in
    advance_to-IsAdvanced fuel (u64 (m.now_ns + by)) (pending m) (settle m) turn.settled
      (omega arith) (λ t. omega (arith, turn.settled.less))
