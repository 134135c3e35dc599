-- ===== src/Sim/Faults/Accounts.antt =====
-- The counters and the time of a frame that passes the fault injector.
use canforge.Base.{
  if_intro, ℕ, ◌+◌, ◌-◌, ◌*◌, ◌/◌, ◌%◌, ◌^◌, ◌<◌, ◌≡◌, refl, ap, ◌∙◌, arith, Bool, true, false,
  if◌then◌else◌, ltb, ◌&&◌, bit_xor, get_or, set, Option, none, some, List, [], ◌∷◌,
}
use canforge.Core.CanId.{CanId, id_value}
use canforge.Core.Frame.{BasicFrame, size}
use canforge.Sim.Faults.{
  Outside, FaultKind, Fault, ScheduledFrame, FaultInjector, counted, node_stopped, concerns, Turn,
  usable_signal, discard, hold_back, report_frozen, force_value, corrupt, by_kind, and_then, pass,
  sent, process,
}

-- How long a fault holds a frame back.
abbrev pub hold : FaultKind → ℕ → ℕ
hold FaultKind.delay_message n = n
hold _ n = 0

module _ {Real : Type 0} where
  -- The sum of the delays, and their number, over the faults that concern the frame.
  abbrev pub delays : List (Fault Real) → List ℕ → CanId → ℕ
  delays [] node id = 0
  delays (f ∷ fs) node id =
      (if concerns f node id then hold f.kind f.delay_ns else 0) + delays fs node id

  abbrev pub holds : List (Fault Real) → List ℕ → CanId → ℕ
  holds [] node id = 0
  holds (f ∷ fs) node id = (if concerns f node id then hold f.kind 1 else 0) + holds fs node id

module _ {Real Rng Database Message Signal : Type 0}
    (world : Outside Real Rng Database Message Signal) where
  Passed :
      FaultInjector Real Rng
      → ℕ
      → ℕ
      → ScheduledFrame
      → FaultInjector Real Rng × Option ScheduledFrame
      → Type 0
  Passed i d h s (j, none) = j.dropped ≡ counted i.dropped
  Passed i d h s (j, some t) =
      (t.at_ns ≡ (s.at_ns + d) % 2 ^ 64)
      × (j.delayed ≡ (i.delayed + h) % 2 ^ 64)
      × (j.dropped ≡ i.dropped)

  same :
      (i : FaultInjector Real Rng) (s : ScheduledFrame)
      → i.delayed < 2 ^ 64
      → s.at_ns < 2 ^ 64
      → Passed i 0 0 s (i, some s)
  unfolding Passed
  same i s small early = (omega arith, omega arith, refl)

  frozen :
      (i : FaultInjector Real Rng) (f : Fault Real) (id : ℕ) (o : Option Signal)
      (s : ScheduledFrame)
      → i.delayed < 2 ^ 64
      → s.at_ns < 2 ^ 64
      → Passed i 0 0 s (report_frozen world i f id o s)
  unfolding report_frozen Passed
  frozen i f id none s small early = (omega arith, omega arith, refl)
  frozen i f id (some signal) s small early = (omega arith, omega arith, refl)

  forced :
      (i : FaultInjector Real Rng) (f : Fault Real) (o : Option Signal) (s : ScheduledFrame)
      → i.delayed < 2 ^ 64
      → s.at_ns < 2 ^ 64
      → Passed i 0 0 s (force_value world i f o s)
  unfolding force_value Passed
  forced i f none s small early = (omega arith, omega arith, refl)
  forced i f (some signal) s small early = (omega arith, omega arith, refl)

  by_kind-Passed :
      (k : FaultKind) (i : FaultInjector Real Rng) (f : Fault Real) (id : CanId)
      (message : Option Message) (s : ScheduledFrame)
      → i.delayed < 2 ^ 64
      → s.at_ns < 2 ^ 64
      → Passed i (hold k f.delay_ns) (hold k 1) s (by_kind world k i f id message s)
  unfolding by_kind Passed discard hold_back corrupt
  by_kind-Passed FaultKind.stop_node i f id message s small early = (omega arith, omega arith, refl)
  by_kind-Passed FaultKind.drop_frames i f id message s small early =
      if_intro (λ r. Passed i 0 0 s r) (world.less (world.draw i.rng).0 f.probability)
        (record i { rng = (world.draw i.rng).1; dropped = counted i.dropped }, none)
        (record i { rng = (world.draw i.rng).1 }, some s) (λ e. refl)
        (λ e. (omega arith, omega arith, refl))
  by_kind-Passed FaultKind.delay_message i f id message s small early = (refl, refl, refl)
  by_kind-Passed FaultKind.freeze_signal i f id message s small early =
      frozen i f (id_value id) (usable_signal world message f.signal s.frame) s small early
  by_kind-Passed FaultKind.out_of_range i f id message s small early =
      forced i f (usable_signal world message f.signal s.frame) s small early
  by_kind-Passed FaultKind.bit_flip i f id message s small early =
      let (x, g) = world.draw i.rng in
      let working = s.frame in
      let (bit, after) = world.which (size working * 8 - 1) g in
      let flipped = bit_xor (get_or working.bytes (bit / 8) 0) (1 * 2 ^ (bit % 8)) % 2 ^ 8 in
      if_intro (λ r. Passed i 0 0 s r) (world.less x f.probability && ltb 0 (size working))
        (
          record i { rng = after; corrupted = counted i.corrupted },
          some
              (record s { frame = record working { bytes = set working.bytes (bit / 8) flipped } }),
        )
        (record i { rng = g }, some s) (λ e. (omega arith, omega arith, refl))
        (λ e. (omega arith, omega arith, refl))

  turn-Passed :
      (b : Bool) (i : FaultInjector Real Rng) (f : Fault Real) (id : CanId)
      (message : Option Message) (s : ScheduledFrame)
      → i.delayed < 2 ^ 64
      → s.at_ns < 2 ^ 64
      → Passed i
          (if b then hold f.kind f.delay_ns else 0)
          (if b then hold f.kind 1 else 0)
          s
          (if b then by_kind world f.kind i f id message s else (i, some s))
  turn-Passed true i f id message s small early = by_kind-Passed f.kind i f id message s small early
  turn-Passed false i f id message s small early = same i s small early

  and_then-Passed :
      (i : FaultInjector Real Rng) (d h e g : ℕ) (s : ScheduledFrame) (r : Turn world)
      (next : FaultInjector Real Rng → ScheduledFrame → Turn world)
      → Passed i d h s r
      → ((j : FaultInjector Real Rng) (t : ScheduledFrame)
          → j.delayed < 2 ^ 64
          → t.at_ns < 2 ^ 64
          → Passed j e g t (next j t))
      → Passed i (d + e) (h + g) s (and_then world r next)
  unfolding Passed
  and_then-Passed i d h e g s (j, none) next here later = here
  and_then-Passed i d h e g s (j, some t) next (at, late, kept) later =
      joined (next j t) (later j t (omega arith) (omega arith))
    where
      joined : (r : Turn world) → Passed j e g t r → Passed i (d + e) (h + g) s r
      joined (k, none) q = q ∙ ap counted kept
      joined (k, some u) (at_u, late_u, kept_u) = (omega arith, omega arith, kept_u ∙ kept)

  pass-Passed :
      (fs : List (Fault Real)) (node : List ℕ) (id : CanId) (message : Option Message)
      (i : FaultInjector Real Rng) (s : ScheduledFrame)
      → i.delayed < 2 ^ 64
      → s.at_ns < 2 ^ 64
      → Passed i (delays fs node id) (holds fs node id) s (pass world fs node id message i s)
  unfolding pass
  pass-Passed [] node id message i s small early = same i s small early
  pass-Passed (f ∷ fs) node id message i s small early =
      and_then-Passed i _ _ (delays fs node id) (holds fs node id) s _ _
        (turn-Passed (concerns f node id) i f id message s small early)
        (λ j t. pass-Passed fs node id message j t)

  -- What process() answers: one frame more dropped and nothing sent, or one frame sent at `at_ns`,
  -- with `held` more delays counted and nothing dropped.
  abbrev pub Accounted :
      FaultInjector Real Rng → ℕ → ℕ → FaultInjector Real Rng × List ScheduledFrame → Type 0
  Accounted i at_ns held (j, []) = j.dropped ≡ counted i.dropped
  Accounted i at_ns held (j, t ∷ []) =
      (t.at_ns ≡ at_ns) × (j.delayed ≡ (i.delayed + held) % 2 ^ 64) × (j.dropped ≡ i.dropped)
  Accounted i at_ns held (j, _ ∷ _ ∷ _) = ⊥

  sent-Accounted :
      (i : FaultInjector Real Rng) (d h : ℕ) (s : ScheduledFrame) (r : Turn world)
      → Passed i d h s r
      → Accounted i ((s.at_ns + d) % 2 ^ 64) h (sent world r)
  unfolding Passed
  sent-Accounted i d h s (j, none) q = q
  sent-Accounted i d h s (j, some t) q = q

  -- With a time and a delay counter of 64 bits, process() of a frame either drops it, counts it as
  -- dropped and sends nothing, or sends exactly one frame and drops none: at the time now plus the sum of the delays
  -- of the active faults that concern the frame (on 64 bits), each of which is counted.
  pub process-Accounted :
      (i : FaultInjector Real Rng) (node : List ℕ) (frame : BasicFrame) (now_ns : ℕ)
      (database : Database)
      → i.delayed < 2 ^ 64
      → now_ns < 2 ^ 64
      → Accounted i
          ((now_ns + delays i.faults node frame.id) % 2 ^ 64)
          (holds i.faults node frame.id)
          (process world i node frame now_ns database)
  unfolding process
  process-Accounted i node frame now_ns database small early =
      if_intro
        (Accounted i ((now_ns + delays i.faults node frame.id) % 2 ^ 64)
          (holds i.faults node frame.id))
        (node_stopped i.faults node) _ _ (λ e. refl)
        (λ e. sent-Accounted i _ _ _ _ (
          pass-Passed i.faults node frame.id (world.find_message database frame.id) i
            (record { at_ns = now_ns; frame = frame }) small early))
