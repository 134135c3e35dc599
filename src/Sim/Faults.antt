-- ===== src/Sim/Faults.antt =====
-- class FaultInjector of sim/include/canforge/sim/Faults.hpp and sim/src/Faults.cpp. Floating-point
-- numbers, the random generator with its distributions, and the database with its scaling of
-- signals are parameters: a record `Outside` of what process() calls. A name is a list of bytes.
pub mod Accounts
mod Tests
use canforge.Base.{
  ℕ, ◌+◌, ◌-◌, ◌*◌, ◌/◌, ◌%◌, ◌^◌, Bool, true, false, not, ltb, ◌==◌, if◌then◌else◌, ◌&&◌, ◌||◌,
  bit_xor, Option, none, some, List, [], ◌∷◌, ◌++◌, get_or, set,
}
use canforge.Core.CanId.{CanId, same_id, id_value}
use canforge.Core.Frame.{BasicFrame, size}

pub record Outside (Real Rng Database Message Signal : Type 0) : Type 0 where
  pub draw : Rng → Real × Rng
  pub which : ℕ → Rng → ℕ × Rng
  pub seeded : ℕ → Rng
  pub less : Real → Real → Bool
  pub find_message : Database → CanId → Option Message
  pub find_signal : Message → List ℕ → Option Signal
  pub layout_fits : Signal → ℕ → Bool
  pub decode : Signal → BasicFrame → Real
  pub encode : Signal → Real → BasicFrame → BasicFrame
  pub encode_unbounded : Signal → Real → BasicFrame → BasicFrame

pub data FaultKind : Type 0 where
  drop_frames delay_message freeze_signal out_of_range stop_node bit_flip : FaultKind

pub record Fault (Real : Type 0) : Type 0 where
  pub kind : FaultKind
  pub name : List ℕ
  pub node : List ℕ
  pub id : CanId
  pub has_id : Bool
  pub signal : List ℕ
  pub value : Real
  pub probability : Real
  pub delay_ns : ℕ
  pub active : Bool

pub record ScheduledFrame : Type 0 where
  pub at_ns : ℕ
  pub frame : BasicFrame

-- `value` is there once it has been captured.
pub record FrozenValue (Real : Type 0) : Type 0 where
  pub id : ℕ
  pub signal : List ℕ
  pub value : Option Real

pub record FaultInjector (Real Rng : Type 0) : Type 0 where
  pub faults : List (Fault Real)
  pub frozen : List (FrozenValue Real)
  pub rng : Rng
  pub seed : ℕ
  pub dropped : ℕ
  pub delayed : ℕ
  pub corrupted : ℕ

-- `==` of two names.
abbrev pub same_text : List ℕ → List ℕ → Bool
same_text [] [] = true
same_text (x ∷ xs) (y ∷ ys) = x == y && same_text xs ys
same_text _ _ = false

abbrev pub is_empty : List ℕ → Bool
is_empty [] = true
is_empty (x ∷ xs) = false

-- `++` on uint64_t.
abbrev pub counted : ℕ → ℕ
counted n = (n + 1) % 2 ^ 64

abbrev pub is_stop_node : FaultKind → Bool
is_stop_node FaultKind.stop_node = true
is_stop_node _ = false

module _ {Real : Type 0} where
  unfoldable pub find : List (Fault Real) → List ℕ → Option (Fault Real)
  find [] name = none
  find (f ∷ fs) name = if same_text f.name name then some f else find fs name

  unfoldable pub set_active : List (Fault Real) → List ℕ → Bool → List (Fault Real) × Bool
  set_active [] name on = ([], false)
  set_active (f ∷ fs) name on =
      let rest = set_active fs name on in
      if same_text f.name name then (record f { active = on } ∷ fs, true) else (f ∷ rest.0, rest.1)

  unfoldable pub toggle : List (Fault Real) → List ℕ → List (Fault Real) × Bool
  toggle [] name = ([], false)
  toggle (f ∷ fs) name =
      let rest = toggle fs name in
      if same_text f.name name
      then (record f { active = not f.active } ∷ fs, true)
      else (f ∷ rest.0, rest.1)

  unfoldable pub node_stopped : List (Fault Real) → List ℕ → Bool
  node_stopped [] node = false
  node_stopped (f ∷ fs) node =
      if f.active && is_stop_node f.kind && (is_empty f.node || same_text f.node node)
      then true
      else node_stopped fs node

  abbrev pub is_slot : FrozenValue Real → ℕ → List ℕ → Bool
  is_slot v id signal = v.id == id && same_text v.signal signal

  unfoldable pub frozen_slot : List (FrozenValue Real) → ℕ → List ℕ → FrozenValue Real
  frozen_slot [] id signal = record { id = id; signal = signal; value = none }
  frozen_slot (v ∷ vs) id signal = if is_slot v id signal then v else frozen_slot vs id signal

  -- The slot that frozen_slot() returned by reference, written.
  unfoldable pub put_slot : List (FrozenValue Real) → FrozenValue Real → List (FrozenValue Real)
  put_slot [] w = w ∷ []
  put_slot (v ∷ vs) w = if is_slot v w.id w.signal then w ∷ vs else v ∷ put_slot vs w

  -- The three guards at the head of the loop.
  unfoldable pub concerns : Fault Real → List ℕ → CanId → Bool
  concerns f node id =
      f.active && (is_empty f.node || same_text f.node node) && (not f.has_id || same_id f.id id)

module _ {Real Rng : Type 0} where
  unfoldable pub add : Fault Real → FaultInjector Real Rng → FaultInjector Real Rng
  add f i = record i { faults = i.faults ++ f ∷ [] }

module _ {Real Rng Database Message Signal : Type 0}
    (world : Outside Real Rng Database Message Signal) where
  -- The injector after a turn of the loop, and the frame unless it was dropped.
  abbrev pub Turn : Type 0
  Turn = FaultInjector Real Rng × Option ScheduledFrame

  fitting : ℕ → Option Signal → Option Signal
  fitting bytes none = none
  fitting bytes (some s) = if world.layout_fits s bytes then some s else none

  -- The signal, if the message is known, has it, and it fits.
  unfoldable pub usable_signal : Option Message → List ℕ → BasicFrame → Option Signal
  unfolding fitting
  usable_signal none name working = none
  usable_signal (some message) name working =
      fitting (size working) (world.find_signal message name)

  unfoldable pub discard : FaultInjector Real Rng → Fault Real → ScheduledFrame → Turn
  discard i f s =
      let (x, g) = world.draw i.rng in
      if world.less x f.probability
      then (record i { rng = g; dropped = counted i.dropped }, none)
      else (record i { rng = g }, some s)

  unfoldable pub hold_back : FaultInjector Real Rng → Fault Real → ScheduledFrame → Turn
  hold_back i f s = (
    record i { delayed = counted i.delayed },
    some (record s { at_ns = (s.at_ns + f.delay_ns) % 2 ^ 64 }),
  )

  value_or : Option Real → Real → Real
  value_or (some x) y = x
  value_or none y = y

  unfoldable pub report_frozen :
      FaultInjector Real Rng → Fault Real → ℕ → Option Signal → ScheduledFrame → Turn
  unfolding value_or
  report_frozen i f id none s = (i, some s)
  report_frozen i f id (some signal) s =
      let slot = frozen_slot i.frozen id f.signal in
      let value = value_or slot.value (world.decode signal s.frame) in
      (
        record i { frozen = put_slot i.frozen (record slot { value = some value }) },
        some (record s { frame = world.encode signal value s.frame }),
      )

  -- The layout's limits are reset before it encodes.
  unfoldable pub force_value :
      FaultInjector Real Rng → Fault Real → Option Signal → ScheduledFrame → Turn
  force_value i f none s = (i, some s)
  force_value i f (some signal) s =
      (i, some (record s { frame = world.encode_unbounded signal f.value s.frame }))

  unfoldable pub corrupt : FaultInjector Real Rng → Fault Real → ScheduledFrame → Turn
  corrupt i f s =
      let (x, g) = world.draw i.rng in
      let working = s.frame in
      let (bit, after) = world.which (size working * 8 - 1) g in
      let flipped = bit_xor (get_or working.bytes (bit / 8) 0) (1 * 2 ^ (bit % 8)) % 2 ^ 8 in
      if world.less x f.probability && ltb 0 (size working)
      then (
        record i { rng = after; corrupted = counted i.corrupted },
        some (record s { frame = record working { bytes = set working.bytes (bit / 8) flipped } }),
      )
      else (record i { rng = g }, some s)

  -- The switch.
  unfoldable pub by_kind :
      FaultKind
      → FaultInjector Real Rng
      → Fault Real
      → CanId
      → Option Message
      → ScheduledFrame
      → Turn
  by_kind FaultKind.stop_node i f id message s = (i, some s)
  by_kind FaultKind.drop_frames i f id message s = discard i f s
  by_kind FaultKind.delay_message i f id message s = hold_back i f s
  by_kind FaultKind.freeze_signal i f id message s =
      report_frozen i f (id_value id) (usable_signal message f.signal s.frame) s
  by_kind FaultKind.out_of_range i f id message s =
      force_value i f (usable_signal message f.signal s.frame) s
  by_kind FaultKind.bit_flip i f id message s = corrupt i f s

  -- `return {}` leaves the loop.
  abbrev pub and_then : Turn → (FaultInjector Real Rng → ScheduledFrame → Turn) → Turn
  and_then (i, none) next = (i, none)
  and_then (i, some s) next = next i s

  unfoldable pub pass :
      List (Fault Real)
      → List ℕ
      → CanId
      → Option Message
      → FaultInjector Real Rng
      → ScheduledFrame
      → Turn
  pass [] node id message i s = (i, some s)
  pass (f ∷ fs) node id message i s =
      and_then (if concerns f node id then by_kind f.kind i f id message s else (i, some s))
        (λ j t. pass fs node id message j t)

  abbrev pub sent : Turn → FaultInjector Real Rng × List ScheduledFrame
  sent (i, none) = (i, [])
  sent (i, some s) = (i, s ∷ [])

  unfoldable pub process :
      FaultInjector Real Rng
      → List ℕ
      → BasicFrame
      → ℕ
      → Database
      → FaultInjector Real Rng × List ScheduledFrame
  process i node frame now_ns database =
      if node_stopped i.faults node
      then (record i { dropped = counted i.dropped }, [])
      else sent (
          pass i.faults node frame.id (world.find_message database frame.id) i
            (record { at_ns = now_ns; frame = frame }))

  unfoldable pub reset : FaultInjector Real Rng → FaultInjector Real Rng
  reset i = record i { rng = world.seeded i.seed; frozen = [] }
