-- ===== src/IsoTp/Receiver/Laws.antt =====
-- What the Receiver holds at any time: never more than was announced, and never a segmented
-- message above its limit.
use canforge.Base.{
  ℕ, ◌-◌, ◌≤◌, ◌≡◌, min, arith, List, take, drop, length, length-append, length-take, true, false,
  Option, none, some, Bool,
}
use canforge.Core.Frame.{BasicFrame}
use canforge.IsoTp.Config.{FlowStatus, TransferResult}
use canforge.Base.{Bool-cases, inl, inr, ◌≤◌, ◌∷◌, leb, [], refl, if◌then◌else◌}
use canforge.IsoTp.Receiver.{Polled, after_flow_control, poll, poll_state}
use canforge.IsoTp.Framing.Transport.{mirror, mirror-Peers, make_flow_control-Brings}
use canforge.IsoTp.Framing.{addressed_body, low_nibble, byte_at}
use canforge.IsoTp.Receiver.{
  Receiver, State, on_frame, on_body, on_single, single_of, on_first, first_of_many, on_consecutive,
  is_idle, short_length, long_length, finish,
}

-- A segmented message is on its way.
abbrev pub is_collecting : State → FlowStatus → Bool
is_collecting State.receiving ps = true
is_collecting State.send_flow_control FlowStatus.overflow = false
is_collecting State.send_flow_control _ = true
is_collecting _ ps = false

pub record IsBounded (r : Receiver) : Type 0 where
  pub empty : is_idle r.state ≡ true → length r.payload ≡ 0
  pub announced : length r.payload ≤ r.expected
  pub limited :
      is_collecting r.state r.pending_status ≡ true → r.expected ≤ r.config.max_receive_length

finish-IsBounded : (r : Receiver) (t : TransferResult) → IsBounded r → IsBounded (finish r t)
finish-IsBounded r t v = ground arith

single_of-IsBounded :
    (r : Receiver) (body : List ℕ) (count at : ℕ)
    → IsBounded r
    → IsBounded (single_of r body count at)
unfolding single_of
single_of-IsBounded r body count at v = ground (arith, length-take count (drop at body))

on_single-IsBounded : (r : Receiver) (body : List ℕ) → IsBounded r → IsBounded (on_single r body)
unfolding on_single
on_single-IsBounded r body v =
    ground (
      arith,
      length-take (low_nibble body) (drop 1 body),
      length-take (byte_at body 1) (drop 2 body),
    )

first_of_many-IsBounded :
    (r : Receiver) (body : List ℕ) (count at now : ℕ)
    → IsBounded r
    → is_idle r.state ≡ true
    → IsBounded (first_of_many r body count at now)
unfolding first_of_many
first_of_many-IsBounded r body count at now v h = ground (arith, length-take count (drop at body))

on_first-IsBounded :
    (r : Receiver) (body : List ℕ) (now : ℕ) → IsBounded r → IsBounded (on_first r body now)
unfolding on_first
on_first-IsBounded r body now v = ground (
  arith,
  first_of_many-IsBounded r body (short_length body) 2 now,
  first_of_many-IsBounded r body (long_length body) 6 now,
)

on_consecutive-IsBounded :
    (r : Receiver) (body : List ℕ) (now : ℕ) → IsBounded r → IsBounded (on_consecutive r body now)
unfolding on_consecutive
on_consecutive-IsBounded r body now v =
    let room : ℕ = min (r.expected - length r.payload) (length body - 1) in
    ground
      (arith, length-append r.payload (take room (drop 1 body)), length-take room (drop 1 body))

on_body-IsBounded :
    (r : Receiver) (body : Option (List ℕ)) (now : ℕ) → IsBounded r → IsBounded (on_body r body now)
unfolding on_body
on_body-IsBounded r none now v = v
on_body-IsBounded r (some body) now v = ground (
  arith,
  on_single-IsBounded r body v,
  on_first-IsBounded r body now v,
  on_consecutive-IsBounded r body now v,
)

-- In a receiver that keeps its bounds no frame, from whomever, breaks them: it holds nothing while
-- idle, never more than it was told to expect, and collects no segmented message above
-- `max_receive_length`.
pub on_frame-IsBounded :
    (r : Receiver) (f : BasicFrame) (now : ℕ) → IsBounded r → IsBounded (on_frame r f now)
unfolding on_frame
on_frame-IsBounded r f now v = on_body-IsBounded r (addressed_body r.config.address f) now v

-- A poll that returns, with a receiver in its bounds and at most one frame.
pub record Answers (p : Polled) : Type 0 where
  pub next : Receiver
  pub frames : List BasicFrame
  pub result : p ≡ some (next, frames)
  pub bounded : IsBounded next
  pub one : length frames ≤ 1

after_flow_control-IsBounded :
    (r : Receiver) (now : ℕ)
    → r.state ≡ State.send_flow_control
    → IsBounded r
    → IsBounded (after_flow_control r now)
after_flow_control-IsBounded r now e v = ground (arith, v)

send_flow_control-Answers :
    (r : Receiver) (now : ℕ)
    → r.state ≡ State.send_flow_control
    → IsBounded r
    → Answers (poll_state State.send_flow_control r now)
unfolding poll_state
send_flow_control-Answers r now e v =
    let m =
      make_flow_control-Brings r.config (mirror r.config.address) (mirror-Peers r.config)
        r.pending_status in
    elim (Bool-cases (leb r.fc_due_ns now)) [
      | inl due ↦
          rw (due, m.1)
            (record {
              next = after_flow_control r now;
              frames = m.0 ∷ [];
              result = refl;
              bounded = after_flow_control-IsBounded r now e v;
              one = omega arith;
            })
      | inr early ↦
          rw early (record { next = r; frames = []; result = refl; bounded = v; one = omega arith })
    ]

poll_state-Answers :
    (state : State) (r : Receiver) (now : ℕ)
    → r.state ≡ state
    → IsBounded r
    → Answers (poll_state state r now)
unfolding poll_state
poll_state-Answers State.idle r now e v = record {
  next = r;
  frames = [];
  result = refl;
  bounded = v;
  one = omega arith;
}
poll_state-Answers State.send_flow_control r now e v = send_flow_control-Answers r now e v
poll_state-Answers State.receiving r now e v = record {
  next = if leb r.deadline_ns now then finish r TransferResult.timeout_cr else r;
  frames = [];
  result = refl;
  bounded = ground (arith, v);
  one = omega arith;
}
poll_state-Answers State.finished r now e v = record {
  next = r;
  frames = [];
  result = refl;
  bounded = v;
  one = omega arith;
}

-- Polling a Receiver that holds no more than was announced, nothing while idle, and collects no
-- segmented message above `max_receive_length`, never aborts the program: it gives at most one
-- frame, and such a Receiver.
pub poll-Answers : (r : Receiver) (now : ℕ) → IsBounded r → Answers (poll r now)
unfolding poll
poll-Answers r now v = poll_state-Answers r.state r now refl v
