-- ===== src/IsoTp/Sender/Laws.antt =====
-- The Sender never aborts the program, and emits at most one frame a poll.
use canforge.Base.{
  Bool-cases, inl, inr, ℕ, ◌+◌, ◌-◌, ◌%◌, ◌^◌, ◌≤◌, ◌<◌, ◌≡◌, refl, min, arith, List, [], ◌∷◌, ◌++◌,
  take, drop, length, length-append, length-take, leb, ltb, true, false, Option, none, some,
  if◌then◌else◌, Bool, bit_or, bit_and,
}
use canforge.Core.Frame.{BasicFrame}
use canforge.IsoTp.Config.{Config, TransferResult, header_size, u64}
use canforge.IsoTp.Framing.{make_frame, addressed_body}
use canforge.IsoTp.Framing.Transport.{
  make_frame-Brings, mirror, mirror-Peers, header_size-le, header_size-Peers,
}
use canforge.IsoTp.Sender.{
  Sender, State, Polled, poll, poll_state, poll_single, poll_first, poll_consecutive, first_header,
  on_frame, on_body, on_flow_control, finish, after_consecutive, is_done,
}

abbrev is_single : State → Bool
is_single State.sending_single = true
is_single _ = false

-- A Single Frame is only chosen for a message that fits one, and the offset stays in the message.
pub record IsValid (s : Sender) : Type 0 where
  pub fits_single : is_single s.state ≡ true → length s.payload ≤ 7 - header_size s.config.address
  pub inside : s.offset ≤ length s.payload

-- A poll that returns, with a valid sender and at most one frame.
pub record Returns (r : Polled) : Type 0 where
  pub next : Sender
  pub frames : List BasicFrame
  pub result : r ≡ some (next, frames)
  pub valid : IsValid next
  pub one : length frames ≤ 1

made_for :
    (c : Config) (b : ℕ) (bs : List ℕ)
    → header_size c.address + length (b ∷ bs) ≤ 8
    → (f : BasicFrame) × (make_frame c (b ∷ bs) ≡ some f)
made_for c b bs h =
    let r =
      make_frame-Brings c (mirror c.address) (mirror-Peers c) b bs
        (omega (arith, header_size-Peers c (mirror c.address) (mirror-Peers c))) in
    (r.0, r.1)

poll_single-Returns :
    (s : Sender) → s.state ≡ State.sending_single → IsValid s → Returns (poll_single s)
unfolding poll_single
poll_single-Returns s e v =
    let single : is_single s.state ≡ true = rw e in
    let r =
      made_for s.config (length s.payload % 2 ^ 8) s.payload
        (ground (arith, header_size-le s.config.address, v.fits_single single)) in
    let next : Sender = finish (record s { offset = length s.payload }) TransferResult.succeeded in
    record {
      next = next;
      frames = r.0 ∷ [];
      result = rw r.1 refl;
      valid = record { fits_single = λ h. absurd (cc h); inside = omega arith };
      one = omega arith;
    }

made_of :
    (c : Config) (xs : List ℕ)
    → 0 < length xs
    → header_size c.address + length xs ≤ 8
    → (f : BasicFrame) × (make_frame c xs ≡ some f)
made_of c [] some_bytes h = absurd (omega arith)
made_of c (x ∷ xs) some_bytes h = made_for c x xs h

length-first_header : (n : ℕ) → (2 ≤ length (first_header n)) × (length (first_header n) ≤ 6)
unfolding first_header
length-first_header n = ground arith

poll_first-Returns : (s : Sender) (now : ℕ) → IsValid s → Returns (poll_first s now)
unfolding poll_first
poll_first-Returns s now v =
    let head = first_header (length s.payload) in
    let l = length-first_header (length s.payload) in
    let count : ℕ = min (8 - header_size s.config.address - length head) (length s.payload) in
    let h = header_size-le s.config.address in
    let n = length-append head (take count s.payload) in
    let t = length-take count s.payload in
    let r =
      made_of s.config (head ++ take count s.payload) (omega (arith, n, l))
        (omega (arith, n, l, t, h)) in
    let next : Sender = record s {
      offset = count;
      sequence = 1;
      state = State.waiting_flow_control;
      deadline_ns = u64 (now + s.config.n_bs_ns);
    } in
    record {
      next = next;
      frames = r.0 ∷ [];
      result = rw r.1 refl;
      valid = record { fits_single = λ e. absurd (cc e); inside = omega arith };
      one = omega arith;
    }

after_consecutive-IsValid :
    (s : Sender) (now : ℕ)
    → s.state ≡ State.sending_consecutive
    → IsValid s
    → IsValid (after_consecutive s now)
after_consecutive-IsValid s now e v = ground (arith, v)

poll_consecutive-Returns :
    (s : Sender) (now : ℕ)
    → s.state ≡ State.sending_consecutive
    → IsValid s
    → Returns (poll_consecutive s now)
unfolding poll_consecutive
poll_consecutive-Returns s now e v =
    let count : ℕ = min (8 - header_size s.config.address - 1) (length s.payload - s.offset) in
    let h = header_size-le s.config.address in
    let t = length-take count (drop s.offset s.payload) in
    let r =
      made_for s.config (bit_or 0x20 (bit_and s.sequence 0x0F))
        (take count (drop s.offset s.payload)) (omega (arith, t, h)) in
    let moved : Sender = record s {
      offset = s.offset + count;
      sequence = bit_and (s.sequence + 1) 0x0F;
      frames_in_block = (s.frames_in_block + 1) % 2 ^ 8;
      next_send_ns = u64 (now + s.st_min_ns);
    } in
    let kept : IsValid moved = record {
      fits_single = v.fits_single;
      inside = omega (arith, v.inside);
    } in
    elim (Bool-cases (ltb now s.next_send_ns)) [
      | inl early ↦
          rw early (record { next = s; frames = []; result = refl; valid = v; one = omega arith })
      | inr due ↦
          rw (due, r.1)
            (record {
              next = after_consecutive moved now;
              frames = r.0 ∷ [];
              result = refl;
              valid = after_consecutive-IsValid moved now e kept;
              one = omega arith;
            })
    ]

poll_state-Returns :
    (state : State) (s : Sender) (now : ℕ)
    → s.state ≡ state
    → IsValid s
    → Returns (poll_state state s now)
unfolding poll_state
poll_state-Returns State.idle s now e v = record {
  next = s;
  frames = [];
  result = refl;
  valid = v;
  one = omega arith;
}
poll_state-Returns State.sending_single s now e v = poll_single-Returns s e v
poll_state-Returns State.sending_first s now e v = poll_first-Returns s now v
poll_state-Returns State.waiting_flow_control s now e v = record {
  next = if leb s.deadline_ns now then finish s TransferResult.timeout_bs else s;
  frames = [];
  result = refl;
  valid = ground (arith, v);
  one = omega arith;
}
poll_state-Returns State.sending_consecutive s now e v = poll_consecutive-Returns s now e v
poll_state-Returns State.finished s now e v = record {
  next = s;
  frames = [];
  result = refl;
  valid = v;
  one = omega arith;
}

-- Polling a Sender whose offset lies in its message, and which sends a Single Frame only if the
-- message fits one, never aborts the program: it gives at most one frame, and such a Sender.
pub poll-Returns : (s : Sender) (now : ℕ) → IsValid s → Returns (poll s now)
unfolding poll
poll-Returns s now v = elim (Bool-cases (is_done s)) [
  | inl over ↦
      rw over (record { next = s; frames = []; result = refl; valid = v; one = omega arith })
  | inr going ↦ rw going (poll_state-Returns s.state s now refl v)
]

on_body-IsValid :
    (s : Sender) (body : Option (List ℕ)) (now : ℕ) → IsValid s → IsValid (on_body s body now)
unfolding on_body on_flow_control
on_body-IsValid s none now v = v
on_body-IsValid s (some body) now v = ground (arith, v)

-- Any frame leaves a Sender whose offset lies in its message, and which sends a Single Frame only if
-- the message fits one, such a Sender.
pub on_frame-IsValid :
    (s : Sender) (f : BasicFrame) (now : ℕ) → IsValid s → IsValid (on_frame s f now)
unfolding on_frame
on_frame-IsValid s f now v =
    ground (arith, v, on_body-IsValid s (addressed_body s.config.address f) now v)
