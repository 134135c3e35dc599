-- ===== src/IsoTp/Sender/Refusal.antt =====
-- Runs of a Sender (isotp/src/IsoTp.cpp) over polls and frames that do not clear it to send.
use canforge.Base.{
  ℕ, ◌+◌, ◌%◌, ◌^◌, ◌<◌, ◌≡◌, refl, arith, inl, inr, Bool, Bool-cases, true, false, not, leb, ◌==◌,
  ◌&&◌, ◌||◌, if◌then◌else◌, Option, none, some, List, [], ◌∷◌, ◌++◌, length,
}
use mathlib.Core.Option
use mathlib.Core.Path.{subst}
use canforge.Core.Frame.{BasicFrame}
use canforge.IsoTp.Config.{Config, Address, TransferResult, is_in_progress}
use canforge.IsoTp.Framing.{addressed_body, pci, low_nibble}
use canforge.IsoTp.Sender.{
  Sender, State, Polled, poll, poll_state, on_frame, on_body, on_pdu, on_flow_control, on_wait,
  finish, is_done, is_waiting,
}

-- What happens to a Sender, each at its time.
pub data Input : Type 0 where
  polled : ℕ → Input
  arrived : BasicFrame → ℕ → Input

abbrev pub step : Sender → Input → Polled
step s (polled now) = poll s now
step s (arrived f now) = some (on_frame s f now, [])

abbrev pub then_run : Polled → (Sender → Polled) → Polled
then_run none next = none
then_run (some (s, frames)) next = Option.map (λ q. (q.0, frames ++ q.1)) (next s)

-- The Sender after all of them, and the frames it has sent.
unfoldable pub run : Sender → List Input → Polled
run s [] = some (s, [])
run s (x ∷ xs) = then_run (step s x) (λ t. run t xs)

-- Protocol bytes that are a whole Flow Control with this status.
unfoldable pub says : ℕ → Option (List ℕ) → Bool
says status none = false
says status (some body) = pci body == 3 && leb 3 (length body) && low_nibble body == status

abbrev pub clears : Address → Input → Bool
clears a (polled now) = false
clears a (arrived f now) = says 0 (addressed_body a f)

abbrev pub asks_to_wait : Address → Input → ℕ
asks_to_wait a (polled now) = 0
asks_to_wait a (arrived f now) = if says 1 (addressed_body a f) then 1 else 0

unfoldable pub never_clears : Address → List Input → Bool
never_clears a [] = true
never_clears a (x ∷ xs) = let rest = never_clears a xs in not (clears a x) && rest

pub waits : Address → List Input → ℕ
waits a [] = 0
waits a (x ∷ xs) = asks_to_wait a x + waits a xs

abbrev is_success : TransferResult → Bool
is_success TransferResult.succeeded = true
is_success _ = false

-- The transfer has ended without success.
abbrev pub has_failed : Sender → Bool
has_failed s = is_done s && not (is_success s.result)

-- It waits on, with `n` Waits counted, which are not more than it tolerates.
abbrev pub waits_on : Config → ℕ → Sender → Bool
waits_on c n s =
    is_waiting s.state
    && is_in_progress s.result
    && s.wait_count == n % 2 ^ 8
    && (c.wft_max == 0 || leb n c.wft_max)

done_run : (s : Sender) (xs : List Input) → is_done s ≡ true → run s xs ≡ some (s, [])
unfolding run poll on_frame
done_run s [] e = refl
done_run s (polled now ∷ xs) e = rw (e, done_run s xs e) refl
done_run s (arrived f now ∷ xs) e = rw (e, done_run s xs e) refl

-- One input for a Sender that waits.
on_body-waits_on :
    (s : Sender) (body : Option (List ℕ)) (now n : ℕ)
    → s.config.wft_max < 255
    → waits_on s.config n s ≡ true
    → says 0 body ≡ false
    → has_failed (on_body s body now)
        || waits_on s.config (n + (if says 1 body then 1 else 0)) (on_body s body now)
      ≡ true
unfolding on_body on_pdu on_flow_control on_wait says
on_body-waits_on s none now n few w e = ground arith
on_body-waits_on s (some body) now n few w e = ground arith

config-on_body :
    (s : Sender) (body : Option (List ℕ)) (now : ℕ) → (on_body s body now).config ≡ s.config
unfolding on_body on_pdu on_flow_control on_wait
config-on_body s none now = refl
config-on_body s (some body) now = ground arith

-- A Sender that is over, or waits with `n` Waits counted: a run of it sends nothing, and ends so.
record Held (c : Config) (n : ℕ) (r : Polled) : Type 0 where
  pub next : Sender
  pub result : r ≡ some (next, [])
  pub outcome : has_failed next || waits_on c n next ≡ true

then_run-Held :
    (c : Config) (n : ℕ) (s : Sender) (next : Sender → Polled)
    → Held c n (next s)
    → Held c n (then_run (some (s, [])) next)
then_run-Held c n s next h = record {
  next = h.next;
  result = rw h.result refl;
  outcome = h.outcome;
}

failed_run :
    (c : Config) (n : ℕ) (s : Sender) (xs : List Input) → has_failed s ≡ true → Held c n (run s xs)
failed_run c n s xs e = record {
  next = s;
  result = done_run s xs (ground arith);
  outcome = ground arith;
}

-- A poll of a Sender that waits.
poll_waiting :
    (s : Sender) (now n : ℕ)
    → waits_on s.config n s ≡ true
    → (t : Sender) × (poll s now ≡ some (t, []))
      × (t.config ≡ s.config)
      × (has_failed t || waits_on s.config n t ≡ true)
unfolding poll
poll_waiting s now n w = (
  if leb s.deadline_ns now then finish s TransferResult.timeout_bs else s,
  state_of s.state (ground arith) (ground arith),
  ground arith,
  ground arith,
)
  where
    state_of :
        (state : State)
        → is_waiting state ≡ true
        → is_done s ≡ false
        → (if is_done s then some (s, []) else poll_state state s now)
          ≡ some (if leb s.deadline_ns now then finish s TransferResult.timeout_bs else s, [])
    state_of State.waiting_flow_control e d = rw d refl
    state_of State.idle e d = absurd (cc e)
    state_of State.sending_single e d = absurd (cc e)
    state_of State.sending_first e d = absurd (cc e)
    state_of State.sending_consecutive e d = absurd (cc e)
    state_of State.finished e d = absurd (cc e)

-- Any input of a Sender that waits.
step_waiting :
    (s : Sender) (x : Input) (n : ℕ)
    → s.config.wft_max < 255
    → waits_on s.config n s ≡ true
    → clears s.config.address x ≡ false
    → (t : Sender) × (step s x ≡ some (t, []))
      × (t.config ≡ s.config)
      × (has_failed t || waits_on s.config (n + asks_to_wait s.config.address x) t ≡ true)
unfolding on_frame
step_waiting s (polled now) n few w quiet =
    let z : n + 0 ≡ n = omega arith in rw z (poll_waiting s now n w)
step_waiting s (arrived f now) n few w quiet =
    let body = addressed_body s.config.address f in
    let going : is_done s ≡ false = ground arith in
    (
      on_body s body now,
      rw going refl,
      config-on_body s body now,
      on_body-waits_on s body now n few w quiet,
    )

step_for :
    (c : Config) (s : Sender) (x : Input) (n : ℕ)
    → s.config ≡ c
    → c.wft_max < 255
    → waits_on c n s ≡ true
    → clears c.address x ≡ false
    → (t : Sender) × (step s x ≡ some (t, []))
      × (t.config ≡ c)
      × (has_failed t || waits_on c (n + asks_to_wait c.address x) t ≡ true)
step_for c s x n e =
    subst
      (λ (d : Config).
        d.wft_max < 255
        → waits_on d n s ≡ true
        → clears d.address x ≡ false
        → (t : Sender) × (step s x ≡ some (t, []))
          × (t.config ≡ d)
          × (has_failed t || waits_on d (n + asks_to_wait d.address x) t ≡ true))
      e (step_waiting s x n)

waiting_run :
    (c : Config) (xs : List Input) (s : Sender) (n : ℕ)
    → c.wft_max < 255
    → s.config ≡ c
    → has_failed s || waits_on c n s ≡ true
    → never_clears c.address xs ≡ true
    → Held c (n + waits c.address xs) (run s xs)
unfolding run waits never_clears
waiting_run c [] s n few e w quiet =
    let z : n + 0 ≡ n = omega arith in rw z (record { next = s; result = refl; outcome = w })
waiting_run c (x ∷ xs) s n few e w quiet = elim (Bool-cases (has_failed s)) [
  | inl over ↦ failed_run c (n + (asks_to_wait c.address x + waits c.address xs)) s (x ∷ xs) over
  | inr going ↦
      let (t, p, same, o) = step_for c s x n e few (ground arith) (ground arith) in
      let z : n + (asks_to_wait c.address x + waits c.address xs)
          ≡ n + asks_to_wait c.address x + waits c.address xs =
        omega arith in
      rw (p, z)
        (then_run-Held c (n + asks_to_wait c.address x + waits c.address xs) t (λ u. run u xs)
          (waiting_run c xs t (n + asks_to_wait c.address x) few same o (ground arith)))
]

-- A frame for a Sender that waits for none.
unexpected :
    (s : Sender) (f : BasicFrame) (body : List ℕ) (now : ℕ)
    → is_in_progress s.result ≡ true
    → addressed_body s.config.address f ≡ some body
    → is_waiting s.state ≡ false
    → has_failed (on_frame s f now) ≡ true
unfolding on_frame on_body on_pdu
unexpected s f body now going meant elsewhere = rw meant (ground arith)

-- A run that sends nothing, after which the transfer has ended without success, or a Sender that
-- waited waits on with `n` Waits counted.
pub record Refused (s : Sender) (n : ℕ) (r : Polled) : Type 0 where
  pub next : Sender
  pub result : r ≡ some (next, [])
  pub outcome : has_failed next || (is_waiting s.state && waits_on s.config n next) ≡ true

-- A Sender with a transfer under way, which has counted no more Waits than it tolerates (fewer than
-- 255, if it limits them at all), takes a frame that is addressed to it and is not a whole Flow Control that
-- clears it to send while it waits for one. Whatever frames and polls follow, as long as no frame
-- clears it to send: the Sender sends nothing, never aborts, and at the end either its transfer has ended without
-- success, or it was waiting for a Flow Control and still is, with each further Wait counted and
-- their number within the limit.
pub run-Refused :
    (s : Sender) (f : BasicFrame) (body : List ℕ) (now n : ℕ) (xs : List Input)
    → is_in_progress s.result ≡ true
    → s.config.wft_max < 255
    → s.wait_count ≡ n % 2 ^ 8
    → s.config.wft_max == 0 || leb n s.config.wft_max ≡ true
    → addressed_body s.config.address f ≡ some body
    → is_waiting s.state && says 0 (some body) ≡ false
    → never_clears s.config.address xs ≡ true
    → Refused s (n + waits s.config.address (arrived f now ∷ xs)) (run s (arrived f now ∷ xs))
unfolding run waits never_clears
run-Refused s f body now n xs going few count limit meant refused quiet =
    let c = s.config in
    elim (Bool-cases (is_waiting s.state)) [
      | inl waiting ↦
          let uncleared : clears c.address (arrived f now) ≡ false = rw meant (ground arith) in
          let h = waiting_run c (arrived f now ∷ xs) s n few refl (ground arith) (ground arith) in
          record { next = h.next; result = h.result; outcome = rw waiting h.outcome }
      | inr elsewhere ↦
          let over : has_failed (on_frame s f now) ≡ true =
            unexpected s f body now going meant elsewhere in
          record {
            next = on_frame s f now;
            result = rw (done_run (on_frame s f now) xs (ground arith)) refl;
            outcome = rw over refl;
          }
    ]
