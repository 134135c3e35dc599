-- ===== src/IsoTp/Sender/Payload.antt =====
-- The message of a Sender over polls and frames.
use canforge.Base.{
  ℕ, ◌≡◌, refl, arith, inl, inr, Bool-cases, ltb, Option, none, some, List, [], ◌∷◌,
}
use mathlib.Core.Option
use canforge.Core.Frame.{BasicFrame}
use canforge.IsoTp.Framing.{addressed_body}
use canforge.IsoTp.Sender.{
  Sender, State, Polled, poll, poll_state, poll_single, poll_first, poll_consecutive, on_frame,
  on_body, on_pdu, on_flow_control, on_wait, is_done,
}

-- A poll that returns a Sender with this message.
abbrev pub Keeps : List ℕ → Polled → Type 0
Keeps payload none = Unit {0}
Keeps payload (some (s, frames)) = s.payload ≡ payload

emit-Keeps :
    (payload : List ℕ) (s : Sender) (r : Option BasicFrame)
    → s.payload ≡ payload
    → Keeps payload (Option.map (λ f. (s, f ∷ [])) r)
emit-Keeps payload s none e = tt
emit-Keeps payload s (some f) e = e

poll_consecutive-Keeps : (s : Sender) (now : ℕ) → Keeps s.payload (poll_consecutive s now)
unfolding poll_consecutive
poll_consecutive-Keeps s now = elim (Bool-cases (ltb now s.next_send_ns)) [
  | inl early ↦ rw early refl
  | inr due ↦ rw due (emit-Keeps s.payload _ _ (ground arith))
]

poll_state-Keeps : (state : State) (s : Sender) (now : ℕ) → Keeps s.payload (poll_state state s now)
unfolding poll_state poll_single poll_first
poll_state-Keeps State.idle s now = refl
poll_state-Keeps State.sending_single s now = emit-Keeps s.payload _ _ refl
poll_state-Keeps State.sending_first s now = emit-Keeps s.payload _ _ refl
poll_state-Keeps State.waiting_flow_control s now = ground arith
poll_state-Keeps State.sending_consecutive s now = poll_consecutive-Keeps s now
poll_state-Keeps State.finished s now = refl

pub poll-Keeps : (s : Sender) (now : ℕ) → Keeps s.payload (poll s now)
unfolding poll
poll-Keeps s now = elim (Bool-cases (is_done s)) [
  | inl over ↦ rw over refl
  | inr going ↦ rw going (poll_state-Keeps s.state s now)
]

payload-on_body :
    (s : Sender) (body : Option (List ℕ)) (now : ℕ) → (on_body s body now).payload ≡ s.payload
unfolding on_body on_pdu on_flow_control on_wait
payload-on_body s none now = refl
payload-on_body s (some body) now = ground arith

pub payload-on_frame :
    (s : Sender) (f : BasicFrame) (now : ℕ) → (on_frame s f now).payload ≡ s.payload
unfolding on_frame
payload-on_frame s f now = ground (arith, payload-on_body s (addressed_body s.config.address f) now)
