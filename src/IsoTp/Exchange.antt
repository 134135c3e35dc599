-- ===== src/IsoTp/Exchange.antt =====
-- A Sender and a Receiver joined by a bus that loses nothing: what one side emits in a round
-- reaches the other side in the same round. The sessions above this layer pump the two machines
-- in this way.
pub mod Headers
pub mod Steps
pub mod Answer
pub mod Opening
pub mod Rounds
pub mod Delivery
use canforge.Base.{ℕ, zero, suc, ◌+◌, Option, none, some, List, [], ◌∷◌}
use mathlib.Core.List.{foldl}
use canforge.Core.Frame.{BasicFrame}
use canforge.IsoTp.Sender
use canforge.IsoTp.Sender.{Sender}
use canforge.IsoTp.Receiver
use canforge.IsoTp.Receiver.{Receiver}

pub record Link : Type 0 where
  pub sender : Sender
  pub receiver : Receiver

abbrev to_receiver : ℕ → Receiver → Sender.Polled → Option Link
to_receiver now r none = none
to_receiver now r (some (s, fs)) =
    some (record { sender = s; receiver = foldl (λ q f. Receiver.on_frame q f now) r fs })

abbrev to_sender : ℕ → Sender → Receiver.Polled → Option Link
to_sender now s none = none
to_sender now s (some (r, fs)) =
    some (record { sender = foldl (λ q f. Sender.on_frame q f now) s fs; receiver = r })

pub sender_half : ℕ → Link → Option Link
sender_half now l = to_receiver now l.receiver (Sender.poll l.sender now)

pub receiver_half : ℕ → Link → Option Link
receiver_half now l = to_sender now l.sender (Receiver.poll l.receiver now)

abbrev pub then_half : Option Link → (Link → Option Link) → Option Link
then_half none k = none
then_half (some l) k = k l

pub round : ℕ → Link → Option Link
round now l = then_half (sender_half now l) (receiver_half now)

-- `n` rounds, the next one `step` nanoseconds after `now`.
unfoldable pub run : ℕ → ℕ → ℕ → Link → Option Link
unfolding round sender_half receiver_half
run zero step now l = some l
run (suc n) step now l = then_half (round (now + step) l) (run n step (now + step))
