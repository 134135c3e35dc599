-- ===== src/IsoTp/Exchange/Answer.antt =====
-- What the receiver's half of a round does: a Flow Control when one is due, and nothing otherwise.
use canforge.Base.{ℕ, ◌+◌, ◌≤◌, ◌<◌, ◌≡◌, arith, true, false, some, List, [], ◌∷◌, leb, ltb, length}
use canforge.Core.Frame.{BasicFrame}
use canforge.IsoTp.Config.{Config, FlowStatus, u64, st_min_to_ns}
use canforge.IsoTp.Framing.{make_flow_control, pci, low_nibble}
use canforge.IsoTp.Framing.Transport.{Peers, Brings, make_flow_control-Brings}
use canforge.IsoTp.Sender
use canforge.IsoTp.Sender.{Sender}
use canforge.IsoTp.Receiver
use canforge.IsoTp.Exchange.{Link, receiver_half, sender_half}
use canforge.IsoTp.Exchange.Headers.{pci_lem, low_nibble_lem}
use canforge.IsoTp.Exchange.Steps.{sender_in, receiver_in}

module _ (m : List ℕ) (cs cr : Config) (back : Peers cr cs.address)
    (o sq bs st fb w d nx gb dl due t : ℕ) where
  -- Waiting for a Flow Control that is still to come, and streaming after it.
  abbrev pub awaiting : Link
  awaiting = record {
    sender = sender_in m cs cr Sender.State.waiting_flow_control o sq bs st fb w d nx;
    receiver =
        receiver_in m cs cr Receiver.State.send_flow_control FlowStatus.continue_to_send o sq gb dl
          due;
  }

  abbrev pub answered : Link
  answered = record {
    sender =
        sender_in m cs cr Sender.State.sending_consecutive o sq cr.block_size
          (st_min_to_ns cr.st_min_raw) 0 0 d (u64 (t + cs.n_cs_ns));
    receiver =
        receiver_in m cs cr Receiver.State.receiving FlowStatus.continue_to_send o sq 0
          (u64 (t + cr.n_cr_ns)) due;
  }

  receive_answer :
      (f : BasicFrame)
      → Brings cs.address (0x30 ∷ cr.block_size ∷ cr.st_min_raw ∷ []) f
      → Sender.on_frame awaiting.sender f t ≡ answered.sender
  unfolding Sender.on_frame Sender.on_flow_control
  receive_answer f brings =
      let rest : List ℕ = cr.block_size ∷ cr.st_min_raw ∷ brings.pad in
      let p : pci (0x30 ∷ rest) ≡ 3 = pci_lem 0x30 rest in
      let n : low_nibble (0x30 ∷ rest) ≡ 0 = low_nibble_lem 0x30 rest in
      let long : ltb (length (0x30 ∷ rest)) 3 ≡ false = ground arith in
      rw (brings.received, p, long, n)

  poll_answer :
      (f : BasicFrame)
      → due ≤ t
      → make_flow_control cr FlowStatus.continue_to_send ≡ some f
      → Receiver.poll awaiting.receiver t ≡ some (answered.receiver, f ∷ [])
  unfolding Receiver.poll
  poll_answer f ready made = let now : leb due t ≡ true = ground arith in rw (now, made)

  with_frame :
      (f : BasicFrame)
      → due ≤ t
      → make_flow_control cr FlowStatus.continue_to_send ≡ some f
      → Brings cs.address (0x30 ∷ cr.block_size ∷ cr.st_min_raw ∷ []) f
      → receiver_half t awaiting ≡ some answered
  unfolding receiver_half
  with_frame f ready made brings = rw (poll_answer f ready made, receive_answer f brings)

  -- A Flow Control that is due goes out and starts the next block.
  pub step_answer : due ≤ t → receiver_half t awaiting ≡ some answered
  step_answer ready =
      let r = make_flow_control-Brings cr cs.address back FlowStatus.continue_to_send in
      with_frame r.0 ready r.1 r.2

  -- One that is not due yet waits.
  pub step_not_due : t < due → receiver_half t awaiting ≡ some awaiting
  unfolding receiver_half Receiver.poll
  step_not_due early = let later : leb due t ≡ false = ground arith in rw later

  -- Nor does the receiver act between two Consecutive Frames, while N_Cr runs.
  pub step_receiving :
      (s : Sender) (ps : FlowStatus)
      → t < dl
      → receiver_half t (record {
        sender = s;
        receiver = receiver_in m cs cr Receiver.State.receiving ps o sq gb dl due;
      })
        ≡ some (record {
          sender = s;
          receiver = receiver_in m cs cr Receiver.State.receiving ps o sq gb dl due;
        })
  unfolding receiver_half Receiver.poll
  step_receiving s ps early = let later : leb dl t ≡ false = ground arith in rw later

  -- The sender waits for the Flow Control, while N_Bs runs.
  pub step_waiting : t < d → sender_half t awaiting ≡ some awaiting
  unfolding sender_half Sender.poll
  step_waiting early = let later : leb d t ≡ false = ground arith in rw later
