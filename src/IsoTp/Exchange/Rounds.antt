-- ===== src/IsoTp/Exchange/Rounds.antt =====
-- A transfer in flight, and what one round does to it.
use canforge.Base.{
  ℕ, ◌+◌, ◌-◌, ◌*◌, ◌%◌, ◌^◌, ◌≤◌, ◌<◌, ◌≡◌, refl, ◌⊎◌, inl, inr, arith, some, List, take, length,
  length-take, take_all, leb, ◌==◌, not, ◌&&◌, true, false, Bool-cases,
}
use native.Mathlib.Decide.{dec_le}
use canforge.IsoTp.Config.{Config, FlowStatus, TransferResult, u64, st_min_to_ns}
use canforge.IsoTp.Framing.Transport.{Peers, header_size-le}
use canforge.IsoTp.Sender
use canforge.IsoTp.Sender.{Sender}
use canforge.IsoTp.Receiver
use canforge.IsoTp.Receiver.{Receiver}
use canforge.IsoTp.Exchange.{Link, round, sender_half, receiver_half}
use canforge.IsoTp.Exchange.Steps.{sender_in, receiver_in, chunk_size, step_consecutive}
use canforge.IsoTp.Exchange.Answer.{
  awaiting, answered, step_answer, step_not_due, step_receiving, step_waiting,
}

-- Two configurations that can carry the message `m` when a round takes `step` nanoseconds: the
-- sides listen to each other, the receiver takes messages of this length, its bytes are bytes, the
-- delays that are asked for are over after a round, and the timeouts are not.
pub record Compatible (m : List ℕ) (cs cr : Config) (step : ℕ) : Type 0 where
  pub there : Peers cs cr.address
  pub back : Peers cr cs.address
  pub accepted : length m ≤ cr.max_receive_length
  pub describable : length m < 2 ^ 32
  pub separation : st_min_to_ns cr.st_min_raw ≤ step
  pub delay_cs : cs.n_cs_ns ≤ step
  pub delay_br : cr.n_br_ns ≤ step
  pub patience_bs : (step < cs.n_bs_ns) × (cs.n_bs_ns < 2 ^ 63)
  pub patience_cr : (step < cr.n_cr_ns) × (cr.n_cr_ns < 2 ^ 63)

-- Both sides are done, and the receiver holds the message.
pub record Delivered (m : List ℕ) (l : Link) : Type 0 where
  pub sent : l.sender.result ≡ TransferResult.succeeded
  pub finished : l.receiver.state ≡ Receiver.State.finished
  pub received : l.receiver.result ≡ TransferResult.succeeded
  pub message : l.receiver.payload ≡ m

module _ (m : List ℕ) (cs cr : Config) (step : ℕ) (ok : Compatible m cs cr step) where
  -- The last round was at time `p`; `k` bounds the rounds to come.
  pub data InFlight (p k : ℕ) : Link → Type 0 where
    streaming :
        (o sq fb w d nx dl due : ℕ)
        → 2 * (length m - o) ≡ k
        → o < length m
        → sq < 16
        → nx ≤ p + step
        → p + step < dl
        → InFlight p k (record {
          sender =
              sender_in m cs cr Sender.State.sending_consecutive o sq cr.block_size
                (st_min_to_ns cr.st_min_raw)
                fb
                w
                d
                nx;
          receiver =
              receiver_in m cs cr Receiver.State.receiving FlowStatus.continue_to_send o sq fb dl
                due;
        })
    waiting :
        (o sq bs st fb w d nx gb dl due : ℕ)
        → 2 * (length m - o) + 1 ≡ k
        → o < length m
        → sq < 16
        → p + step < d
        → due ≤ p + step
        → InFlight p k (awaiting m cs cr ok.back o sq bs st fb w d nx gb dl due p)

  -- What a round may come to.
  abbrev pub Progress : ℕ → ℕ → Link → Type 0
  Progress t k l = Delivered m l ⊎ ((j : ℕ) × (j < k) × InFlight t j l)

  -- The receiver's half after the sender has begun to wait, at time `t`.
  pub answer_now :
      (t k o sq bs st fb w d nx gb dl due : ℕ)
      → 2 * (length m - o) + 1 < k
      → o < length m
      → sq < 16
      → t < 2 ^ 63
      → t + step < d
      → due ≤ t + step
      → (l : Link) × (receiver_half t (awaiting m cs cr ok.back o sq bs st fb w d nx gb dl due t)
          ≡ some l)
        × Progress t k l
  answer_now t k o sq bs st fb w d nx gb dl due small more h clock late soon = elim (dec_le due t) [
    | yes ready ↦ (
      answered m cs cr ok.back o sq bs st fb w d nx gb dl due t,
      step_answer m cs cr ok.back o sq bs st fb w d nx gb dl due t ready,
      inr (
        2 * (length m - o),
        omega arith,
        streaming o sq 0 0 d (u64 (t + cs.n_cs_ns)) (u64 (t + cr.n_cr_ns)) due refl more h
            (omega (arith, ok.delay_cs)) (omega (arith, ok.patience_cr)),
      ),
    )
    | no early ↦ (
      awaiting m cs cr ok.back o sq bs st fb w d nx gb dl due t,
      step_not_due m cs cr ok.back o sq bs st fb w d nx gb dl due t (omega arith),
      inr (
        2 * (length m - o) + 1,
        omega arith,
        waiting o sq bs st fb w d nx gb dl due refl more h late soon,
      ),
    )
  ]

  pub round_of :
      (t : ℕ) (l l₁ l₂ : Link)
      → sender_half t l ≡ some l₁
      → receiver_half t l₁ ≡ some l₂
      → round t l ≡ some l₂
  unfolding round
  round_of t l l₁ l₂ e f = rw (e, f)

  -- A round that begins with the sender waiting ends in streaming.
  round_waiting :
      (p k o sq bs st fb w d nx gb dl due : ℕ)
      → 2 * (length m - o) + 1 ≡ k
      → o < length m
      → sq < 16
      → p + step < 2 ^ 63
      → p + step < d
      → due ≤ p + step
      → (l : Link) × (round (p + step) (awaiting m cs cr ok.back o sq bs st fb w d nx gb dl due p)
          ≡ some l)
        × Progress (p + step) k l
  round_waiting p k o sq bs st fb w d nx gb dl due e more h clock late soon = (
    answered m cs cr ok.back o sq bs st fb w d nx gb dl due (p + step),
    round_of (p + step) _ (awaiting m cs cr ok.back o sq bs st fb w d nx gb dl due p) _
        (step_waiting m cs cr ok.back o sq bs st fb w d nx gb dl due (p + step) late)
        (step_answer m cs cr ok.back o sq bs st fb w d nx gb dl due (p + step) soon),
    inr (
      2 * (length m - o),
      omega arith,
      streaming o sq 0 0 d (u64 (p + step + cs.n_cs_ns)) (u64 (p + step + cr.n_cr_ns)) due refl more
          h (omega (arith, ok.delay_cs)) (omega (arith, ok.patience_cr)),
    ),
  )

  -- After a Consecutive Frame that brings the offset to `o`, at time `t`.
  module _ (t k o sq fb w d nx dl due : ℕ) where
    abbrev sent : Link
    sent = record {
      sender =
          Sender.after_consecutive
            (sender_in m cs cr Sender.State.sending_consecutive o sq cr.block_size
              (st_min_to_ns cr.st_min_raw) fb w d nx)
            t;
      receiver =
          Receiver.after_consecutive
            (receiver_in m cs cr Receiver.State.receiving FlowStatus.continue_to_send o sq fb dl
              due)
            t;
    }

    all_sent : Link
    all_sent = record {
      sender =
          Sender.finish
            (sender_in m cs cr Sender.State.sending_consecutive o sq cr.block_size
              (st_min_to_ns cr.st_min_raw) fb w d nx)
            TransferResult.succeeded;
      receiver =
          Receiver.finish
            (receiver_in m cs cr Receiver.State.receiving FlowStatus.continue_to_send o sq fb dl
              due)
            TransferResult.succeeded;
    }

    sent_last : length m ≤ o → sent ≡ all_sent
    unfolding all_sent
    sent_last h =
        let a : leb (length m) o ≡ true = ground arith in
        let b : leb (length m) (length (take o m)) ≡ true = ground (arith, length-take o m) in
        rw (a, b)

    finish_last : length m ≤ o → receiver_half t all_sent ≡ some all_sent
    unfolding receiver_half Receiver.poll all_sent
    finish_last h = refl

    all_sent-Delivered : length m ≤ o → Delivered m all_sent
    unfolding all_sent
    all_sent-Delivered h = record {
      sent = refl;
      finished = refl;
      received = refl;
      message = take_all o m h;
    }

    still : o < length m → (leb (length m) o ≡ false) × (leb (length m) (length (take o m)) ≡ false)
    still h = (ground arith, ground (arith, length-take o m))

    -- The end of a block.
    sent_block :
        o < length m
        → (not (cr.block_size == 0) && leb cr.block_size fb) ≡ true
        → sent
          ≡ awaiting m cs cr ok.back o sq cr.block_size
              (st_min_to_ns cr.st_min_raw)
              0
              w
              (u64 (t + cs.n_bs_ns))
              nx
              fb
              (u64 (t + cr.n_cr_ns))
              (u64 (t + cr.n_br_ns))
              t
    sent_block h e = rw ((still h).0, (still h).1, e)

    sent_within :
        o < length m
        → (not (cr.block_size == 0) && leb cr.block_size fb) ≡ false
        → sent ≡ record {
          sender =
              sender_in m cs cr Sender.State.sending_consecutive o sq cr.block_size
                (st_min_to_ns cr.st_min_raw)
                fb
                w
                d
                nx;
          receiver =
              receiver_in m cs cr Receiver.State.receiving FlowStatus.continue_to_send o sq fb
                (u64 (t + cr.n_cr_ns))
                due;
        }
    sent_within h e = rw ((still h).0, (still h).1, e)

    -- The receiver's half of the round after it.
    after_sent :
        2 * (length m - o) + 1 < k
        → sq < 16
        → nx ≤ t + step
        → t < 2 ^ 63
        → (l : Link) × (receiver_half t sent ≡ some l) × Progress t k l
    after_sent small h soon clock = elim (dec_le (length m) o) [
      | yes end ↦ (all_sent, rw (sent_last end) (finish_last end), inl (all_sent-Delivered end))
      | no more ↦ elim (Bool-cases (not (cr.block_size == 0) && leb cr.block_size fb)) [
        | inl block ↦ rw (sent_block (omega arith) block) (
            answer_now t k o sq cr.block_size (st_min_to_ns cr.st_min_raw) 0 w
              (u64 (t + cs.n_bs_ns)) nx fb (u64 (t + cr.n_cr_ns)) (u64 (t + cr.n_br_ns)) small
              (omega arith) h clock (omega (arith, ok.patience_bs))
              (omega (arith, ok.delay_br, ok.patience_bs)))
        | inr within ↦ (
          sent,
          rw (sent_within (omega arith) within) (
              step_receiving m cs cr ok.back o sq 0 0 0 0 0 0 fb (u64 (t + cr.n_cr_ns)) due t
                (sender_in m cs cr Sender.State.sending_consecutive o sq cr.block_size
                  (st_min_to_ns cr.st_min_raw) fb w d nx)
                FlowStatus.continue_to_send (omega (arith, ok.patience_cr))),
          inr (
            2 * (length m - o),
            omega arith,
            rw (sent_within (omega arith) within) (
                streaming o sq fb w d nx (u64 (t + cr.n_cr_ns)) due refl (omega arith) h soon
                  (omega (arith, ok.patience_cr))),
          ),
        )
      ]
    ]

  -- A round in flight ends in delivery or is followed by fewer.
  pub round-InFlight :
      (p k : ℕ) (l : Link)
      → p + step < 2 ^ 63
      → InFlight p k l
      → (l' : Link) × (round (p + step) l ≡ some l') × Progress (p + step) k l'
  round-InFlight p k _ clock (waiting o sq bs st fb w d nx gb dl due e more h late soon) =
      round_waiting p k o sq bs st fb w d nx gb dl due e more h clock late soon
  round-InFlight p k _ clock (streaming o sq fb w d nx dl due e more h soon late) =
      let t : ℕ = p + step in
      let c : ℕ = chunk_size m cs cr ok.there o more in
      let r =
        after_sent t k (o + c) ((sq + 1) % 16) ((fb + 1) % 256) w d
          (u64 (t + st_min_to_ns cr.st_min_raw)) dl due (omega (arith, header_size-le cs.address))
          (omega arith) (omega (arith, ok.separation)) clock in
      (
        r.0,
        round_of t _ _ r.0
            (step_consecutive m cs cr ok.there o more sq cr.block_size (st_min_to_ns cr.st_min_raw)
              fb w d nx t FlowStatus.continue_to_send fb dl due h soon)
            r.1,
        r.2,
      )
