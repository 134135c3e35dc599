-- ===== src/Uds/Client/Patience.antt =====
-- How many responsePending answers the client takes.
use canforge.Base.{
  ℕ, ◌+◌, ◌≤◌, ◌<◌, ◌≡◌, arith, true, inl, inr, Option, none, some, List, [], ◌∷◌, leb, ◌||◌,
  Option-cases, sym, ap, ◌∙◌,
}
use mathlib.Core.Option
use mathlib.Core.Path.{subst}
use canforge.Core.Result.{Result, ok, err}
use canforge.Core.Frame.{BasicFrame}
use canforge.IsoTp.Sender
use canforge.IsoTp.Receiver
use canforge.Uds.Client.{
  Client, Polled, begun, begin_transfer, asked, request, handle_message, on_frame, after_sending,
  after_receiving, poll, is_failed, on_negative, on_positive, is_sending, is_awaiting,
}
use canforge.Uds.Client.Polls.{Leaves, poll-Leaves}
use canforge.Uds.Client.Safety.{Call, requested, arrived, polled, called, run, then_calls}

module _ (limit : ℕ) where
  -- The count is within the limit, or one above it and the request has failed.
  pub record IsPatient (c : Client) : Type 0 where
    pub limited : c.config.max_response_pending ≡ limit
    pub counted : c.pending_count ≤ limit + 1
    pub over : leb c.pending_count limit || is_failed c.state ≡ true

  begun-IsPatient :
      (c : Client) (now : ℕ) (r : Result Sender.Sender) → IsPatient c → IsPatient (begun c r now)
  unfolding begun
  begun-IsPatient c now (err e) v = ground (arith, v)
  begun-IsPatient c now (ok s) v = ground (arith, v)

  begin_transfer-IsPatient : (c : Client) (now : ℕ) → IsPatient c → IsPatient (begin_transfer c now)
  unfolding begin_transfer
  begin_transfer-IsPatient c now v =
      let fresh : Client = record c {
        sender = Sender.new c.config.transport;
        receiver = Receiver.reset c.receiver;
      } in
      begun-IsPatient fresh now (Sender.begin fresh.sender c.pending_request now)
        (record { limited = v.limited; counted = v.counted; over = v.over })

  request-IsPatient :
      (c : Client) (payload : List ℕ) (now : ℕ) → IsPatient c → IsPatient (request c payload now).0
  unfolding request
  request-IsPatient c payload now v =
      let start : IsPatient (asked c payload) = record {
        limited = v.limited;
        counted = omega arith;
        over = ground arith;
      } in
      ground (arith, v, begin_transfer-IsPatient (asked c payload) now start)

  on_frame-IsPatient :
      (c : Client) (f : BasicFrame) (now : ℕ) → IsPatient c → IsPatient (on_frame c f now)
  unfolding on_frame
  on_frame-IsPatient c f now v = ground (arith, v)

  module _ (some_limit : 0 < limit) where
    handle_message-IsPatient :
        (c : Client) (message : List ℕ) (now : ℕ)
        → IsPatient c
        → leb c.pending_count limit ≡ true
        → IsPatient (handle_message c message now)
    unfolding handle_message on_negative on_positive
    handle_message-IsPatient c message now v h = ground (arith, v)

    after_receiving-IsPatient :
        (c : Client) (now : ℕ)
        → IsPatient c
        → leb c.pending_count limit ≡ true
        → IsPatient (after_receiving c now)
    unfolding after_receiving
    after_receiving-IsPatient c now v h =
        let reset : Client = record c { receiver = Receiver.reset c.receiver } in
        let kept : IsPatient reset = record {
          limited = v.limited;
          counted = v.counted;
          over = v.over;
        } in
        ground (arith, v, handle_message-IsPatient reset c.receiver.payload now kept h)

    after_sending-IsPatient :
        (c : Client) (now : ℕ)
        → IsPatient c
        → leb c.pending_count limit ≡ true
        → IsPatient (after_sending c now).0
    unfolding after_sending
    after_sending-IsPatient c now v h = ground (arith, v)

    step-IsPatient :
        (c : Client) (now : ℕ) (r : Receiver.Receiver)
        → is_awaiting c.state ≡ true
        → IsPatient c
        → IsPatient (after_receiving (record c { receiver = r }) now)
    step-IsPatient c now r here v =
        after_receiving-IsPatient (record c { receiver = r }) now
          (record { limited = v.limited; counted = v.counted; over = v.over })
          (ground (arith, v.over, here))

    sent-IsPatient :
        (c : Client) (now : ℕ) (s : Sender.Sender)
        → is_sending c.state ≡ true
        → IsPatient c
        → IsPatient (after_sending (record c { sender = s }) now).0
    sent-IsPatient c now s here v =
        after_sending-IsPatient (record c { sender = s }) now
          (record { limited = v.limited; counted = v.counted; over = v.over })
          (ground (arith, v.over, here))

    poll-IsPatient : (c : Client) (now : ℕ) → IsPatient c → Leaves IsPatient (poll c now)
    poll-IsPatient c now v =
        poll-Leaves IsPatient
          (λ d k t w. record { limited = w.limited; counted = w.counted; over = w.over }) c now v
          (λ d r here w. step-IsPatient d now r here w) (λ s here. sent-IsPatient c now s here v)

    left :
        (p : Polled) (d : Client)
        → Option.map (λ q. q.0) p ≡ some d
        → Leaves IsPatient p
        → IsPatient d
    left none d e r = absurd (cc e)
    left (some (c, out)) d e r =
        let same : c ≡ d = ground (arith, e) in subst (λ (x : Client). IsPatient x) same r

    called-IsPatient : (c d : Client) (e : Call) → called c e ≡ some d → IsPatient c → IsPatient d
    unfolding called
    called-IsPatient c d (requested payload now) h v =
        let same : (request c payload now).0 ≡ d = ground (arith, h) in
        subst (λ (x : Client). IsPatient x) same (request-IsPatient c payload now v)
    called-IsPatient c d (arrived f now) h v =
        let same : on_frame c f now ≡ d = ground (arith, h) in
        subst (λ (x : Client). IsPatient x) same (on_frame-IsPatient c f now v)
    called-IsPatient c d (polled now) h v = left (poll c now) d h (poll-IsPatient c now v)

    -- With max_response_pending set to a limit above 0, a client whose count of responsePending
    -- answers is within the limit, or one above it with the request failed, is such a client after
    -- any sequence of requests, frames and polls that returns.
    pub run-IsPatient :
        (c d : Client) (es : List Call) → run c es ≡ some d → IsPatient c → IsPatient d
    unfolding run
    run-IsPatient c d [] h v =
        let same : c ≡ d = ground (arith, h) in subst (λ (x : Client). IsPatient x) same v
    run-IsPatient c d (e ∷ es) h v = elim (Option-cases (called c e)) [
      | inl stopped ↦ absurd (cc (h, stopped))
      | inr (m, on) ↦
          run-IsPatient m d es
            (ap (λ (o : Option Client). then_calls o (λ x. run x es)) (sym on) ∙ h)
            (called-IsPatient c m e on v)
    ]
