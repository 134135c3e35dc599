-- ===== src/Uds/Client/Polls.antt =====
-- What poll() leaves, from what its parts leave.
use canforge.Base.{
  ℕ, ◌+◌, ◌%◌, ◌^◌, ◌≡◌, arith, Bool, true, false, Bool-cases, inl, inr, Option, none, some, List,
  [], ◌∷◌,
}
use mathlib.Core.Option
use mathlib.Core.Path.{subst}
use canforge.Core.Frame.{BasicFrame}
use canforge.IsoTp.Sender
use canforge.IsoTp.Receiver
use canforge.Uds.Client.{
  Client, Polled, after_sending, after_receiving, keepalive, keepalive_frames, kept_alive,
  poll_sending, poll_awaiting, append_frames, then_keepalive, then_await, poll, is_sending,
  is_awaiting, keepalive_due,
}

-- The client of a poll that returns has the property.
abbrev pub Leaves : (Client → Type 0) → Polled → Type 0
Leaves P none = Unit {0}
Leaves P (some (c, out)) = P c

-- From a poll that returned to the client it left.
pub leaves :
    (P : Client → Type 0) (p : Polled) {d : Client} {out : List BasicFrame}
    → p ≡ some (d, out)
    → Leaves P p
    → P d
leaves P none e r = absurd (cc e)
leaves P (some (c, out)) {d} e r = let same : c ≡ d = ground (arith, e) in subst P same r

module _ (P : Client → Type 0)
    (kept : (c : Client) (k t : ℕ)
      → P c
      → P (record c { keepalives = k; last_activity_ns = t })) where
  append_frames-Leaves :
      (out : List BasicFrame) (p : Polled) → Leaves P p → Leaves P (append_frames out p)
  unfolding append_frames
  append_frames-Leaves out none r = tt
  append_frames-Leaves out (some (c, more)) r = r

  kept_alive-Leaves :
      (c : Client) (now : ℕ) (q : Option (List BasicFrame × Bool))
      → P c
      → Leaves P (Option.map (kept_alive c now) q)
  unfolding kept_alive
  kept_alive-Leaves c now none v = tt
  kept_alive-Leaves c now (some (out, true)) v = kept c ((c.keepalives + 1) % 2 ^ 64) now v
  kept_alive-Leaves c now (some (out, false)) v = v

  keepalive-Leaves : (c : Client) (now : ℕ) → P c → Leaves P (keepalive c now)
  unfolding keepalive
  keepalive-Leaves c now v = elim (Bool-cases (keepalive_due c now)) [
    | inl due ↦
        let begins = Sender.begin (Sender.new c.config.transport) (0x3E ∷ 0x80 ∷ []) now in
        rw due (kept_alive-Leaves c now (keepalive_frames c.config now begins) v)
    | inr quiet ↦ rw quiet v
  ]

  then_keepalive-Leaves : (p : Polled) (now : ℕ) → Leaves P p → Leaves P (then_keepalive p now)
  unfolding then_keepalive
  then_keepalive-Leaves none now r = tt
  then_keepalive-Leaves (some (c, out)) now r =
      append_frames-Leaves out (keepalive c now) (keepalive-Leaves c now r)

  received-Leaves :
      (c : Client) (now : ℕ) (p : Receiver.Polled)
      → ((r : Receiver.Receiver) → P (after_receiving (record c { receiver = r }) now))
      → Leaves P (Option.map (λ q. (after_receiving (record c { receiver = q.0 }) now, q.1)) p)
  received-Leaves c now none step = tt
  received-Leaves c now (some (r, out)) step = step r

  then_await-Leaves :
      (c : Client) (out : List BasicFrame) (now : ℕ)
      → (is_awaiting c.state ≡ true
          → (r : Receiver.Receiver) → P (after_receiving (record c { receiver = r }) now))
      → (is_awaiting c.state ≡ false → P c)
      → Leaves P (then_await (some (c, out, false)) now)
  unfolding then_await poll_awaiting
  then_await-Leaves c out now step other =
      append_frames-Leaves out (then_keepalive (poll_awaiting c now) now) (
        then_keepalive-Leaves (poll_awaiting c now) now (elim (Bool-cases (is_awaiting c.state)) [
          | inl here ↦ rw here (received-Leaves c now (Receiver.poll c.receiver now) (step here))
          | inr off ↦ rw off (other off)
        ]))

  -- A client that does not send.
  pub poll_unsent-Leaves :
      (c : Client) (now : ℕ)
      → is_sending c.state ≡ false
      → (is_awaiting c.state ≡ true
          → (r : Receiver.Receiver) → P (after_receiving (record c { receiver = r }) now))
      → (is_awaiting c.state ≡ false → P c)
      → Leaves P (poll c now)
  unfolding poll poll_sending
  poll_unsent-Leaves c now unsent step other = rw unsent (then_await-Leaves c [] now step other)

  sent-Leaves :
      (c : Client) (out : List BasicFrame) (b : Bool) (now : ℕ)
      → P c
      → ((d : Client) (r : Receiver.Receiver)
          → is_awaiting d.state ≡ true
          → P d
          → P (after_receiving (record d { receiver = r }) now))
      → Leaves P (then_await (some (c, out, b)) now)
  unfolding then_await
  sent-Leaves c out true now v step = v
  sent-Leaves c out false now v step =
      then_await-Leaves c out now (λ here r. step c r here v) (λ off. v)

  polled-Leaves :
      (c : Client) (now : ℕ) (p : Sender.Polled)
      → ((d : Client) (r : Receiver.Receiver)
          → is_awaiting d.state ≡ true
          → P d
          → P (after_receiving (record d { receiver = r }) now))
      → ((s : Sender.Sender) → P (after_sending (record c { sender = s }) now).0)
      → Leaves P (
          then_await
            (Option.map
              (λ q.
                let sent = after_sending (record c { sender = q.0 }) now in (sent.0, q.1, sent.1))
              p)
            now)
  unfolding then_await
  polled-Leaves c now none step sends = tt
  polled-Leaves c now (some (s, out)) step sends =
      let sent = after_sending (record c { sender = s }) now in
      sent-Leaves sent.0 out sent.1 now (sends s) step

  pub poll-Leaves :
      (c : Client) (now : ℕ)
      → P c
      → ((d : Client) (r : Receiver.Receiver)
          → is_awaiting d.state ≡ true
          → P d
          → P (after_receiving (record d { receiver = r }) now))
      → ((s : Sender.Sender)
          → is_sending c.state ≡ true
          → P (after_sending (record c { sender = s }) now).0)
      → Leaves P (poll c now)
  unfolding poll poll_sending
  poll-Leaves c now v step sends = elim (Bool-cases (is_sending c.state)) [
    | inl here ↦ rw here (polled-Leaves c now (Sender.poll c.sender now) step (λ s. sends s here))
    | inr other ↦ rw other (sent-Leaves c [] false now v step)
  ]
