-- ===== src/Uds/Client/Safety.antt =====
-- Any sequence of calls of the client's operations, and that none of them aborts.
use canforge.Base.{
  ℕ, ◌+◌, ◌%◌, ◌^◌, ◌≡◌, refl, arith, Bool, true, false, Bool-cases, inl, inr, Option, none, some,
  List, [], ◌∷◌, ◌++◌,
}
use mathlib.Core.Option
use mathlib.Core.Path.{subst}
use canforge.Core.Result.{Result, ok, err}
use canforge.Core.Frame.{BasicFrame}
use canforge.IsoTp.Config.{Config}
use canforge.IsoTp.Sender
use canforge.IsoTp.Sender.Laws.{IsValid, poll-Returns, on_frame-IsValid}
use canforge.IsoTp.Receiver
use canforge.IsoTp.Receiver.Laws.{IsBounded, poll-Answers, on_frame-IsBounded}
use canforge.Uds.Client.{
  Client, ClientConfig, Polled, new, begun, begin_transfer, asked, request, handle_message,
  on_frame, after_sending, after_receiving, keepalive, keepalive_frames, kept_alive, poll_sending,
  poll_awaiting, append_frames, then_keepalive, then_await, poll, is_sending, is_awaiting,
  keepalive_due, on_negative, on_positive,
}

-- A call of one of the client's operations.
pub data Call : Type 0 where
  requested : List ℕ → ℕ → Call
  arrived : BasicFrame → ℕ → Call
  polled : ℕ → Call

unfoldable pub called : Client → Call → Option Client
called c (requested payload now) = some (request c payload now).0
called c (arrived frame now) = some (on_frame c frame now)
called c (polled now) = Option.map (λ p. p.0) (poll c now)

-- The calls in order: `none` once one of them aborts.
abbrev pub then_calls : Option Client → (Client → Option Client) → Option Client
then_calls none k = none
then_calls (some c) k = k c

unfoldable pub run : Client → List Call → Option Client
run c [] = some c
run c (e ∷ es) = then_calls (called c e) (λ d. run d es)

-- The Sender and the Receiver of the client are in their bounds.
pub record IsSound (c : Client) : Type 0 where
  pub valid : IsValid c.sender
  pub bounded : IsBounded c.receiver

begin-IsValid :
    (c : Config) (payload : List ℕ) (now : ℕ) (s : Sender.Sender)
    → Sender.begin (Sender.new c) payload now ≡ ok s
    → IsValid s
unfolding Sender.begin Sender.new
begin-IsValid c payload now s e = ground (arith)

new-IsValid : (c : Config) → IsValid (Sender.new c)
unfolding Sender.new
new-IsValid c = record { fits_single = λ e. absurd (cc e); inside = omega arith }

reset-IsBounded : (r : Receiver.Receiver) → IsBounded (Receiver.reset r)
unfolding Receiver.reset
reset-IsBounded r = record {
  empty = λ e. refl;
  announced = omega arith;
  limited = λ e. absurd (cc e);
}

pub new-IsSound : (c : ClientConfig) → IsSound (new c)
unfolding new Receiver.new
new-IsSound c = record {
  valid = new-IsValid c.transport;
  bounded = record { empty = λ e. refl; announced = omega arith; limited = λ e. absurd (cc e) };
}

begun-IsSound :
    (c : Client) (payload : List ℕ) (now : ℕ) (r : Result Sender.Sender)
    → Sender.begin (Sender.new c.config.transport) payload now ≡ r
    → IsSound c
    → IsSound (begun c r now)
unfolding begun
begun-IsSound c payload now (err e) h v = record { valid = v.valid; bounded = v.bounded }
begun-IsSound c payload now (ok s) h v = record {
  valid = begin-IsValid c.config.transport payload now s h;
  bounded = v.bounded;
}

begin_transfer-IsSound : (c : Client) (now : ℕ) → IsSound (begin_transfer c now)
unfolding begin_transfer
begin_transfer-IsSound c now =
    let fresh : Client = record c {
      sender = Sender.new c.config.transport;
      receiver = Receiver.reset c.receiver;
    } in
    begun-IsSound fresh c.pending_request now
      (Sender.begin (Sender.new c.config.transport) c.pending_request now) refl
      (record { valid = new-IsValid c.config.transport; bounded = reset-IsBounded c.receiver })

request-IsSound :
    (c : Client) (payload : List ℕ) (now : ℕ) → IsSound c → IsSound (request c payload now).0
unfolding request
request-IsSound c payload now v = ground (arith, v, begin_transfer-IsSound (asked c payload) now)

on_frame-IsSound : (c : Client) (f : BasicFrame) (now : ℕ) → IsSound c → IsSound (on_frame c f now)
unfolding on_frame
on_frame-IsSound c f now v =
    ground (
      arith,
      on_frame-IsValid c.sender f now v.valid,
      on_frame-IsBounded c.receiver f now v.bounded,
    )

handle_message-IsSound :
    (c : Client) (message : List ℕ) (now : ℕ) → IsSound c → IsSound (handle_message c message now)
unfolding handle_message on_negative on_positive
handle_message-IsSound c message now v = ground (arith, v)

after_receiving-IsSound : (c : Client) (now : ℕ) → IsSound c → IsSound (after_receiving c now)
unfolding after_receiving
after_receiving-IsSound c now v =
    let reset : Client = record c { receiver = Receiver.reset c.receiver } in
    ground (
      arith,
      handle_message-IsSound reset c.receiver.payload now
          (record { valid = v.valid; bounded = reset-IsBounded c.receiver }),
    )

after_sending-IsSound : (c : Client) (now : ℕ) → IsSound c → IsSound (after_sending c now).0
unfolding after_sending
after_sending-IsSound c now v = ground (arith, v)

-- A poll that returns, with a client in its bounds.
pub record Polls (p : Polled) : Type 0 where
  pub next : Client
  pub frames : List BasicFrame
  pub result : p ≡ some (next, frames)
  pub sound : IsSound next

same : (c : Client) → IsSound c → Polls (some (c, []))
same c v = record { next = c; frames = []; result = refl; sound = v }

append_frames-Polls : (out : List BasicFrame) (p : Polled) → Polls p → Polls (append_frames out p)
unfolding append_frames
append_frames-Polls out p r = record {
  next = r.next;
  frames = out ++ r.frames;
  result = rw r.result refl;
  sound = r.sound;
}

kept_alive-Polls :
    (c : Client) (now : ℕ) (r : Result Sender.Sender)
    → Sender.begin (Sender.new c.config.transport) (0x3E ∷ 0x80 ∷ []) now ≡ r
    → IsSound c
    → Polls (Option.map (kept_alive c now) (keepalive_frames c.config now r))
unfolding kept_alive keepalive_frames
kept_alive-Polls c now (err e) h v = same c v
kept_alive-Polls c now (ok s) h v =
    let p = poll-Returns s now (begin-IsValid c.config.transport (0x3E ∷ 0x80 ∷ []) now s h) in
    rw p.result (record {
      next = record c { keepalives = (c.keepalives + 1) % 2 ^ 64; last_activity_ns = now };
      frames = p.frames;
      result = refl;
      sound = record { valid = v.valid; bounded = v.bounded };
    })

keepalive-Polls : (c : Client) (now : ℕ) → IsSound c → Polls (keepalive c now)
unfolding keepalive
keepalive-Polls c now v = elim (Bool-cases (keepalive_due c now)) [
  | inl due ↦ rw due (
      kept_alive-Polls c now (Sender.begin (Sender.new c.config.transport) (0x3E ∷ 0x80 ∷ []) now)
        refl v)
  | inr quiet ↦ rw quiet (same c v)
]

poll_awaiting-Polls : (c : Client) (now : ℕ) → IsSound c → Polls (poll_awaiting c now)
unfolding poll_awaiting
poll_awaiting-Polls c now v = elim (Bool-cases (is_awaiting c.state)) [
  | inl here ↦
      let p = poll-Answers c.receiver now v.bounded in
      rw (here, p.result)
        (record {
          next = after_receiving (record c { receiver = p.next }) now;
          frames = p.frames;
          result = refl;
          sound =
              after_receiving-IsSound (record c { receiver = p.next }) now
                (record { valid = v.valid; bounded = p.bounded });
        })
  | inr other ↦ rw other (same c v)
]

then_keepalive-Polls : (p : Polled) (now : ℕ) → Polls p → Polls (then_keepalive p now)
unfolding then_keepalive
then_keepalive-Polls none now r = absurd (cc r.result)
then_keepalive-Polls (some (c, out)) now r =
    let same_client : r.next ≡ c = ground (arith, r.result) in
    append_frames-Polls out (keepalive c now)
      (keepalive-Polls c now (subst (λ (d : Client). IsSound d) same_client r.sound))

then_await-Polls :
    (c : Client) (out : List BasicFrame) (b : Bool) (now : ℕ)
    → IsSound c
    → Polls (then_await (some (c, out, b)) now)
unfolding then_await
then_await-Polls c out true now v = record { next = c; frames = out; result = refl; sound = v }
then_await-Polls c out false now v =
    append_frames-Polls out (then_keepalive (poll_awaiting c now) now)
      (then_keepalive-Polls (poll_awaiting c now) now (poll_awaiting-Polls c now v))

-- Polling a client whose Sender and Receiver are in their bounds returns, with such a client.
poll-Polls : (c : Client) (now : ℕ) → IsSound c → Polls (poll c now)
unfolding poll poll_sending
poll-Polls c now v = elim (Bool-cases (is_sending c.state)) [
  | inl here ↦
      let p = poll-Returns c.sender now v.valid in
      let d : Client = record c { sender = p.next } in
      let sent = after_sending d now in
      rw (here, p.result)
        (then_await-Polls sent.0 p.frames sent.1 now
          (after_sending-IsSound d now (record { valid = p.valid; bounded = v.bounded })))
  | inr other ↦ rw other (then_await-Polls c [] false now v)
]

called-IsSound :
    (c : Client) (e : Call) → IsSound c → (d : Client) × (called c e ≡ some d) × IsSound d
unfolding called
called-IsSound c (requested payload now) v =
    ((request c payload now).0, refl, request-IsSound c payload now v)
called-IsSound c (arrived f now) v = (on_frame c f now, refl, on_frame-IsSound c f now v)
called-IsSound c (polled now) v = let p = poll-Polls c now v in (p.next, rw p.result refl, p.sound)

-- From a client whose Sender and Receiver are in their bounds, as a new one is, no sequence of
-- requests, frames and polls aborts the program, and it leaves such a client.
pub run-IsSound :
    (c : Client) (es : List Call) → IsSound c → (d : Client) × (run c es ≡ some d) × IsSound d
unfolding run
run-IsSound c [] v = (c, refl, v)
run-IsSound c (e ∷ es) v =
    let (d, h, w) = called-IsSound c e v in
    let (last, k, z) = run-IsSound d es w in (last, rw h k, z)
