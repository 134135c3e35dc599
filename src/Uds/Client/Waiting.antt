-- ===== src/Uds/Client/Waiting.antt =====
-- A client that waits for its response does not wait for ever.
use canforge.Base.{ℕ, suc, ◌+◌, ◌^◌, ◌≤◌, ◌<◌, ◌≡◌, arith, true, false, not, some, List, leb, ◌||◌}
use canforge.Core.Frame.{BasicFrame}
use canforge.IsoTp.Receiver
use canforge.Uds.Client.{
  Client, handle_message, on_frame, after_receiving, poll, is_sending, is_awaiting, on_negative,
  on_positive,
}
use canforge.Uds.Client.Polls.{Leaves, leaves, poll_unsent-Leaves}

-- What a client goes through from `c` on without a new request: frames that arrive, polls that
-- return, and among these a number of polls at or after the deadline of the moment.
pub data Waited (c : Client) : ℕ → Client → Type 0 where
  start : Waited c 0 c
  arrived :
      {n : ℕ} {d : Client}
      → Waited c n d
      → (f : BasicFrame) (now : ℕ) → Waited c n (on_frame d f now)
  early :
      {n : ℕ} {d e : Client} {out : List BasicFrame}
      → Waited c n d
      → (now : ℕ) → poll d now ≡ some (e, out)
      → Waited c n e
  late :
      {n : ℕ} {d e : Client} {out : List BasicFrame}
      → Waited c n d
      → (now : ℕ) → d.deadline_ns ≤ now
      → poll d now ≡ some (e, out)
      → Waited c (suc n) e

module _ (limit : ℕ) (some_limit : 0 < limit) (wide : limit + 1 < 2 ^ 32) where
  -- Nothing is being sent, and a client that still awaits has counted `m` pending answers.
  record Waits (m : ℕ) (c : Client) : Type 0 where
    pub limited : c.config.max_response_pending ≡ limit
    pub unsent : is_sending c.state ≡ false
    pub within : leb c.pending_count limit || not (is_awaiting c.state) ≡ true
    pub counted : leb m c.pending_count || not (is_awaiting c.state) ≡ true

  handle_message-Waits :
      (m : ℕ) (c : Client) (message : List ℕ) (now : ℕ)
      → Waits m c
      → is_awaiting c.state ≡ true
      → Waits (suc m) (handle_message c message now)
  unfolding handle_message on_negative on_positive
  handle_message-Waits m c message now v here = ground (arith, v)

  -- A poll at the deadline or later: the client gives up, ends, or counts one answer more.
  after_receiving-Waits_late :
      (m : ℕ) (c : Client) (now : ℕ)
      → Waits m c
      → is_awaiting c.state ≡ true
      → c.deadline_ns ≤ now
      → Waits (suc m) (after_receiving c now)
  unfolding after_receiving
  after_receiving-Waits_late m c now v here due =
      let reset : Client = record c { receiver = Receiver.reset c.receiver } in
      let kept : Waits m reset = record {
        limited = v.limited;
        unsent = v.unsent;
        within = v.within;
        counted = v.counted;
      } in
      ground (arith, v, handle_message-Waits m reset c.receiver.payload now kept here)

  Waits-pred : (m : ℕ) (c : Client) → Waits (suc m) c → Waits m c
  Waits-pred m c v = ground (arith, v)

  after_receiving-Waits :
      (m : ℕ) (c : Client) (now : ℕ)
      → Waits m c
      → is_awaiting c.state ≡ true
      → Waits m (after_receiving c now)
  unfolding after_receiving
  after_receiving-Waits m c now v here =
      let reset : Client = record c { receiver = Receiver.reset c.receiver } in
      let kept : Waits m reset = record {
        limited = v.limited;
        unsent = v.unsent;
        within = v.within;
        counted = v.counted;
      } in
      let handled = handle_message-Waits m reset c.receiver.payload now kept here in
      ground (arith, v, Waits-pred m (handle_message reset c.receiver.payload now) handled)

  kept_alive-Waits :
      (m : ℕ) (c : Client) (k t : ℕ)
      → Waits m c
      → Waits m (record c { keepalives = k; last_activity_ns = t })
  kept_alive-Waits m c k t v = record {
    limited = v.limited;
    unsent = v.unsent;
    within = v.within;
    counted = v.counted;
  }

  with_receiver-Waits :
      (m : ℕ) (c : Client) (r : Receiver.Receiver) → Waits m c → Waits m (record c { receiver = r })
  with_receiver-Waits m c r v = record {
    limited = v.limited;
    unsent = v.unsent;
    within = v.within;
    counted = v.counted;
  }

  on_frame-Waits :
      (m : ℕ) (c : Client) (f : BasicFrame) (now : ℕ) → Waits m c → Waits m (on_frame c f now)
  unfolding on_frame
  on_frame-Waits m c f now v = ground (arith, v)

  over-Waits : (m n : ℕ) (c : Client) → is_awaiting c.state ≡ false → Waits m c → Waits n c
  over-Waits m n c off v = ground (arith, v)

  poll-Waits : (m : ℕ) (c : Client) (now : ℕ) → Waits m c → Leaves (Waits m) (poll c now)
  poll-Waits m c now v =
      poll_unsent-Leaves (Waits m) (kept_alive-Waits m) c now v.unsent
        (λ here r.
          after_receiving-Waits m (record c { receiver = r }) now (with_receiver-Waits m c r v)
            here)
        (λ off. v)

  poll-Waits_late :
      (m : ℕ) (c : Client) (now : ℕ)
      → Waits m c
      → c.deadline_ns ≤ now
      → Leaves (Waits (suc m)) (poll c now)
  poll-Waits_late m c now v due =
      poll_unsent-Leaves (Waits (suc m)) (kept_alive-Waits (suc m)) c now v.unsent
        (λ here r.
          after_receiving-Waits_late m (record c { receiver = r }) now (with_receiver-Waits m c r v)
            here due)
        (λ off. over-Waits m (suc m) c off v)

  Waited-Waits : {c d : Client} {n : ℕ} → Waited c n d → Waits 0 c → Waits n d
  Waited-Waits start v = v
  Waited-Waits (arrived w f now) v = on_frame-Waits _ _ f now (Waited-Waits w v)
  Waited-Waits (early {n} {d} w now e) v =
      leaves (Waits n) (poll d now) e (poll-Waits n d now (Waited-Waits w v))
  Waited-Waits (late {n} {d} w now due e) v =
      leaves (Waits (suc n)) (poll d now) e (poll-Waits_late n d now (Waited-Waits w v) due)

  -- A client that awaits its response with max_response_pending set to a limit from 1 to 2^32 - 2
  -- and not yet exceeded: once it is polled more than `limit` times at or after the deadline of
  -- the moment, with any other polls and any frames in between, it no longer awaits one.
  pub Waited_over :
      {c d : Client} {n : ℕ}
      → Waited c n d
      → c.config.max_response_pending ≡ limit
      → is_awaiting c.state ≡ true
      → c.pending_count ≤ limit
      → limit < n
      → is_awaiting d.state ≡ false
  Waited_over {c} w limited here within enough =
      let first : Waits 0 c = record {
        limited = limited;
        unsent = ground (arith, here);
        within = ground arith;
        counted = ground arith;
      } in
      let last = Waited-Waits w first in ground (arith, last)
