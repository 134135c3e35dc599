-- ===== src/Uds/Dialogue/Served.antt =====
-- The messages that UdsServer sends from a request on, the deferred ones included.
use canforge.Base.{
  if_intro, ℕ, ◌+◌, ◌-◌, ◌%◌, ◌^◌, ◌<◌, ◌≡◌, refl, ap, ◌∙◌, inl, inr, arith, true, false, not, leb,
  ltb, ◌==◌, ◌||◌, ◌&&◌, none, some, List, [], ◌∷◌, length, get_or,
}
use mathlib.Core.Option
use mathlib.Core.Path.{subst, subst⁻¹}
use canforge.Core.Frame.{BasicFrame}
use canforge.IsoTp.Config.{validate}
use canforge.IsoTp.Sender
use canforge.IsoTp.Sender.{Sender}
use canforge.IsoTp.Sender.Payload.{Keeps, poll-Keeps, payload-on_frame}
use canforge.IsoTp.Receiver
use canforge.Sim.UdsServer.{UdsServer, Handled, negative}
use canforge.Sim.UdsServer.Server.{
  handle, on_frame, poll, release, respond, has_message, is_nil, after_sending, answered, Polled,
}
use canforge.Uds.Client.{Client, handle_message, is_awaiting, is_complete}
use canforge.Uds.Client.Answers.{begin-Carries}
use canforge.Uds.Dialogue.{answers, fit, handle-fit, understood}

-- What the server sends, if it sends, and what it has deferred, are answers to `service`.
record IsAnswering (service : ℕ) (s : UdsServer) : Type 0 where
  pub spoken : s.sending ≡ true → answers service s.sender.payload ≡ true
  pub some_bytes : s.sending ≡ true → 0 < length s.sender.payload
  pub deferred : answers service s.deferred_response ≡ true
  pub owner : length s.deferred_response == 0 || s.deferred_service == service ≡ true

-- The server begins a response.
respond-IsAnswering :
    (service : ℕ) (s : UdsServer) (m : List ℕ) (now : ℕ)
    → IsAnswering service s
    → s.sending ≡ false
    → answers service m ≡ true
    → 0 < length m
    → IsAnswering service (respond s m now)
unfolding respond
respond-IsAnswering service s m now h quiet a n =
    let c = s.config.transport in
    elim (begin-Carries c m now (validate c) refl) [
      | inl (valid, fits, (t, b, v)) ↦ rw b (record {
        spoken = λ e. ap (λ (p : List ℕ). answers service p) v.bytes ∙ a;
        some_bytes = λ e. omega (arith, n, ap (λ (p : List ℕ). length p) v.bytes);
        deferred = h.deferred;
        owner = h.owner;
      })
      | inr (e, b, why) ↦ rw b (record {
        spoken = λ e. absurd (ground arith);
        some_bytes = λ e. absurd (ground arith);
        deferred = h.deferred;
        owner = h.owner;
      })
    ]

is_nil_lem : (xs : List ℕ) → is_nil xs ≡ false → 0 < length xs
is_nil_lem [] e = absurd (cc e)
is_nil_lem (x ∷ xs) e = omega arith

-- The deferred response, when its time has come.
release-IsAnswering :
    (service : ℕ) (s : UdsServer) (now : ℕ)
    → IsAnswering service s
    → IsAnswering service (release s now)
unfolding release
release-IsAnswering service s now h =
    if_intro (λ r. IsAnswering service r)
      (not (is_nil s.deferred_response) && leb s.deferred_until_ns now && not s.sending)
      (record (respond s s.deferred_response now) { deferred_response = [] }) s
      (λ due.
        let r =
          respond-IsAnswering service s s.deferred_response now h (ground arith) h.deferred
            (is_nil_lem s.deferred_response (ground arith)) in
        record { spoken = r.spoken; some_bytes = r.some_bytes; deferred = refl; owner = refl })
      (λ early. h)

-- A poll that returns a server that answers `service`.
abbrev AllAnswering : ℕ → Polled → Type 0
AllAnswering service none = Unit {0}
AllAnswering service (some (s, frames)) = IsAnswering service s

after_sending-AllAnswering :
    (service : ℕ) (s : UdsServer) (r : Sender.Polled)
    → s.sending ≡ true
    → IsAnswering service s
    → Keeps s.sender.payload r
    → AllAnswering service (Option.map (λ p. (after_sending s p.0, p.1)) r)
unfolding after_sending
after_sending-AllAnswering service s none e h k = tt
after_sending-AllAnswering service s (some (t, frames)) e h k =
    if_intro (λ r. IsAnswering service r) (Sender.is_done t)
      (record s { sender = t; sending = false; receiver = Receiver.reset s.receiver })
      (record s { sender = t })
      (λ over. record {
        spoken = λ f. absurd (cc f);
        some_bytes = λ f. absurd (cc f);
        deferred = h.deferred;
        owner = h.owner;
      })
      (λ going. record {
        spoken = λ f. ap (λ (p : List ℕ). answers service p) k ∙ h.spoken e;
        some_bytes = λ f. omega (arith, h.some_bytes e, ap (λ (p : List ℕ). length p) k);
        deferred = h.deferred;
        owner = h.owner;
      })

receiving-AllAnswering :
    (service : ℕ) (s : UdsServer) (r : Receiver.Polled)
    → IsAnswering service s
    → AllAnswering service (Option.map (λ p. (record s { receiver = p.0 }, p.1)) r)
receiving-AllAnswering service s none h = tt
receiving-AllAnswering service s (some (t, frames)) h = record {
  spoken = h.spoken;
  some_bytes = h.some_bytes;
  deferred = h.deferred;
  owner = h.owner;
}

pending-answers : (service : ℕ) → answers service (negative service 0x78) ≡ true
pending-answers service = ground arith

poll-AllAnswering :
    (service : ℕ) (s : UdsServer) (now : ℕ)
    → IsAnswering service s
    → AllAnswering service (poll s now)
unfolding poll
poll-AllAnswering service s now h =
    let r = release s now in
    let k = release-IsAnswering service s now h in
    if_intro (AllAnswering service) r.sending _ _
      (λ e.
        after_sending-AllAnswering service r (Sender.poll r.sender now) e k
          (poll-Keeps r.sender now))
      (λ quiet.
        if_intro (AllAnswering service) (ltb 0 r.pending_left && not (is_nil r.deferred_response)) _
          _
          (λ more.
            let some_bytes = is_nil_lem r.deferred_response (ground arith) in
            let own : r.deferred_service ≡ service = ground (arith, k.owner) in
            respond-IsAnswering service (record r { pending_left = r.pending_left - 1 })
              (negative r.deferred_service 0x78) now
              (record {
                spoken = k.spoken;
                some_bytes = k.some_bytes;
                deferred = k.deferred;
                owner = k.owner;
              })
              quiet
              (ap (λ (n : ℕ). answers service (negative n 0x78)) own ∙ pending-answers service)
              (omega arith))
          (λ _. receiving-AllAnswering service r (Receiver.poll r.receiver now) k))

-- A frame while the server sends goes to its Sender.
heard-IsAnswering :
    (service : ℕ) (s : UdsServer) (f : BasicFrame) (now : ℕ)
    → s.sending ≡ true
    → IsAnswering service s
    → IsAnswering service (on_frame s f now)
unfolding on_frame
heard-IsAnswering service s f now e h =
    let k = payload-on_frame s.sender f now in
    rw e (record {
      spoken = λ _. ap (λ (p : List ℕ). answers service p) k ∙ h.spoken e;
      some_bytes = λ _. omega (arith, h.some_bytes e, ap (λ (p : List ℕ). length p) k);
      deferred = h.deferred;
      owner = h.owner;
    })

-- What is left of handling a request goes on as the server's next state.
answered-IsAnswering :
    (service : ℕ) (h : Handled) (now : ℕ)
    → fit service h ≡ true
    → IsAnswering service (answered h now)
unfolding answered
answered-IsAnswering service (s, []) now e = record {
  spoken = λ f. absurd (ground arith);
  some_bytes = λ f. absurd (ground arith);
  deferred = ground arith;
  owner = ground arith;
}
answered-IsAnswering service (s, b ∷ response) now e =
    respond-IsAnswering service s (b ∷ response) now
      (record {
        spoken = λ f. absurd (ground arith);
        some_bytes = λ f. absurd (ground arith);
        deferred = ground arith;
        owner = ground arith;
      })
      (ground arith) (ground arith) (omega arith)

-- The server from the request on: it is polled, and hears frames while it sends.
pub data Served (s : UdsServer) : UdsServer → Type 0 where
  taken : Served s s
  polled :
      {t u : UdsServer}
      → Served s t
      → (now : ℕ) (frames : List BasicFrame) → poll t now ≡ some (u, frames)
      → Served s u
  heard :
      {t : UdsServer}
      → Served s t
      → (f : BasicFrame) (now : ℕ) → t.sending ≡ true
      → Served s (on_frame t f now)

Served-IsAnswering :
    (service : ℕ) {s u : UdsServer} → IsAnswering service s → Served s u → IsAnswering service u
Served-IsAnswering service h taken = h
Served-IsAnswering service h (polled {t} {u} r now frames e) =
    subst (AllAnswering service) e
      (poll-AllAnswering service t now (Served-IsAnswering service h r))
Served-IsAnswering service h (heard {t} r f now e) =
    heard-IsAnswering service t f now e (Served-IsAnswering service h r)

module _ (s : UdsServer) (f : BasicFrame) (service : ℕ) (rest : List ℕ) (now : ℕ)
    (quiet : s.sending ≡ false) (none_deferred : s.deferred_response ≡ [])
    (complete : has_message (Receiver.on_frame s.receiver f now) ≡ true)
    (request : (Receiver.on_frame s.receiver f now).payload ≡ service ∷ rest) where
  on_frame-IsAnswering : IsAnswering service (on_frame s f now)
  unfolding on_frame answered
  on_frame-IsAnswering =
      let r = Receiver.on_frame s.receiver f now in
      let t : UdsServer = record s {
        receiver = Receiver.reset r;
        handled = (s.handled + 1) % 2 ^ 64;
      } in
      let h : fit service (handle t r.payload now) ≡ true =
        subst⁻¹ (λ (p : List ℕ). fit service (handle t p now) ≡ true) request
          (handle-fit t service rest now quiet none_deferred) in
      if_intro (λ u. IsAnswering service u) s.sending _ _ (λ e. absurd (cc (e, quiet)))
        (λ _.
          if_intro (λ u. IsAnswering service u) (has_message r) _ _
            (λ _. answered-IsAnswering service (handle t r.payload now) now h)
            (λ e. absurd (cc (e, complete))))

  -- A server that sends nothing and has deferred nothing gets the frame that completes a request of
  -- at least one byte. From then on, however often it is polled and whatever frames it hears while
  -- it sends, each message that its Sender carries, the pending and the deferred ones included, is
  -- understood by a client that awaits the response to that service: the client completes, or it
  -- goes on waiting because the message is responsePending, where its limit of these, if it has one,
  -- allows one more.
  pub handle_message-Served :
      (c : Client) (u : UdsServer) (later : ℕ)
      → is_awaiting c.state ≡ true
      → c.requested_service ≡ service
      → c.config.max_response_pending == 0
          || leb (c.pending_count + 1) c.config.max_response_pending
        ≡ true
      → Served (on_frame s f now) u
      → u.sending ≡ true
      → let message = u.sender.payload in
        let d = handle_message c message later in
        is_complete d.state || is_awaiting d.state && get_or message 2 0 == 0x78 ≡ true
  handle_message-Served c u later waits asks limit served sends =
      let h = Served-IsAnswering service on_frame-IsAnswering served in
      understood c u.sender.payload later
        (ap (λ (n : ℕ). answers n u.sender.payload) asks ∙ h.spoken sends) (h.some_bytes sends)
        waits limit
