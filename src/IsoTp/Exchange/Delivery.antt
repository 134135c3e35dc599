-- ===== src/IsoTp/Exchange/Delivery.antt =====
-- Every message that the protocol can describe arrives whole.
use canforge.Base.{
  ℕ, zero, suc, ◌+◌, ◌-◌, ◌*◌, ◌%◌, ◌^◌, ◌≤◌, ◌<◌, ◌≡◌, refl, inl, inr, arith, some, List, [], ◌∷◌,
  ◌++◌, length, length-append, take_exact, leb, ltb, ◌==◌, false, if◌then◌else◌,
}
use native.Mathlib.Decide.{dec_le}
use canforge.Core.Result.{ok}
use canforge.Core.Frame.{BasicFrame}
use canforge.IsoTp.Config.{Config, TransferResult, u64, header_size, validate}
use canforge.IsoTp.Framing.{make_frame, pci, low_nibble}
use canforge.IsoTp.Framing.Transport.{Brings, make_frame-Brings, header_size-le, header_size-Peers}
use canforge.IsoTp.Sender
use canforge.IsoTp.Sender.{Sender, first_header}
use canforge.IsoTp.Receiver
use canforge.IsoTp.Receiver.{Receiver}
use canforge.IsoTp.Exchange.{Link, round, run, sender_half, receiver_half}
use canforge.IsoTp.Exchange.Headers.{pci_lem, low_nibble_lem, length-first_header}
use canforge.IsoTp.Exchange.Steps.{sender_in}
use canforge.IsoTp.Exchange.Opening.{step_opening, head_size}
use canforge.IsoTp.Exchange.Rounds.{
  Compatible, Delivered, InFlight, Progress, answer_now, round_of, round-InFlight,
}

-- Once both sides are done nothing moves.
sender_done :
    (s : Sender) (t : ℕ) → s.result ≡ TransferResult.succeeded → Sender.poll s t ≡ some (s, [])
unfolding Sender.poll
sender_done s t e = ground arith

receiver_done :
    (r : Receiver) (t : ℕ) → r.state ≡ Receiver.State.finished → Receiver.poll r t ≡ some (r, [])
unfolding Receiver.poll
receiver_done r t e = ground arith

round_done : (m : List ℕ) (l : Link) (t : ℕ) → Delivered m l → round t l ≡ some l
unfolding round sender_half receiver_half
round_done m l t v = rw (sender_done l.sender t v.sent, receiver_done l.receiver t v.finished)

run_done : (m : List ℕ) (n step p : ℕ) (l : Link) → Delivered m l → run n step p l ≡ some l
unfolding run
run_done m zero step p l v = refl
run_done m (suc n) step p l v = rw (round_done m l (p + step) v) (run_done m n step (p + step) l v)

module _ (m : List ℕ) (cs cr : Config) (step : ℕ) (fit : Compatible m cs cr step) where
  run_after :
      (n p k : ℕ) (l : Link)
      → k < suc n
      → (p + step) + n * step < 2 ^ 63
      → (l₁ : Link) → round (p + step) l ≡ some l₁
      → Progress m cs cr step fit (p + step) k l₁
      → ((j : ℕ)
          → j < k
          → InFlight m cs cr step fit (p + step) j l₁
          → (l' : Link) × (run n step (p + step) l₁ ≡ some l') × Delivered m l')
      → (l' : Link) × (run (suc n) step p l ≡ some l') × Delivered m l'
  unfolding run
  run_after n p k l h clock l₁ e (inl v) rest = (l₁, rw e (run_done m n step (p + step) l₁ v), v)
  run_after n p k l h clock l₁ e (inr (j, q, f)) rest = let r = rest j q f in (r.0, rw e r.1, r.2)

  run-InFlight :
      (n p k : ℕ) (l : Link)
      → k < n
      → p + n * step < 2 ^ 63
      → InFlight m cs cr step fit p k l
      → (l' : Link) × (run n step p l ≡ some l') × Delivered m l'
  unfolding run
  run-InFlight zero p k l h clock v = absurd (omega arith)
  run-InFlight (suc n) p k l h clock v =
      let r = round-InFlight m cs cr step fit p k l (omega arith) v in
      run_after n p k l h (omega arith) r.0 r.1 r.2
        (λ j q f. run-InFlight n (p + step) j r.0 (omega arith) (omega arith) f)

  -- A message that fits a Single Frame.
  module _ (small : length m ≤ 7 - header_size cs.address) (some_bytes : 0 < length m) where
    receive_single :
        (t : ℕ) (f : BasicFrame)
        → Brings cr.address (length m ∷ m) f
        → Receiver.on_frame (Receiver.new cr) f t
          ≡ Receiver.finish
              (record (Receiver.new cr) { payload = m; expected = length m })
              TransferResult.succeeded
    unfolding Receiver.on_frame Receiver.on_single Receiver.new
    receive_single t f brings =
        let rest : List ℕ = m ++ brings.pad in
        let p : pci (length m ∷ rest) ≡ 0 = omega (arith, pci_lem (length m) rest) in
        let n : low_nibble (length m ∷ rest) ≡ length m =
          omega (arith, low_nibble_lem (length m) rest) in
        let nonzero : (length m == 0) ≡ false = ground arith in
        let enough : ltb (length (length m ∷ rest)) (1 + length m) ≡ false =
          ground (arith, length-append m brings.pad) in
        rw (brings.received, p, n, nonzero, enough, take_exact (length m) m brings.pad refl)

    module _ (o sq bs st fb w d nx t : ℕ) where
      abbrev single : Link
      single = record {
        sender = sender_in m cs cr Sender.State.sending_single o sq bs st fb w d nx;
        receiver = Receiver.new cr;
      }

      abbrev arrived : Link
      arrived = record {
        sender =
            Sender.finish
              (sender_in m cs cr Sender.State.sending_single (length m) sq bs st fb w d nx)
              TransferResult.succeeded;
        receiver =
            Receiver.finish (record (Receiver.new cr) { payload = m; expected = length m })
              TransferResult.succeeded;
      }

      with_single :
          (f : BasicFrame)
          → make_frame cs (length m ∷ m) ≡ some f
          → Brings cr.address (length m ∷ m) f
          → sender_half t single ≡ some arrived
      unfolding sender_half Sender.poll Sender.poll_single
      with_single f made brings =
          let byte : length m % 256 ≡ length m = omega arith in
          rw (byte, made, receive_single t f brings)

      round-single : round t single ≡ some arrived
      unfolding receiver_half Receiver.poll
      round-single =
          let r =
            make_frame-Brings cs cr.address fit.there (length m) m (
              omega
                (arith, header_size-Peers cs cr.address fit.there, header_size-le cs.address)) in
          round_of m cs cr step fit t _ arrived _ (with_single r.0 r.1 r.2) refl

  -- A message that does not.
  run_segmented :
      (n o sq bs st fb w d nx p : ℕ)
      → 7 - header_size cs.address < length m
      → 2 * length m + 1 < n
      → p + n * step < 2 ^ 63
      → (l : Link) × (run n step p (record {
        sender = sender_in m cs cr Sender.State.sending_first o sq bs st fb w d nx;
        receiver = Receiver.new cr;
      })
          ≡ some l)
        × Delivered m l
  run_segmented zero o sq bs st fb w d nx p long h clock = absurd (omega arith)
  run_segmented (suc n) o sq bs st fb w d nx p long h clock =
      let t : ℕ = p + step in
      let c : ℕ = head_size m cs cr fit.there long fit.accepted fit.describable in
      let facts = length-first_header (length m) in
      let r =
        answer_now m cs cr step fit t (2 * length m + 1) c 1 bs st fb w (u64 (t + cs.n_bs_ns)) nx 0
          0 (u64 (t + cr.n_br_ns)) (omega (arith, facts, header_size-le cs.address))
          (omega (arith, facts, header_size-le cs.address)) (omega arith) (omega arith)
          (omega (arith, fit.patience_bs)) (omega (arith, fit.delay_br, fit.patience_bs)) in
      let first =
        round_of m cs cr step fit t _ _ r.0
          (step_opening m cs cr fit.there long fit.accepted fit.describable o sq bs st fb w d nx t)
          r.1 in
      run_after n p (2 * length m + 1) _ (omega arith) (omega arith) r.0 first r.2
        (λ j q f. run-InFlight n t j r.0 (omega arith) (omega arith) f)

  run_single :
      (n o sq bs st fb w d nx p : ℕ)
      → length m ≤ 7 - header_size cs.address
      → 0 < length m
      → 0 < n
      → (l : Link) × (run n step p (record {
        sender = sender_in m cs cr Sender.State.sending_single o sq bs st fb w d nx;
        receiver = Receiver.new cr;
      })
          ≡ some l)
        × Delivered m l
  unfolding run Receiver.new
  run_single zero o sq bs st fb w d nx p small some_bytes h = absurd (omega arith)
  run_single (suc n) o sq bs st fb w d nx p small some_bytes h =
      let v : Delivered m (arrived small some_bytes o sq bs st fb w d nx (p + step)) = record {
        sent = refl;
        finished = refl;
        received = refl;
        message = refl;
      } in
      (
        arrived small some_bytes o sq bs st fb w d nx (p + step),
        rw (round-single small some_bytes o sq bs st fb w d nx (p + step))
            (run_done m n step (p + step) _ v),
        v,
      )

  begin_as :
      (p : ℕ) (state : Sender.State)
      → validate cs ≡ ok tt
      → (if leb (length m) (7 - header_size cs.address)
          then Sender.State.sending_single
          else Sender.State.sending_first)
        ≡ state
      → Sender.begin (Sender.new cs) m p ≡ ok (sender_in m cs cr state 0 0 0 0 0 0 0 p)
  unfolding Sender.begin Sender.new
  begin_as p state valid e =
      let describable : ltb 0xFFFFFFFF (length m) ≡ false = ground (arith, fit.describable) in
      rw (valid, describable, e)

  -- A transfer that begins at time `p` with a message of at least one byte is over after any number
  -- of rounds from `2 * length m + 2` on: both sides report success and the receiver holds the
  -- message, byte for byte. The sender's configuration is one that validate() accepts, the two are
  -- compatible, and the clock stays below 2^63.
  pub run-begin-Delivered :
      (n p : ℕ)
      → validate cs ≡ ok tt
      → 0 < length m
      → 2 * length m + 1 < n
      → p + n * step < 2 ^ 63
      → (s : Sender) × (l : Link) × (Sender.begin (Sender.new cs) m p ≡ ok s)
        × (run n step p (record { sender = s; receiver = Receiver.new cr }) ≡ some l)
        × Delivered m l
  run-begin-Delivered n p valid some_bytes h clock =
      elim (dec_le (length m) (7 - header_size cs.address)) [
        | yes small ↦
            let r = run_single n 0 0 0 0 0 0 0 p p small some_bytes (omega arith) in
            (
              sender_in m cs cr Sender.State.sending_single 0 0 0 0 0 0 0 p,
              r.0,
              begin_as p Sender.State.sending_single valid (ground arith),
              r.1,
              r.2,
            )
        | no long ↦
            let r = run_segmented n 0 0 0 0 0 0 0 p p (omega arith) h clock in
            (
              sender_in m cs cr Sender.State.sending_first 0 0 0 0 0 0 0 p,
              r.0,
              begin_as p Sender.State.sending_first valid (ground arith),
              r.1,
              r.2,
            )
      ]
