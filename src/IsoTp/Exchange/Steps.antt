-- ===== src/IsoTp/Exchange/Steps.antt =====
-- One exchange at a time: a Consecutive Frame, a Flow Control, a First Frame, a Single Frame.
use canforge.Base.{
  ℕ, suc, ◌+◌, ◌-◌, ◌%◌, ◌≤◌, ◌<◌, ◌≡◌, refl, ap, min, arith, some, List, [], ◌∷◌, ◌++◌, take, drop,
  length, ltb, ◌==◌, true, false, length-append, length-take, length_window, take_exact,
  take-append-window, ==_iff,
}
use canforge.Core.Frame.{BasicFrame}
use canforge.IsoTp.Config.{Config, TransferResult, FlowStatus, header_size, u64}
use canforge.IsoTp.Framing.{pci, low_nibble, make_frame}
use canforge.IsoTp.Framing.Transport.{
  Peers, header_size-Peers, header_size-le, Brings, make_frame-Brings,
}
use canforge.IsoTp.Sender
use canforge.IsoTp.Sender.{Sender}
use canforge.IsoTp.Receiver
use canforge.IsoTp.Receiver.{Receiver}
use canforge.IsoTp.Exchange.{Link, sender_half}
use canforge.IsoTp.Exchange.Headers.{pci_lem, low_nibble_lem, consecutive_byte, next_sequence}

module _ (m : List ℕ) (cs cr : Config) where
  -- The two sides with `o` bytes of the message `m` handed over.
  abbrev pub sender_in : Sender.State → (o sq bs st fb w d nx : ℕ) → Sender
  sender_in state o sq bs st fb w d nx = record {
    config = cs;
    payload = m;
    state = state;
    result = TransferResult.in_progress;
    offset = o;
    sequence = sq;
    block_size = bs;
    st_min_ns = st;
    frames_in_block = fb;
    wait_count = w;
    deadline_ns = d;
    next_send_ns = nx;
  }

  abbrev pub receiver_in : Receiver.State → FlowStatus → (o sq fb dl due : ℕ) → Receiver
  receiver_in state ps o sq fb dl due = record {
    config = cr;
    payload = take o m;
    state = state;
    result = TransferResult.in_progress;
    expected = length m;
    sequence = sq;
    frames_in_block = fb;
    deadline_ns = dl;
    fc_due_ns = due;
    pending_status = ps;
  }

  module _ (there : Peers cs cr.address) (o : ℕ) (started : o < length m) where
    -- The bytes of the next Consecutive Frame.
    abbrev pub chunk_size : ℕ
    chunk_size = min (8 - header_size cs.address - 1) (length m - o)

    abbrev chunk : List ℕ
    chunk = take chunk_size (drop o m)

    length-chunk : length chunk ≡ chunk_size
    length-chunk = omega (arith, length_window o chunk_size m)

    chunk_payload :
        (pad : List ℕ)
        → header_size cr.address + suc (length chunk) + length pad ≤ 8
        → take o m
            ++ take
                (min (length m - length (take o m)) (suc (length (chunk ++ pad)) - 1))
                (chunk ++ pad)
          ≡ take (o + chunk_size) m
    chunk_payload pad h =
        let e : min (length m - length (take o m)) (suc (length (chunk ++ pad)) - 1)
            ≡ length chunk =
          omega (
            arith,
            length-chunk,
            length-append chunk pad,
            length-take o m,
            header_size-Peers cs cr.address there,
          ) in
        rw (e, take_exact (length chunk) chunk pad refl) (take-append-window o chunk_size m)

    receive_consecutive :
        (ps : FlowStatus) (sq fb dl due t : ℕ) (f : BasicFrame)
        → sq < 16
        → Brings cr.address ((32 + sq) ∷ chunk) f
        → Receiver.on_frame (receiver_in Receiver.State.receiving ps o sq fb dl due) f t
          ≡ Receiver.after_consecutive
              (receiver_in Receiver.State.receiving ps
                (o + chunk_size)
                ((sq + 1) % 16)
                ((fb + 1) % 256)
                dl
                due)
              t
    unfolding Receiver.on_frame Receiver.on_consecutive
    receive_consecutive ps sq fb dl due t f h brings =
        let p : pci ((32 + sq) ∷ (chunk ++ brings.pad)) ≡ 2 =
          omega (arith, pci_lem (32 + sq) (chunk ++ brings.pad)) in
        let n : low_nibble ((32 + sq) ∷ (chunk ++ brings.pad)) ≡ sq =
          omega (arith, low_nibble_lem (32 + sq) (chunk ++ brings.pad)) in
        let same : (sq == sq) ≡ true = (==_iff sq sq).1 refl in
        rw (brings.received, p, n, same, next_sequence sq)
          (ap
            (λ (x : List ℕ).
              Receiver.after_consecutive
                (record (receiver_in Receiver.State.receiving ps o ((sq + 1) % 16) ((fb + 1) % 256)
                  dl due) { payload = x })
                t)
            (chunk_payload brings.pad brings.short))

    send_consecutive :
        (sq bs st fb w d nx t : ℕ) (f : BasicFrame)
        → sq < 16
        → nx ≤ t
        → make_frame cs ((32 + sq) ∷ chunk) ≡ some f
        → Sender.poll (sender_in Sender.State.sending_consecutive o sq bs st fb w d nx) t
          ≡ some (
            Sender.after_consecutive
                (sender_in Sender.State.sending_consecutive
                  (o + chunk_size)
                  ((sq + 1) % 16)
                  bs
                  st
                  ((fb + 1) % 256)
                  w
                  d
                  (u64 (t + st)))
                t,
            f ∷ [],
          )
    unfolding Sender.poll Sender.poll_consecutive
    send_consecutive sq bs st fb w d nx t f h ready made =
        let open_now : ltb t nx ≡ false = ground arith in
        rw (open_now, consecutive_byte sq h, made, next_sequence sq)

    framed_consecutive :
        (sq : ℕ)
        → (f : BasicFrame) × (make_frame cs ((32 + sq) ∷ chunk) ≡ some f)
          × Brings cr.address ((32 + sq) ∷ chunk) f
    framed_consecutive sq = make_frame-Brings cs cr.address there (32 + sq) chunk (
        omega
          (arith, length-chunk, header_size-Peers cs cr.address there, header_size-le cs.address))

    -- The next Consecutive Frame goes over.
    module _ (sq bs st fb w d nx t : ℕ) (ps : FlowStatus) (gb dl due : ℕ) where
      abbrev before_consecutive : Link
      before_consecutive = record {
        sender = sender_in Sender.State.sending_consecutive o sq bs st fb w d nx;
        receiver = receiver_in Receiver.State.receiving ps o sq gb dl due;
      }

      abbrev after_consecutive : Link
      after_consecutive = record {
        sender =
            Sender.after_consecutive
              (sender_in Sender.State.sending_consecutive (o + chunk_size) ((sq + 1) % 16) bs st
                ((fb + 1) % 256) w d (u64 (t + st)))
              t;
        receiver =
            Receiver.after_consecutive
              (receiver_in Receiver.State.receiving ps (o + chunk_size) ((sq + 1) % 16)
                ((gb + 1) % 256) dl due)
              t;
      }

      with_frame :
          (f : BasicFrame)
          → sq < 16
          → nx ≤ t
          → make_frame cs ((32 + sq) ∷ chunk) ≡ some f
          → Brings cr.address ((32 + sq) ∷ chunk) f
          → sender_half t before_consecutive ≡ some after_consecutive
      unfolding sender_half
      with_frame f h ready made brings = rw (
        send_consecutive sq bs st fb w d nx t f h ready made,
        receive_consecutive ps sq gb dl due t f h brings,
      )

      pub step_consecutive :
          sq < 16 → nx ≤ t → sender_half t before_consecutive ≡ some after_consecutive
      step_consecutive h ready = let r = framed_consecutive sq in with_frame r.0 h ready r.1 r.2
