-- ===== src/IsoTp/Exchange/Opening.antt =====
-- How a transfer opens: a First Frame, or the whole message in a Single Frame.
use canforge.Base.{
  ℕ, ◌+◌, ◌-◌, ◌/◌, ◌%◌, ◌^◌, ◌≤◌, ◌<◌, ◌≡◌, refl, ap, ◌∙◌, arith, false, min, some, List, [], ◌∷◌,
  ◌++◌, leb, ltb, ◌==◌, take, drop, length, length-append, length-take, take_all, drop_exact,
}
use mathlib.Core.List.{append-nil}
use native.Mathlib.Decide.{dec_le}
use canforge.Core.Frame.{BasicFrame}
use canforge.IsoTp.Config.{Config, FlowStatus, u64, header_size}
use canforge.IsoTp.Framing.{make_frame, pci}
use canforge.IsoTp.Framing.Transport.{
  Peers, Brings, make_frame-Brings, header_size-Peers, header_size-le,
}
use canforge.IsoTp.Sender
use canforge.IsoTp.Sender.{Sender, first_header}
use canforge.IsoTp.Receiver
use canforge.IsoTp.Receiver.{Receiver, short_length, long_length, first_of_many}
use canforge.IsoTp.Exchange.{Link, sender_half}
use canforge.IsoTp.Exchange.Headers.{
  pci_lem, first_header_short, first_header_long, short_length_lem, long_length_lem,
  length-first_header,
}
use canforge.IsoTp.Exchange.Steps.{sender_in, receiver_in}

module _ (m : List ℕ) (cs cr : Config) (there : Peers cs cr.address)
    (segmented : 7 - header_size cs.address < length m) (fits : length m ≤ cr.max_receive_length)
    (describable : length m < 2 ^ 32) where
  -- The bytes of the message in the First Frame.
  abbrev pub head_size : ℕ
  head_size = min (8 - header_size cs.address - length (first_header (length m))) (length m)

  -- The receiver that has taken the First Frame.
  abbrev pub accepted : ℕ → Receiver
  accepted t =
      receiver_in m cs cr Receiver.State.send_flow_control FlowStatus.continue_to_send head_size 1 0
        0 (u64 (t + cr.n_br_ns))

  -- What stands behind the header of `at` bytes. The frame is full, so there is no padding.
  first_payload :
      (at : ℕ) (head pad : List ℕ)
      → at ≡ length head
      → length pad ≡ 0
      → take (length m) (drop at ((head ++ take head_size m) ++ pad)) ≡ take head_size m
  first_payload at head (x ∷ pad) e h = absurd (omega arith)
  first_payload at head [] e h =
      rw (append-nil (head ++ take head_size m), drop_exact at head (take head_size m) e)
        (take_all (length m) (take head_size m) (omega (arith, length-take head_size m)))

  module _ (t : ℕ) (head pad : List ℕ) (header : first_header (length m) ≡ head)
      (short : header_size cr.address + length (head ++ take head_size m) + length pad ≤ 8) where
    full : length pad ≡ 0
    full = omega (
      arith,
      length-append head (take head_size m),
      length-take head_size m,
      ap (length {A = ℕ}) header,
      header_size-Peers cs cr.address there,
      header_size-le cs.address,
      length-first_header (length m),
    )

    take_first :
        (at : ℕ)
        → at ≡ length head
        → first_of_many (Receiver.new cr) ((head ++ take head_size m) ++ pad) (length m) at t
          ≡ accepted t
    unfolding first_of_many Receiver.new
    take_first at e =
        let big : leb (length m) (7 - header_size cr.address) ≡ false =
          ground (arith, header_size-Peers cs cr.address there) in
        let room : ltb cr.max_receive_length (length m) ≡ false = ground arith in
        rw (big, room, first_payload at head pad e full)

  -- The header with 12 bits of length, and the one with 32 after the escape.
  abbrev short_head : List ℕ
  short_head = (16 + length m / 256) ∷ length m % 256 ∷ []

  abbrev long_head : List ℕ
  long_head =
      16
      ∷ 0
      ∷ length m / 16777216 % 256
      ∷ length m / 65536 % 256
      ∷ length m / 256 % 256
      ∷ length m % 256
      ∷ []

  receive_short :
      (t : ℕ) (f : BasicFrame)
      → length m ≤ 4095
      → Brings cr.address (short_head ++ take head_size m) f
      → Receiver.on_frame (Receiver.new cr) f t ≡ accepted t
  unfolding Receiver.on_frame Receiver.on_first Receiver.new
  receive_short t f h brings =
      let rest : List ℕ = length m % 256 ∷ (take head_size m ++ brings.pad) in
      let p : pci ((16 + length m / 256) ∷ rest) ≡ 1 =
        omega (arith, pci_lem (16 + length m / 256) rest) in
      let n : short_length ((16 + length m / 256) ∷ rest) ≡ length m =
        short_length_lem (length m) (take head_size m ++ brings.pad) h in
      let some_bytes : (length m == 0) ≡ false = ground arith in
      let long : ltb (length ((16 + length m / 256) ∷ rest)) 2 ≡ false = ground arith in
      rw (brings.received, p, long, n, some_bytes)
        (take_first t short_head brings.pad (first_header_short (length m) h) brings.short 2 refl)

  receive_long :
      (t : ℕ) (f : BasicFrame)
      → 4095 < length m
      → Brings cr.address (long_head ++ take head_size m) f
      → Receiver.on_frame (Receiver.new cr) f t ≡ accepted t
  unfolding Receiver.on_frame Receiver.on_first Receiver.new
  receive_long t f h brings =
      let rest : List ℕ =
        0
        ∷ length m / 16777216 % 256
        ∷ length m / 65536 % 256
        ∷ length m / 256 % 256
        ∷ length m % 256
        ∷ (take head_size m ++ brings.pad) in
      let p : pci (16 ∷ rest) ≡ 1 = pci_lem 16 rest in
      let z : short_length (16 ∷ rest) ≡ 0 = refl in
      let n : long_length (16 ∷ rest) ≡ length m =
        long_length_lem (length m) (take head_size m ++ brings.pad) describable in
      let long : ltb (length (16 ∷ rest)) 2 ≡ false = ground arith in
      let enough : ltb (length (16 ∷ rest)) 6 ≡ false = ground arith in
      rw (brings.received, p, long, enough, n)
        (take_first t long_head brings.pad (first_header_long (length m) h) brings.short 6 refl)

  -- The First Frame goes over.
  module _ (o sq bs st fb w d nx t : ℕ) where
    abbrev pub opening : Link
    opening = record {
      sender = sender_in m cs cr Sender.State.sending_first o sq bs st fb w d nx;
      receiver = Receiver.new cr;
    }

    abbrev pub opened : Link
    opened = record {
      sender =
          sender_in m cs cr Sender.State.waiting_flow_control head_size 1 bs st fb w
            (u64 (t + cs.n_bs_ns)) nx;
      receiver = accepted t;
    }

    send_first :
        (f : BasicFrame)
        → make_frame cs (first_header (length m) ++ take head_size m) ≡ some f
        → Sender.poll opening.sender t ≡ some (opened.sender, f ∷ [])
    unfolding Sender.poll Sender.poll_first
    send_first f made = rw made

    with_frame :
        (f : BasicFrame)
        → make_frame cs (first_header (length m) ++ take head_size m) ≡ some f
        → Receiver.on_frame (Receiver.new cr) f t ≡ accepted t
        → sender_half t opening ≡ some opened
    unfolding sender_half
    with_frame f made received = rw (send_first f made, received)

    head_fits :
        (head : List ℕ)
        → first_header (length m) ≡ head
        → header_size cr.address + length (head ++ take head_size m) ≤ 8
    head_fits head header = omega (
      arith,
      ap (length {A = ℕ}) header,
      length-append head (take head_size m),
      length-take head_size m,
      length-first_header (length m),
      header_size-Peers cs cr.address there,
      header_size-le cs.address,
    )

    framed_as :
        (head : List ℕ) (f : BasicFrame)
        → first_header (length m) ≡ head
        → make_frame cs (head ++ take head_size m) ≡ some f
        → make_frame cs (first_header (length m) ++ take head_size m) ≡ some f
    framed_as head f header made =
        ap (λ (h : List ℕ). make_frame cs (h ++ take head_size m)) header ∙ made

    pub step_opening : sender_half t opening ≡ some opened
    step_opening = elim (dec_le (length m) 4095) [
      | yes h ↦
          let e = first_header_short (length m) h in
          let r =
            make_frame-Brings cs cr.address there (16 + length m / 256)
              (length m % 256 ∷ take head_size m) (head_fits short_head e) in
          with_frame r.0 (framed_as short_head r.0 e r.1) (receive_short t r.0 h r.2)
      | no h ↦
          let big : 4095 < length m = omega arith in
          let e = first_header_long (length m) big in
          let r =
            make_frame-Brings cs cr.address there 16
              (0
                ∷ length m / 16777216 % 256
                ∷ length m / 65536 % 256
                ∷ length m / 256 % 256
                ∷ length m % 256
                ∷ take head_size m)
              (head_fits long_head e) in
          with_frame r.0 (framed_as long_head r.0 e r.1) (receive_long t r.0 big r.2)
    ]
