-- ===== src/IsoTp/Framing/Transport.antt =====
-- A protocol data unit that one side frames is what the other side takes out of the frame.
use canforge.Base.{
  ℕ, ◌+◌, ◌-◌, ◌≤◌, ◌<◌, ◌≡◌, refl, sym, ap, ◌∙◌, Bool, true, false, ◌==◌, if◌then◌else◌, arith,
  bit_or, some, List, [], ◌∷◌, ◌++◌, take, drop, replicate, length, length-append, length-replicate,
  take_exact, Bool-cases, inl, inr, holds_at, holds_below, ==_iff,
}
use mathlib.Core.List.{append_assoc}
use canforge.Core.Result.{ok, value}
use canforge.Core.CanId.{CanId}
use canforge.Core.Frame.{
  BasicFrame, make, length_to_dlc, dlc_to_length, size, validate_flags, copy_over, has_flag,
}
use canforge.Core.Frame.Flags
use canforge.IsoTp.Config.{Config, Address, is_extended, header_size, FlowStatus, flow_code}
use canforge.IsoTp.Framing.{
  fd_padded_length, with_extension, buffer, frame_flags, finish_frame, make_frame,
  make_flow_control, payload_of, addressed_body,
}

fd_padded_length_small : (n : ℕ) → n ≤ 8 → fd_padded_length n ≡ n
unfolding fd_padded_length
fd_padded_length_small n h = ground arith

length_to_dlc_small :
    (n : ℕ) (fd : Bool)
    → n ≤ 8
    → length_to_dlc n fd ≡ ok (record { dlc = n; length = n; padding = 0 })
unfolding length_to_dlc
length_to_dlc_small n true h = ground arith
length_to_dlc_small n false h = ground arith

dlc_to_length_small : (n : ℕ) (fd : Bool) → n ≤ 8 → dlc_to_length n fd ≡ n
unfolding dlc_to_length holds_below
dlc_to_length_small n fd h =
    (==_iff _ n).0 (holds_at 9 (λ k. dlc_to_length k fd == k) n (table fd) (omega arith))
  where
    table : (b : Bool) → holds_below 9 (λ k. dlc_to_length k b == k) ≡ true
    table true = refl
    table false = refl

abbrev flags_of : Bool → Bool → ℕ
flags_of fd brs = if fd then if brs then bit_or Flags.fd Flags.brs else Flags.fd else Flags.empty

-- A frame of at most eight bytes is always made.
module _ (id : CanId) (bytes : List ℕ) (len : ℕ) (fits : len ≤ 8) where
  abbrev short_frame : ℕ → BasicFrame
  short_frame flags = record {
    timestamp_ns = 0;
    id = id;
    dlc = len;
    flags = flags;
    bytes = copy_over (replicate 64 0) bytes len;
  }

  make_short :
      (fd brs : Bool)
      → make 64 id (some bytes) len (flags_of fd brs) 0 ≡ ok (short_frame (flags_of fd brs))
  unfolding make has_flag validate_flags
  make_short true true = ground (arith, length_to_dlc_small len true)
  make_short true false = ground (arith, length_to_dlc_small len true)
  make_short false true = ground (arith, length_to_dlc_small len false)
  make_short false false = ground (arith, length_to_dlc_small len false)

  size-short_frame : (fd brs : Bool) → size (short_frame (flags_of fd brs)) ≡ len
  unfolding size has_flag
  size-short_frame true true = dlc_to_length_small len true fits
  size-short_frame true false = dlc_to_length_small len true fits
  size-short_frame false brs = dlc_to_length_small len false fits

same_either_way : (b : Bool) (n m : ℕ) → n ≡ m → (if b then n else m) ≡ m
same_either_way true n m e = e
same_either_way false n m e = refl

module _ (c : Config) (content : List ℕ) (len : ℕ) (short : length content ≤ len)
    (fits : len ≤ 8) where
  abbrev framed : BasicFrame
  framed = short_frame c.address.tx_id (buffer c content len) len fits (frame_flags c)

  abbrev padding_of : List ℕ
  padding_of = replicate (len - length content) c.padding_byte

  finish_frame-framed : finish_frame c content len ≡ some framed
  unfolding finish_frame
  finish_frame-framed =
      rw (same_either_way c.use_can_fd (fd_padded_length len) len (fd_padded_length_small len fits))
        (ap value (
          make_short c.address.tx_id (buffer c content len) len fits c.use_can_fd
            c.fd_bit_rate_switch))

  bytes-framed : (rest : List ℕ) × (framed.bytes ≡ (content ++ padding_of) ++ rest)
  bytes-framed =
      let zeros : List ℕ = replicate (64 - length content - (len - length content)) 0 in
      let whole : List ℕ = content ++ padding_of in
      let sized : len ≡ length whole = omega (
        arith,
        length-append content padding_of,
        length-replicate (len - length content) c.padding_byte,
      ) in
      (
        drop len (replicate 64 0),
        ap (λ (x : List ℕ). x ++ drop len (replicate 64 0))
            (ap (take len) (sym (append_assoc content padding_of zeros))
              ∙ take_exact len whole zeros sized),
      )

  payload_of-framed : payload_of framed ≡ content ++ padding_of
  payload_of-framed =
      rw
        (
          size-short_frame c.address.tx_id (buffer c content len) len fits c.use_can_fd
              c.fd_bit_rate_switch,
          bytes-framed.1,
        )
        (take_exact len (content ++ padding_of) (bytes-framed.0) (
          omega (
            arith,
            length-append content padding_of,
            length-replicate (len - length content) c.padding_byte,
          )))

-- The other side listens for what this side sends.
pub record Peers (c : Config) (a : Address) : Type 0 where
  pub same_identifier : c.address.tx_id ≡ a.rx_id
  pub same_mode : c.address.mode ≡ a.mode
  pub same_extension : c.address.tx_extension ≡ a.rx_extension

-- What the guards let through, in each addressing mode.
module _ (a : Address) (f : BasicFrame) (body : List ℕ) (same : f.id ≡ a.rx_id) where
  addressed_normal :
      is_extended a ≡ false → 0 < size f → payload_of f ≡ body → addressed_body a f ≡ some body
  unfolding addressed_body
  addressed_normal e h p =
      let q : f.id.packed ≡ a.rx_id.packed = ap (λ (i : CanId). i.packed) same in ground (arith, p)

  addressed_extended :
      (x : ℕ) (rest : List ℕ)
      → is_extended a ≡ true
      → 1 < size f
      → f.bytes ≡ a.rx_extension ∷ rest
      → payload_of f ≡ x ∷ body
      → addressed_body a f ≡ some body
  unfolding addressed_body
  addressed_extended x rest e h b p =
      let q : f.id.packed ≡ a.rx_id.packed = ap (λ (i : CanId). i.packed) same in
      ground (arith, p, b)

-- `f` brings `body` to the listener at `a`, with padding behind it up to `len` bytes in all.
pub record Brings (a : Address) (body : List ℕ) (f : BasicFrame) : Type 0 where
  pub pad : List ℕ
  pub received : addressed_body a f ≡ some (body ++ pad)
  pub short : header_size a + length body + length pad ≤ 8

module _ (c : Config) (a : Address) (peers : Peers c a) (b : ℕ) (bs : List ℕ) (content : List ℕ)
    (len : ℕ) (short : length content ≤ len) (fits : len ≤ 8) where
  abbrev body : List ℕ
  body = b ∷ bs

  size-framed : size (framed c content len short fits) ≡ len
  size-framed =
      size-short_frame c.address.tx_id (buffer c content len) len fits c.use_can_fd
        c.fd_bit_rate_switch

  framed-Brings_normal :
      is_extended a ≡ false → content ≡ body → Brings a body (framed c content len short fits)
  framed-Brings_normal e h = record {
    pad = padding_of c content len short fits;
    received =
        addressed_normal a (framed c content len short fits) _ peers.same_identifier e
          (rw size-framed (omega (arith, ap (length {A = ℕ}) h)))
          (payload_of-framed c content len short fits
            ∙ ap (λ (x : List ℕ). x ++ padding_of c content len short fits) h);
    short = rw e (
        omega
          (arith, length-replicate (len - length content) c.padding_byte, ap (length {A = ℕ}) h));
  }

  framed-Brings_extended :
      is_extended a ≡ true
      → content ≡ c.address.tx_extension ∷ body
      → Brings a body (framed c content len short fits)
  framed-Brings_extended e h =
      let padding : List ℕ = padding_of c content len short fits in
      let rest : List ℕ = (bytes-framed c content len short fits).0 in
      record {
        pad = padding;
        received =
            addressed_extended a (framed c content len short fits) (body ++ padding)
              peers.same_identifier c.address.tx_extension ((body ++ padding) ++ rest) e
              (rw size-framed (omega (arith, ap (length {A = ℕ}) h)))
              ((bytes-framed c content len short fits).1
                ∙ ap (λ (x : List ℕ). (x ++ padding) ++ rest) h
                ∙ ap (λ (x : ℕ). x ∷ ((body ++ padding) ++ rest)) peers.same_extension)
              (payload_of-framed c content len short fits ∙ ap (λ (x : List ℕ). x ++ padding) h);
        short = rw e (
            omega (
              arith,
              length-replicate (len - length content) c.padding_byte,
              ap (length {A = ℕ}) h,
            ));
      }

is_extended-Peers : (c : Config) (a : Address) → Peers c a → is_extended a ≡ is_extended c.address
is_extended-Peers c a p = rw p.same_mode

pub header_size-le : (a : Address) → header_size a ≤ 1
header_size-le a = ground arith

pub header_size-Peers :
    (c : Config) (a : Address) → Peers c a → header_size a ≡ header_size c.address
header_size-Peers c a p = rw p.same_mode

module _ (c : Config) (a : Address) (peers : Peers c a) (b : ℕ) (bs : List ℕ) where
  finish_frame-Brings :
      (len : ℕ) (short : length (with_extension c.address (b ∷ bs)) ≤ len) (fits : len ≤ 8)
      → (f : BasicFrame) × (finish_frame c (with_extension c.address (b ∷ bs)) len ≡ some f)
        × Brings a (b ∷ bs) f
  finish_frame-Brings len short fits = (
    framed c (with_extension c.address (b ∷ bs)) len short fits,
    finish_frame-framed c (with_extension c.address (b ∷ bs)) len short fits,
    elim (Bool-cases (is_extended a)) [
      | inl e ↦
          framed-Brings_extended c a peers b bs _ len short fits e
            (ground (arith, is_extended-Peers c a peers))
      | inr e ↦
          framed-Brings_normal c a peers b bs _ len short fits e
            (ground (arith, is_extended-Peers c a peers))
    ],
  )

  -- A unit of at least one byte that fits eight bytes with its address byte is framed without fail,
  -- and reaches an address that listens to this configuration unchanged, up to padding behind it.
  pub make_frame-Brings :
      header_size a + length (b ∷ bs) ≤ 8
      → (f : BasicFrame) × (make_frame c (b ∷ bs) ≡ some f) × Brings a (b ∷ bs) f
  unfolding make_frame
  make_frame-Brings h =
      let n : ℕ = length (with_extension c.address (b ∷ bs)) in
      let small : n ≤ 8 = ground (arith, is_extended-Peers c a peers) in
      finish_frame-Brings _ (ground (arith, fd_padded_length_small n small))
        (ground (arith, fd_padded_length_small n small))

-- Every Flow Control is framed without fail, and reaches an address that listens to this
-- configuration unchanged, up to padding behind it.
pub make_flow_control-Brings :
    (c : Config) (a : Address) (peers : Peers c a) (status : FlowStatus)
    → (f : BasicFrame) × (make_flow_control c status ≡ some f)
      × Brings a (bit_or 0x30 (flow_code status) ∷ c.block_size ∷ c.st_min_raw ∷ []) f
unfolding make_flow_control
make_flow_control-Brings c a peers status =
    let body : List ℕ = bit_or 0x30 (flow_code status) ∷ c.block_size ∷ c.st_min_raw ∷ [] in
    let n : ℕ = length (with_extension c.address body) in
    let small : n ≤ 8 = ground (arith, is_extended-Peers c a peers) in
    finish_frame-Brings c a peers (bit_or 0x30 (flow_code status))
      (c.block_size ∷ c.st_min_raw ∷ []) _ (ground (arith, fd_padded_length_small n small))
      (ground (arith, fd_padded_length_small n small))

-- The address that listens to a configuration.
abbrev pub mirror : Address → Address
mirror a = record {
  mode = a.mode;
  tx_id = a.rx_id;
  rx_id = a.tx_id;
  tx_extension = a.rx_extension;
  rx_extension = a.tx_extension;
}

pub mirror-Peers : (c : Config) → Peers c (mirror c.address)
mirror-Peers c = record { same_identifier = refl; same_mode = refl; same_extension = refl }
