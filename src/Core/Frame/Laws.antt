-- ===== src/Core/Frame/Laws.antt =====
-- What make() and from_wire() put in a frame.
use canforge.Base.{
  ℕ, ◌≤◌, ◌≡◌, true, arith, List, ◌++◌, some, take, drop, replicate, length, length-append,
  length-take, length-drop, length-replicate,
}
use canforge.Core.Result.{ok}
use canforge.Core.CanId.{CanId}
use canforge.Core.Frame.{
  BasicFrame, DlcFit, make, from_wire, size, has_flag, validate_flags, copy_over,
}
use canforge.Core.Frame.Flags
use canforge.Core.Frame.Dlc.{Fits, limit, length_to_dlc-Fits, length_to_dlc_over}
use native.Mathlib.Decide.{dec_le}

module _ (capacity : ℕ) (id : CanId) (src : List ℕ) (len flags timestamp : ℕ) where
  -- The frame that make() fills.
  abbrev filled : DlcFit → BasicFrame
  filled fit = record {
    timestamp_ns = timestamp;
    id = id;
    dlc = fit.dlc;
    flags = flags;
    bytes = copy_over (replicate capacity 0) src len;
  }

  record Made (f : BasicFrame) : Type 0 where
    pub fit : DlcFit
    pub fits : Fits len (has_flag flags Flags.fd) fit
    pub flags_hold : validate_flags capacity flags ≡ ok tt
    pub within : len ≤ capacity
    pub unpadded : fit.padding ≡ 0
    pub remote_empty : has_flag flags Flags.rtr ≡ true → len ≡ 0
    pub result : f ≡ filled fit

  make-Made : (f : BasicFrame) → make capacity id (some src) len flags timestamp ≡ ok f → Made f
  unfolding make
  make-Made f h = elim (dec_le len (limit (has_flag flags Flags.fd))) [
    | yes le ↦
        let (fit, e, fits) = length_to_dlc-Fits len (has_flag flags Flags.fd) le in
        record {
          fit = fit;
          fits = fits;
          flags_hold = ground arith;
          within = ground arith;
          unpadded = ground arith;
          remote_empty = ground arith;
          result = ground arith;
        }
    | no over ↦ ground (arith, length_to_dlc_over len (has_flag flags Flags.fd))
  ]

  -- A frame that make() returns, from at least as many bytes as it is told, holds exactly the
  -- payload: its size, its first bytes, the rest of its array zeroed; identifier, flags and
  -- timestamp are those given.
  pub make_lem :
      (f : BasicFrame)
      → make capacity id (some src) len flags timestamp ≡ ok f
      → len ≤ length src
      → (size f ≡ len)
        × (f.bytes ≡ take len src ++ drop len (replicate capacity 0))
        × (length f.bytes ≡ capacity)
        × (f.id ≡ id)
        × (f.flags ≡ flags)
        × (f.timestamp_ns ≡ timestamp)
  unfolding size
  make_lem f h enough =
      let m = make-Made f h in
      let zeros : List ℕ = replicate capacity 0 in
      let n = length-append (take len src) (drop len zeros) in
      (
        ground (arith, m.fits.encodes, m.fits.padded, m.unpadded, m.result, m.remote_empty),
        ground (arith, m.result),
        ground (
          arith,
          m.result,
          n,
          length-take len src,
          length-drop len zeros,
          length-replicate {A = ℕ} capacity 0,
          m.within,
        ),
        ground (arith, m.result),
        ground (arith, m.result),
        ground (arith, m.result),
      )

  -- from_wire() on the length code that make() chose, with the same bytes, flags and timestamp,
  -- gives the same frame.
  pub from_wire-make :
      (f : BasicFrame)
      → make capacity id (some src) len flags timestamp ≡ ok f
      → from_wire capacity id f.dlc (some src) flags timestamp ≡ ok f
  unfolding from_wire
  from_wire-make f h =
      let m = make-Made f h in
      ground (
        arith, m.fits.encodes, m.fits.padded, m.unpadded, m.result, m.flags_hold, m.within,
        m.fits.in_table,
      )
