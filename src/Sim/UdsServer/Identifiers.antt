-- ===== src/Sim/UdsServer/Identifiers.antt =====
-- The data identifiers of the server: what is written is read back.
use canforge.Base.{
  ℕ, ◌+◌, ◌*◌, ◌/◌, ◌%◌, ◌<◌, ◌≡◌, refl, arith, false, ltb, leb, bit_and, bit_or, some, List, [],
  ◌∷◌, length,
}
use canforge.Base.Bits.{bit_or_join, bit_and-low_mask, bit_or_comm, bit_or-zero}
use canforge.Sim.UdsServer.{UdsServer, u32, read_be, push_be, suppress_of}
use canforge.Sim.UdsServer.Data.{find, assign, read_data, read_found, write_data, write_found}
use canforge.Sim.UdsServer.Server.{dispatch, handle}

find-assign :
    (entries : List (ℕ × List ℕ)) (k : ℕ) (old value : List ℕ)
    → find entries k ≡ some old
    → find (assign entries k value) k ≡ some value
unfolding find assign
find-assign [] k old value h = absurd (cc h)
find-assign (e ∷ es) k old value h = ground (arith, find-assign es k old value)

module _ (hi lo : ℕ) (high : hi < 256) (low : lo < 256) where
  identifier : (x : ℕ) (rest : List ℕ) → read_be (x ∷ hi ∷ lo ∷ rest) 1 2 ≡ hi * 256 + lo
  unfolding read_be
  identifier x rest =
      let z : bit_or 0 hi ≡ hi = omega (arith, bit_or_comm 0 hi, bit_or-zero hi) in
      let s : u32 (hi * 256) ≡ hi * 256 = omega arith in rw (z, s) (bit_or_join 8 hi lo low)

  echoed : push_be (hi * 256 + lo) 2 ≡ hi ∷ lo ∷ []
  unfolding push_be
  echoed =
      let a : bit_and ((hi * 256 + lo) / 256) 255 ≡ hi =
        omega (arith, bit_and-low_mask 8 ((hi * 256 + lo) / 256)) in
      let b : bit_and ((hi * 256 + lo) / 1) 255 ≡ lo =
        omega (arith, bit_and-low_mask 8 ((hi * 256 + lo) / 1)) in
      rw (a, b)

  write_data-known :
      (s : UdsServer) (old : List ℕ) (b : ℕ) (bytes : List ℕ)
      → find s.config.data_by_identifier (hi * 256 + lo) ≡ some old
      → hi < 0xF1
      → (write_data s (0x2E ∷ hi ∷ lo ∷ b ∷ bytes)).0.config.data_by_identifier
        ≡ assign s.config.data_by_identifier (hi * 256 + lo) (b ∷ bytes)
  unfolding write_data write_found
  write_data-known s old b bytes h scratch =
      let i = identifier 0x2E (b ∷ bytes) in
      let m : (hi * 256 + lo) % 65536 ≡ hi * 256 + lo = omega arith in
      let n : leb 0xF100 (hi * 256 + lo) ≡ false = ground arith in
      let l : ltb (length (0x2E ∷ hi ∷ lo ∷ b ∷ bytes)) 4 ≡ false = ground arith in
      rw (l, i, m, h, n) refl

  read_data-known :
      (s : UdsServer) (value : List ℕ)
      → find s.config.data_by_identifier (hi * 256 + lo) ≡ some value
      → (read_data s (0x22 ∷ hi ∷ lo ∷ [])).1 ≡ 0x62 ∷ hi ∷ lo ∷ value
  unfolding read_data read_found suppress_of
  read_data-known s value h =
      let i = identifier 0x22 [] in
      let m : (hi * 256 + lo) % 65536 ≡ hi * 256 + lo = omega arith in rw (i, m, h, echoed) refl

  -- A value of at least one byte that WriteDataByIdentifier writes to an identifier that the server
  -- has, below 0xF100, is what a ReadDataByIdentifier right after it answers.
  pub read_data-write_data :
      (s : UdsServer) (old : List ℕ) (b : ℕ) (bytes : List ℕ) (now later : ℕ)
      → find s.config.data_by_identifier (hi * 256 + lo) ≡ some old
      → hi < 0xF1
      → (handle (handle s (0x2E ∷ hi ∷ lo ∷ b ∷ bytes) now).0 (0x22 ∷ hi ∷ lo ∷ []) later).1
        ≡ 0x62 ∷ hi ∷ lo ∷ b ∷ bytes
  unfolding handle dispatch
  read_data-write_data s old b bytes now later h scratch =
      read_data-known (write_data s (0x2E ∷ hi ∷ lo ∷ b ∷ bytes)).0 (b ∷ bytes) (
        rw (write_data-known s old b bytes h scratch)
          (find-assign s.config.data_by_identifier (hi * 256 + lo) old (b ∷ bytes) h))
