-- ===== src/IsoTp/Exchange/Headers.antt =====
-- The protocol control information that the Sender writes is what the Receiver reads.
use canforge.Base.{
  ℕ, ◌+◌, ◌*◌, ◌/◌, ◌%◌, ◌^◌, ◌≤◌, ◌<◌, ◌≡◌, ◌∙◌, ap, bit_and, bit_or, arith, List, [], ◌∷◌, length,
}
use canforge.Base.Bits.{bit_and-low_mask, bit_or_join}
use canforge.IsoTp.Framing.{pci, low_nibble}
use canforge.IsoTp.Sender.{first_header}
use canforge.IsoTp.Receiver.{short_length, long_length}

pub pci_lem : (b : ℕ) (rest : List ℕ) → pci (b ∷ rest) ≡ b / 16 % 16
unfolding pci
pci_lem b rest = bit_and-low_mask 4 (b / 16)

pub low_nibble_lem : (b : ℕ) (rest : List ℕ) → low_nibble (b ∷ rest) ≡ b % 16
unfolding low_nibble
low_nibble_lem b rest = bit_and-low_mask 4 b

-- The first byte of a Consecutive Frame.
pub consecutive_byte : (sq : ℕ) → sq < 16 → bit_or 0x20 (bit_and sq 0x0F) ≡ 32 + sq
consecutive_byte sq h =
    let e : bit_and sq 0x0F ≡ sq = omega (arith, bit_and-low_mask 4 sq) in
    rw e (bit_or_join 4 2 sq (omega arith))

pub next_sequence : (sq : ℕ) → bit_and (sq + 1) 0x0F ≡ (sq + 1) % 16
next_sequence sq = bit_and-low_mask 4 (sq + 1)

-- The header of a First Frame in its two forms.
pub first_header_short : (n : ℕ) → n ≤ 4095 → first_header n ≡ (16 + n / 256) ∷ n % 256 ∷ []
unfolding first_header
first_header_short n h =
    let e : bit_or 0x10 (bit_and (n / 2 ^ 8) 0x0F) ≡ 16 + n / 256 =
      ap (bit_or 0x10) (bit_and-low_mask 4 (n / 256))
      ∙ bit_or_join 4 1 (n / 256 % 16) (omega arith)
      ∙ omega arith in
    ground (arith, e, bit_and-low_mask 8 n)

pub first_header_long :
    (n : ℕ)
    → 4095 < n
    → first_header n ≡ 16 ∷ 0 ∷ n / 16777216 % 256 ∷ n / 65536 % 256 ∷ n / 256 % 256 ∷ n % 256 ∷ []
unfolding first_header
first_header_long n h = ground (
  arith,
  bit_and-low_mask 8 n,
  bit_and-low_mask 8 (n / 256),
  bit_and-low_mask 8 (n / 65536),
  bit_and-low_mask 8 (n / 16777216),
)

pub short_length_lem :
    (n : ℕ) (rest : List ℕ) → n ≤ 4095 → short_length ((16 + n / 256) ∷ n % 256 ∷ rest) ≡ n
short_length_lem n rest h =
    ap (λ (t : ℕ). bit_or (t * 256) (n % 256)) (bit_and-low_mask 4 (16 + n / 256))
    ∙ bit_or_join 8 ((16 + n / 256) % 16) (n % 256) (omega arith)
    ∙ omega arith

pub long_length_lem :
    (n : ℕ) (rest : List ℕ)
    → n < 2 ^ 32
    → long_length (16 ∷ 0 ∷ n / 16777216 % 256 ∷ n / 65536 % 256 ∷ n / 256 % 256 ∷ n % 256 ∷ rest)
      ≡ n
long_length_lem n rest h =
    let a : ℕ = n / 16777216 % 256 in
    let b : ℕ = n / 65536 % 256 in
    let c : ℕ = n / 256 % 256 in
    let d : ℕ = n % 256 in
    let e1 : bit_or (a * 2 ^ 24) (b * 2 ^ 16) ≡ (a * 256 + b) * 2 ^ 16 =
      bit_or_join 24 a (b * 2 ^ 16) (omega arith) ∙ omega arith in
    let e2 : bit_or ((a * 256 + b) * 2 ^ 16) (c * 2 ^ 8) ≡ ((a * 256 + b) * 256 + c) * 2 ^ 8 =
      bit_or_join 16 (a * 256 + b) (c * 2 ^ 8) (omega arith) ∙ omega arith in
    ap (λ (t : ℕ). bit_or (bit_or t (c * 2 ^ 8)) d) e1
    ∙ ap (λ (t : ℕ). bit_or t d) e2
    ∙ bit_or_join 8 ((a * 256 + b) * 256 + c) d (omega arith)
    ∙ omega arith

pub length-first_header : (n : ℕ) → (2 ≤ length (first_header n)) × (length (first_header n) ≤ 6)
unfolding first_header
length-first_header n = ground arith
