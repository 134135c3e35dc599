-- ===== src/Sim/UdsServer/Download.antt =====
-- A whole download against UdsServer::handle(): the blocks that a client sends, and where they end.
use canforge.Base.{
  if◌then◌else◌, leb, ℕ, zero, suc, ◌+◌, ◌-◌, ◌*◌, ◌%◌, ◌^◌, ◌≤◌, ◌<◌, ◌≡◌, refl, sym, ap, ◌∙◌,
  arith, true, false, bit_and, bit_or, ◌/◌, List, [], ◌∷◌, ◌++◌, take, drop, length, length-append,
  length-take, take-append-drop, take_exact, drop-drop,
}
use canforge.Base.Bits.{bit_or_join, bit_and-low_mask}
use mathlib.Core.List.{append_assoc, append-nil}
use canforge.Sim.UdsServer.{UdsServer, Handled, push_be, read_be, is_programming, u32}
use canforge.Sim.UdsServer.Flash.{
  transfer_data, transfer_exit, request_download, begin_download, store_block, write_flash,
  write_offset, transfer_exit, next_block,
}
use canforge.Sim.UdsServer.Server.{dispatch, handle}
use canforge.Sim.UdsServer.Guard.{serve, length-handle}

-- The block counter as a client of this server keeps it: after 255 it goes on with 1.
unfoldable pub following : ℕ → ℕ
following c = if leb 255 c then 1 else c + 1

next_block-following : (c : ℕ) → c < 256 → next_block c ≡ following c
unfolding next_block following
next_block-following c h = ground arith

following-lt : (c : ℕ) → c < 256 → following c < 256
unfolding following
following-lt c h = ground arith

-- The TransferData requests of a client that numbers its blocks from `c` on.
unfoldable pub block_requests : ℕ → ℕ → List (List ℕ) → List (List ℕ × ℕ)
block_requests c now [] = []
block_requests c now (b ∷ bs) = (0x36 ∷ c ∷ b, now) ∷ block_requests (following c) now bs

unfoldable pub joined : List (List ℕ) → List ℕ
joined [] = []
joined (b ∷ bs) = b ++ joined bs

step_place :
    (a w n : ℕ)
    → (a + w) % 2 ^ 32 + n < 2 ^ 32
    → (a + (w + n % 2 ^ 32) % 2 ^ 32) % 2 ^ 32 ≡ (a + w) % 2 ^ 32 + n
step_place a w n h = omega arith

-- The state a stored block leaves, whatever is answered.
record IsStored (s t : UdsServer) (b : List ℕ) : Type 0 where
  pub flash : t.flash ≡ write_flash s.flash (write_offset s) b
  pub written : t.download_written ≡ u32 (s.download_written + u32 (length b))
  pub number : t.expected_block ≡ next_block s.expected_block
  pub active : t.download_active ≡ s.download_active
  pub address : t.download_address ≡ s.download_address
  pub size : t.download_size ≡ s.download_size
  pub base : t.config ≡ s.config

store_block-IsStored :
    (s : UdsServer) (request b : List ℕ) (now : ℕ)
    → write_offset s + length b ≤ length s.flash
    → IsStored s (store_block s request b now).0 b
unfolding store_block
store_block-IsStored s request b now h = ground arith

handle-IsStored :
    (s : UdsServer) (c now : ℕ) (b : List ℕ)
    → s.expected_block ≡ c
    → s.download_active ≡ true
    → write_offset s + length b ≤ length s.flash
    → IsStored s (handle s (0x36 ∷ c ∷ b) now).0 b
unfolding handle dispatch transfer_data
handle-IsStored s c now b n e h = ground (arith, store_block-IsStored s (0x36 ∷ c ∷ b) b now h)

write_offset-IsStored :
    (s t : UdsServer) (b : List ℕ)
    → IsStored s t b
    → write_offset s + length b < 2 ^ 32
    → write_offset t ≡ write_offset s + length b
unfolding write_offset
write_offset-IsStored s t b r h = omega (
  arith,
  r.written,
  r.address,
  ap (λ x. x.flash_base) r.base,
  step_place (s.download_address + (2 ^ 32 - s.config.flash_base)) s.download_written (length b),
)

drop-append : (n k : ℕ) (xs ys : List ℕ) → n ≡ length xs → drop (n + k) (xs ++ ys) ≡ drop k ys
drop-append zero k [] ys e = ap (λ (i : ℕ). drop i ys) (let z : 0 + k ≡ k = omega arith in z)
drop-append zero k (x ∷ xs) ys e = absurd (omega arith)
drop-append (suc n) k [] ys e = absurd (omega arith)
drop-append (suc n) k (x ∷ xs) ys e =
    let z : suc n + k ≡ suc (n + k) = omega arith in rw z (drop-append n k xs ys (omega arith))

-- Two writes, one right after the other, are one.
write_flash-write_flash :
    (flash : List ℕ) (at : ℕ) (b c : List ℕ)
    → at + length b ≤ length flash
    → write_flash (write_flash flash at b) (at + length b) c ≡ write_flash flash at (b ++ c)
unfolding write_flash
write_flash-write_flash flash at b c h =
    let n : at + length b ≡ length (take at flash ++ b) =
      omega (arith, length-append (take at flash) b, length-take at flash) in
    let rest = drop (at + length b) flash in
    let e1 = take_exact (at + length b) (take at flash ++ b) rest n in
    let e2 = drop-append (at + length b) (length c) (take at flash ++ b) rest n in
    let e3 = drop-drop (at + length b) (length c) flash in
    let l : at + length (b ++ c) ≡ at + length b + length c = omega (arith, length-append b c) in
    rw (e1, e2, e3, l)
      (ap (λ (xs : List ℕ). xs ++ drop (at + length b + length c) flash)
        (append_assoc (take at flash) b c))

write_flash-nil : (flash : List ℕ) (at : ℕ) → write_flash flash at [] ≡ flash
unfolding write_flash
write_flash-nil flash at =
    let z : at + 0 ≡ at = omega arith in
    rw (z, append-nil (take at flash)) (take-append-drop at flash)

-- The blocks a client numbers from the expected one on are all stored, one after the other, from
-- the download's place on.
serve-block_requests :
    (s : UdsServer) (c now : ℕ) (bs : List (List ℕ))
    → c < 256
    → s.expected_block ≡ c
    → s.download_active ≡ true
    → write_offset s + length (joined bs) ≤ length s.flash
    → length s.flash < 2 ^ 32
    → s.download_written + length (joined bs) < 2 ^ 32
    → let t = serve s (block_requests c now bs) in
      (t.flash ≡ write_flash s.flash (write_offset s) (joined bs))
      × (t.download_written ≡ s.download_written + length (joined bs))
      × (t.download_active ≡ true)
      × (t.download_size ≡ s.download_size)
unfolding serve block_requests joined
serve-block_requests s c now [] small n e fit wide count =
    (sym (write_flash-nil s.flash (write_offset s)), omega arith, e, refl)
serve-block_requests s c now (b ∷ bs) small n e fit wide count =
    let l = length-append b (joined bs) in
    let r = handle-IsStored s c now b n e (omega arith) in
    let t = (handle s (0x36 ∷ c ∷ b) now).0 in
    let place = write_offset-IsStored s t b r (omega arith) in
    let size : length t.flash ≡ length s.flash = length-handle s (0x36 ∷ c ∷ b) now in
    let written : t.download_written ≡ s.download_written + length b = omega (arith, r.written) in
    let rest =
      serve-block_requests t (following c) now bs (following-lt c small)
        (r.number ∙ ap next_block n ∙ next_block-following c small) (r.active ∙ e) (omega arith)
        (omega arith) (omega arith) in
    let two = write_flash-write_flash s.flash (write_offset s) b (joined bs) (omega arith) in
    (rest.0 ∙ rw (r.flash, place) two, omega (arith, rest.1, written), rest.2, rest.3 ∙ r.size)

unfoldable pub download_request : ℕ → ℕ → List ℕ
download_request address size = 0x34 ∷ 0x00 ∷ 0x44 ∷ push_be address 4 ++ push_be size 4

-- One more byte of a big-endian word.
next_byte : (x b : ℕ) → x < 2 ^ 24 → b < 256 → bit_or (u32 (x * 2 ^ 8)) b ≡ x * 256 + b
next_byte x b hx hb =
    let z : u32 (x * 2 ^ 8) ≡ x * 2 ^ 8 = omega arith in
    rw z (omega (arith, bit_or_join 8 x b (omega arith)))

low_byte : (x : ℕ) → bit_and x 0xFF ≡ x % 256
low_byte x = bit_and-low_mask 8 x

next_of : (v x y : ℕ) → x < 2 ^ 24 → x ≡ y / 256 → bit_or (u32 (x * 256)) (bit_and y 255) ≡ y
next_of v x y h e = rw (low_byte y) (omega (arith, next_byte x (y % 256) h (omega arith)))

read_be-push_be :
    (v : ℕ)
    → v < 2 ^ 32
    → bit_or
        (u32 (
          bit_or
            (u32 (
              bit_or
                (u32 (bit_or (u32 (0 * 2 ^ 8)) (bit_and (v / 2 ^ 24) 0xFF) * 2 ^ 8))
                (bit_and (v / 2 ^ 16) 0xFF)
              * 2 ^ 8))
            (bit_and (v / 2 ^ 8) 0xFF)
          * 2 ^ 8))
        (bit_and (v / 1) 0xFF)
      ≡ v
read_be-push_be v h =
    rw
      (
        next_of v 0 (v / 2 ^ 24) (omega arith) (omega arith),
        next_of v (v / 2 ^ 24) (v / 2 ^ 16) (omega arith) (omega arith),
        next_of v (v / 2 ^ 16) (v / 2 ^ 8) (omega arith) (omega arith),
        next_of v (v / 2 ^ 8) (v / 1) (omega arith) (omega arith),
      )
      (omega arith)

read_address :
    (address size : ℕ) → address < 2 ^ 32 → read_be (download_request address size) 3 4 ≡ address
unfolding read_be push_be download_request
read_address address size h = read_be-push_be address h

read_size : (address size : ℕ) → size < 2 ^ 32 → read_be (download_request address size) 7 4 ≡ size
unfolding read_be push_be download_request
read_size address size h = read_be-push_be size h

-- The server after a request that opens a download.
begin_download-opens :
    (s : UdsServer) (request : List ℕ) (address size : ℕ)
    → s.config.flash_base ≤ address
    → address - s.config.flash_base + size ≤ s.config.flash_size
    → s.config.flash_size < 2 ^ 32
    → (begin_download s request address size).0 ≡ record s {
      download_address = address;
      download_size = size;
      download_active = true;
      download_complete = false;
      download_written = 0;
      expected_block = 1;
    }
unfolding begin_download
begin_download-opens s request address size low fit small = ground arith

-- The state in which a download may be asked for: unlocked, in the programming session, with a
-- flash of less than 2^32 bytes.
pub record IsReady (s : UdsServer) : Type 0 where
  pub key : s.unlocked ≡ true
  pub programming : is_programming s.session ≡ true
  pub length : length s.flash ≡ s.config.flash_size
  pub small : s.config.flash_size < 2 ^ 32
  pub base : s.config.flash_base < 2 ^ 32

request_download-begin :
    (s : UdsServer) (address size now : ℕ)
    → IsReady s
    → address < 2 ^ 32
    → size < 2 ^ 32
    → handle s (download_request address size) now
      ≡ begin_download s (download_request address size) address size
unfolding handle dispatch request_download download_request push_be
request_download-begin s address size now r a n =
    ground (arith, r, read_address address size a, read_size address size n)

serve-append :
    (s : UdsServer) (rs qs : List (List ℕ × ℕ)) → serve s (rs ++ qs) ≡ serve (serve s rs) qs
unfolding serve
serve-append s [] qs = refl
serve-append s (r ∷ rs) qs = serve-append (handle s r.0 r.1).0 rs qs

-- The requests of a client that writes `bs` to `address`, all at the time `now`.
unfoldable pub download_requests : ℕ → ℕ → List (List ℕ) → List (List ℕ × ℕ)
download_requests address now bs =
    ((download_request address (length (joined bs)), now) ∷ block_requests 1 now bs)
    ++ (0x37 ∷ [], now) ∷ []

exit-completes :
    (s : UdsServer) (now : ℕ)
    → s.download_active ≡ true
    → s.download_written ≡ s.download_size
    → ((handle s (0x37 ∷ []) now).0.flash ≡ s.flash)
      × ((handle s (0x37 ∷ []) now).0.download_complete ≡ true)
      × ((handle s (0x37 ∷ []) now).0.download_active ≡ false)
unfolding handle dispatch transfer_exit
exit-completes s now a e = ground arith

-- RequestDownload, any number of TransferData blocks of any sizes with counters 1, 2, ..., 255, 1,
-- and RequestTransferExit, sent to an unlocked server in the programming session for a range
-- inside its flash of less than 2^32 bytes: the flash then holds the blocks joined at that range
-- and its old bytes elsewhere, and the download is complete and closed.
pub serve-download_requests :
    (s : UdsServer) (address now : ℕ) (bs : List (List ℕ))
    → IsReady s
    → s.config.flash_base ≤ address
    → address < 2 ^ 32
    → address - s.config.flash_base + length (joined bs) ≤ s.config.flash_size
    → let t = serve s (download_requests address now bs) in
      (t.flash ≡ write_flash s.flash (address - s.config.flash_base) (joined bs))
      × (t.download_complete ≡ true)
      × (t.download_active ≡ false)
unfolding serve download_requests write_offset
serve-download_requests s address now bs r low a fit =
    let n = length (joined bs) in
    let request = download_request address n in
    let o : UdsServer = record s {
      download_address = address;
      download_size = n;
      download_active = true;
      download_complete = false;
      download_written = 0;
      expected_block = 1;
    } in
    let opened : (handle s request now).0 ≡ o =
      ap (λ (h : Handled). h.0)
        (request_download-begin s address n now r a (omega (arith, r.small)))
      ∙ begin_download-opens s request address n low fit r.small in
    let place : write_offset o ≡ address - s.config.flash_base =
      omega (arith, r.base, r.small, r.length) in
    let t = serve o (block_requests 1 now bs) in
    let blocks =
      serve-block_requests o 1 now bs (omega arith) refl refl (omega (arith, r.length))
        (omega (arith, r.small, r.length)) (omega (arith, r.small)) in
    let done = exit-completes t now blocks.2 (omega (arith, blocks.1, blocks.3)) in
    let last = (0x37 ∷ [], now) ∷ [] in
    let end : serve s (download_requests address now bs) ≡ (handle t (0x37 ∷ []) now).0 =
      ap (λ (x : UdsServer). serve x (block_requests 1 now bs ++ last)) opened
      ∙ serve-append o (block_requests 1 now bs) last in
    (
      ap (λ (x : UdsServer). x.flash) end
          ∙ done.0
          ∙ blocks.0
          ∙ ap (λ (at : ℕ). write_flash s.flash at (joined bs)) place,
      ap (λ (x : UdsServer). x.download_complete) end ∙ done.1,
      ap (λ (x : UdsServer). x.download_active) end ∙ done.2,
    )
