-- ===== src/Sim/UdsServer/Flash.antt =====
-- Flash programming in UdsServer::handle(): services 0x31, 0x34, 0x36 and 0x37. A read past the
-- end of the flash, which the source does not guard, gives 0 here.
use canforge.Base.{
  ℕ, zero, suc, ◌+◌, ◌-◌, ◌/◌, ◌%◌, ◌^◌, true, false, not, ltb, ◌==◌, if◌then◌else◌, ◌||◌, bit_and,
  List, [], ◌∷◌, ◌++◌, map, take, drop, get_or, length,
}
use canforge.Sim.UdsServer.{
  UdsServer, Handled, is_programming, u32, read_be, push_be, negative, positive, suppress_of,
  sub_of,
}

-- 0x78: the request is received, the response `real` follows at `until`, after `left` more of these.
abbrev defer : UdsServer → ℕ → List ℕ → ℕ → ℕ → Handled
defer s service real until left = (
  record s {
    deferred_response = real;
    deferred_service = service;
    deferred_until_ns = until;
    pending_left = left;
  },
  negative service 0x78,
)

-- The routine 0xFF00.
unfoldable pub erase_memory : UdsServer → List ℕ → List ℕ → ℕ → Handled
erase_memory s request body now =
    let erased = record s { flash = map (λ b. 0xFF) s.flash } in
    if not s.unlocked
    then (s, negative 0x31 0x33)
    else if not (s.config.erase_duration_ns == 0)
    then defer erased 0x31 ((0x31 + 0x40) ∷ body ++ 0x00 ∷ [])
        ((now + s.config.erase_duration_ns) % 2 ^ 64) 1
    else (erased, positive 0x31 (suppress_of request) (body ++ 0x00 ∷ []))

-- The sum of the first `count` bytes.
unfoldable pub flash_sum : List ℕ → ℕ → ℕ
flash_sum flash zero = 0
flash_sum flash (suc count) =
    bit_and (u32 (flash_sum flash count + get_or flash count 0)) 0xFFFFFFFF

unfoldable pub routine_control : UdsServer → List ℕ → ℕ → Handled
routine_control s request now =
    let routine = read_be request 2 2 % 2 ^ 16 in
    let body = sub_of request ∷ push_be routine 2 in
    if ltb (length request) 4
    then (s, negative 0x31 0x13)
    else if routine == 0xFF00
    then erase_memory s request body now
    else if routine == 0xFF01
    then (
      s,
      positive 0x31 (suppress_of request)
          (body ++ push_be (flash_sum s.flash s.download_written) 4),
    )
    else (s, negative 0x31 0x31)

-- Address and size are stored before they are tested.
unfoldable pub begin_download : UdsServer → List ℕ → ℕ → ℕ → Handled
begin_download s request address size =
    let asked = record s { download_address = address; download_size = size } in
    let base = s.config.flash_base in
    if ltb address base || ltb s.config.flash_size (u32 (address - base + size))
    then (asked, negative 0x34 0x31)
    else (
      record asked {
        download_active = true;
        download_complete = false;
        download_written = 0;
        expected_block = 1;
      },
      positive 0x34 (suppress_of request) (0x20 ∷ push_be 512 2),
    )

unfoldable pub request_download : UdsServer → List ℕ → Handled
request_download s request =
    let format = get_or request 2 0 in
    let address_bytes = bit_and format 0x0F in
    let size_bytes = bit_and (format / 2 ^ 4) 0x0F in
    if ltb (length request) 4
    then (s, negative 0x34 0x13)
    else if not (is_programming s.session)
    then (s, negative 0x34 0x7F)
    else if not s.unlocked
    then (s, negative 0x34 0x33)
    else if address_bytes == 0
        || size_bytes == 0
        || ltb (length request) (3 + address_bytes + size_bytes)
    then (s, negative 0x34 0x13)
    else begin_download s request (read_be request 3 address_bytes)
        (read_be request (3 + address_bytes) size_bytes)

-- Where the next block goes, in 32 bits.
unfoldable pub write_offset : UdsServer → ℕ
write_offset s = u32 (s.download_address + (2 ^ 32 - s.config.flash_base) + s.download_written)

-- std::memcpy into the flash.
unfoldable pub write_flash : List ℕ → ℕ → List ℕ → List ℕ
write_flash flash offset bytes = take offset flash ++ bytes ++ drop (offset + length bytes) flash

-- The counter after `block`: from 0xFF it goes on with 1.
unfoldable pub next_block : ℕ → ℕ
next_block block = let next = (block + 1) % 2 ^ 8 in if next == 0 then 1 else next

-- A block that has the expected number.
unfoldable pub store_block : UdsServer → List ℕ → List ℕ → ℕ → Handled
store_block s request bytes now =
    let block = get_or request 1 0 in
    let stored = record s {
      flash = write_flash s.flash (write_offset s) bytes;
      download_written = u32 (s.download_written + u32 (length bytes));
      expected_block = next_block s.expected_block;
    } in
    if ltb (length s.flash) (write_offset s + length bytes)
    then (s, negative 0x36 0x31)
    else if not (s.config.pending_responses_per_block == 0)
    then defer stored 0x36 ((0x36 + 0x40) ∷ block ∷ []) now s.config.pending_responses_per_block
    else (stored, positive 0x36 (suppress_of request) (block ∷ []))

unfoldable pub transfer_data : UdsServer → List ℕ → ℕ → Handled
transfer_data s request now =
    let block = get_or request 1 0 in
    if not s.download_active
    then (s, negative 0x36 0x24)
    else if ltb (length request) 2
    then (s, negative 0x36 0x13)
    else if block == s.expected_block
    then store_block s request (drop 2 request) now
    else if block == (s.expected_block + 255) % 2 ^ 8
    then (s, positive 0x36 (suppress_of request) (block ∷ []))
    else (s, negative 0x36 0x73)

unfoldable pub transfer_exit : UdsServer → List ℕ → Handled
transfer_exit s request =
    if not s.download_active
    then (s, negative 0x37 0x24)
    else if not (s.download_written == s.download_size)
    then (s, negative 0x37 0x72)
    else (
      record s { download_active = false; download_complete = true },
      positive 0x37 (suppress_of request) [],
    )
