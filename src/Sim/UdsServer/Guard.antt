-- ===== src/Sim/UdsServer/Guard.antt =====
-- What guards the flash in UdsServer::handle(): the key, and the bounds of each write.
use canforge.Base.{
  ℕ, ◌+◌, ◌≤◌, ◌≡◌, ◌≢◌, ◌%◌, ◌^◌, refl, arith, Bool, true, false, not, leb, ◌==◌, ◌&&◌, bit_and,
  List, [], ◌∷◌, ◌++◌, take, drop, replicate, length, length-append, length-take, length-drop,
  length-map, Option, none, some,
}
use canforge.Sim.UdsServer.{
  UdsServer, UdsServerConfig, new, is_default, read_be, toy_key_from_seed, sub_of, service_of,
}
use canforge.Sim.UdsServer.Session.{
  session_control, ecu_reset, tester_present, communication_control,
}
use canforge.Sim.UdsServer.Data.{find, read_data, read_found, write_data, write_found}
use canforge.Sim.UdsServer.Security.{security_access, request_seed, send_key}
use canforge.Sim.UdsServer.Dtcs.{clear_dtcs, read_dtcs}
use canforge.Sim.UdsServer.Flash.{
  routine_control, erase_memory, request_download, begin_download, transfer_data, store_block,
  write_flash, write_offset, transfer_exit,
}
use canforge.Sim.UdsServer.Server.{dispatch, handle}

-- The request is a SecurityAccess that carries the key of the last seed, outside the default
-- session, at the level the seed was asked for.
unfoldable pub accepts_key : UdsServer → List ℕ → Bool
accepts_key s request =
    service_of request == 0x27
    && not (is_default s.session)
    && leb 6 (length request)
    && bit_and (sub_of request) 0x01 == 0
    && sub_of request == s.security_level + 1
    && read_be request 2 4 == toy_key_from_seed s.last_seed s.config.security_secret

-- What a request can do to a server `o` that is locked and has no download open.
record IsShut (o : UdsServer) (key : Bool) (s : UdsServer) : Type 0 where
  pub lock : s.unlocked ≡ key
  pub closed : s.download_active ≡ false
  pub kept : s.flash ≡ o.flash
  pub address : s.download_address ≡ o.download_address
  pub size : s.download_size ≡ o.download_size
  pub written : s.download_written ≡ o.download_written
  pub block : s.expected_block ≡ o.expected_block
  pub complete : s.download_complete ≡ o.download_complete

itself : (s : UdsServer) → s.unlocked ≡ false → s.download_active ≡ false → IsShut s false s
itself s locked idle = record {
  lock = locked;
  closed = idle;
  kept = refl;
  address = refl;
  size = refl;
  written = refl;
  block = refl;
  complete = refl;
}

module _ (s : UdsServer) (h : IsShut s false s) (request : List ℕ) (now : ℕ) where
  session_control-IsShut : IsShut s false (session_control s request).0
  unfolding session_control
  session_control-IsShut = ground (arith, h)

  security_access-IsShut :
      service_of request ≡ 0x27 → IsShut s (accepts_key s request) (security_access s request now).0
  unfolding security_access request_seed send_key accepts_key
  security_access-IsShut e = ground (arith, h)

  write_found-IsShut :
      (did : ℕ) (o : Option (List ℕ)) → IsShut s false (write_found s request did o).0
  unfolding write_found
  write_found-IsShut did none = h
  write_found-IsShut did (some value) = ground (arith, h)

  read_found-IsShut :
      (did : ℕ) (o : Option (List ℕ)) → IsShut s false (read_found s request did o).0
  unfolding read_found
  read_found-IsShut did none = h
  read_found-IsShut did (some value) = h

  write_data-IsShut : IsShut s false (write_data s request).0
  unfolding write_data
  write_data-IsShut =
      let did = read_be request 1 2 % 2 ^ 16 in
      ground (arith, h, write_found-IsShut did (find s.config.data_by_identifier did))

  read_data-IsShut : IsShut s false (read_data s request).0
  unfolding read_data
  read_data-IsShut =
      let did = read_be request 1 2 % 2 ^ 16 in
      ground (arith, h, read_found-IsShut did (find s.config.data_by_identifier did))

  routine_control-IsShut : IsShut s false (routine_control s request now).0
  unfolding routine_control erase_memory
  routine_control-IsShut = ground (arith, h)

  request_download-IsShut : IsShut s false (request_download s request).0
  unfolding request_download begin_download
  request_download-IsShut = ground (arith, h)

  transfer_data-IsShut : IsShut s false (transfer_data s request now).0
  unfolding transfer_data
  transfer_data-IsShut = ground (arith, h)

  transfer_exit-IsShut : IsShut s false (transfer_exit s request).0
  unfolding transfer_exit
  transfer_exit-IsShut = ground (arith, h)

  other-IsShut :
      IsShut s false (ecu_reset s request).0
      × IsShut s false (tester_present s request).0
      × IsShut s false (clear_dtcs s request).0
      × IsShut s false (read_dtcs s request).0
      × IsShut s false (communication_control s request).0
  unfolding ecu_reset tester_present clear_dtcs read_dtcs communication_control
  other-IsShut = (ground (arith, h), ground (arith, h), ground (arith, h), ground (arith, h), h)

  other_key : service_of request ≢ 0x27 → accepts_key s request ≡ false
  unfolding accepts_key
  other_key e = ground arith

  dispatch-IsShut : IsShut s (accepts_key s request) (dispatch (service_of request) s request now).0
  unfolding dispatch
  dispatch-IsShut = ground (
    arith, h, other_key, session_control-IsShut, security_access-IsShut, write_data-IsShut,
    read_data-IsShut, routine_control-IsShut, request_download-IsShut, transfer_data-IsShut,
    transfer_exit-IsShut, other-IsShut,
  )

handle-IsShut :
    (s : UdsServer) (request : List ℕ) (now : ℕ)
    → IsShut s false s
    → IsShut s (accepts_key s request) (handle s request now).0
unfolding handle accepts_key
handle-IsShut s [] now h = h
handle-IsShut s (service ∷ rest) now h = dispatch-IsShut s h (service ∷ rest) now

-- On a locked server with no download open, one request unlocks the server exactly if it is a
-- SecurityAccess with the key of the last seed. It leaves the flash as it is, no download open, and
-- the address, the size, the progress, the expected block and the completion of the last download
-- as they were.
pub handle-accepts_key :
    (s : UdsServer) (request : List ℕ) (now : ℕ)
    → s.unlocked ≡ false
    → s.download_active ≡ false
    → let t = (handle s request now).0 in
      (t.unlocked ≡ accepts_key s request)
      × (t.flash ≡ s.flash)
      × (t.download_active ≡ false)
      × (t.download_address ≡ s.download_address)
      × (t.download_size ≡ s.download_size)
      × (t.download_written ≡ s.download_written)
      × (t.expected_block ≡ s.expected_block)
      × (t.download_complete ≡ s.download_complete)
handle-accepts_key s request now locked idle =
    let r = handle-IsShut s request now (itself s locked idle) in
    (r.lock, r.kept, r.closed, r.address, r.size, r.written, r.block, r.complete)

-- The server after a sequence of requests, each with the time it comes at.
unfoldable pub serve : UdsServer → List (List ℕ × ℕ) → UdsServer
serve s [] = s
serve s (r ∷ rs) = serve (handle s r.0 r.1).0 rs

-- No request of the sequence carries the right key at its turn.
unfoldable pub is_keyless : UdsServer → List (List ℕ × ℕ) → Bool
is_keyless s [] = true
is_keyless s (r ∷ rs) =
    let rest = is_keyless (handle s r.0 r.1).0 rs in not (accepts_key s r.0) && rest

serve-IsShut :
    (s : UdsServer) (rs : List (List ℕ × ℕ))
    → IsShut s false s
    → is_keyless s rs ≡ true
    → IsShut s false (serve s rs)
unfolding serve is_keyless
serve-IsShut s [] h e = h
serve-IsShut s (r ∷ rs) h e =
    let one = handle-IsShut s r.0 r.1 h in
    ground (arith, h, one, serve-IsShut (handle s r.0 r.1).0 rs)

-- Whatever requests a new server is sent, in any number and order, if none of them carries the key
-- of the last seed then the flash is still erased at the end and the server locked.
pub serve-is_keyless :
    (c : UdsServerConfig) (rs : List (List ℕ × ℕ))
    → is_keyless (new c) rs ≡ true
    → ((serve (new c) rs).flash ≡ replicate c.flash_size 0xFF)
      × ((serve (new c) rs).unlocked ≡ false)
unfolding new
serve-is_keyless c rs e =
    let r = serve-IsShut (new c) rs (itself (new c) refl refl) e in (r.kept, r.lock)

-- The flash never changes its size, whatever the state of the server.
length-write_flash :
    (flash : List ℕ) (offset : ℕ) (bytes : List ℕ)
    → offset + length bytes ≤ length flash
    → length (write_flash flash offset bytes) ≡ length flash
unfolding write_flash
length-write_flash flash offset bytes h = ground (
  arith,
  length-append (take offset flash ++ bytes) (drop (offset + length bytes) flash),
  length-append (take offset flash) bytes,
  length-take offset flash,
  length-drop (offset + length bytes) flash,
)

module _ (s : UdsServer) (request : List ℕ) (now : ℕ) where
  length-transfer_data : length (transfer_data s request now).0.flash ≡ length s.flash
  unfolding transfer_data store_block
  length-transfer_data =
      ground (arith, length-write_flash s.flash (write_offset s) (drop 2 request))

  length-routine_control : length (routine_control s request now).0.flash ≡ length s.flash
  unfolding routine_control erase_memory
  length-routine_control = ground (arith, length-map {B = ℕ} s.flash (λ b. 0xFF))

  write_found-flash :
      (did : ℕ) (o : Option (List ℕ)) → (write_found s request did o).0.flash ≡ s.flash
  unfolding write_found
  write_found-flash did none = refl
  write_found-flash did (some value) = ground arith

  read_found-flash :
      (did : ℕ) (o : Option (List ℕ)) → (read_found s request did o).0.flash ≡ s.flash
  unfolding read_found
  read_found-flash did none = refl
  read_found-flash did (some value) = refl

  data-flash :
      ((write_data s request).0.flash ≡ s.flash) × ((read_data s request).0.flash ≡ s.flash)
  unfolding write_data read_data
  data-flash =
      let did = read_be request 1 2 % 2 ^ 16 in
      (
        ground (arith, write_found-flash did (find s.config.data_by_identifier did)),
        ground (arith, read_found-flash did (find s.config.data_by_identifier did)),
      )

  other-flash :
      ((session_control s request).0.flash ≡ s.flash)
      × ((ecu_reset s request).0.flash ≡ s.flash)
      × ((tester_present s request).0.flash ≡ s.flash)
      × ((security_access s request now).0.flash ≡ s.flash)
      × ((clear_dtcs s request).0.flash ≡ s.flash)
      × ((read_dtcs s request).0.flash ≡ s.flash)
      × ((request_download s request).0.flash ≡ s.flash)
      × ((transfer_exit s request).0.flash ≡ s.flash)
      × ((communication_control s request).0.flash ≡ s.flash)
  unfolding session_control ecu_reset tester_present security_access request_seed send_key
      clear_dtcs read_dtcs request_download begin_download transfer_exit communication_control
  other-flash = (
    ground arith,
    ground arith,
    ground arith,
    ground arith,
    ground arith,
    ground arith,
    ground arith,
    ground arith,
    refl,
  )

  length-dispatch : (service : ℕ) → length (dispatch service s request now).0.flash ≡ length s.flash
  unfolding dispatch
  length-dispatch service =
      ground (arith, length-transfer_data, length-routine_control, data-flash, other-flash)

-- No request, in whatever state it comes, makes the flash longer or shorter: a block is written
-- only where it fits as a whole.
pub length-handle :
    (s : UdsServer) (request : List ℕ) (now : ℕ)
    → length (handle s request now).0.flash ≡ length s.flash
unfolding handle
length-handle s [] now = refl
length-handle s (service ∷ rest) now = length-dispatch s (service ∷ rest) now service
