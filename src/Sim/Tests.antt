-- ===== src/Sim/Tests.antt =====
-- Runs of the diagnostic server on concrete requests.
use canforge.Base.{ℕ, ◌≡◌, refl, arith, true, false, List, [], ◌∷◌, replicate, length}
use canforge.Core.CanId
use canforge.IsoTp.Config.{Config, Address, AddressingMode}
use canforge.Sim.UdsServer.{
  UdsServer, UdsServerConfig, SessionType, new, sub_of, session_of, read_be, toy_key_from_seed,
}
use canforge.Sim.UdsServer.Server.{handle, dispatch}
use canforge.Sim.UdsServer.Session.{session_control}
use canforge.Sim.UdsServer.Security.{security_access, request_seed}
use canforge.Sim.UdsServer.Flash.{write_flash}
use canforge.Sim.UdsServer.Data.{find}
use canforge.Sim.UdsServer.Identifiers.{read_data-write_data}
use canforge.Sim.UdsServer.Guard.{
  accepts_key, handle-accepts_key, serve, is_keyless, serve-is_keyless, length-handle,
}
use canforge.Sim.UdsServer.Download.{IsReady, joined, download_requests, serve-download_requests}

abbrev ecu : Address
ecu = record {
  mode = AddressingMode.normal;
  tx_id = CanId.make 0x7E8 false;
  rx_id = CanId.make 0x7E0 false;
  tx_extension = 0;
  rx_extension = 0;
}

abbrev transport : Config
transport = record {
  address = ecu;
  n_as_ns = 1000000000;
  n_ar_ns = 1000000000;
  n_bs_ns = 1000000000;
  n_cr_ns = 1000000000;
  n_br_ns = 0;
  n_cs_ns = 0;
  block_size = 0;
  st_min_raw = 0;
  wft_max = 8;
  max_receive_length = 4095;
  pad_frames = true;
  padding_byte = 0xCC;
  use_can_fd = false;
  fd_bit_rate_switch = false;
}

-- Sixteen bytes of flash.
abbrev small : UdsServerConfig
small = record {
  transport = transport;
  security_secret = 0xA5C3F00D;
  flash_size = 16;
  flash_base = 0x08000000;
  pending_responses_per_block = 0;
  erase_duration_ns = 0;
  data_by_identifier = [];
  dtcs = [];
}

-- A session, a wrong key, an erase and a block.
abbrev intruder : List (List ℕ × ℕ)
intruder =
    (0x10 ∷ 0x02 ∷ [], 1)
    ∷ (0x27 ∷ 0x01 ∷ [], 2)
    ∷ (0x27 ∷ 0x02 ∷ 0 ∷ 0 ∷ 0 ∷ 0 ∷ [], 3)
    ∷ (0x31 ∷ 0x01 ∷ 0xFF ∷ 0x00 ∷ [], 4)
    ∷ (0x36 ∷ 0x01 ∷ 0xAA ∷ [], 5)
    ∷ []

intruder_keyless : is_keyless (new small) intruder ≡ true
unfolding is_keyless new accepts_key handle dispatch session_control sub_of session_of
    security_access request_seed read_be toy_key_from_seed
intruder_keyless = refl

serve-is_keyless_example :
    ((serve (new small) intruder).flash ≡ replicate 16 0xFF)
    × ((serve (new small) intruder).unlocked ≡ false)
serve-is_keyless_example = serve-is_keyless small intruder intruder_keyless

abbrev unlocked : UdsServer
unlocked = record (new small) { unlocked = true; session = SessionType.programming }

unlocked-IsReady : IsReady unlocked
unfolding new
unlocked-IsReady = record {
  key = refl;
  programming = refl;
  length = refl;
  small = omega arith;
  base = omega arith;
}

abbrev blocks : List (List ℕ)
blocks = (1 ∷ 2 ∷ 3 ∷ []) ∷ (4 ∷ 5 ∷ []) ∷ []

serve-download_requests_example :
    ((serve unlocked (download_requests 0x08000004 9 blocks)).flash
      ≡ write_flash unlocked.flash 4 (1 ∷ 2 ∷ 3 ∷ 4 ∷ 5 ∷ []))
    × ((serve unlocked (download_requests 0x08000004 9 blocks)).download_complete ≡ true)
    × ((serve unlocked (download_requests 0x08000004 9 blocks)).download_active ≡ false)
unfolding new joined
serve-download_requests_example =
    serve-download_requests unlocked 0x08000004 9 blocks unlocked-IsReady (omega arith)
      (omega arith) (omega arith)

abbrev in_session : UdsServer
in_session = record (new small) {
  session = SessionType.programming;
  last_seed = 0;
  security_level = 1;
}

abbrev key_request : List ℕ
key_request = 0x27 ∷ 0x02 ∷ 0xA5 ∷ 0xC3 ∷ 0xF0 ∷ 0x0D ∷ []

handle-accepts_key_example :
    let t = (handle in_session key_request 3).0 in
    (t.unlocked ≡ accepts_key in_session key_request)
    × (t.flash ≡ in_session.flash)
    × (t.download_active ≡ false)
    × (t.download_address ≡ in_session.download_address)
    × (t.download_size ≡ in_session.download_size)
    × (t.download_written ≡ in_session.download_written)
    × (t.expected_block ≡ in_session.expected_block)
    × (t.download_complete ≡ in_session.download_complete)
unfolding new
handle-accepts_key_example = handle-accepts_key in_session key_request 3 refl refl

length-handle_example :
    length (handle unlocked (0x31 ∷ 0x01 ∷ 0xFF ∷ 0x00 ∷ []) 5).0.flash ≡ length unlocked.flash
length-handle_example = length-handle unlocked (0x31 ∷ 0x01 ∷ 0xFF ∷ 0x00 ∷ []) 5

abbrev scratch : UdsServer
scratch = record (new small) {
  config = record small { data_by_identifier = (0x0100, 0x00 ∷ 0x00 ∷ []) ∷ [] };
}

read_data-write_data_example :
    (handle
      (handle scratch (0x2E ∷ 0x01 ∷ 0x00 ∷ 0xAB ∷ 0xCD ∷ []) 1).0
      (0x22 ∷ 0x01 ∷ 0x00 ∷ [])
      2).1
    ≡ 0x62 ∷ 0x01 ∷ 0x00 ∷ 0xAB ∷ 0xCD ∷ []
unfolding find
read_data-write_data_example =
    read_data-write_data 0x01 0x00 (omega arith) (omega arith) scratch (0x00 ∷ 0x00 ∷ []) 0xAB
      (0xCD ∷ []) 1 2 refl (omega arith)
