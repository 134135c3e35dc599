-- ===== src/Sim/UdsServer.antt =====
-- class UdsServer of sim/include/canforge/sim/UdsServer.hpp and sim/src/UdsServer.cpp: the state,
-- and what its handlers share. Data is a list of bytes, the map of data identifiers an
-- association list, and a DTC's label is left out. Each service is a file below this one.
pub mod Session
pub mod Data
pub mod Security
pub mod Dtcs
pub mod Flash
pub mod Server
pub mod Guard
pub mod Download
pub mod Identifiers
use canforge.Base.{
  ℕ, zero, suc, ◌+◌, ◌-◌, ◌*◌, ◌/◌, ◌%◌, ◌^◌, ◌≡◌, Bool, true, false, not, ltb, leb, ◌==◌,
  if◌then◌else◌, ◌&&◌, ◌||◌, bit_and, bit_or, bit_xor, List, [], ◌∷◌, ◌++◌, replicate, get_or,
  length,
}
use canforge.IsoTp.Config
use canforge.IsoTp.Sender
use canforge.IsoTp.Receiver

-- enum class SessionType
pub data SessionType : Type 0 where
  default programming extended_diagnostic safety_system_diagnostic : SessionType

abbrev pub is_default : SessionType → Bool
is_default SessionType.default = true
is_default _ = false

abbrev pub is_programming : SessionType → Bool
is_programming SessionType.programming = true
is_programming _ = false

-- static_cast<SessionType>(sub), for the codes 1 to 4.
unfoldable pub session_of : ℕ → SessionType
session_of sub =
    if sub == 1
    then SessionType.default
    else if sub == 2
    then SessionType.programming
    else if sub == 3
    then SessionType.extended_diagnostic
    else SessionType.safety_system_diagnostic

-- struct Dtc
pub record Dtc : Type 0 where
  pub code : ℕ
  pub status : ℕ

abbrev pub u32 : ℕ → ℕ
u32 n = n % 2 ^ 32

-- The loop of read_be, from the byte `at` on with `value` read so far.
unfoldable pub read_be_from : ℕ → List ℕ → ℕ → ℕ → ℕ
read_be_from value bytes at zero = value
read_be_from value bytes at (suc n) =
    read_be_from (bit_or (u32 (value * 2 ^ 8)) (get_or bytes at 0)) bytes (at + 1) n

unfoldable pub read_be : List ℕ → ℕ → ℕ → ℕ
unfolding read_be_from
read_be bytes at n = read_be_from 0 bytes at n

-- What push_be appends.
unfoldable pub push_be : ℕ → ℕ → List ℕ
push_be value zero = []
push_be value (suc bytes) = bit_and (value / 2 ^ (bytes * 8)) 0xFF ∷ push_be value bytes

unfoldable pub toy_key_from_seed : ℕ → ℕ → ℕ
toy_key_from_seed seed secret = bit_xor (bit_or (u32 (seed * 2 ^ 3)) (seed / 2 ^ 29)) secret

pub record UdsServerConfig : Type 0 where
  pub transport : Config.Config
  pub security_secret : ℕ
  pub flash_size : ℕ
  pub flash_base : ℕ
  pub pending_responses_per_block : ℕ
  pub erase_duration_ns : ℕ
  pub data_by_identifier : List (ℕ × List ℕ)
  pub dtcs : List Dtc

unfoldable pub default_server_config : Config.Config → UdsServerConfig
default_server_config transport = record {
  transport = transport;
  security_secret = 0xA5C3F00D;
  flash_size = 64 * 1024;
  flash_base = 0x08000000;
  pending_responses_per_block = 0;
  erase_duration_ns = 0;
  data_by_identifier =
      (0x0100, 0x00 ∷ 0x00 ∷ [])
      ∷ (0xF189, 0x53 ∷ 0x57 ∷ 0x2D ∷ 0x31 ∷ 0x2E ∷ 0x34 ∷ 0x2E ∷ 0x32 ∷ [])
      ∷ (0xF18A, 0x63 ∷ 0x61 ∷ 0x6E ∷ 0x66 ∷ 0x6F ∷ 0x72 ∷ 0x67 ∷ 0x65 ∷ [])
      ∷ (
        0xF190,
        0x43 ∷ 0x41 ∷ 0x4E ∷ 0x46 ∷ 0x4F ∷ 0x52 ∷ 0x47 ∷ 0x45 ∷ 0x30 ∷ 0x53 ∷ 0x49 ∷ 0x4D ∷ 0x30
            ∷ 0x30 ∷ 0x30 ∷ 0x30 ∷ 0x31 ∷ [],
      )
      ∷ [];
  dtcs =
      record { code = 0x010301; status = bit_or 0x08 0x01 }
      ∷ record { code = 0x011716; status = 0x04 }
      ∷ record { code = 0xC00A00; status = bit_or 0x08 0x80 }
      ∷ [];
}

pub record UdsServer : Type 0 where
  pub config : UdsServerConfig
  pub receiver : Receiver.Receiver
  pub sender : Sender.Sender
  pub sending : Bool
  pub session : SessionType
  pub unlocked : Bool
  pub last_seed : ℕ
  pub security_level : ℕ
  pub flash : List ℕ
  pub download_active : Bool
  pub download_complete : Bool
  pub download_address : ℕ
  pub download_size : ℕ
  pub download_written : ℕ
  pub expected_block : ℕ
  pub pending_left : ℕ
  pub deferred_response : List ℕ
  pub deferred_service : ℕ
  pub deferred_until_ns : ℕ
  pub dtcs : List Dtc
  pub handled : ℕ
  pub tester_present : ℕ

unfoldable pub new : UdsServerConfig → UdsServer
new c = record {
  config = c;
  receiver = Receiver.new c.transport;
  sender = Sender.new c.transport;
  sending = false;
  session = SessionType.default;
  unlocked = false;
  last_seed = 0;
  security_level = 0;
  flash = replicate c.flash_size 0xFF;
  download_active = false;
  download_complete = false;
  download_address = 0;
  download_size = 0;
  download_written = 0;
  expected_block = 1;
  pending_left = 0;
  deferred_response = [];
  deferred_service = 0;
  deferred_until_ns = 0;
  dtcs = c.dtcs;
  handled = 0;
  tester_present = 0;
}

-- A handler's result: the server after it, and the response, which is empty when none is sent.
abbrev pub Handled : Type 0
Handled = UdsServer × List ℕ

-- negative(), for the codes of enum class Nrc.
abbrev pub negative : ℕ → ℕ → List ℕ
negative service nrc = 0x7F ∷ service ∷ nrc ∷ []

-- The lambda `positive` of handle().
abbrev pub positive : ℕ → Bool → List ℕ → List ℕ
positive service suppress body = if suppress then [] else (service + 0x40) % 2 ^ 8 ∷ body

abbrev pub service_of : List ℕ → ℕ
service_of request = get_or request 0 0

abbrev pub has_sub_function : ℕ → Bool
has_sub_function service =
    service == 0x10
    || service == 0x11
    || service == 0x19
    || service == 0x27
    || service == 0x28
    || service == 0x31
    || service == 0x3E

-- `suppress` and `sub` of handle().
unfoldable pub suppress_of : List ℕ → Bool
suppress_of request =
    has_sub_function (service_of request)
    && leb 2 (length request)
    && not (bit_and (get_or request 1 0) 0x80 == 0)

unfoldable pub sub_of : List ℕ → ℕ
sub_of request = if leb 2 (length request) then bit_and (get_or request 1 0) 0x7F else 0
