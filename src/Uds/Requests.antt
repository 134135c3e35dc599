-- ===== src/Uds/Requests.antt =====
-- The service requests of class Client in uds/src/Uds.cpp, and parse_dtc_list(). Enumerations are
-- their bytes; a Dtc's label is left out.
use canforge.Base.{
  ℕ, zero, suc, ◌*◌, ◌/◌, ◌%◌, ◌^◌, Bool, not, ltb, ◌==◌, if◌then◌else◌, ◌||◌, bit_and, bit_or,
  List, [], ◌∷◌, ◌++◌, drop, length,
}
use canforge.Core.Result.{Status, err, error, ErrorCode}
use canforge.Uds.Client.{Client, request}
use canforge.Sim.UdsServer.{Dtc}

-- push_be(): the loop from `bytes` down.
unfoldable pub push_be : List ℕ → ℕ → ℕ → List ℕ
push_be out value zero = out
push_be out value (suc i) = push_be (out ++ bit_and (value / 2 ^ (i * 8)) 0xFF ∷ []) value i

-- A member function: the client after it, and the status.
abbrev pub Called : Type 0
Called = Client × Status

unfoldable pub diagnostic_session_control : Client → ℕ → ℕ → Bool → Called
diagnostic_session_control c session now suppress_response =
    request c (0x10 ∷ (if suppress_response then bit_or session 0x80 else session) ∷ []) now

unfoldable pub ecu_reset : Client → ℕ → ℕ → Called
ecu_reset c type now = request c (0x11 ∷ type ∷ []) now

unfoldable pub clear_diagnostic_information : Client → ℕ → ℕ → Called
clear_diagnostic_information c group now = request c (push_be (0x14 ∷ []) group 3) now

unfoldable pub read_dtc_information : Client → ℕ → ℕ → ℕ → Called
read_dtc_information c type status_mask now = request c (0x19 ∷ type ∷ status_mask ∷ []) now

unfoldable pub read_data_by_identifier : Client → ℕ → ℕ → Called
read_data_by_identifier c did now = request c (push_be (0x22 ∷ []) did 2) now

unfoldable pub write_data_by_identifier : Client → ℕ → List ℕ → ℕ → Called
write_data_by_identifier c did value now = request c (push_be (0x2E ∷ []) did 2 ++ value) now

unfoldable pub security_access_request_seed : Client → ℕ → ℕ → Called
security_access_request_seed c level now =
    if bit_and level 0x01 == 0
    then (c, err (error ErrorCode.invalid_argument))
    else request c (0x27 ∷ level ∷ []) now

unfoldable pub security_access_send_key : Client → ℕ → List ℕ → ℕ → Called
security_access_send_key c level key now =
    if not (bit_and level 0x01 == 0)
    then (c, err (error ErrorCode.invalid_argument))
    else request c (0x27 ∷ level ∷ key) now

unfoldable pub routine_control : Client → ℕ → ℕ → List ℕ → ℕ → Called
routine_control c type routine parameters now =
    request c (push_be (0x31 ∷ type ∷ []) routine 2 ++ parameters) now

-- The payload of RequestDownload.
unfoldable pub download_payload : ℕ → ℕ → ℕ → ℕ → List ℕ
download_payload address size address_bytes size_bytes =
    push_be
      (push_be (0x34 ∷ 0x00 ∷ bit_or (size_bytes * 2 ^ 4) address_bytes % 2 ^ 8 ∷ []) address
        address_bytes)
      size size_bytes

unfoldable pub request_download : Client → ℕ → ℕ → ℕ → ℕ → ℕ → Called
request_download c address size address_bytes size_bytes now =
    if address_bytes == 0 || ltb 4 address_bytes || size_bytes == 0 || ltb 4 size_bytes
    then (c, err (error ErrorCode.invalid_argument))
    else request c (download_payload address size address_bytes size_bytes) now

unfoldable pub transfer_data : Client → ℕ → List ℕ → ℕ → Called
transfer_data c block_counter bytes now = request c (0x36 ∷ block_counter ∷ bytes) now

unfoldable pub request_transfer_exit : Client → ℕ → Called
request_transfer_exit c now = request c (0x37 ∷ []) now

unfoldable pub tester_present : Client → ℕ → Bool → Called
tester_present c now suppress_response =
    request c (0x3E ∷ (if suppress_response then 0x80 else 0x00) ∷ []) now

-- The loop of parse_dtc_list(), from one record to the next.
unfoldable pub parse_records : List ℕ → List Dtc
parse_records (a ∷ b ∷ c ∷ status ∷ rest) =
    record { code = bit_or (bit_or (a * 2 ^ 16) (b * 2 ^ 8)) c; status = status }
    ∷ parse_records rest
parse_records _ = []

unfoldable pub parse_dtc_list : List ℕ → List Dtc
unfolding parse_records
parse_dtc_list bytes = if ltb (length bytes) 2 then [] else parse_records (drop 2 bytes)
