-- ===== src/Uds/Dialogue.antt =====
-- The answers of UdsServer::handle(), as Client::handle_message() reads them.
pub mod Served
use canforge.Base.{
  ℕ, ◌+◌, ◌<◌, ◌≡◌, sym, ap, ◌∙◌, inl, inr, Bool-cases, arith, Bool, true, false, not, refl, leb,
  ◌==◌, ◌||◌, ◌&&◌, if◌then◌else◌, List, [], ◌∷◌, length, get_or,
}
use canforge.Sim.UdsServer.{UdsServer, Handled}
use canforge.Sim.UdsServer.Session.{
  session_control, ecu_reset, tester_present, communication_control,
}
use canforge.Sim.UdsServer.Data.{read_data, write_data}
use canforge.Sim.UdsServer.Security.{security_access, request_seed, send_key}
use canforge.Sim.UdsServer.Dtcs.{clear_dtcs, read_dtcs}
use canforge.Sim.UdsServer.Flash.{
  routine_control, request_download, transfer_data, transfer_exit, erase_memory, begin_download,
  store_block,
}
use canforge.Sim.UdsServer.Server.{dispatch, handle}
use canforge.Uds.Client.{Client, handle_message, on_negative, on_positive, is_awaiting, is_complete}

-- No answer, a negative response of three bytes to the service, or a positive one.
abbrev pub answers : ℕ → List ℕ → Bool
answers service [] = true
answers service (b ∷ rest) =
    if b == 0x7F then length rest == 2 && get_or rest 0 0 == service else b == service + 0x40

-- What handling a request of `service` leaves behind: an answer to it, and nothing deferred but an
-- answer to it.
abbrev pub fit : ℕ → Handled → Bool
fit service h =
    answers service h.1
    && not h.0.sending
    && answers service h.0.deferred_response
    && (length h.0.deferred_response == 0 || h.0.deferred_service == service)

case :
    (service k : ℕ) (x y : Handled)
    → fit k x ≡ true
    → fit service y ≡ true
    → fit service (if service == k then x else y) ≡ true
case service k x y here there = elim (Bool-cases (service == k)) [
  | inl e ↦
      let same : k ≡ service = ground arith in rw e (ap (λ (n : ℕ). fit n x) (sym same) ∙ here)
  | inr e ↦ rw e there
]

module _ (s : UdsServer) (request : List ℕ) (now : ℕ) (quiet : s.sending ≡ false)
    (none_deferred : s.deferred_response ≡ []) where
  session_control-fit : fit 0x10 (session_control s request) ≡ true
  unfolding session_control
  session_control-fit = ground arith

  ecu_reset-fit : fit 0x11 (ecu_reset s request) ≡ true
  unfolding ecu_reset
  ecu_reset-fit = ground arith

  tester_present-fit : fit 0x3E (tester_present s request) ≡ true
  unfolding tester_present
  tester_present-fit = ground arith

  communication_control-fit : fit 0x28 (communication_control s request) ≡ true
  unfolding communication_control
  communication_control-fit = ground arith

  read_data-fit : fit 0x22 (read_data s request) ≡ true
  unfolding read_data
  read_data-fit = ground arith

  write_data-fit : fit 0x2E (write_data s request) ≡ true
  unfolding write_data
  write_data-fit = ground arith

  security_access-fit : fit 0x27 (security_access s request now) ≡ true
  unfolding security_access request_seed send_key
  security_access-fit = ground arith

  clear_dtcs-fit : fit 0x14 (clear_dtcs s request) ≡ true
  unfolding clear_dtcs
  clear_dtcs-fit = ground arith

  read_dtcs-fit : fit 0x19 (read_dtcs s request) ≡ true
  unfolding read_dtcs
  read_dtcs-fit = ground arith

  routine_control-fit : fit 0x31 (routine_control s request now) ≡ true
  unfolding routine_control erase_memory
  routine_control-fit = ground arith

  request_download-fit : fit 0x34 (request_download s request) ≡ true
  unfolding request_download begin_download
  request_download-fit = ground arith

  transfer_data-fit : fit 0x36 (transfer_data s request now) ≡ true
  unfolding transfer_data store_block
  transfer_data-fit = ground arith

  transfer_exit-fit : fit 0x37 (transfer_exit s request) ≡ true
  unfolding transfer_exit
  transfer_exit-fit = ground arith

  unknown : (service : ℕ) → fit service (s, 0x7F ∷ service ∷ 0x11 ∷ []) ≡ true
  unknown service = ground arith

  dispatch-fit : (service : ℕ) → fit service (dispatch service s request now) ≡ true
  unfolding dispatch
  dispatch-fit service = case service 0x10 (session_control s request) _ session_control-fit (
      case service 0x11 (ecu_reset s request) _ ecu_reset-fit (
        case service 0x3E (tester_present s request) _ tester_present-fit (
          case service 0x22 (read_data s request) _ read_data-fit (
            case service 0x2E (write_data s request) _ write_data-fit (
              case service 0x27 (security_access s request now) _ security_access-fit (
                case service 0x14 (clear_dtcs s request) _ clear_dtcs-fit (
                  case service 0x19 (read_dtcs s request) _ read_dtcs-fit (
                    case service 0x31 (routine_control s request now) _ routine_control-fit (
                      case service 0x34 (request_download s request) _ request_download-fit (
                        case service 0x36 (transfer_data s request now) _ transfer_data-fit (
                          case service 0x37 (transfer_exit s request) _ transfer_exit-fit (
                            case service 0x28 (communication_control s request) _
                              communication_control-fit (unknown service)))))))))))))

-- A server that sends and defers nothing is given a request of at least one byte.
pub handle-fit :
    (s : UdsServer) (service : ℕ) (rest : List ℕ) (now : ℕ)
    → s.sending ≡ false
    → s.deferred_response ≡ []
    → fit service (handle s (service ∷ rest) now) ≡ true
unfolding handle
handle-fit s service rest now quiet none_deferred =
    dispatch-fit s (service ∷ rest) now quiet none_deferred service

-- An answer that fits the request: the client completes, or goes on waiting.
pub understood :
    (c : Client) (message : List ℕ) (now : ℕ)
    → answers c.requested_service message ≡ true
    → 0 < length message
    → is_awaiting c.state ≡ true
    → c.config.max_response_pending == 0 || leb (c.pending_count + 1) c.config.max_response_pending
      ≡ true
    → let d = handle_message c message now in
      is_complete d.state || is_awaiting d.state && get_or message 2 0 == 0x78 ≡ true
unfolding handle_message on_negative on_positive
understood c [] now a h w l = absurd (omega arith)
understood c (b ∷ rest) now a h w l = ground arith
