-- ===== src/Sim/UdsServer/Server.antt =====
-- UdsServer::handle(), on_frame() and poll(). A clock reading is an argument of each call. poll()
-- gives `none` where the program would abort.
use canforge.Base.{
  ℕ, ◌+◌, ◌-◌, ◌%◌, ◌^◌, Bool, true, false, not, ltb, leb, ◌==◌, if◌then◌else◌, ◌&&◌, Option, some,
  List, [], ◌∷◌, ◌++◌,
}
use canforge.Sim.UdsServer.{UdsServer, Handled, Dtc, negative}
use mathlib.Core.Option
use canforge.Core.Result.{Result, ok, err}
use canforge.Core.Frame.{BasicFrame}
use canforge.IsoTp.Sender
use canforge.IsoTp.Sender.{Sender}
use canforge.IsoTp.Receiver
use canforge.IsoTp.Receiver.{Receiver}
use canforge.IsoTp.Config.{TransferResult}
use canforge.Sim.UdsServer.Session.{
  session_control, ecu_reset, tester_present, communication_control,
}
use canforge.Sim.UdsServer.Data.{read_data, write_data}
use canforge.Sim.UdsServer.Security.{security_access}
use canforge.Sim.UdsServer.Dtcs.{clear_dtcs, read_dtcs}
use canforge.Sim.UdsServer.Flash.{routine_control, request_download, transfer_data, transfer_exit}

-- The switch of handle(), by the service's code.
unfoldable pub dispatch : ℕ → UdsServer → List ℕ → ℕ → Handled
dispatch service s request now =
    if service == 0x10
    then session_control s request
    else if service == 0x11
    then ecu_reset s request
    else if service == 0x3E
    then tester_present s request
    else if service == 0x22
    then read_data s request
    else if service == 0x2E
    then write_data s request
    else if service == 0x27
    then security_access s request now
    else if service == 0x14
    then clear_dtcs s request
    else if service == 0x19
    then read_dtcs s request
    else if service == 0x31
    then routine_control s request now
    else if service == 0x34
    then request_download s request
    else if service == 0x36
    then transfer_data s request now
    else if service == 0x37
    then transfer_exit s request
    else if service == 0x28
    then communication_control s request
    else (s, negative service 0x11)

unfoldable pub handle : UdsServer → List ℕ → ℕ → Handled
handle s [] now = (s, [])
handle s (service ∷ rest) now = dispatch service s (service ∷ rest) now

-- The server once its sender has been given a response: `begin` may refuse it.
started : UdsServer → Sender → Result Sender → UdsServer
started s fresh (ok sender) = record s { sender = sender; sending = true }
started s fresh (err e) = record s { sender = fresh }

-- A fresh sender begins the response.
unfoldable pub respond : UdsServer → List ℕ → ℕ → UdsServer
unfolding started
respond s response now =
    let fresh = Sender.new s.config.transport in started s fresh (Sender.begin fresh response now)

unfoldable pub answered : Handled → ℕ → UdsServer
answered (s, []) now = s
answered (s, b ∷ response) now = respond s (b ∷ response) now

is_succeeded : TransferResult → Bool
is_succeeded TransferResult.succeeded = true
is_succeeded _ = false

-- Receiver::has_message()
unfoldable pub has_message : Receiver → Bool
unfolding is_succeeded
has_message r = is_succeeded r.result

unfoldable pub on_frame : UdsServer → BasicFrame → ℕ → UdsServer
unfolding answered
on_frame s frame now =
    let receiver = Receiver.on_frame s.receiver frame now in
    if s.sending
    then record s { sender = Sender.on_frame s.sender frame now }
    else if has_message receiver
    then answered
        (handle
          (record s { receiver = Receiver.reset receiver; handled = (s.handled + 1) % 2 ^ 64 })
          receiver.payload now)
        now
    else record s { receiver = receiver }

abbrev pub Polled : Type 0
Polled = Option (UdsServer × List BasicFrame)

abbrev pub is_nil : List ℕ → Bool
is_nil [] = true
is_nil (b ∷ bytes) = false

-- The deferred response goes out when its time comes.
unfoldable pub release : UdsServer → ℕ → UdsServer
release s now =
    if not (is_nil s.deferred_response) && leb s.deferred_until_ns now && not s.sending
    then record (respond s s.deferred_response now) { deferred_response = [] }
    else s

unfoldable pub after_sending : UdsServer → Sender → UdsServer
after_sending s sender =
    if Sender.is_done sender
    then record s { sender = sender; sending = false; receiver = Receiver.reset s.receiver }
    else record s { sender = sender }

poll_released : UdsServer → ℕ → Polled
unfolding after_sending
poll_released s now =
    if s.sending
    then Option.map (λ p. (after_sending s p.0, p.1)) (Sender.poll s.sender now)
    else if ltb 0 s.pending_left && not (is_nil s.deferred_response)
    then some (
      respond (record s { pending_left = s.pending_left - 1 }) (negative s.deferred_service 0x78)
          now,
      [],
    )
    else Option.map (λ p. (record s { receiver = p.0 }, p.1)) (Receiver.poll s.receiver now)

unfoldable pub poll : UdsServer → ℕ → Polled
unfolding poll_released
poll s now = poll_released (release s now) now

-- add_dtc()
unfoldable pub add_dtc : UdsServer → Dtc → UdsServer
add_dtc s dtc = record s { dtcs = s.dtcs ++ dtc ∷ [] }
