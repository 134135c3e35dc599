-- ===== src/Sim/UdsServer/Session.antt =====
-- The services of UdsServer::handle() that move between sessions: 0x10, 0x11, 0x3E and 0x28.
use canforge.Base.{
  ℕ, ◌+◌, ◌%◌, ◌^◌, false, not, ltb, ◌==◌, if◌then◌else◌, ◌||◌, List, [], ◌∷◌, ◌++◌, length,
}
use canforge.Sim.UdsServer.{
  UdsServer, Handled, SessionType, is_default, session_of, push_be, negative, positive, suppress_of,
  sub_of,
}

unfoldable pub session_control : UdsServer → List ℕ → Handled
session_control s request =
    let sub = sub_of request in
    if ltb (length request) 2
    then (s, negative 0x10 0x13)
    else if ltb sub 1 || ltb 4 sub
    then (s, negative 0x10 0x12)
    else (
      record s {
        session = session_of sub;
        unlocked = if is_default (session_of sub) then false else s.unlocked;
      },
      positive 0x10 (suppress_of request) (sub ∷ push_be 50 2 ++ push_be 500 2),
    )

unfoldable pub ecu_reset : UdsServer → List ℕ → Handled
ecu_reset s request =
    let sub = sub_of request in
    if ltb (length request) 2
    then (s, negative 0x11 0x13)
    else if ltb sub 1 || ltb 5 sub
    then (s, negative 0x11 0x12)
    else (
      record s { session = SessionType.default; unlocked = false; download_active = false },
      positive 0x11 (suppress_of request) (sub ∷ []),
    )

unfoldable pub tester_present : UdsServer → List ℕ → Handled
tester_present s request =
    let counted = record s { tester_present = (s.tester_present + 1) % 2 ^ 64 } in
    if ltb (length request) 2 || not (sub_of request == 0)
    then (counted, negative 0x3E 0x12)
    else (counted, positive 0x3E (suppress_of request) (0x00 ∷ []))

unfoldable pub communication_control : UdsServer → List ℕ → Handled
communication_control s request = (s, positive 0x28 (suppress_of request) (sub_of request ∷ []))
