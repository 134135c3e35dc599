-- ===== src/Sim/UdsServer/Security.antt =====
-- SecurityAccess of UdsServer::handle(), service 0x27.
use canforge.Base.{
  ℕ, ◌+◌, true, not, ltb, ◌==◌, if◌then◌else◌, bit_and, bit_xor, List, [], ◌∷◌, length,
}
use canforge.Sim.UdsServer.{
  UdsServer, Handled, is_default, u32, read_be, push_be, toy_key_from_seed, negative, positive,
  suppress_of, sub_of,
}

unfoldable pub request_seed : UdsServer → List ℕ → ℕ → Handled
request_seed s request now =
    let sub = sub_of request in
    let seed = if s.unlocked then 0 else bit_xor 0xC0FFEE (u32 (bit_and now 0xFFFFFF)) in
    (
      record s { security_level = sub; last_seed = seed },
      positive 0x27 (suppress_of request) (sub ∷ push_be seed 4),
    )

unfoldable pub send_key : UdsServer → List ℕ → Handled
send_key s request =
    let sub = sub_of request in
    if not (sub == s.security_level + 1)
    then (s, negative 0x27 0x24)
    else if ltb (length request) 6
    then (s, negative 0x27 0x13)
    else if not (read_be request 2 4 == toy_key_from_seed s.last_seed s.config.security_secret)
    then (s, negative 0x27 0x35)
    else (record s { unlocked = true }, positive 0x27 (suppress_of request) (sub ∷ []))

unfoldable pub security_access : UdsServer → List ℕ → ℕ → Handled
security_access s request now =
    if ltb (length request) 2
    then (s, negative 0x27 0x13)
    else if is_default s.session
    then (s, negative 0x27 0x7F)
    else if not (bit_and (sub_of request) 0x01 == 0)
    then request_seed s request now
    else send_key s request
