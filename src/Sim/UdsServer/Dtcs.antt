-- ===== src/Sim/UdsServer/Dtcs.antt =====
-- The trouble codes of UdsServer::handle(): services 0x14 and 0x19.
use canforge.Base.{
  ℕ, ◌+◌, ◌/◌, ◌%◌, ◌^◌, Bool, not, ltb, leb, ◌==◌, if◌then◌else◌, ◌&&◌, ◌||◌, bit_and, List, [],
  ◌∷◌, ◌++◌, get_or, length,
}
use canforge.Sim.UdsServer.{
  UdsServer, Handled, Dtc, read_be, push_be, negative, positive, suppress_of, sub_of,
}

-- std::remove_if and erase, with the test of 0x14.
unfoldable pub remove_group : ℕ → List Dtc → List Dtc
remove_group group [] = []
remove_group group (d ∷ dtcs) =
    let rest = remove_group group dtcs in
    if d.code / 2 ^ 16 == group / 2 ^ 16 then rest else d ∷ rest

unfoldable pub clear_dtcs : UdsServer → List ℕ → Handled
clear_dtcs s request =
    let group = read_be request 1 3 in
    if ltb (length request) 4 then (s, negative 0x14 0x13) else (
      record s { dtcs = if group == 0xFFFFFF then [] else remove_group group s.dtcs },
      positive 0x14 (suppress_of request) [],
    )

-- The number of codes that have a status bit of `mask`, in 16 bits.
unfoldable pub count_matching : ℕ → List Dtc → ℕ
count_matching mask [] = 0
count_matching mask (d ∷ dtcs) =
    let rest = count_matching mask dtcs in
    if bit_and d.status mask == 0 then rest else (rest + 1) % 2 ^ 16

-- The codes and their status, of all or of those that have a status bit of `mask`.
unfoldable pub report : Bool → ℕ → List Dtc → List ℕ
report supported mask [] = []
report supported mask (d ∷ dtcs) =
    let rest = report supported mask dtcs in
    if supported || not (bit_and d.status mask == 0)
    then push_be d.code 3 ++ d.status ∷ rest
    else rest

unfoldable pub read_dtcs : UdsServer → List ℕ → Handled
read_dtcs s request =
    let sub = sub_of request in
    let suppress = suppress_of request in
    let supported = sub == 0x0A in
    let mask =
      if supported then 0xFF else if leb 3 (length request) then get_or request 2 0 else 0xFF in
    if ltb (length request) 2
    then (s, negative 0x19 0x13)
    else if sub == 0x01 && ltb (length request) 3
    then (s, negative 0x19 0x13)
    else if sub == 0x01
    then (
      s,
      positive 0x19 suppress
          (sub ∷ 0xFF ∷ 0x01 ∷ push_be (count_matching (get_or request 2 0) s.dtcs) 2),
    )
    else if sub == 0x02 || supported
    then (s, positive 0x19 suppress (sub ∷ 0xFF ∷ report supported mask s.dtcs))
    else (s, negative 0x19 0x12)
