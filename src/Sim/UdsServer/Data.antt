-- ===== src/Sim/UdsServer/Data.antt =====
-- The data identifiers of UdsServer::handle(): services 0x22 and 0x2E.
use canforge.Base.{
  ℕ, ◌%◌, ◌^◌, ltb, leb, ◌==◌, if◌then◌else◌, Option, none, some, List, [], ◌∷◌, ◌++◌, drop, length,
}
use canforge.Sim.UdsServer.{UdsServer, Handled, read_be, push_be, negative, positive, suppress_of}

-- std::map::find
unfoldable pub find : List (ℕ × List ℕ) → ℕ → Option (List ℕ)
find [] key = none
find (entry ∷ entries) key = if entry.0 == key then some entry.1 else find entries key

-- The value at a key that is there.
unfoldable pub assign : List (ℕ × List ℕ) → ℕ → List ℕ → List (ℕ × List ℕ)
assign [] key value = []
assign (entry ∷ entries) key value =
    let rest = assign entries key value in
    if entry.0 == key then (key, value) ∷ entries else entry ∷ rest

unfoldable pub read_found : UdsServer → List ℕ → ℕ → Option (List ℕ) → Handled
read_found s request did none = (s, negative 0x22 0x31)
read_found s request did (some value) =
    (s, positive 0x22 (suppress_of request) (push_be did 2 ++ value))

unfoldable pub read_data : UdsServer → List ℕ → Handled
unfolding read_found
read_data s request =
    if ltb (length request) 3
    then (s, negative 0x22 0x13)
    else let did = read_be request 1 2 % 2 ^ 16 in
      read_found s request did (find s.config.data_by_identifier did)

unfoldable pub write_found : UdsServer → List ℕ → ℕ → Option (List ℕ) → Handled
write_found s request did none = (s, negative 0x2E 0x31)
write_found s request did (some value) = if leb 0xF100 did then (s, negative 0x2E 0x33) else (
  record s {
    config = record (s.config) {
      data_by_identifier = assign s.config.data_by_identifier did (drop 3 request);
    };
  },
  positive 0x2E (suppress_of request) (push_be did 2),
)

unfoldable pub write_data : UdsServer → List ℕ → Handled
unfolding write_found
write_data s request =
    let did = read_be request 1 2 % 2 ^ 16 in
    if ltb (length request) 4
    then (s, negative 0x2E 0x13)
    else write_found s request did (find s.config.data_by_identifier did)
