-- ===== src/Uds/Wire.antt =====
-- The client's requests as UdsServer reads them, and the server's answers as the client reads them.
use canforge.Base.{
  ℕ, zero, suc, ◌+◌, ◌*◌, ◌/◌, ◌%◌, ◌^◌, ◌≤◌, ◌<◌, ◌≡◌, inl, inr, refl, sym, ap, ◌∙◌, arith,
  Bool-cases, some, true, false, ◌==◌, if◌then◌else◌, List, [], ◌∷◌, ◌++◌, length, get_or, bit_and,
  bit_or, length-append, get_or-append,
}
use canforge.Base.Bits.{bit_or_join, bit_and-low_mask}
use mathlib.Core.List.{append_assoc, append-nil}
use canforge.Sim.UdsServer
use canforge.Sim.UdsServer.{UdsServer, Handled, Dtc, read_be, read_be_from, u32, is_programming}
use canforge.Sim.UdsServer.Flash.{begin_download}
use canforge.Sim.UdsServer.Flash
use canforge.Sim.UdsServer.Dtcs.{report, read_dtcs}
use canforge.Sim.UdsServer.Server.{handle, dispatch}
use canforge.Core.Result.{ok}
use canforge.IsoTp.Config.{TransferResult, validate}
use canforge.IsoTp.Receiver
use canforge.IsoTp.Exchange.{Link, run}
use canforge.IsoTp.Exchange.Rounds.{Compatible}
use canforge.IsoTp.Exchange.Delivery.{run-begin-Delivered}
use canforge.Uds.Client.Answers.{request-Taken, request-begin}
use canforge.Uds.Client.{Client, request, busy, is_complete, handle_message, on_positive}
use canforge.Uds.Requests.{
  Called, read_dtc_information, push_be, download_payload, request_download, parse_records,
  parse_dtc_list,
}

-- What the loop appends.
push_be-append : (out : List ℕ) (v n : ℕ) → push_be out v n ≡ out ++ UdsServer.push_be v n
unfolding push_be UdsServer.push_be
push_be-append out v zero = sym (append-nil out)
push_be-append out v (suc n) =
    push_be-append (out ++ bit_and (v / 2 ^ (n * 8)) 0xFF ∷ []) v n
    ∙ append_assoc out (bit_and (v / 2 ^ (n * 8)) 0xFF ∷ []) (UdsServer.push_be v n)

read_be_from-append :
    (acc : ℕ) (xs ys : List ℕ) (k n : ℕ)
    → read_be_from acc (xs ++ ys) (length xs + k) n ≡ read_be_from acc ys k n
unfolding read_be_from
read_be_from-append acc xs ys k zero = refl
read_be_from-append acc xs ys k (suc n) =
    let z : length xs + k + 1 ≡ length xs + (k + 1) = omega arith in
    rw (get_or-append xs ys k 0, z)
      (read_be_from-append (bit_or (u32 (acc * 2 ^ 8)) (get_or ys k 0)) xs ys (k + 1) n)

-- One more byte of a big-endian word: the bytes read so far are those above it.
next_byte : (x y : ℕ) → x < 2 ^ 24 → x ≡ y / 256 → bit_or (u32 (x * 2 ^ 8)) (bit_and y 0xFF) ≡ y
next_byte x y h e =
    let z : u32 (x * 2 ^ 8) ≡ x * 2 ^ 8 = omega arith in
    rw (z, bit_and-low_mask 8 y) (omega (arith, bit_or_join 8 x (y % 256) (omega arith)))

-- A word of one to four bytes, read back from its place.
read_word :
    (v n : ℕ) (rest : List ℕ)
    → n ≤ 4
    → v < 2 ^ (8 * n)
    → read_be_from 0 (UdsServer.push_be v n ++ rest) 0 n ≡ v
unfolding read_be_from UdsServer.push_be
read_word v zero rest h lt = omega arith
read_word v (suc zero) rest h lt =
    rw (next_byte 0 (v / 1) (omega arith) (omega arith)) (omega arith)
read_word v (suc (suc zero)) rest h lt =
    rw
      (
        next_byte 0 (v / 2 ^ 8) (omega arith) (omega arith),
        next_byte (v / 2 ^ 8) (v / 1) (omega arith) (omega arith),
      )
      (omega arith)
read_word v (suc (suc (suc zero))) rest h lt =
    rw
      (
        next_byte 0 (v / 2 ^ 16) (omega arith) (omega arith),
        next_byte (v / 2 ^ 16) (v / 2 ^ 8) (omega arith) (omega arith),
        next_byte (v / 2 ^ 8) (v / 1) (omega arith) (omega arith),
      )
      (omega arith)
read_word v (suc (suc (suc (suc zero)))) rest h lt =
    rw
      (
        next_byte 0 (v / 2 ^ 24) (omega arith) (omega arith),
        next_byte (v / 2 ^ 24) (v / 2 ^ 16) (omega arith) (omega arith),
        next_byte (v / 2 ^ 16) (v / 2 ^ 8) (omega arith) (omega arith),
        next_byte (v / 2 ^ 8) (v / 1) (omega arith) (omega arith),
      )
      (omega arith)
read_word v (suc (suc (suc (suc (suc n))))) rest h lt = absurd (omega arith)

length-push_be : (v n : ℕ) → length (UdsServer.push_be v n) ≡ n
unfolding UdsServer.push_be
length-push_be v zero = refl
length-push_be v (suc n) = ap suc (length-push_be v n)

-- The word that stands after `pre`.
read_be-push_be :
    (pre : List ℕ) (v n at : ℕ) (rest : List ℕ)
    → at ≡ length pre
    → n ≤ 4
    → v < 2 ^ (8 * n)
    → read_be (pre ++ UdsServer.push_be v n ++ rest) at n ≡ v
unfolding read_be
read_be-push_be pre v n at rest e h lt =
    let z : at ≡ length pre + 0 = omega arith in
    ap (λ (i : ℕ). read_be_from 0 (pre ++ UdsServer.push_be v n ++ rest) i n) z
    ∙ ap (λ (xs : List ℕ). read_be_from 0 xs (length pre + 0) n)
        (append_assoc pre (UdsServer.push_be v n) rest)
    ∙ read_be_from-append 0 pre (UdsServer.push_be v n ++ rest) 0 n
    ∙ read_word v n rest h lt

-- The server's guards, and the fields it reads.
opens :
    (s : UdsServer) (request : List ℕ) (a z : ℕ)
    → is_programming s.session ≡ true
    → s.unlocked ≡ true
    → bit_and (get_or request 2 0) 0x0F ≡ a
    → bit_and (get_or request 2 0 / 2 ^ 4) 0x0F ≡ z
    → 1 ≤ a
    → 1 ≤ z
    → length request ≡ 3 + a + z
    → Flash.request_download s request
      ≡ begin_download s request (read_be request 3 a) (read_be request (3 + a) z)
unfolding Flash.request_download
opens s request a z p u ea ez la lz n = rw (ea, ez) (ground arith)

module _ (address size address_bytes size_bytes : ℕ) (la : 1 ≤ address_bytes)
    (ha : address_bytes ≤ 4) (ls : 1 ≤ size_bytes) (hs : size_bytes ≤ 4) where
  abbrev format : ℕ
  format = bit_or (size_bytes * 2 ^ 4) address_bytes % 2 ^ 8

  format_lem : format ≡ size_bytes * 16 + address_bytes
  format_lem = omega (arith, bit_or_join 4 size_bytes address_bytes (omega arith))

  abbrev head : List ℕ
  head = 0x34 ∷ 0x00 ∷ format ∷ []

  payload_lem :
      download_payload address size address_bytes size_bytes
      ≡ head ++ UdsServer.push_be address address_bytes ++ UdsServer.push_be size size_bytes
  unfolding download_payload
  payload_lem =
      push_be-append (push_be head address address_bytes) size size_bytes
      ∙ ap (λ (xs : List ℕ). xs ++ UdsServer.push_be size size_bytes)
          (push_be-append head address address_bytes)

  abbrev payload : List ℕ
  payload = head ++ UdsServer.push_be address address_bytes ++ UdsServer.push_be size size_bytes

  payload-address : address < 2 ^ (8 * address_bytes) → read_be payload 3 address_bytes ≡ address
  payload-address h =
      read_be-push_be head address address_bytes 3 (UdsServer.push_be size size_bytes) refl ha h

  payload-size : size < 2 ^ (8 * size_bytes) → read_be payload (3 + address_bytes) size_bytes ≡ size
  payload-size h =
      let pre = head ++ UdsServer.push_be address address_bytes in
      let n : 3 + address_bytes ≡ length pre = omega (
        arith,
        length-append head (UdsServer.push_be address address_bytes),
        length-push_be address address_bytes,
      ) in
      ap (λ (xs : List ℕ). read_be xs (3 + address_bytes) size_bytes) (sym (append-nil payload))
      ∙ read_be-push_be pre size size_bytes (3 + address_bytes) [] n hs h

  length-payload : length payload ≡ 3 + address_bytes + size_bytes
  length-payload =
      let pre = head ++ UdsServer.push_be address address_bytes in
      omega (
        arith,
        length-append pre (UdsServer.push_be size size_bytes),
        length-append head (UdsServer.push_be address address_bytes),
        length-push_be address address_bytes,
        length-push_be size size_bytes,
      )

  -- What an unlocked server in the programming session makes of it.
  read_by :
      (s : UdsServer) (now : ℕ)
      → is_programming s.session ≡ true
      → s.unlocked ≡ true
      → address < 2 ^ (8 * address_bytes)
      → size < 2 ^ (8 * size_bytes)
      → handle s payload now ≡ begin_download s payload address size
  unfolding handle dispatch
  read_by s now p u h k =
      let f = format_lem in
      opens s payload address_bytes size_bytes p u (bit_and-low_mask 4 format ∙ omega arith)
        (bit_and-low_mask 4 (format / 2 ^ 4) ∙ omega arith) la ls length-payload
      ∙ rw (payload-address h, payload-size k) refl

  -- A client that has no request under way and asks for a download, with the address and the size
  -- in one to four bytes each and both in their range, takes the request, where validate() accepts
  -- its transport configuration. Its Sender, joined to the server's Receiver by a bus that loses
  -- nothing, is done after any number of rounds above 23, where the two configurations are compatible and
  -- the clock stays below 2^63: an unlocked server in the programming session then reads from the message
  -- its Receiver holds exactly that address and that size.
  pub request_download-handle :
      (c : Client) (s : UdsServer) (now later step n : ℕ)
      → busy c ≡ false
      → is_programming s.session ≡ true
      → s.unlocked ≡ true
      → address < 2 ^ (8 * address_bytes)
      → size < 2 ^ (8 * size_bytes)
      → validate c.config.transport ≡ ok tt
      → Compatible
          (download_payload address size address_bytes size_bytes)
          c.config.transport
          s.config.transport
          step
      → 23 < n
      → now + n * step < 2 ^ 63
      → let d = request_download c address size address_bytes size_bytes now in
        (d.1 ≡ ok tt)
        × ((l : Link) × (run n step now
                (record { sender = d.0.sender; receiver = Receiver.new s.config.transport })
              ≡ some l)
            × (l.receiver.result ≡ TransferResult.succeeded)
            × (handle s l.receiver.payload later
                ≡ begin_download s l.receiver.payload address size))
  unfolding request_download
  request_download-handle c s now later step n free p u h k valid fit rounds clock =
      let bytes = download_payload address size address_bytes size_bytes in
      let count : length bytes ≡ 3 + address_bytes + size_bytes =
        ap (λ (xs : List ℕ). length xs) payload_lem ∙ length-payload in
      let e : request_download c address size address_bytes size_bytes now ≡ request c bytes now =
        ground arith in
      let taken = request-Taken c bytes now free (omega (arith, count)) in
      let (sender, l, b, r, v) =
        run-begin-Delivered bytes c.config.transport s.config.transport step fit n now valid
          (omega (arith, count)) (omega (arith, count)) clock in
      let same : (request_download c address size address_bytes size_bytes now).0.sender ≡ sender =
        ap (λ (x : Called). x.0.sender) e
        ∙ request-begin c bytes now sender free (omega (arith, count)) b in
      let read : l.receiver.payload ≡ payload = v.message ∙ payload_lem in
      (
        ap (λ (x : Called). x.1) e ∙ taken.0,
        (l, rw same r, v.received, rw read (read_by s later p u h k)),
      )

-- The trouble codes with a status bit of the mask.
unfoldable pub matching : ℕ → List Dtc → List Dtc
matching mask [] = []
matching mask (d ∷ dtcs) =
    let rest = matching mask dtcs in if bit_and d.status mask == 0 then rest else d ∷ rest

abbrev pub AreCodes : List Dtc → Type 0
AreCodes [] = Unit {0}
AreCodes (d ∷ dtcs) = (d.code < 2 ^ 24) × AreCodes dtcs

-- Three bytes of a code.
code_lem :
    (v : ℕ)
    → v < 2 ^ 24
    → bit_or
        (bit_or (bit_and (v / 2 ^ 16) 0xFF * 2 ^ 16) (bit_and (v / 2 ^ 8) 0xFF * 2 ^ 8))
        (bit_and (v / 1) 0xFF)
      ≡ v
code_lem v h =
    let a = v / 2 ^ 16 % 256 in
    let b = v / 2 ^ 8 % 256 in
    let low = v / 1 % 256 in
    let high : bit_or (a * 2 ^ 16) (b * 2 ^ 8) ≡ (a * 256 + b) * 2 ^ 8 =
      omega (arith, bit_or_join 16 a (b * 2 ^ 8) (omega arith)) in
    rw
      (
        bit_and-low_mask 8 (v / 2 ^ 16),
        bit_and-low_mask 8 (v / 2 ^ 8),
        bit_and-low_mask 8 (v / 1),
        high,
      )
      (omega (arith, bit_or_join 8 (a * 256 + b) low (omega arith)))

parse_records-report :
    (mask : ℕ) (dtcs : List Dtc)
    → AreCodes dtcs
    → parse_records (report false mask dtcs) ≡ matching mask dtcs
unfolding parse_records report matching UdsServer.push_be
parse_records-report mask [] h = refl
parse_records-report mask (d ∷ dtcs) h = elim (Bool-cases (bit_and d.status mask == 0)) [
  | inl clear ↦ rw clear (parse_records-report mask dtcs h.1)
  | inr hit ↦ rw (hit, code_lem d.code h.0, parse_records-report mask dtcs h.1) refl
]

-- The server's answer to a request for the codes with a status bit of `mask`.
report_lem :
    (s : UdsServer) (mask now : ℕ)
    → (handle s (0x19 ∷ 0x02 ∷ mask ∷ []) now).1 ≡ 0x59 ∷ 0x02 ∷ 0xFF ∷ report false mask s.dtcs
unfolding handle dispatch read_dtcs UdsServer.suppress_of UdsServer.sub_of
report_lem s mask now = refl

body_lem : (records : List ℕ) → parse_dtc_list (0x02 ∷ 0xFF ∷ records) ≡ parse_records records
unfolding parse_dtc_list
body_lem records = ground arith

-- A positive response to the service that was asked for.
positive_answer :
    (e : Client) (service : ℕ) (body : List ℕ) (now : ℕ)
    → e.requested_service ≡ service
    → service < 0x3F
    → let d = handle_message e ((service + 0x40) ∷ body) now in
      (is_complete d.state ≡ true) × (d.response.positive ≡ true) × (d.response.body ≡ body)
unfolding handle_message on_positive
positive_answer e service body now asks low = ground (arith, asks)

-- The client's read_dtc_information(ReportDtcByStatusMask) and the server's answer to it: the client
-- that awaits the answer completes with a positive response, and parse_dtc_list() of its data gives
-- exactly the server's trouble codes that have a status bit of the mask, in their order, where all
-- of them are 24-bit numbers.
pub read_dtc_information-handle :
    (c e : Client) (s : UdsServer) (mask now later last : ℕ)
    → AreCodes s.dtcs
    → busy c ≡ false
    → e.requested_service ≡ (read_dtc_information c 0x02 mask now).0.requested_service
    → let d = (read_dtc_information c 0x02 mask now).0 in
      let answered = handle_message e (handle s d.pending_request later).1 last in
      (is_complete answered.state ≡ true)
      × (answered.response.positive ≡ true)
      × (parse_dtc_list answered.response.body ≡ matching mask s.dtcs)
unfolding read_dtc_information
read_dtc_information-handle c e s mask now later last codes free asks =
    let sent = request-Taken c (0x19 ∷ 0x02 ∷ mask ∷ []) now free (omega arith) in
    let body = 0x02 ∷ 0xFF ∷ report false mask s.dtcs in
    let heard = positive_answer e 0x19 body last (asks ∙ sent.1.service) (omega arith) in
    let message : (handle s (request c (0x19 ∷ 0x02 ∷ mask ∷ []) now).0.pending_request later).1
        ≡ 0x59 ∷ body =
      ap (λ (p : List ℕ). (handle s p later).1) sent.1.request ∙ report_lem s mask later in
    rw message (
      heard.0,
      heard.1,
      ap parse_dtc_list heard.2
          ∙ body_lem (report false mask s.dtcs)
          ∙ parse_records-report mask s.dtcs codes,
    )
