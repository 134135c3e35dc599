-- ===== src/Uds/Client/Answers.antt =====
-- What the client accepts: requests, and the Sender that carries them.
use canforge.Base.{
  ℕ, ◌+◌, ◌-◌, ◌^◌, ◌≤◌, ◌<◌, ◌≡◌, ◌⊎◌, inl, inr, refl, arith, true, false, Bool-cases, ◌==◌, ◌||◌,
  ltb, leb, some, List, length, get_or, if◌then◌else◌,
}
use canforge.Core.Result.{Result, Status, Error, ok, err, error, ErrorCode}
use canforge.IsoTp.Config.{Config, TransferResult, validate, u64, header_size}
use canforge.IsoTp.Sender
use canforge.IsoTp.Receiver
use canforge.Uds.Client.{Client, begun, begin_transfer, asked, request, busy, is_sending, is_failed}

-- A Sender with the configuration `c` that has the whole of `payload` before it.
pub record Carries (c : Config) (payload : List ℕ) (s : Sender.Sender) : Type 0 where
  pub config : s.config ≡ c
  pub bytes : s.payload ≡ payload
  pub unsent : s.offset ≡ 0
  pub going : s.result ≡ TransferResult.in_progress

begun_with : Config → List ℕ → ℕ → Sender.Sender
unfolding Sender.new
begun_with c payload now = record (Sender.new c) {
  payload = payload;
  state =
      if leb (length payload) (7 - header_size c.address)
      then Sender.State.sending_single
      else Sender.State.sending_first;
  next_send_ns = now;
}

-- A new Sender begins exactly what validate() and the length of four bytes allow.
pub begin-Carries :
    (c : Config) (payload : List ℕ) (now : ℕ) (v : Status)
    → validate c ≡ v
    → ((v ≡ ok tt)
        × (length payload < 2 ^ 32)
        × ((s : Sender.Sender) × (Sender.begin (Sender.new c) payload now ≡ ok s)
            × Carries c payload s))
      ⊎ ((e : Error) × (Sender.begin (Sender.new c) payload now ≡ err e)
          × ((v ≡ err e)
              ⊎ ((2 ^ 32 ≤ length payload) × (e ≡ error ErrorCode.frame_payload_too_large))))
unfolding Sender.begin Sender.new begun_with
begin-Carries c payload now (err e) h = inr (e, rw h refl, inl refl)
begin-Carries c payload now (ok u) h = elim (Bool-cases (ltb 0xFFFFFFFF (length payload))) [
  | inl long ↦
      inr (error ErrorCode.frame_payload_too_large, rw (h, long) refl, inr (ground arith, refl))
  | inr short ↦ inl (
    refl,
    ground arith,
    (
      begun_with c payload now,
      rw (h, short) refl,
      record { config = refl; bytes = refl; unsent = refl; going = refl },
    ),
  )
]

-- The client that waits for its Sender to be done with `payload`.
pub record Sending (c : Client) (payload : List ℕ) (now : ℕ) (d : Client) : Type 0 where
  pub state : is_sending d.state ≡ true
  pub begun : Sender.begin (Sender.new c.config.transport) payload now ≡ ok d.sender
  pub carries : Carries c.config.transport payload d.sender
  pub deadline : d.deadline_ns ≡ u64 (now + c.config.p2_ns)

-- What a request that is taken leaves: the receiver is reset, nothing is pending, and the session is
-- the same.
pub record Taken (c : Client) (payload : List ℕ) (d : Client) : Type 0 where
  pub request : d.pending_request ≡ payload
  pub service : d.requested_service ≡ get_or payload 0 0
  pub receiver : d.receiver ≡ Receiver.reset c.receiver
  pub pending : d.pending_count ≡ 0
  pub session : d.session ≡ c.session

begin_transfer-Taken :
    (c : Client) (payload : List ℕ) (now : ℕ) (r : Result Sender.Sender)
    → Taken c payload (
        begun
          (record (asked c payload) {
            sender = Sender.new c.config.transport;
            receiver = Receiver.reset c.receiver;
          })
          r
          now)
unfolding begun
begin_transfer-Taken c payload now (ok s) = record {
  request = refl;
  service = refl;
  receiver = refl;
  pending = refl;
  session = refl;
}
begin_transfer-Taken c payload now (err e) = record {
  request = refl;
  service = refl;
  receiver = refl;
  pending = refl;
  session = refl;
}

request-taken :
    (c : Client) (payload : List ℕ) (now : ℕ)
    → busy c || length payload == 0 ≡ false
    → request c payload now ≡ (begin_transfer (asked c payload) now, ok tt)
unfolding request
request-taken c payload now taken = ground (arith, taken)

request-refused :
    (c : Client) (payload : List ℕ) (now : ℕ)
    → busy c || length payload == 0 ≡ true
    → request c payload now ≡ (c, err (error ErrorCode.invalid_argument))
unfolding request
request-refused c payload now refused = ground (arith, refused)

taken_lem :
    (c : Client) (payload : List ℕ) (now : ℕ)
    → Taken c payload (begin_transfer (asked c payload) now)
unfolding begin_transfer
taken_lem c payload now =
    begin_transfer-Taken c payload now (Sender.begin (Sender.new c.config.transport) payload now)

module _ (c : Client) (payload : List ℕ) (now : ℕ) where
  sent :
      (s : Sender.Sender)
      → Sender.begin (Sender.new c.config.transport) payload now ≡ ok s
      → Carries c.config.transport payload s
      → Sending c payload now (begin_transfer (asked c payload) now)
  unfolding begin_transfer begun
  sent s e v = rw e (record { state = refl; begun = e; carries = v; deadline = refl })

  unsent :
      (e : Error)
      → Sender.begin (Sender.new c.config.transport) payload now ≡ err e
      → let d = begin_transfer (asked c payload) now in
        (is_failed d.state ≡ true) × (d.failure ≡ some e)
  unfolding begin_transfer begun
  unsent e h = rw h (refl, refl)

-- A client with a request under way, and any client given an empty payload, refuses the request
-- as an invalid argument and is left as it is. Any other accepts it, with its receiver reset, no
-- pending answer counted and its session the same. Exactly if validate() accepts its transport
-- configuration and the payload is below 2^32 bytes, it is then sending: its Sender is a new one
-- that has begun with exactly these bytes, none of them sent, and the deadline is P2 from now.
-- Otherwise it has failed with the error of validate(), or that of a payload too large.
pub request_lem :
    (c : Client) (payload : List ℕ) (now : ℕ)
    → ((busy c || length payload == 0 ≡ true)
        × (request c payload now ≡ (c, err (error ErrorCode.invalid_argument))))
      ⊎ ((busy c || length payload == 0 ≡ false)
          × ((request c payload now).1 ≡ ok tt)
          × Taken c payload (request c payload now).0
          × (((validate c.config.transport ≡ ok tt)
                × (length payload < 2 ^ 32)
                × Sending c payload now (request c payload now).0)
              ⊎ ((e : Error) × ((validate c.config.transport ≡ err e)
                    ⊎ ((2 ^ 32 ≤ length payload) × (e ≡ error ErrorCode.frame_payload_too_large)))
                  × (is_failed (request c payload now).0.state ≡ true)
                  × ((request c payload now).0.failure ≡ some e))))
request_lem c payload now = elim (Bool-cases (busy c || length payload == 0)) [
  | inl refused ↦ inl (refused, request-refused c payload now refused)
  | inr taken ↦
      let e = request-taken c payload now taken in
      let t = c.config.transport in
      inr (
        taken,
        rw e refl,
        rw e (taken_lem c payload now),
        elim (begin-Carries t payload now (validate t) refl) [
          | inl (valid, fits, (s, b, v)) ↦ inl (valid, fits, rw e (sent c payload now s b v))
          | inr (x, b, why) ↦ let f = unsent c payload now x b in inr (x, why, rw e f.0, rw e f.1)
        ],
      )
]

-- A free client takes a request of at least one byte.
pub request-Taken :
    (c : Client) (payload : List ℕ) (now : ℕ)
    → busy c ≡ false
    → 0 < length payload
    → ((request c payload now).1 ≡ ok tt) × Taken c payload (request c payload now).0
request-Taken c payload now free some_bytes =
    let e = request-taken c payload now (ground arith) in
    (rw e refl, rw e (taken_lem c payload now))

-- And its Sender is one that has begun with these bytes.
pub request-begin :
    (c : Client) (payload : List ℕ) (now : ℕ) (s : Sender.Sender)
    → busy c ≡ false
    → 0 < length payload
    → Sender.begin (Sender.new c.config.transport) payload now ≡ ok s
    → (request c payload now).0.sender ≡ s
unfolding begin_transfer begun
request-begin c payload now s free some_bytes h =
    let e = request-taken c payload now (ground arith) in rw (e, h) refl
