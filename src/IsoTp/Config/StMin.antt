-- ===== src/IsoTp/Config/StMin.antt =====
-- The separation time: its one-byte encoding against nanoseconds.
use canforge.Base.{ℕ, ◌+◌, ◌*◌, ◌/◌, ◌^◌, ◌≤◌, ◌<◌, ◌≡◌, leb, ltb, if◌then◌else◌, arith, ◌⊎◌}
use canforge.IsoTp.Config.{st_min_to_ns, ns_to_st_min}

-- The codes that ISO 15765-2 gives a meaning.
abbrev IsDefined : ℕ → Type 0
IsDefined raw = (raw ≤ 0x7F) ⊎ ((0xF1 ≤ raw) × (raw ≤ 0xF9))

-- Every defined code survives decoding and encoding.
pub ns_to_st_min-st_min_to_ns : (raw : ℕ) → IsDefined raw → ns_to_st_min (st_min_to_ns raw) ≡ raw
unfolding ns_to_st_min st_min_to_ns
ns_to_st_min-st_min_to_ns raw h = ground arith

-- What a request of less than 2^63 ns becomes: up to 900 us it is rounded up to the next 100 us,
-- from there to 1 ms it is cut to 900 us, from 1 ms on it is rounded up to the next millisecond,
-- and above 127 ms it is cut to 127 ms.
pub st_min_to_ns-ns_to_st_min :
    (ns : ℕ)
    → ns < 2 ^ 63
    → st_min_to_ns (ns_to_st_min ns) ≡ (
        if leb ns 900000
        then (ns + 99999) / 100000 * 100000
        else if ltb ns 1000000
        then 900000
        else if leb ns 127000000
        then (ns + 999999) / 1000000 * 1000000
        else 127000000)
unfolding ns_to_st_min st_min_to_ns
st_min_to_ns-ns_to_st_min ns h = ground arith
