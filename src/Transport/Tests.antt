-- ===== src/Transport/Tests.antt =====
-- Runs of the virtual bus on two participants.
use canforge.Base.{
  length, ◌≤◌, ℕ, ◌+◌, ◌%◌, ◌^◌, ◌≡◌, ◌⊎◌, refl, arith, true, false, none, some, List, [], ◌∷◌,
  replicate,
}
use canforge.Core.CanId
use canforge.Core.CanId.{is_extended}
use canforge.Core.Frame.{BasicFrame, is_fd, is_remote, size}
use canforge.Transport.Bus.{
  BusTiming, no_statistics, frame_timing, total_bits, classic_timing, worst_case_stuff_bits,
}
use canforge.Transport.Bus.Stuffing.{stuffed, repeating, stuffable, stuffed-frame_timing}
use canforge.Transport.VirtualBus.{VirtualBus, VirtualMedium}
use canforge.Transport.VirtualBus.Medium.{Bid, create, arbitrate, contenders, pending, advance}
use canforge.Transport.VirtualBus.Arbitration.{Leads, arbitrate-Leads}
use canforge.Transport.VirtualBus.Clock.{IsAdvanced, advance-IsAdvanced}

abbrev frame_of : ℕ → BasicFrame
frame_of id = record {
  timestamp_ns = 0;
  id = CanId.make id false;
  dlc = 8;
  flags = 0;
  bytes = replicate 64 0xAB;
}

abbrev timing : BusTiming
timing = record { nominal_bitrate = 500000; data_bitrate = 2000000 }

abbrev node : ℕ → BasicFrame → VirtualBus
node handle f = record {
  handle = handle;
  name = [];
  outbox = f ∷ [];
  inbox = [];
  filters = [];
  stats = no_statistics;
  is_open = true;
}

abbrev two_nodes : List VirtualBus
two_nodes = node 1 (frame_of 0x200) ∷ node 2 (frame_of 0x100) ∷ []

arbitrate-Leads_example :
    ((arbitrate none two_nodes ≡ none) × (contenders two_nodes ≡ 0))
    ⊎ ((b : Bid) × (arbitrate none two_nodes ≡ some b) × Leads two_nodes b)
arbitrate-Leads_example = arbitrate-Leads two_nodes

abbrev medium : VirtualMedium
medium = record (create timing (frame_of 0)) { participants = two_nodes }

pending_run : pending medium ≡ 2
unfolding pending
pending_run = refl

advance-IsAdvanced_example :
    (n : VirtualMedium) × (advance 4 medium 1000000 ≡ some n)
    × IsAdvanced ((medium.now_ns + 1000000) % 2 ^ 64) n
advance-IsAdvanced_example = advance-IsAdvanced 4 medium 1000000 (omega (arith, pending_run))

is_fd_run : is_fd (frame_of 0x200) ≡ false
unfolding is_fd
is_fd_run = refl

-- 34 bits and eight bytes.
stuffable_run : stuffable (frame_of 0x200) ≡ 98
unfolding stuffable is_extended size is_remote is_fd
stuffable_run = refl

stuffed-frame_timing_example :
    (length (stuffed (replicate 98 true)) + 13 ≤ total_bits (frame_timing (frame_of 0x200) timing))
    × (length (repeating (stuffable (frame_of 0x200))) ≡ stuffable (frame_of 0x200))
    × (length (stuffed (repeating (stuffable (frame_of 0x200)))) + 13
        ≡ total_bits (frame_timing (frame_of 0x200) timing))
stuffed-frame_timing_example =
    stuffed-frame_timing (frame_of 0x200) timing (replicate 98 true) is_fd_run
      (omega (arith, stuffable_run))

total_bits_run : total_bits (frame_timing (frame_of 0x200) timing) ≡ 135
unfolding frame_timing is_fd classic_timing is_extended is_remote size worst_case_stuff_bits
total_bits_run = refl
