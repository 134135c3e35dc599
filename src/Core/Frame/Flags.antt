-- ===== src/Core/Frame/Flags.antt =====
-- enum class FrameFlags of core/include/canforge/core/Frame.hpp: a set of bits.
use canforge.Base.{ℕ}

abbrev pub empty : ℕ
empty = 0

abbrev pub rtr : ℕ
rtr = 1

abbrev pub error_frame : ℕ
error_frame = 2

abbrev pub fd : ℕ
fd = 4

abbrev pub brs : ℕ
brs = 8

abbrev pub esi : ℕ
esi = 16
