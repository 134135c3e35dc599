-- ===== src/Transport/VirtualBus.antt =====
-- transport/include/canforge/transport/VirtualBus.hpp and transport/src/VirtualBus.cpp: the medium
-- with its virtual clock, and its participants in the order they attached. The medium keeps the
-- participants' state here; a participant's address is its `handle`, a number.
pub mod Medium
pub mod Arbitration
pub mod Clock
use canforge.Base.{ℕ, ◌+◌, ◌%◌, ◌^◌, ◌≡◌, Bool, true, false, Option, none, some, List, [], ◌∷◌}
use canforge.Core.CanId.{CanId}
use canforge.Core.Frame.{BasicFrame}
use canforge.Transport.Bus.{BusTiming, Filter, BusStatistics}

-- struct ArbitrationEvent
pub record ArbitrationEvent : Type 0 where
  pub at_ns : ℕ
  pub winner : CanId
  pub winner_name : List ℕ
  pub losers : List CanId

pub record VirtualBus : Type 0 where
  pub handle : ℕ
  pub name : List ℕ
  pub outbox : List BasicFrame
  pub inbox : List BasicFrame
  pub filters : List Filter
  pub stats : BusStatistics
  pub is_open : Bool

pub record VirtualMedium : Type 0 where
  pub timing : BusTiming
  pub now_ns : ℕ
  pub busy_until_ns : ℕ
  pub loopback : Bool
  pub in_flight : Bool
  pub current : BasicFrame
  pub current_sender : Option ℕ
  pub rx_limit : ℕ
  pub tx_limit : ℕ
  pub participants : List VirtualBus
  pub arbitration_log : List ArbitrationEvent

-- uint64_t arithmetic.
abbrev pub u64 : ℕ → ℕ
u64 n = n % 2 ^ 64
