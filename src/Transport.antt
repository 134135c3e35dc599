-- ===== src/Transport.antt =====
-- The transport library: frame timing, acceptance filters and the virtual bus.
pub mod Bus
pub mod Inflate
pub mod VirtualBus
mod Tests
