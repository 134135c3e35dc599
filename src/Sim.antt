-- ===== src/Sim.antt =====
-- The sim library: the simulated ECU's diagnostic server.
pub mod Faults
pub mod UdsServer
mod Tests
