-- ===== src/Core.antt =====
-- core/: what every layer above is built on.
pub mod Result
pub mod CanId
pub mod Frame
pub mod Signal
mod Tests
