-- ===== src/IsoTp.antt =====
-- isotp/: the ISO 15765-2 transport protocol, a state machine that is driven by frames and polls.
pub mod Config
pub mod Framing
pub mod Sender
pub mod Receiver
pub mod Exchange
mod Tests
