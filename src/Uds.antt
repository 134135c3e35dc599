-- ===== src/Uds.antt =====
-- uds/: the diagnostic client of uds/include/canforge/uds/Uds.hpp and uds/src/Uds.cpp.
pub mod Client
pub mod Requests
pub mod Wire
pub mod Dialogue
mod Tests
