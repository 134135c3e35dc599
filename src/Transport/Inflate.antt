-- ===== src/Transport/Inflate.antt =====
-- transport/src/Inflate.cpp: the DEFLATE and zlib decompressor.
pub mod BitReader
pub mod Huffman
pub mod Tables
pub mod Stream
pub mod Fuel
pub mod Termination
pub mod Turns
pub mod Returns
pub mod Stored
pub mod Checksum
pub mod Kraft
mod Tests
