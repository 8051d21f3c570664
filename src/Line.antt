-- ===== src/Line.antt =====
-- The DART line protocol (src/intelipump_fdc/protocol/dart/line): control bytes, checksum,
-- transparency, frames and the stream assembler.
pub mod Constants
pub mod Control
pub mod Crc
pub mod Escaping
pub mod Frame
pub mod Stream
