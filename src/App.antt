-- ===== src/App.antt =====
-- The DART application layer (src/intelipump_fdc/protocol/dart/application): packed decimal numbers,
-- the transactions of a data payload, and their decoders.
pub mod Bcd
pub mod Splitter
pub mod Transaction
pub mod Fields
pub mod Registry
pub mod Decoder
