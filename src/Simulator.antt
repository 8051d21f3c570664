-- ===== src/Simulator.antt =====
-- The virtual dispenser (src/intelipump_fdc/simulator).
pub mod Encoding
pub mod Config
