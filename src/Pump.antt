-- ===== src/Pump.antt =====
-- The pump's normalized states and what moves between them (src/intelipump_fdc/domain and
-- src/intelipump_fdc/state_machine).
pub mod State
pub mod Transitions
pub mod Context
pub mod Machine
pub mod Guards
pub mod Reconcile
pub mod Wayne
