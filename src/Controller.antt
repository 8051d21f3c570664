-- ===== src/Controller.antt =====
-- What the controller may send (src/intelipump_fdc/controller): the safety gates and the queue of
-- outbound data.
pub mod Safety
pub mod Outbound
pub mod Events
pub mod Session
