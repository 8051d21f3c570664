-- ===== src/Persistence.antt =====
-- What is kept in the database (src/intelipump_fdc/persistence).
pub mod Audit
pub mod SyncQueue
