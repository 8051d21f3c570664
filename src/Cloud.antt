-- ===== src/Cloud.antt =====
-- What goes to the cloud (src/intelipump_fdc/cloud): the throttle of filling updates, the commands
-- that come from it and the delivery of the queue.
pub mod FillThrottle
pub mod CommandIntake
pub mod SyncWorker
