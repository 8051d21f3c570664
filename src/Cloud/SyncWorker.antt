-- ===== src/Cloud/SyncWorker.antt =====
-- cloud/sync_worker.py: one cycle of the delivery worker over the sync queue. What mapping, encoding and
-- publishing a record gives is a parameter, by the place of the record in the batch; so are the two
-- readings of the clock at each place, and the delay of backoff.py, which is random. The stop flag and
-- the loop that sleeps between two cycles are left out.
pub mod Unlocks
mod Examples
use intelipump.Common.{
  ℕ, suc, ◌+◌, String, Bool, not, ◌&&◌, Option, some, List, [], ◌∷◌, ltb, if◌then◌else◌,
}
use intelipump.Persistence.SyncQueue.{
  SyncQueueRow, claim_batch, mark_delivered, release_stale_locks, mark_failed,
}

-- What becomes of a record: sent with a quality of service and an acknowledgement or none; an MqttError
-- with its text; a MqttNotConnectedError; any other exception, with the text that is stored.
pub data Attempt : Type 0 where
  sent : ℕ → Bool → Attempt
  mqtt_error not_connected other_error : String → Attempt

pub record SyncWorkerStats : Type 0 where
  pub delivered_total : ℕ
  pub failed_total : ℕ
  pub skipped_malformed : ℕ
  pub last_delivery_at : Option ℕ
  pub last_error : Option String

pub record WorkerConfig : Type 0 where
  pub batch_size : ℕ
  pub stale_lock_seconds : ℕ
  pub max_attempts : ℕ

-- A publication with qos > 0 that is not acknowledged is raised as an MqttError.
abbrev pub raised : Attempt → Attempt
raised (sent qos acknowledged) =
    if ltb 0 qos && not acknowledged
    then mqtt_error "publish not acknowledged"
    else sent qos acknowledged
raised other = other

abbrev pub count_delivered : ℕ → SyncWorkerStats → SyncWorkerStats
count_delivered now s = record s {
  delivered_total = s.delivered_total + 1;
  last_delivery_at = some now;
}

abbrev pub count_failed : String → SyncWorkerStats → SyncWorkerStats
count_failed error s = record s { failed_total = s.failed_total + 1; last_error = some error }

abbrev pub count_malformed : SyncWorkerStats → SyncWorkerStats
count_malformed s = record s {
  failed_total = s.failed_total + 1;
  skipped_malformed = s.skipped_malformed + 1;
}

module _ (config : WorkerConfig) (publish : ℕ → SyncQueueRow → Attempt) (backoff : ℕ → ℕ → ℕ)
    (clock later : ℕ → ℕ) where
  abbrev pub fail_record : ℕ → SyncQueueRow → String → List SyncQueueRow → List SyncQueueRow
  fail_record n r error rows =
      mark_failed r.id error (backoff n (r.attempt_count + 1)) (some config.max_attempts) (clock n)
        (later n) rows

  -- The loop over the batch, from the record at place `n`.
  unfoldable pub deliver_from :
      ℕ
      → List SyncQueueRow
      → SyncWorkerStats
      → List SyncQueueRow
      → SyncWorkerStats × List SyncQueueRow
  deliver_from n [] s rows = (s, rows)
  deliver_from n (r ∷ rest) s rows = elim (raised (publish n r)) [
    | sent qos acknowledged ↦
        deliver_from (suc n) rest (count_delivered (later n) s) (mark_delivered r.id (clock n) rows)
    | mqtt_error error ↦
        deliver_from (suc n) rest (count_failed error s) (fail_record n r error rows)
    | not_connected error ↦ (count_failed error s, fail_record n r error rows)
    | other_error error ↦ deliver_from (suc n) rest (count_malformed s) (fail_record n r error rows)
  ]

  -- `_cycle`: `now`, `stamp` and `claim_time` are the clock's readings before the loop.
  unfoldable pub cycle :
      Bool → ℕ → ℕ → ℕ → SyncWorkerStats → List SyncQueueRow → SyncWorkerStats × List SyncQueueRow
  unfolding deliver_from
  cycle is_connected now stamp claim_time s rows =
      let released = (release_stale_locks config.stale_lock_seconds now stamp rows).1 in
      let (batch, table) = claim_batch config.batch_size claim_time released in
      let done = deliver_from 0 batch s table in if not is_connected then (s, rows) else done
