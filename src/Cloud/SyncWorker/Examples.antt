-- ===== src/Cloud/SyncWorker/Examples.antt =====
-- A cycle over two items: the first is delivered, the second is not acknowledged.
use intelipump.Common.{ℕ, ◌+◌, String, ◌≡◌, refl, true, none, List, [], ◌∷◌, map, ◌==◌, All}
use intelipump.Persistence.SyncQueue.{
  pending, delivered, SyncQueueRow, NewItem, new_row, claim_batch, mark_delivered,
  release_stale_locks, mark_failed, Status,
}
use intelipump.Cloud.SyncWorker.{Attempt, sent, SyncWorkerStats, WorkerConfig, deliver_from, cycle}
use intelipump.Cloud.SyncWorker.Unlocks.{cycle-unlocks, IsFree}

abbrev item : String → NewItem
item key = record {
  entity_type = "transaction";
  entity_id = "t1";
  event_type = "FILL_UPDATE";
  payload = "{}";
  deduplication_key = key;
  available_at = none;
}

abbrev two_rows : List SyncQueueRow
two_rows = new_row "a" 5 (item "k1") ∷ new_row "b" 7 (item "k2") ∷ []

abbrev config : WorkerConfig
config = record { batch_size = 10; stale_lock_seconds = 60; max_attempts = 20 }

abbrev no_stats : SyncWorkerStats
no_stats = record {
  delivered_total = 0;
  failed_total = 0;
  skipped_malformed = 0;
  last_delivery_at = none;
  last_error = none;
}

abbrev second_unheard : ℕ → SyncQueueRow → Attempt
second_unheard n r = sent 1 (n == 0)

abbrev two_seconds : ℕ → ℕ → ℕ
two_seconds n attempt = 2

abbrev after_ten : ℕ → ℕ
after_ten n = 10 + n

one_of_each :
    map {B = Status × ℕ}
      (λ r. (r.status, r.attempt_count))
      (cycle config second_unheard two_seconds after_ten after_ten true 9 9 9 no_stats two_rows).1
    ≡ (delivered, 0) ∷ (pending, 1) ∷ []
unfolding cycle deliver_from claim_batch release_stale_locks mark_delivered mark_failed
one_of_each = refl

cycle-unlocks_example :
    All IsFree
      (cycle config second_unheard two_seconds after_ten after_ten true 9 9 9 no_stats two_rows).1
unfolding claim_batch release_stale_locks
cycle-unlocks_example =
    cycle-unlocks config second_unheard two_seconds after_ten after_ten true 9 9 9 no_stats two_rows
      (refl, (refl, tt)) (refl, (refl, tt))
