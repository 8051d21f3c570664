-- ===== src/Persistence/SyncQueue/Examples.antt =====
-- A queue of two items, one claimed in a batch of one.
use intelipump.Common.{String, ◌≡◌, refl, false, none, some, List, [], ◌∷◌, map, All, arith}
use intelipump.Persistence.SyncQueue.{
  SyncQueueRow, NewItem, has_id, new_row, enqueue, claim_batch, mark_delivered, mark_failed,
  delivered_count,
}
use intelipump.Persistence.SyncQueue.Exclusive.{claimed_once}
use intelipump.Persistence.SyncQueue.Lifecycle.{
  Operation, enqueueing, claiming, delivering, failing, operate, operate_all, IsSound,
  operate_all-IsSound, releasing,
}

abbrev item : String → NewItem
item key = record {
  entity_type = "transaction";
  entity_id = "t1";
  event_type = "FILL_UPDATE";
  payload = "{}";
  deduplication_key = key;
  available_at = none;
}

abbrev two_rows : List SyncQueueRow
two_rows = new_row "b" 7 (item "k2") ∷ new_row "a" 5 (item "k1") ∷ []

ids : List SyncQueueRow → List String
ids rows = map (λ r. r.id) rows

oldest_first : ids (claim_batch 1 9 two_rows).0 ≡ "a" ∷ []
unfolding claim_batch ids
oldest_first = refl

-- While the older item is published, the other one is claimed and fails, and the locks that are 60 old
-- are released.
abbrev meanwhile : List Operation
meanwhile =
    claiming 1 10
    ∷ failing "b" "no route" 1 (some 20) 11 11
    ∷ releasing 60 12 12
    ∷ delivering "a" 13
    ∷ []

claimed_once_example :
    All
      (λ r. has_id r.id (claim_batch 1 9 two_rows).0 ≡ false)
      (claim_batch 10 14 (operate_all meanwhile (claim_batch 1 9 two_rows).1)).0
unfolding claim_batch
claimed_once_example =
    claimed_once 1 9 10 14 meanwhile two_rows (tt, (refl, (omega arith, (tt, tt))))

abbrev calls : List Operation
calls =
    enqueueing "a" 5 (item "k1")
    ∷ enqueueing "b" 7 (item "k1")
    ∷ claiming 10 9
    ∷ failing "a" "no route" 2 (some 20) 9 9
    ∷ claiming 10 12
    ∷ delivering "a" 13
    ∷ []

one_is_delivered : delivered_count (operate_all calls []) ≡ 1
unfolding operate_all operate enqueue claim_batch mark_failed mark_delivered delivered_count
one_is_delivered = refl

operate_all-IsSound_example : IsSound (operate_all calls [])
operate_all-IsSound_example = operate_all-IsSound calls [] (tt, tt)
