-- ===== src/Persistence/SyncQueue/Exclusive.antt =====
-- Two claims, with other calls between them.
use intelipump.Common.{
  ℕ, ◌+◌, ◌<◌, String, ◌≡◌, sym, ◌∙◌, inl, inr, true, false, some, List, [], ◌∷◌, map, arith,
  Bool-cases, take, All, All-append,
}
use intelipump.Persistence.SyncQueue.{
  SyncQueueRow, NewItem, has_key, has_id, new_row, enqueue, candidates, lock, lock_in, claim_batch,
  delivered_row, mark_delivered, released_row, release_stale_locks, failed_row, mark_failed,
}
use intelipump.Persistence.SyncQueue.Claims.{has_id-lock}
use intelipump.Persistence.SyncQueue.Lifecycle.{
  Operation, enqueueing, claiming, delivering, releasing, failing, operate, operate_all,
}
use intelipump.Persistence.SyncQueue.Held.{
  locked_at_is, is_held, Holds, Holds-map, chosen_fresh, lock_in-KeepsHeld, delivered_row-KeepsHeld,
  released_row-KeepsHeld, failed_row-KeepsHeld,
}

fresh-lock :
    (batch : List SyncQueueRow) (now : ℕ) (xs : List SyncQueueRow)
    → All (λ r. has_id r.id batch ≡ false) xs
    → All (λ r. has_id r.id batch ≡ false) (map (lock now) xs)
fresh-lock batch now [] h = tt
fresh-lock batch now (x ∷ xs) h = (h.0, fresh-lock batch now xs h.1)

locked_at_self : (t : ℕ) → locked_at_is t (some t) ≡ true
locked_at_self t = ground arith

-- The rows that a claim locks are held.
lock_in-Holds :
    (chosen : List SyncQueueRow) (t : ℕ) (rows : List SyncQueueRow)
    → Holds (map (lock t) chosen) t (map (lock_in chosen t) rows)
lock_in-Holds chosen t [] = tt
lock_in-Holds chosen t (r ∷ rows) = (
  elim (Bool-cases (has_id r.id chosen)) [
    | inl e ↦ rw e (λ b. locked_at_self t)
    | inr e ↦ rw e (λ b. absurd (ground (arith, sym (has_id-lock r.id t chosen) ∙ b, e)))
  ],
  lock_in-Holds chosen t rows,
)

-- A call that neither gives up the batch claimed at `t` nor reuses an id of it: a new item has another
-- id, no row of the batch is marked as failed, and locks are released before those of the batch are
-- stale.
abbrev pub LeavesHeld : List SyncQueueRow → ℕ → Operation → Type 0
LeavesHeld batch t (enqueueing id now item) = has_id id batch ≡ false
LeavesHeld batch t (claiming limit now) = Unit
LeavesHeld batch t (delivering item_id now) = Unit
LeavesHeld batch t (releasing older now later) = now < t + older
LeavesHeld batch t (failing item_id error backoff most now later) = has_id item_id batch ≡ false

enqueue-Holds :
    (batch : List SyncQueueRow) (t : ℕ) (id : String) (now : ℕ) (item : NewItem)
    (rows : List SyncQueueRow)
    → has_id id batch ≡ false
    → Holds batch t rows
    → Holds batch t (enqueue id now item rows).1
unfolding enqueue
enqueue-Holds batch t id now item rows out h =
    elim (Bool-cases (has_key item.deduplication_key rows)) [
      | inl e ↦ rw e h
      | inr e ↦ rw e (
          All-append (λ r. has_id r.id batch ≡ true → is_held t r ≡ true) rows
            (new_row id now item ∷ []) h ((λ b. absurd (ground (arith, out, b))), tt))
    ]

operate-Holds :
    (batch : List SyncQueueRow) (t : ℕ) (o : Operation) (rows : List SyncQueueRow)
    → LeavesHeld batch t o
    → Holds batch t rows
    → Holds batch t (operate o rows)
unfolding operate claim_batch mark_delivered release_stale_locks mark_failed
operate-Holds batch t (enqueueing id now item) rows out h =
    enqueue-Holds batch t id now item rows out h
operate-Holds batch t (claiming limit now) rows out h =
    let chosen = take limit (candidates now rows) in
    Holds-map batch t (lock_in chosen now)
      (lock_in-KeepsHeld batch t now chosen (chosen_fresh batch t limit now rows h)) rows h
operate-Holds batch t (delivering item_id now) rows out h =
    Holds-map batch t (delivered_row item_id now) (delivered_row-KeepsHeld batch t item_id now) rows
      h
operate-Holds batch t (releasing older now later) rows out h =
    Holds-map batch t (released_row older now later)
      (released_row-KeepsHeld batch t older now later out) rows h
operate-Holds batch t (failing item_id error backoff most now later) rows out h =
    Holds-map batch t (failed_row item_id error backoff most now later)
      (failed_row-KeepsHeld batch t item_id error backoff most now later out) rows h

operate_all-Holds :
    (batch : List SyncQueueRow) (t : ℕ) (os : List Operation) (rows : List SyncQueueRow)
    → All (LeavesHeld batch t) os
    → Holds batch t rows
    → Holds batch t (operate_all os rows)
unfolding operate_all
operate_all-Holds batch t [] rows out h = h
operate_all-Holds batch t (o ∷ os) rows out h =
    operate_all-Holds batch t os (operate o rows) out.1 (operate-Holds batch t o rows out.0 h)

-- No row is in two batches while its claim lasts: after a claim and any calls, a further claim takes no
-- row of the first batch, if among those calls no new item has an id of the batch, none marks a row of
-- the batch as failed, and locks are released only before those of the batch are stale.
pub claimed_once :
    (limit t again later : ℕ) (os : List Operation) (rows : List SyncQueueRow)
    → All (LeavesHeld (claim_batch limit t rows).0 t) os
    → All
        (λ r. has_id r.id (claim_batch limit t rows).0 ≡ false)
        (claim_batch again later (operate_all os (claim_batch limit t rows).1)).0
unfolding claim_batch
claimed_once limit t again later os rows out =
    let chosen = take limit (candidates t rows) in
    let batch = map (lock t) chosen in
    let table = operate_all os (map (lock_in chosen t) rows) in
    let held =
      operate_all-Holds batch t os (map (lock_in chosen t) rows) out
        (lock_in-Holds chosen t rows) in
    fresh-lock batch later (take again (candidates later table))
      (chosen_fresh batch t again later table held)
