-- ===== src/Cloud/SyncWorker/Unlocks.antt =====
-- What a cycle leaves in the table, and what it counts.
use intelipump.Persistence.SyncQueue.Claims.{has_id-lock}
use intelipump.Common.{
  ℕ, suc, String, ◌≡◌, refl, sym, inl, inr, Bool, true, false, List, [], ◌∷◌, map, subst, arith,
  str_eq, eq_iff, Bool-cases, All, ◌+◌, ◌∙◌, Option, some, take,
}
use intelipump.Persistence.SyncQueue.{
  SyncQueueRow, has_id, is_claimed, delivered_row, lock, lock_in, is_stale, released_row, exhausted,
  failed_row, candidates, claim_batch, mark_delivered, release_stale_locks, mark_failed,
}
use intelipump.Persistence.SyncQueue.Lifecycle.{str_eq_comm}
use intelipump.Cloud.SyncWorker.{
  Attempt, not_connected, raised, sent, mqtt_error, other_error, SyncWorkerStats, WorkerConfig,
  count_delivered, count_failed, count_malformed, fail_record, deliver_from, cycle,
}

abbrev disconnects : Attempt → Bool
disconnects (not_connected error) = true
disconnects _ = false

-- No record of the batch, from place `n` on, finds the client disconnected.
abbrev pub StaysConnected : (ℕ → SyncQueueRow → Attempt) → ℕ → List SyncQueueRow → Type 0
StaysConnected publish n [] = Unit {0}
StaysConnected publish n (r ∷ rest) =
    (disconnects (raised (publish n r)) ≡ false) × StaysConnected publish (suc n) rest

abbrev pub IsFree : SyncQueueRow → Type 0
IsFree r = is_claimed r.status ≡ false

-- Only rows of the batch are claimed.
abbrev OnlyBatch : List SyncQueueRow → List SyncQueueRow → Type 0
OnlyBatch batch rows = All (λ r. has_id r.id batch ≡ false → IsFree r) rows

str_eq_refl : (a : String) → str_eq a a ≡ true
str_eq_refl a = (eq_iff a a).1 refl

-- An update that frees the rows with the id of the first record of the batch.
abbrev Frees : String → (SyncQueueRow → SyncQueueRow) → Type 0
Frees id f =
    (r : SyncQueueRow)
    → ((f r).id ≡ r.id)
      × (str_eq r.id id ≡ true → IsFree (f r))
      × (str_eq r.id id ≡ false → f r ≡ r)

OnlyBatch-map :
    (b : SyncQueueRow) (batch : List SyncQueueRow) (f : SyncQueueRow → SyncQueueRow)
    → Frees b.id f
    → (rows : List SyncQueueRow) → OnlyBatch (b ∷ batch) rows
    → OnlyBatch batch (map f rows)
OnlyBatch-map b batch f frees [] h = tt
OnlyBatch-map b batch f frees (r ∷ rows) h =
    let (same_id, free, kept) = frees r in
    let first : has_id (f r).id batch ≡ false → IsFree (f r) = λ out.
      elim (Bool-cases (str_eq r.id b.id)) [
        | inl e ↦ free e
        | inr e ↦
            let out' : has_id r.id batch ≡ false =
              subst (λ id. has_id id batch ≡ false) same_id out in
            subst IsFree (sym (kept e)) (h.0 (rw (str_eq_comm r.id b.id e) out'))
      ] in
    (first, OnlyBatch-map b batch f frees rows h.1)

delivered_row-Frees : (id : String) (now : ℕ) → Frees id (delivered_row id now)
delivered_row-Frees id now r = elim (Bool-cases (str_eq r.id id)) [
  | inl e ↦ rw e (refl, λ _. refl, λ h. ground (arith, h))
  | inr e ↦ rw e (refl, λ h. ground (arith, h), λ _. refl)
]

failed_row-Frees :
    (id error : String) (backoff : ℕ) (most : Option ℕ) (now later : ℕ)
    → Frees id (failed_row id error backoff most now later)
failed_row-Frees id error backoff most now later r = elim (Bool-cases (str_eq r.id id)) [
  | inl e ↦ elim (Bool-cases (exhausted most (r.attempt_count + 1))) [
    | inl e' ↦ rw (e, e') (refl, λ _. refl, λ h. ground (arith, h))
    | inr e' ↦ rw (e, e') (refl, λ _. refl, λ h. ground (arith, h))
  ]
  | inr e ↦ rw e (refl, λ h. ground (arith, h), λ _. refl)
]

OnlyBatch-none : (rows : List SyncQueueRow) → OnlyBatch [] rows → All IsFree rows
OnlyBatch-none [] h = tt
OnlyBatch-none (r ∷ rows) h = (h.0 refl, OnlyBatch-none rows h.1)

-- After the release, the claim leaves only rows of the batch claimed.
released-IsFree :
    (older now later : ℕ) (rows : List SyncQueueRow)
    → All IsFree rows
    → All IsFree (map (released_row older now later) rows)
released-IsFree older now later [] h = tt
released-IsFree older now later (r ∷ rows) h = (
  elim (Bool-cases (is_stale older now r)) [ inl e ↦ rw e refl | inr e ↦ rw e h.0 ],
  released-IsFree older now later rows h.1,
)

claimed-OnlyBatch :
    (chosen : List SyncQueueRow) (now : ℕ) (rows : List SyncQueueRow)
    → All IsFree rows
    → OnlyBatch (map (lock now) chosen) (map (lock_in chosen now) rows)
claimed-OnlyBatch chosen now [] h = tt
claimed-OnlyBatch chosen now (r ∷ rows) h = (
  elim (Bool-cases (has_id r.id chosen)) [
    | inl e ↦ rw e (λ out. ground (arith, sym (has_id-lock r.id now chosen) ∙ out, e))
    | inr e ↦ rw e (λ _. h.0)
  ],
  claimed-OnlyBatch chosen now rows h.1,
)

module _ (config : WorkerConfig) (publish : ℕ → SyncQueueRow → Attempt) (backoff : ℕ → ℕ → ℕ)
    (clock later : ℕ → ℕ) where
  failing-OnlyBatch :
      (n : ℕ) (r : SyncQueueRow) (rest : List SyncQueueRow) (error : String)
      (rows : List SyncQueueRow)
      → OnlyBatch (r ∷ rest) rows
      → OnlyBatch rest (fail_record config publish backoff clock later n r error rows)
  unfolding mark_failed
  failing-OnlyBatch n r rest error rows h =
      let wait = backoff n (r.attempt_count + 1) in
      let most : Option ℕ = some config.max_attempts in
      OnlyBatch-map r rest (failed_row r.id error wait most (clock n) (later n))
        (failed_row-Frees r.id error wait most (clock n) (later n)) rows h

  -- One record is delivered or failed, and the loop goes on.
  deliver-one :
      (n : ℕ) (r : SyncQueueRow) (rest : List SyncQueueRow) (s : SyncWorkerStats)
      (rows : List SyncQueueRow) (a : Attempt)
      → raised (publish n r) ≡ a
      → disconnects a ≡ false
      → OnlyBatch (r ∷ rest) rows
      → ((t : SyncWorkerStats) (table : List SyncQueueRow)
          → OnlyBatch rest table
          → All IsFree (deliver_from config publish backoff clock later (suc n) rest t table).1)
      → All IsFree (deliver_from config publish backoff clock later n (r ∷ rest) s rows).1
  unfolding deliver_from mark_delivered mark_failed
  deliver-one n r rest s rows (sent qos acknowledged) e c h next =
      rw (All, e)
        (next (count_delivered (later n) s) (map (delivered_row r.id (clock n)) rows) (
          OnlyBatch-map r rest (delivered_row r.id (clock n)) (delivered_row-Frees r.id (clock n))
            rows h))
  deliver-one n r rest s rows (mqtt_error error) e c h next =
      rw (All, e)
        (next (count_failed error s) (fail_record config publish backoff clock later n r error rows)
          (failing-OnlyBatch n r rest error rows h))
  deliver-one n r rest s rows (not_connected error) e c h next = ground (arith, c)
  deliver-one n r rest s rows (other_error error) e c h next =
      rw (All, e)
        (next (count_malformed s) (fail_record config publish backoff clock later n r error rows)
          (failing-OnlyBatch n r rest error rows h))

  deliver_from-IsFree :
      (n : ℕ) (batch : List SyncQueueRow) (s : SyncWorkerStats) (rows : List SyncQueueRow)
      → StaysConnected publish n batch
      → OnlyBatch batch rows
      → All IsFree (deliver_from config publish backoff clock later n batch s rows).1
  unfolding deliver_from
  deliver_from-IsFree n [] s rows c h = OnlyBatch-none rows h
  deliver_from-IsFree n (r ∷ rest) s rows c h =
      deliver-one n r rest s rows (raised (publish n r)) refl c.0 h
        (λ t table k. deliver_from-IsFree (suc n) rest t table c.1 k)

  -- The records that a cycle claims.
  abbrev pub batch_of : ℕ → ℕ → ℕ → List SyncQueueRow → List SyncQueueRow
  batch_of now stamp claim_time rows =
      (claim_batch config.batch_size claim_time
        ((release_stale_locks config.stale_lock_seconds now stamp rows).1)).0

  -- A cycle that starts with no row claimed, and that does not find the client disconnected, leaves no
  -- row claimed: each record of its batch is delivered, failed or waits again.
  pub cycle-unlocks :
      (is_connected : Bool) (now stamp claim_time : ℕ) (s : SyncWorkerStats)
      (rows : List SyncQueueRow)
      → All IsFree rows
      → StaysConnected publish 0 (batch_of now stamp claim_time rows)
      → All IsFree
          (cycle config publish backoff clock later is_connected now stamp claim_time s rows).1
  unfolding cycle claim_batch release_stale_locks
  cycle-unlocks false now stamp claim_time s rows h c = h
  cycle-unlocks true now stamp claim_time s rows h c =
      let older = config.stale_lock_seconds in
      let released = map (released_row older now stamp) rows in
      let chosen = take config.batch_size (candidates claim_time released) in
      deliver_from-IsFree 0 (map (lock claim_time) chosen) s
        (map (lock_in chosen claim_time) released) c
        (claimed-OnlyBatch chosen claim_time released (released-IsFree older now stamp rows h))
