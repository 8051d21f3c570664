-- ===== src/Persistence/SyncQueue/Claims.antt =====
-- The candidates of a claim, and the ids of what it locks.
use intelipump.Common.{
  ℕ, zero, suc, String, ◌≡◌, refl, ap, inl, inr, true, ◌||◌, List, [], ◌∷◌, map, str_eq, leb,
  Bool-cases, take, All,
}
use intelipump.Persistence.SyncQueue.{SyncQueueRow, has_id, claimable, insert, candidates, lock}

module _ (P : SyncQueueRow → Type 0) where
  All-insert : (r : SyncQueueRow) (xs : List SyncQueueRow) → P r → All P xs → All P (insert r xs)
  All-insert r [] h k = (h, tt)
  All-insert r (x ∷ xs) h k =
      let below = All-insert r xs h k.1 in
      elim (Bool-cases (leb r.created_at x.created_at)) [
        | inl e ↦ rw e (h, k)
        | inr e ↦ rw e (k.0, below)
      ]

  pub All-take : (n : ℕ) (xs : List SyncQueueRow) → All P xs → All P (take n xs)
  All-take zero xs h = tt
  All-take (suc n) [] h = tt
  All-take (suc n) (x ∷ xs) h = (h.0, All-take n xs h.1)

  pub All-candidates :
      (now : ℕ) (rows : List SyncQueueRow)
      → All (λ r. claimable now r ≡ true → P r) rows
      → All P (candidates now rows)
  All-candidates now [] h = tt
  All-candidates now (r ∷ rows) h =
      let others = All-candidates now rows h.1 in
      elim (Bool-cases (claimable now r)) [
        | inl e ↦ rw e (All-insert r (candidates now rows) (h.0 e) others)
        | inr e ↦ rw e others
      ]

-- A lock keeps the id.
pub has_id-lock :
    (id : String) (now : ℕ) (xs : List SyncQueueRow) → has_id id (map (lock now) xs) ≡ has_id id xs
has_id-lock id now [] = refl
has_id-lock id now (x ∷ xs) = ap (λ b. str_eq x.id id || b) (has_id-lock id now xs)
