-- ===== src/Persistence/SyncQueue/Lifecycle.antt =====
-- The operations on the queue in any order, and what they keep of the table.
use intelipump.Common.{
  ℕ, ◌+◌, String, ◌≡◌, refl, sym, ◌∙◌, inl, inr, true, false, Option, List, [], ◌∷◌, ◌++◌, map,
  subst, arith, str_eq, eq_iff, Bool-cases, is_some, take, All, All-append,
}
use intelipump.Persistence.SyncQueue.{
  mark_failed, SyncQueueRow, NewItem, has_key, has_id, new_row, enqueue, is_claimed, candidates,
  lock_in, claim_batch, delivered_row, mark_delivered, is_stale, released_row, release_stale_locks,
  exhausted, failed_row,
}

-- One call of the repository, with what it reads from the clock.
pub data Operation : Type 0 where
  enqueueing : String → ℕ → NewItem → Operation
  claiming : ℕ → ℕ → Operation
  delivering : String → ℕ → Operation
  releasing : ℕ → ℕ → ℕ → Operation
  failing : String → String → ℕ → Option ℕ → ℕ → ℕ → Operation

unfoldable pub operate : Operation → List SyncQueueRow → List SyncQueueRow
operate (enqueueing id now item) rows = (enqueue id now item rows).1
operate (claiming limit now) rows = (claim_batch limit now rows).1
operate (delivering item_id now) rows = mark_delivered item_id now rows
operate (releasing older now later) rows = (release_stale_locks older now later rows).1
operate (failing item_id error backoff most now later) rows =
    mark_failed item_id error backoff most now later rows

unfoldable pub operate_all : List Operation → List SyncQueueRow → List SyncQueueRow
operate_all [] rows = rows
operate_all (o ∷ os) rows = operate_all os (operate o rows)

-- No two rows have one deduplication key.
abbrev pub DistinctKeys : List SyncQueueRow → Type 0
DistinctKeys [] = Unit {0}
DistinctKeys (r ∷ rows) = (has_key r.deduplication_key rows ≡ false) × DistinctKeys rows

-- A row is locked exactly while it is claimed.
abbrev pub LockedIfClaimed : SyncQueueRow → Type 0
LockedIfClaimed r = is_some r.locked_at ≡ is_claimed r.status

abbrev pub IsSound : List SyncQueueRow → Type 0
IsSound rows = DistinctKeys rows × All LockedIfClaimed rows

-- An update of single rows that keeps the keys and the locks right.
abbrev Keeps : (SyncQueueRow → SyncQueueRow) → Type 0
Keeps f =
    (r : SyncQueueRow)
    → ((f r).deduplication_key ≡ r.deduplication_key) × (LockedIfClaimed r → LockedIfClaimed (f r))

module _ (f : SyncQueueRow → SyncQueueRow) (keeps : Keeps f) where
  has_key-map :
      (key : String) (rows : List SyncQueueRow) → has_key key (map f rows) ≡ has_key key rows
  has_key-map key [] = refl
  has_key-map key (r ∷ rows) = rw ((keeps r).0, has_key-map key rows) refl

  DistinctKeys-map : (rows : List SyncQueueRow) → DistinctKeys rows → DistinctKeys (map f rows)
  DistinctKeys-map [] h = tt
  DistinctKeys-map (r ∷ rows) h =
      (rw ((keeps r).0, has_key-map r.deduplication_key rows) h.0, DistinctKeys-map rows h.1)

  LockedIfClaimed-map :
      (rows : List SyncQueueRow) → All LockedIfClaimed rows → All LockedIfClaimed (map f rows)
  LockedIfClaimed-map [] h = tt
  LockedIfClaimed-map (r ∷ rows) h = ((keeps r).1 h.0, LockedIfClaimed-map rows h.1)

  IsSound-map : (rows : List SyncQueueRow) → IsSound rows → IsSound (map f rows)
  IsSound-map rows h = (DistinctKeys-map rows h.0, LockedIfClaimed-map rows h.1)

lock_in-Keeps : (chosen : List SyncQueueRow) (now : ℕ) → Keeps (lock_in chosen now)
lock_in-Keeps chosen now r = elim (Bool-cases (has_id r.id chosen)) [
  | inl e ↦ rw e (refl, λ h. refl)
  | inr e ↦ rw e (refl, λ h. h)
]

delivered_row-Keeps : (item_id : String) (now : ℕ) → Keeps (delivered_row item_id now)
delivered_row-Keeps item_id now r = elim (Bool-cases (str_eq r.id item_id)) [
  | inl e ↦ rw e (refl, λ h. refl)
  | inr e ↦ rw e (refl, λ h. h)
]

released_row-Keeps : (older now later : ℕ) → Keeps (released_row older now later)
released_row-Keeps older now later r = elim (Bool-cases (is_stale older now r)) [
  | inl e ↦ rw e (refl, λ h. refl)
  | inr e ↦ rw e (refl, λ h. h)
]

failed_row-Keeps :
    (item_id error : String) (backoff : ℕ) (most : Option ℕ) (now later : ℕ)
    → Keeps (failed_row item_id error backoff most now later)
failed_row-Keeps item_id error backoff most now later r = elim (Bool-cases (str_eq r.id item_id)) [
  | inl e ↦ elim (Bool-cases (exhausted most (r.attempt_count + 1))) [
    | inl e' ↦ rw (e, e') (refl, λ h. refl)
    | inr e' ↦ rw (e, e') (refl, λ h. refl)
  ]
  | inr e ↦ rw e (refl, λ h. h)
]

has_key-append :
    (key : String) (rows : List SyncQueueRow) (x : SyncQueueRow)
    → has_key key rows ≡ false
    → str_eq x.deduplication_key key ≡ false
    → has_key key (rows ++ x ∷ []) ≡ false
has_key-append key [] x h e = rw e refl
has_key-append key (r ∷ rows) x h e = elim (Bool-cases (str_eq r.deduplication_key key)) [
  | inl k ↦ ground (arith, h, k)
  | inr k ↦ rw k (has_key-append key rows x (ground (arith, h, k)) e)
]

pub str_eq_comm : (a b : String) → str_eq a b ≡ false → str_eq b a ≡ false
str_eq_comm a b h = elim (Bool-cases (str_eq b a)) [
  | inl e ↦
      ground
        (arith, h, sym h ∙ subst (λ x. str_eq x b ≡ true) ((eq_iff b a).0 e) ((eq_iff b b).1 refl))
  | inr e ↦ e
]

DistinctKeys-append :
    (rows : List SyncQueueRow) (x : SyncQueueRow)
    → DistinctKeys rows
    → has_key x.deduplication_key rows ≡ false
    → DistinctKeys (rows ++ x ∷ [])
DistinctKeys-append [] x h fresh = (refl, tt)
DistinctKeys-append (r ∷ rows) x h fresh =
    let other : str_eq r.deduplication_key x.deduplication_key ≡ false = ground (arith, fresh) in
    let rest : has_key x.deduplication_key rows ≡ false = ground (arith, fresh, other) in
    (
      has_key-append r.deduplication_key rows x h.0
          (str_eq_comm r.deduplication_key x.deduplication_key other),
      DistinctKeys-append rows x h.1 rest,
    )

enqueue-IsSound :
    (id : String) (now : ℕ) (item : NewItem) (rows : List SyncQueueRow)
    → IsSound rows
    → IsSound (enqueue id now item rows).1
unfolding enqueue
enqueue-IsSound id now item rows h = elim (Bool-cases (has_key item.deduplication_key rows)) [
  | inl e ↦ rw e h
  | inr e ↦ rw e (
    DistinctKeys-append rows (new_row id now item) h.0 e,
    All-append LockedIfClaimed rows (new_row id now item ∷ []) h.1 (refl, tt),
  )
]

operate-IsSound :
    (o : Operation) (rows : List SyncQueueRow) → IsSound rows → IsSound (operate o rows)
unfolding operate claim_batch mark_delivered release_stale_locks mark_failed
operate-IsSound (enqueueing id now item) rows h = enqueue-IsSound id now item rows h
operate-IsSound (claiming limit now) rows h =
    let chosen = take limit (candidates now rows) in
    IsSound-map (lock_in chosen now) (lock_in-Keeps chosen now) rows h
operate-IsSound (delivering item_id now) rows h =
    IsSound-map (delivered_row item_id now) (delivered_row-Keeps item_id now) rows h
operate-IsSound (releasing older now later) rows h =
    IsSound-map (released_row older now later) (released_row-Keeps older now later) rows h
operate-IsSound (failing item_id error backoff most now later) rows h =
    IsSound-map (failed_row item_id error backoff most now later)
      (failed_row-Keeps item_id error backoff most now later) rows h

-- From a table where no two rows have one deduplication key and a row is locked exactly while it is
-- claimed, whatever calls are made, in whatever order, both hold of the table that they leave.
pub operate_all-IsSound :
    (os : List Operation) (rows : List SyncQueueRow) → IsSound rows → IsSound (operate_all os rows)
unfolding operate_all
operate_all-IsSound [] rows h = h
operate_all-IsSound (o ∷ os) rows h =
    operate_all-IsSound os (operate o rows) (operate-IsSound o rows h)
