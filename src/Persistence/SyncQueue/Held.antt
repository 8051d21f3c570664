-- ===== src/Persistence/SyncQueue/Held.antt =====
-- Rows that are claimed, and the updates of single rows that keep them so.
use intelipump.Common.{
  ℕ, ◌+◌, ◌<◌, String, ◌≡◌, refl, sym, inl, inr, Bool, true, false, ◌&&◌, Option, none, some, List,
  [], ◌∷◌, map, subst, arith, str_eq, eq_iff, ◌==◌, Bool-cases, take, All,
}
use intelipump.Persistence.SyncQueue.{
  Status, pending, claimed, delivered, failed, SyncQueueRow, has_id, is_pending, is_claimed,
  claimable, candidates, lock_in, delivered_row, locked_before, is_stale, released_row, exhausted,
  failed_row,
}
use intelipump.Persistence.SyncQueue.Claims.{All-take, All-candidates}

-- A row that was claimed at `t` is held: locked since then, or delivered, or failed for good.
abbrev pub locked_at_is : ℕ → Option ℕ → Bool
locked_at_is t none = false
locked_at_is t (some at) = at == t

abbrev pub held_as : ℕ → Status → Option ℕ → Bool
held_as t pending locked_at = false
held_as t claimed locked_at = locked_at_is t locked_at
held_as t delivered locked_at = true
held_as t failed locked_at = true

abbrev pub is_held : ℕ → SyncQueueRow → Bool
is_held t r = held_as t r.status r.locked_at

not_pending :
    (t : ℕ) (s : Status) (locked_at : Option ℕ)
    → held_as t s locked_at ≡ true
    → is_pending s ≡ false
not_pending t pending locked_at h = sym h
not_pending t claimed locked_at h = refl
not_pending t delivered locked_at h = refl
not_pending t failed locked_at h = refl

-- All rows with an id of the batch are held.
abbrev pub Holds : List SyncQueueRow → ℕ → List SyncQueueRow → Type 0
Holds batch t rows = All (λ r. has_id r.id batch ≡ true → is_held t r ≡ true) rows

-- An update of single rows that keeps the ids, and keeps the rows of the batch held.
abbrev pub KeepsHeld : List SyncQueueRow → ℕ → (SyncQueueRow → SyncQueueRow) → Type 0
KeepsHeld batch t f =
    (r : SyncQueueRow)
    → ((f r).id ≡ r.id) × (has_id r.id batch ≡ true → is_held t r ≡ true → is_held t (f r) ≡ true)

pub Holds-map :
    (batch : List SyncQueueRow) (t : ℕ) (f : SyncQueueRow → SyncQueueRow)
    → KeepsHeld batch t f
    → (rows : List SyncQueueRow) → Holds batch t rows
    → Holds batch t (map f rows)
Holds-map batch t f keeps [] h = tt
Holds-map batch t f keeps (r ∷ rows) h =
    let (same_id, held) = keeps r in
    let first : has_id (f r).id batch ≡ true → is_held t (f r) ≡ true = λ e.
      let e' : has_id r.id batch ≡ true = subst (λ id. has_id id batch ≡ true) same_id e in
      held e' (h.0 e') in
    (first, Holds-map batch t f keeps rows h.1)

-- A claim takes no row with an id of the batch.
fresh_candidate :
    (batch : List SyncQueueRow) (t now : ℕ) (r : SyncQueueRow)
    → (has_id r.id batch ≡ true → is_held t r ≡ true)
    → claimable now r ≡ true
    → has_id r.id batch ≡ false
fresh_candidate batch t now r h c = elim (Bool-cases (has_id r.id batch)) [
  | inl e ↦ absurd (ground (arith, not_pending t r.status r.locked_at (h e), c))
  | inr e ↦ e
]

fresh_candidates :
    (batch : List SyncQueueRow) (t now : ℕ) (rows : List SyncQueueRow)
    → Holds batch t rows
    → All (λ r. claimable now r ≡ true → has_id r.id batch ≡ false) rows
fresh_candidates batch t now [] h = tt
fresh_candidates batch t now (r ∷ rows) h =
    (fresh_candidate batch t now r h.0, fresh_candidates batch t now rows h.1)

pub chosen_fresh :
    (batch : List SyncQueueRow) (t limit now : ℕ) (rows : List SyncQueueRow)
    → Holds batch t rows
    → All (λ r. has_id r.id batch ≡ false) (take limit (candidates now rows))
chosen_fresh batch t limit now rows h =
    let fresh : SyncQueueRow → Type 0 = λ r. has_id r.id batch ≡ false in
    All-take fresh limit (candidates now rows)
      (All-candidates fresh now rows (fresh_candidates batch t now rows h))

-- Rows of the batch are not among rows that are none of it.
disjoint :
    (batch : List SyncQueueRow) (id : String) (chosen : List SyncQueueRow)
    → All (λ r. has_id r.id batch ≡ false) chosen
    → has_id id batch ≡ true
    → has_id id chosen ≡ false
disjoint batch id [] h e = refl
disjoint batch id (c ∷ chosen) h e = elim (Bool-cases (str_eq c.id id)) [
  | inl same ↦
      let there = subst (λ x. has_id x batch ≡ false) ((eq_iff c.id id).0 same) h.0 in
      absurd (ground (arith, there, e))
  | inr other ↦ rw other (disjoint batch id chosen h.1 e)
]

pub lock_in-KeepsHeld :
    (batch : List SyncQueueRow) (t now : ℕ) (chosen : List SyncQueueRow)
    → All (λ r. has_id r.id batch ≡ false) chosen
    → KeepsHeld batch t (lock_in chosen now)
lock_in-KeepsHeld batch t now chosen fresh r = elim (Bool-cases (has_id r.id chosen)) [
  | inl e ↦ rw e (refl, λ b. absurd (ground (arith, disjoint batch r.id chosen fresh b, e)))
  | inr e ↦ rw e (refl, λ b h. h)
]

pub delivered_row-KeepsHeld :
    (batch : List SyncQueueRow) (t : ℕ) (item_id : String) (now : ℕ)
    → KeepsHeld batch t (delivered_row item_id now)
delivered_row-KeepsHeld batch t item_id now r = elim (Bool-cases (str_eq r.id item_id)) [
  | inl e ↦ rw e (refl, λ b h. refl)
  | inr e ↦ rw e (refl, λ b h. h)
]

-- A lock that was taken at `t` is not stale before its time.
not_stale :
    (t older now : ℕ) (s : Status) (locked_at : Option ℕ)
    → now < t + older
    → held_as t s locked_at ≡ true
    → (is_claimed s && locked_before older now locked_at) ≡ false
not_stale t older now pending locked_at early h = refl
not_stale t older now claimed none early h = refl
not_stale t older now claimed (some at) early h = ground (arith, early, h)
not_stale t older now delivered locked_at early h = refl
not_stale t older now failed locked_at early h = refl

pub released_row-KeepsHeld :
    (batch : List SyncQueueRow) (t older now later : ℕ)
    → now < t + older
    → KeepsHeld batch t (released_row older now later)
released_row-KeepsHeld batch t older now later early r = elim (Bool-cases (is_stale older now r)) [
  | inl e ↦
      rw e (
        refl,
        λ b h. absurd (ground (arith, e, not_stale t older now r.status r.locked_at early h)),
      )
  | inr e ↦ rw e (refl, λ b h. h)
]

pub failed_row-KeepsHeld :
    (batch : List SyncQueueRow) (t : ℕ) (item_id error : String) (backoff : ℕ) (most : Option ℕ)
    (now later : ℕ)
    → has_id item_id batch ≡ false
    → KeepsHeld batch t (failed_row item_id error backoff most now later)
failed_row-KeepsHeld batch t item_id error backoff most now later out r =
    elim (Bool-cases (str_eq r.id item_id)) [
      | inl e ↦
          let outside = subst (λ x. has_id x batch ≡ false) (sym ((eq_iff r.id item_id).0 e)) out in
          elim (Bool-cases (exhausted most (r.attempt_count + 1))) [
            | inl e' ↦ rw (e, e') (refl, λ b h. refl)
            | inr e' ↦ rw (e, e') (refl, λ b. absurd (ground (arith, outside, b)))
          ]
      | inr e ↦ rw e (refl, λ b h. h)
    ]
