-- ===== src/Persistence/SyncQueue.antt =====
-- persistence/repositories/sync_queue.py: the durable queue of what is to be published. The table is the
-- list of its rows, in the order of their inserts; the primary key is `id`, so a query by id selects one
-- row at most. Times and delays are numbers of one unit; an argument `now` is what the call reads from
-- the clock, and `later` is its second reading. A new row's uuid is an argument, and `payload` its JSON
-- text. Claims of one creation time are in the order of the table.
pub mod Claims
pub mod Lifecycle
mod Held
pub mod Exclusive
mod Examples
use intelipump.Common.{
  ltb, true, false, ℕ, suc, ◌+◌, String, Bool, not, ◌&&◌, ◌||◌, Option, none, some, List, [], ◌∷◌,
  ◌++◌, map, str_eq, leb, if◌then◌else◌, is_some, take,
}

pub data Status : Type 0 where
  pending claimed delivered failed : Status

pub record SyncQueueRow : Type 0 where
  pub id : String
  pub entity_type : String
  pub entity_id : String
  pub event_type : String
  pub payload : String
  pub status : Status
  pub attempt_count : ℕ
  pub available_at : ℕ
  pub locked_at : Option ℕ
  pub last_error : Option String
  pub created_at : ℕ
  pub updated_at : ℕ
  pub deduplication_key : String

-- What the caller of `enqueue` gives.
pub record NewItem : Type 0 where
  pub entity_type : String
  pub entity_id : String
  pub event_type : String
  pub payload : String
  pub deduplication_key : String
  pub available_at : Option ℕ

abbrev pub has_key : String → List SyncQueueRow → Bool
has_key key [] = false
has_key key (r ∷ rows) = str_eq r.deduplication_key key || has_key key rows

abbrev pub has_id : String → List SyncQueueRow → Bool
has_id id [] = false
has_id id (r ∷ rows) = str_eq r.id id || has_id id rows

abbrev or_now : Option ℕ → ℕ → ℕ
or_now none now = now
or_now (some at) now = at

abbrev pub new_row : String → ℕ → NewItem → SyncQueueRow
new_row id now item = record {
  id = id;
  entity_type = item.entity_type;
  entity_id = item.entity_id;
  event_type = item.event_type;
  payload = item.payload;
  status = pending;
  attempt_count = 0;
  available_at = or_now item.available_at now;
  locked_at = none;
  last_error = none;
  created_at = now;
  updated_at = now;
  deduplication_key = item.deduplication_key;
}

unfoldable pub enqueue :
    String → ℕ → NewItem → List SyncQueueRow → Option SyncQueueRow × List SyncQueueRow
enqueue id now item rows =
    if has_key item.deduplication_key rows
    then (none, rows)
    else (some (new_row id now item), rows ++ new_row id now item ∷ [])

abbrev pub is_pending : Status → Bool
is_pending pending = true
is_pending _ = false

abbrev pub is_claimed : Status → Bool
is_claimed claimed = true
is_claimed _ = false

abbrev pub claimable : ℕ → SyncQueueRow → Bool
claimable now r = is_pending r.status && leb r.available_at now && not (is_some r.locked_at)

-- ORDER BY created_at.
abbrev pub insert : SyncQueueRow → List SyncQueueRow → List SyncQueueRow
insert r [] = r ∷ []
insert r (x ∷ xs) =
    let after = x ∷ insert r xs in if leb r.created_at x.created_at then r ∷ x ∷ xs else after

abbrev pub candidates : ℕ → List SyncQueueRow → List SyncQueueRow
candidates now [] = []
candidates now (r ∷ rows) =
    let others = candidates now rows in if claimable now r then insert r others else others

abbrev pub lock : ℕ → SyncQueueRow → SyncQueueRow
lock now r = record r { status = claimed; locked_at = some now; updated_at = now }

-- The rows that the loop has locked, in the table.
abbrev pub lock_in : List SyncQueueRow → ℕ → SyncQueueRow → SyncQueueRow
lock_in chosen now r = if has_id r.id chosen then lock now r else r

unfoldable pub claim_batch : ℕ → ℕ → List SyncQueueRow → List SyncQueueRow × List SyncQueueRow
claim_batch limit now rows =
    let chosen = take limit (candidates now rows) in
    (map (lock now) chosen, map (lock_in chosen now) rows)

abbrev pub delivered_row : String → ℕ → SyncQueueRow → SyncQueueRow
delivered_row item_id now r =
    if str_eq r.id item_id
    then record r { status = delivered; locked_at = none; updated_at = now }
    else r

unfoldable pub mark_delivered : String → ℕ → List SyncQueueRow → List SyncQueueRow
mark_delivered item_id now rows = map (delivered_row item_id now) rows

abbrev pub locked_before : ℕ → ℕ → Option ℕ → Bool
locked_before older now none = false
locked_before older now (some at) = leb (at + older) now

abbrev pub is_stale : ℕ → ℕ → SyncQueueRow → Bool
is_stale older now r = is_claimed r.status && locked_before older now r.locked_at

abbrev pub released_row : ℕ → ℕ → ℕ → SyncQueueRow → SyncQueueRow
released_row older now later r =
    if is_stale older now r
    then record r { status = pending; locked_at = none; updated_at = later }
    else r

abbrev count : (SyncQueueRow → Bool) → List SyncQueueRow → ℕ
count p [] = 0
count p (r ∷ rows) = let n = count p rows in if p r then suc n else n

-- The number of locks released, and the table.
unfoldable pub release_stale_locks : ℕ → ℕ → ℕ → List SyncQueueRow → ℕ × List SyncQueueRow
release_stale_locks older now later rows =
    (count (is_stale older now) rows, map (released_row older now later) rows)

abbrev pub exhausted : Option ℕ → ℕ → Bool
exhausted none attempts = false
exhausted (some most) attempts = leb most attempts

abbrev pub failed_row : String → String → ℕ → Option ℕ → ℕ → ℕ → SyncQueueRow → SyncQueueRow
failed_row item_id error backoff max_attempts now later r =
    let tried : SyncQueueRow = record r {
      attempt_count = r.attempt_count + 1;
      last_error = some error;
      locked_at = none;
      updated_at = now;
    } in
    if not (str_eq r.id item_id)
    then r
    else if exhausted max_attempts (r.attempt_count + 1)
    then record tried { status = failed }
    else record tried { status = pending; available_at = later + backoff }

unfoldable pub mark_failed :
    String → String → ℕ → Option ℕ → ℕ → ℕ → List SyncQueueRow → List SyncQueueRow
mark_failed item_id error backoff max_attempts now later rows =
    map (failed_row item_id error backoff max_attempts now later) rows

abbrev waiting : SyncQueueRow → Bool
waiting r = is_pending r.status || is_claimed r.status

abbrev is_delivered : SyncQueueRow → Bool
is_delivered r = elim r.status [ delivered ↦ true | _ ↦ false ]

abbrev failed_or_retried : SyncQueueRow → Bool
failed_or_retried r = elim r.status [ failed ↦ true | pending ↦ ltb 0 r.attempt_count | _ ↦ false ]

unfoldable pub pending_count : List SyncQueueRow → ℕ
pending_count rows = count waiting rows

unfoldable pub delivered_count : List SyncQueueRow → ℕ
delivered_count rows = count is_delivered rows

unfoldable pub failed_count : List SyncQueueRow → ℕ
failed_count rows = count failed_or_retried rows
