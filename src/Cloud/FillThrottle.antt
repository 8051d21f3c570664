-- ===== src/Cloud/FillThrottle.antt =====
-- cloud/fill_throttle.py. A time counts a unit of seconds; the book's dictionary of states is an
-- association list, and `now` is an argument of `decide`, which the code takes from the clock where the
-- caller gives none. A raw volume or amount is a packed decimal number, so a natural number.
pub mod Spacing
mod Examples
use intelipump.Common.{
  not, true, ℕ, ◌-◌, String, Bool, false, ◌||◌, Option, none, some, List, [], ◌∷◌, str_eq, leb,
  if◌then◌else◌, ◌+◌,
}

pub record FillThrottleConfig : Type 0 where
  pub min_interval_seconds : ℕ
  pub min_volume_delta : ℕ
  pub min_amount_delta : ℕ

pub record FillThrottleState : Type 0 where
  pub last_published_at : Option ℕ
  pub last_raw_volume : Option ℕ
  pub last_raw_amount : Option ℕ
  pub published_first : Bool

-- `FillThrottleState()`
abbrev pub new_state : FillThrottleState
new_state = record {
  last_published_at = none;
  last_raw_volume = none;
  last_raw_amount = none;
  published_first = false;
}

-- `abs(a - b)`
abbrev pub distance : ℕ → ℕ → ℕ
distance a b = if leb a b then b - a else a - b

-- `last is not None and abs(new - last) >= delta`
abbrev pub moved : ℕ → Option ℕ → ℕ → Bool
moved new none delta = false
moved new (some last) delta = leb delta (distance new last)

-- `last is None or now - last >= interval`
abbrev pub waited : ℕ → Option ℕ → ℕ → Bool
waited now none interval = true
waited now (some last) interval = leb (last + interval) now

pub should_publish_fill : ℕ → ℕ → ℕ → FillThrottleState → FillThrottleConfig → Bool → Bool
should_publish_fill now volume amount state config is_final =
    if is_final
    then true
    else if not state.published_first
    then true
    else if moved volume state.last_raw_volume config.min_volume_delta
        || moved amount state.last_raw_amount config.min_amount_delta
    then true
    else waited now state.last_published_at config.min_interval_seconds

pub advance_fill_state : FillThrottleState → ℕ → ℕ → ℕ → FillThrottleState
advance_fill_state state now volume amount = record {
  last_published_at = some now;
  last_raw_volume = some volume;
  last_raw_amount = some amount;
  published_first = true;
}

pub record FillPublishBook : Type 0 where
  pub config : FillThrottleConfig
  pub states : List (String × FillThrottleState)

-- `states.get(uuid, FillThrottleState())`
abbrev pub state_of : String → List (String × FillThrottleState) → FillThrottleState
state_of k [] = new_state
state_of k (e ∷ es) = if str_eq k e.0 then e.1 else state_of k es

-- `states.pop(uuid, None)`
abbrev pub removed : String → List (String × FillThrottleState) → List (String × FillThrottleState)
removed k [] = []
removed k (e ∷ es) = if str_eq k e.0 then removed k es else e ∷ removed k es

-- `states[uuid] = state`
abbrev pub stored :
    String
    → FillThrottleState
    → List (String × FillThrottleState)
    → List (String × FillThrottleState)
stored k state [] = (k, state) ∷ []
stored k state (e ∷ es) = if str_eq k e.0 then (k, state) ∷ es else e ∷ stored k state es

pub decide : FillPublishBook → String → ℕ → ℕ → Bool → ℕ → Bool × FillPublishBook
decide book uuid volume amount is_final now =
    let state = state_of uuid book.states in
    let states = stored uuid (advance_fill_state state now volume amount) book.states in
    if not (should_publish_fill now volume amount state book.config is_final)
    then (false, book)
    else if is_final
    then (true, record book { states = removed uuid states })
    else (true, record book { states = states })
