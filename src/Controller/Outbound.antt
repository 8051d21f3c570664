-- ===== src/Controller/Outbound.antt =====
-- controller/outbound.py. The clock is an argument: `now` is what `datetime.now(UTC)` gives in the call.
pub mod Order
mod Examples
use intelipump.Common.{
  ℕ, Bool, false, not, ◌&&◌, ◌||◌, Option, none, some, List, [], ◌∷◌, ◌++◌, ltb, leb, ◌==◌,
  if◌then◌else◌, is_some, length, Result, ok, err,
}
use intelipump.Controller.Safety.{
  OutboundDataItem, is_expired, SafetyReason, ControllerSafetyContext, evaluate_outbound_safety,
}

pub data OutboundError : Type 0 where
  queue_full : ℕ → OutboundError
  rejected_item : List SafetyReason → OutboundError
  item_expired : OutboundError

pub record OutboundQueue : Type 0 where
  pub max_size : ℕ
  pub items : List OutboundDataItem

-- The constructor; `none` is its ValueError.
unfoldable pub new_queue : ℕ → Option OutboundQueue
new_queue max_size =
    if ltb max_size 1 then none else some (record { max_size = max_size; items = [] })

pub enqueue :
    ℕ
    → OutboundDataItem
    → ControllerSafetyContext
    → OutboundQueue
    → Result OutboundError OutboundQueue
enqueue now item safety q =
    let decision = evaluate_outbound_safety item safety in
    if not decision.allowed
    then err (rejected_item decision.reasons)
    else if is_expired now item
    then err item_expired
    else if leb q.max_size (length q.items)
    then err (queue_full q.max_size)
    else ok (record q { items = q.items ++ item ∷ [] })

-- The loop of `pop_for_address`: what is selected, and what is kept.
pub pop_loop :
    ℕ
    → ℕ
    → Option OutboundDataItem
    → List OutboundDataItem
    → Option OutboundDataItem × List OutboundDataItem
pop_loop now address selected [] = (selected, [])
pop_loop now address selected (item ∷ rest) =
    let skipped = pop_loop now address selected rest in
    let chosen = pop_loop now address (some item) rest in
    if is_expired now item
    then skipped
    else if not (is_some selected) && item.address == address
    then chosen
    else (skipped.0, item ∷ skipped.1)

pub pop_for_address : ℕ → ℕ → OutboundQueue → Option OutboundDataItem × OutboundQueue
unfolding pop_loop
pop_for_address now address q =
    let (selected, kept) = pop_loop now address none q.items in
    (selected, record q { items = kept })

abbrev contains : ℕ → List ℕ → Bool
contains n [] = false
contains n (m ∷ ms) = n == m || contains n ms

-- The set of addresses, as a list without repetition.
abbrev addresses_of : ℕ → List OutboundDataItem → List ℕ
addresses_of now [] = []
addresses_of now (item ∷ rest) =
    let others = addresses_of now rest in
    if is_expired now item || contains item.address others then others else item.address ∷ others

peek_addresses : ℕ → OutboundQueue → List ℕ
peek_addresses now q = addresses_of now q.items
