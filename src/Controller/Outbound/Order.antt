-- ===== src/Controller/Outbound/Order.antt =====
-- What the queue holds, and which item it gives.
use intelipump.Common.{
  ℕ, ◌≤◌, ◌≡◌, refl, true, false, Option, none, some, List, [], ◌∷◌, ◌++◌, arith, ◌==◌,
  if◌then◌else◌, length, All, ok, sym, ap, subst, leb, length-append, All-append,
}
use intelipump.Controller.Safety.{
  OutboundDataItem, is_expired, ControllerSafetyContext, is_lab, evaluate_outbound_safety,
}
use intelipump.Controller.Safety.Gates.{outbound_allowed}
use intelipump.Controller.Outbound.{OutboundQueue, enqueue, pop_loop, pop_for_address}

-- The items that have not expired, in order.
abbrev pub live : ℕ → List OutboundDataItem → List OutboundDataItem
live now [] = []
live now (item ∷ rest) = if is_expired now item then live now rest else item ∷ live now rest

-- The first item for an address, and the others.
abbrev pub first_for : ℕ → List OutboundDataItem → Option OutboundDataItem
first_for address [] = none
first_for address (item ∷ rest) =
    if item.address == address then some item else first_for address rest

abbrev pub without_first : ℕ → List OutboundDataItem → List OutboundDataItem
without_first address [] = []
without_first address (item ∷ rest) =
    if item.address == address then rest else item ∷ without_first address rest

pop_loop-chosen :
    (now address : ℕ) (item : OutboundDataItem) (items : List OutboundDataItem)
    → pop_loop now address (some item) items ≡ (some item, live now items)
unfolding pop_loop
pop_loop-chosen now address item [] = refl
pop_loop-chosen now address item (x ∷ items) =
    rw (pop_loop-chosen now address item items) (ground arith)

pop_loop-none :
    (now address : ℕ) (items : List OutboundDataItem)
    → pop_loop now address none items
      ≡ (first_for address (live now items), without_first address (live now items))
unfolding pop_loop
pop_loop-none now address [] = refl
pop_loop-none now address (x ∷ items) =
    rw (pop_loop-none now address items, pop_loop-chosen now address x items) (ground arith)

-- Taking an item for an address gives the first item for it that has not expired; the queue keeps the
-- others that have not expired, in their order.
pub pop-first :
    (now address : ℕ) (q : OutboundQueue)
    → pop_for_address now address q ≡ (
      first_for address (live now q.items),
      record q { items = without_first address (live now q.items) },
    )
unfolding pop_for_address
pop-first now address q = rw (pop_loop-none now address q.items) refl

-- The queue is within its size, and holds items for the simulator only.
abbrev pub IsGuarded : OutboundQueue → Type 0
IsGuarded q = (length q.items ≤ q.max_size) × All (λ item. item.simulator_only ≡ true) q.items

-- A call that succeeds passed the three tests.
pub enqueue_inv :
    (now : ℕ) (item : OutboundDataItem) (safety : ControllerSafetyContext) (q : OutboundQueue)
    {after : OutboundQueue}
    → enqueue now item safety q ≡ ok after
    → ((evaluate_outbound_safety item safety).allowed ≡ true)
      × (is_expired now item ≡ false)
      × (leb q.max_size (length q.items) ≡ false)
      × (record q { items = q.items ++ item ∷ [] } ≡ after)
unfolding enqueue
enqueue_inv now item safety q e = ground (arith, e)

allowed_in_lab :
    (item : OutboundDataItem) (safety : ControllerSafetyContext)
    → (evaluate_outbound_safety item safety).allowed ≡ true
    → (item.simulator_only ≡ true) × (is_lab safety ≡ true)
allowed_in_lab item safety h = ground (arith, h, outbound_allowed item safety)

-- Whatever is put in, the queue stays within its size and holds items for the simulator only; and an
-- item that is put in stands last, had not expired, and came in in the laboratory.
pub enqueue-IsGuarded :
    (now : ℕ) (item : OutboundDataItem) (safety : ControllerSafetyContext) (q : OutboundQueue)
    {after : OutboundQueue}
    → IsGuarded q
    → enqueue now item safety q ≡ ok after
    → IsGuarded after
      × (after.items ≡ q.items ++ item ∷ [])
      × (is_expired now item ≡ false)
      × (is_lab safety ≡ true)
enqueue-IsGuarded now item safety q {after} g e =
    let (allowed, alive, room, image) = enqueue_inv now item safety q e in
    let (simulated, lab) = allowed_in_lab item safety allowed in
    let size : length (q.items ++ item ∷ []) ≤ q.max_size =
      ground (arith, room, length-append {0} q.items (item ∷ [])) in
    let all = All-append (λ i. i.simulator_only ≡ true) q.items (item ∷ []) g.1 (simulated, tt) in
    (subst IsGuarded image (size, all), sym (ap (λ r. r.items) image), alive, lab)
