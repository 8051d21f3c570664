-- ===== src/Broker/Heard.antt =====
-- What the subscribers hear of an event.
use intelipump.Common.{
  ℕ, ◌≤◌, ◌<◌, ◌≡◌, refl, inl, inr, true, false, Option, some, List, [], ◌∷◌, ◌++◌, map, arith,
  Bool-cases, length, drop, length-append, All, sym, ◌∙◌, ◌⊎◌, subst,
}
use intelipump.Broker.{
  is_critical, LiveEvent, matches, Subscription, is_full, EventBroker, receive, publish, Offer,
  skipped, dropped_event, queued, replaced_oldest, offer, take_offer,
}

-- The event stands last in the queue of a subscription.
abbrev pub Heard : LiveEvent → Subscription → Type 0
Heard e s = (kept : List (Option LiveEvent)) × (s.queue ≡ kept ++ some e ∷ [])

-- An open subscription whose filter matches a critical event takes it.
offer_critical :
    (e : LiveEvent) (s : Subscription)
    → is_critical e.event_type ≡ true
    → s.closed ≡ false
    → matches s.event_filter e ≡ true
    → (offer e s ≡ queued) ⊎ (offer e s ≡ replaced_oldest)
offer_critical e s c unclosed m = elim (Bool-cases (is_full s)) [
  | inl full ↦ inr (ground (arith, c, unclosed, m, full))
  | inr room ↦ inl (ground (arith, c, unclosed, m, room))
]

kept_fields :
    (o : Offer) (e : LiveEvent) (s : Subscription)
    → ((take_offer o e s).closed ≡ s.closed) × ((take_offer o e s).event_filter ≡ s.event_filter)
kept_fields skipped e s = (refl, refl)
kept_fields queued e s = (refl, refl)
kept_fields replaced_oldest e s = (refl, refl)
kept_fields dropped_event e s = (refl, refl)

receive-Heard :
    (e : LiveEvent) (s : Subscription)
    → is_critical e.event_type ≡ true
    → (receive e s).closed ≡ false
    → matches (receive e s).event_filter e ≡ true
    → Heard e (receive e s)
receive-Heard e s c unclosed m =
    let (same_closed, same_filter) = kept_fields (offer e s) e s in
    elim (offer_critical e s c (sym same_closed ∙ unclosed)
      (subst (λ f. matches f e ≡ true) same_filter m)) [
        | inl q ↦ subst (λ o. Heard e (take_offer o e s)) (sym q) (s.queue, refl)
        | inr q ↦ subst (λ o. Heard e (take_offer o e s)) (sym q) (drop 1 s.queue, refl)
      ]

-- A queue has a size, and is within it.
abbrev pub IsBounded : Subscription → Type 0
IsBounded s = (1 ≤ s.max_size) × (length s.queue ≤ s.max_size)

length-replaced :
    (n : ℕ) (entry : Option LiveEvent) (queue : List (Option LiveEvent))
    → 1 ≤ n
    → length queue ≤ n
    → length (drop 1 queue ++ entry ∷ []) ≤ n
length-replaced n entry [] some_room h = some_room
length-replaced n entry (x ∷ queue) some_room h = omega (arith, length-append queue (entry ∷ []), h)

queued_room : (e : LiveEvent) (s : Subscription) → offer e s ≡ queued → is_full s ≡ false
queued_room e s q = ground (arith, q)

below_size : (s : Subscription) → 1 ≤ s.max_size → is_full s ≡ false → length s.queue < s.max_size
below_size s some_room room = ground (arith, room, some_room)

take_offer-IsBounded :
    (o : Offer) (e : LiveEvent) (s : Subscription)
    → (o ≡ queued → is_full s ≡ false)
    → IsBounded s
    → IsBounded (take_offer o e s)
take_offer-IsBounded skipped e s room h = h
take_offer-IsBounded queued e s room h =
    let below = below_size s h.0 (room refl) in
    (h.0, omega (arith, length-append s.queue (some e ∷ []), below))
take_offer-IsBounded replaced_oldest e s room h =
    (h.0, length-replaced s.max_size (some e) s.queue h.0 h.1)
take_offer-IsBounded dropped_event e s room h = h

receive-IsBounded : (e : LiveEvent) (s : Subscription) → IsBounded s → IsBounded (receive e s)
receive-IsBounded e s h = take_offer-IsBounded (offer e s) e s (queued_room e s) h

critical-Heard_in :
    (e : LiveEvent) (subs : List Subscription)
    → is_critical e.event_type ≡ true
    → All IsBounded subs
    → All
        (λ s. (s.closed ≡ false → matches s.event_filter e ≡ true → Heard e s) × IsBounded s)
        (map (receive e) subs)
critical-Heard_in e [] c h = tt
critical-Heard_in e (s ∷ subs) c h = (
  (λ unclosed m. receive-Heard e s c unclosed m, receive-IsBounded e s h.0),
  critical-Heard_in e subs c h.1,
)

-- A critical event is not lost: after it is published, it stands last in the queue of each open
-- subscription whose filter matches it, and the queues of all subscriptions are still within their sizes
-- if they were so before, each of them of 1 at least.
pub critical-Heard :
    (e : LiveEvent) (b : EventBroker)
    → is_critical e.event_type ≡ true
    → All IsBounded b.subs
    → All
        (λ s. (s.closed ≡ false → matches s.event_filter e ≡ true → Heard e s) × IsBounded s)
        (publish e b).subs
unfolding publish
critical-Heard e b c h = critical-Heard_in e b.subs c h
