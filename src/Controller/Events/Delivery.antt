-- ===== src/Controller/Events/Delivery.antt =====
-- What a callback is called with.
use intelipump.Common.{
  false, Bool, ℕ, ◌≡◌, refl, ap, inl, inr, List, [], ◌∷◌, ◌++◌, map, ◌==◌, if◌then◌else◌,
  Bool-cases, replicate, suc, sym, ◌∙◌, true, append_assoc, append-nil, arith,
}
use intelipump.Controller.Events.{
  EventSubscriber, without, EventBus, ControllerEvent, publish, add_subscriber, remove_subscriber,
}

-- The calls of one target.
abbrev pub heard : ℕ → List (ℕ × ControllerEvent) → List ControllerEvent
heard n [] = []
heard n (call ∷ calls) = if call.0 == n then call.1 ∷ heard n calls else heard n calls

abbrev pub publish_all : List ControllerEvent → EventBus → EventBus
publish_all [] bus = bus
publish_all (e ∷ es) bus = publish_all es (publish e bus)

-- How often a target is on the list.
abbrev pub times : ℕ → List EventSubscriber → ℕ
times n [] = 0
times n (s ∷ rest) = if s.target == n then suc (times n rest) else times n rest

heard-append :
    (n : ℕ) (xs ys : List (ℕ × ControllerEvent)) → heard n (xs ++ ys) ≡ heard n xs ++ heard n ys
heard-append n [] ys = refl
heard-append n (x ∷ xs) ys = elim (Bool-cases (x.0 == n)) [
  | inl e ↦ rw e (ap (λ l. x.1 ∷ l) (heard-append n xs ys))
  | inr e ↦ rw e (heard-append n xs ys)
]

heard-told :
    (n : ℕ) (e : ControllerEvent) (subscribers : List EventSubscriber)
    → heard n (map (λ s. (s.target, e)) subscribers) ≡ replicate (times n subscribers) e
heard-told n e [] = refl
heard-told n e (m ∷ ms) = elim (Bool-cases (m.target == n)) [
  | inl h ↦ rw h (ap (λ l. e ∷ l) (heard-told n e ms))
  | inr h ↦ rw h (heard-told n e ms)
]

subscribers-kept :
    (es : List ControllerEvent) (bus : EventBus)
    → (publish_all es bus).subscribers ≡ bus.subscribers
unfolding publish
subscribers-kept [] bus = refl
subscribers-kept (e ∷ es) bus = subscribers-kept es (publish e bus)

-- A target that is on the bus once hears each event once, and one that is not hears none.
heard-subscribed :
    (n : ℕ) (es : List ControllerEvent) (bus : EventBus)
    → times n bus.subscribers ≡ 1
    → heard n (publish_all es bus).delivered ≡ heard n bus.delivered ++ es
unfolding publish
heard-subscribed n [] bus h = sym (append-nil (heard n bus.delivered))
heard-subscribed n (e ∷ es) bus h =
    heard-subscribed n es (publish e bus) h
    ∙ ap (λ l. l ++ es)
        (heard-append n bus.delivered _
          ∙ ap (λ l. heard n bus.delivered ++ l)
              (heard-told n e bus.subscribers ∙ ap (λ k. replicate k e) h))
    ∙ append_assoc (heard n bus.delivered) (e ∷ []) es

heard-unsubscribed :
    (n : ℕ) (es : List ControllerEvent) (bus : EventBus)
    → times n bus.subscribers ≡ 0
    → heard n (publish_all es bus).delivered ≡ heard n bus.delivered
unfolding publish
heard-unsubscribed n [] bus h = refl
heard-unsubscribed n (e ∷ es) bus h =
    heard-unsubscribed n es (publish e bus) h
    ∙ heard-append n bus.delivered _
    ∙ ap (λ l. heard n bus.delivered ++ l)
        (heard-told n e bus.subscribers ∙ ap (λ k. replicate k e) h)
    ∙ append-nil (heard n bus.delivered)

-- The target of a subscriber that is added last, after one is removed.
times-removed :
    (s removed : EventSubscriber) (ms : List EventSubscriber)
    → times s.target ms ≡ 0
    → times s.target (without removed (ms ++ s ∷ []))
      ≡ (if s.identity == removed.identity then 0 else 1)
times-removed s removed [] h =
    let same : (s.target == s.target) ≡ true = ground arith in
    elim (Bool-cases (s.identity == removed.identity)) [
      | inl e ↦ rw e refl
      | inr e ↦ rw (e, same) refl
    ]
times-removed s removed (m ∷ ms) h = elim (Bool-cases (m.target == s.target)) [
  | inl t ↦ absurd (ground (arith, h, t))
  | inr t ↦
      let rest = times-removed s removed ms (ground (arith, h, t)) in
      elim (Bool-cases (m.identity == removed.identity)) [
        | inl e ↦ rw e rest
        | inr e ↦ rw (e, t) rest
      ]
]

times-added :
    (s : EventSubscriber) (ms : List EventSubscriber)
    → times s.target ms ≡ 0
    → times s.target (ms ++ s ∷ []) ≡ 1
times-added s [] h = let same : (s.target == s.target) ≡ true = ground arith in rw same refl
times-added s (m ∷ ms) h = elim (Bool-cases (m.target == s.target)) [
  | inl e ↦ absurd (ground (arith, h, e))
  | inr e ↦ rw e (times-added s ms (ground (arith, h, e)))
]

heard-after :
    (n : ℕ) (es : List ControllerEvent) (bus : EventBus) (gone : Bool)
    → times n bus.subscribers ≡ (if gone then 0 else 1)
    → heard n (publish_all es bus).delivered ≡ heard n bus.delivered ++ (if gone then [] else es)
heard-after n es bus true h =
    heard-unsubscribed n es bus h ∙ sym (append-nil (heard n bus.delivered))
heard-after n es bus false h = heard-subscribed n es bus h

-- A callback that was not on the bus is added, and later some subscriber is removed. The callback hears
-- the events in between, each once and in order. It hears no later ones if what was removed is the very
-- object that was added, and otherwise goes on to hear them all, also where what was removed is another
-- object for the same callback.
pub heard_until_removed :
    (s removed : EventSubscriber) (during later : List ControllerEvent) (bus : EventBus)
    → times s.target bus.subscribers ≡ 0
    → heard s.target
        (publish_all later
          (remove_subscriber removed (publish_all during (add_subscriber s bus)))).delivered
      ≡ (heard s.target bus.delivered ++ during)
        ++ (if s.identity == removed.identity then [] else later)
unfolding add_subscriber remove_subscriber
heard_until_removed s removed during later bus h =
    let told : EventBus = publish_all during (add_subscriber s bus) in
    let left =
      ap (λ ms. times s.target (without removed ms))
        (subscribers-kept during (add_subscriber s bus))
      ∙ times-removed s removed bus.subscribers h in
    heard-after s.target later (remove_subscriber removed told) (s.identity == removed.identity)
      left
    ∙ ap (λ l. l ++ (if s.identity == removed.identity then [] else later))
        (heard-subscribed s.target during (add_subscriber s bus) (times-added s bus.subscribers h))
