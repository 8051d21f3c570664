-- ===== src/Cloud/FillThrottle/Spacing.antt =====
-- When an update of a filling is published, and what the book remembers of it.
use intelipump.Common.{
  String, ◌≡◌, refl, List, [], ◌∷◌, arith, str_eq, eq_iff, if◌then◌else◌, ℕ, ◌+◌, inl, inr, Bool,
  true, false, ◌||◌, leb, Bool-cases, ap, ◌∙◌,
}
use intelipump.Cloud.FillThrottle.{
  FillThrottleState, new_state, state_of, removed, stored, distance, FillPublishBook, decide,
  FillThrottleConfig, should_publish_fill, advance_fill_state,
}

state_of-stored :
    (k j : String) (s : FillThrottleState) (es : List (String × FillThrottleState))
    → state_of j (stored k s es) ≡ (if str_eq j k then s else state_of j es)
state_of-stored k j s [] = refl
state_of-stored k j s (e ∷ es) =
    ground (arith, state_of-stored k j s es, eq_iff k e.0, eq_iff j k, eq_iff j e.0)

state_of-removed :
    (k j : String) (es : List (String × FillThrottleState))
    → state_of j (removed k es) ≡ (if str_eq j k then new_state else state_of j es)
state_of-removed k j [] = ground arith
state_of-removed k j (e ∷ es) = elim (Bool-cases (str_eq k e.0)) [
  | inl found ↦
      rw found
        (ground (arith, state_of-removed k j es, eq_iff k e.0, eq_iff j k, eq_iff j e.0, found))
  | inr kept ↦
      rw kept
        (ground (arith, state_of-removed k j es, eq_iff k e.0, eq_iff j k, eq_iff j e.0, kept))
]

published_book :
    (book : FillPublishBook) (uuid : String) (volume amount now : ℕ)
    → (decide book uuid volume amount false now).0 ≡ true
    → (decide book uuid volume amount false now).1 ≡ record book {
      states =
          stored uuid
            (advance_fill_state (state_of uuid book.states) now volume amount)
            book.states;
    }
unfolding decide
published_book book uuid volume amount now h =
    ground (
      arith,
      h,
      should_publish_fill now volume amount (state_of uuid book.states) book.config false,
    )

decide_first :
    (book : FillPublishBook) (uuid : String) (volume amount now : ℕ)
    → (decide book uuid volume amount false now).0
      ≡ should_publish_fill now volume amount (state_of uuid book.states) book.config false
unfolding decide
decide_first book uuid volume amount now =
    elim (Bool-cases
      (should_publish_fill now volume amount (state_of uuid book.states) book.config false)) [
        | inl h ↦ rw h refl
        | inr h ↦ rw h refl
      ]

stored_here :
    (k : String) (s : FillThrottleState) (es : List (String × FillThrottleState))
    → state_of k (stored k s es) ≡ s
stored_here k s es = ground (arith, state_of-stored k k s es, eq_iff k k)

should_publish-advanced :
    (now volume amount now' volume' amount' : ℕ) (state : FillThrottleState)
    (config : FillThrottleConfig)
    → should_publish_fill now' volume' amount'
        (advance_fill_state state now volume amount)
        config
        false
      ≡ (leb config.min_volume_delta (distance volume' volume)
          || leb config.min_amount_delta (distance amount' amount)
          || leb (now + config.min_interval_seconds) now')
unfolding should_publish_fill advance_fill_state
should_publish-advanced now volume amount now' volume' amount' state config = ground arith

-- After an update was published and was not final, the next one of the same transaction that is not
-- final is published exactly when the volume or the amount has moved by its least step since, or the
-- least interval has passed.
pub publish_spacing :
    (book : FillPublishBook) (uuid : String) (volume amount now volume' amount' now' : ℕ)
    → (decide book uuid volume amount false now).0 ≡ true
    → (decide (decide book uuid volume amount false now).1 uuid volume' amount' false now').0 ≡ (
        leb book.config.min_volume_delta (distance volume' volume)
        || leb book.config.min_amount_delta (distance amount' amount)
        || leb (now + book.config.min_interval_seconds) now')
publish_spacing book uuid volume amount now volume' amount' now' h =
    let state : FillThrottleState =
      advance_fill_state (state_of uuid book.states) now volume amount in
    decide_first (decide book uuid volume amount false now).1 uuid volume' amount' now'
    ∙ ap (λ b. should_publish_fill now' volume' amount' (state_of uuid b.states) b.config false)
        (published_book book uuid volume amount now h)
    ∙ ap (λ s. should_publish_fill now' volume' amount' s book.config false)
        (stored_here uuid state book.states)
    ∙ should_publish-advanced now volume amount now' volume' amount' (state_of uuid book.states)
        book.config

-- A decision on one transaction leaves what the book remembers of every other as it was.
pub decide_local :
    (book : FillPublishBook) (uuid other : String) (volume amount now : ℕ) (is_final : Bool)
    → str_eq other uuid ≡ false
    → state_of other (decide book uuid volume amount is_final now).1.states
      ≡ state_of other book.states
unfolding decide
decide_local book uuid other volume amount now is_final apart =
    let state : FillThrottleState =
      advance_fill_state (state_of uuid book.states) now volume amount in
    ground (
      arith,
      apart,
      state_of-stored uuid other state book.states,
      state_of-removed uuid other (stored uuid state book.states),
      should_publish_fill now volume amount (state_of uuid book.states) book.config is_final,
    )

-- A final update is published, and the book forgets the transaction.
final_forgotten :
    (book : FillPublishBook) (uuid : String) (volume amount now : ℕ)
    → ((decide book uuid volume amount true now).0 ≡ true)
      × (state_of uuid (decide book uuid volume amount true now).1.states ≡ new_state)
unfolding decide should_publish_fill
final_forgotten book uuid volume amount now =
    let state : FillThrottleState =
      advance_fill_state (state_of uuid book.states) now volume amount in
    ground (arith, state_of-removed uuid uuid (stored uuid state book.states), eq_iff uuid uuid)
