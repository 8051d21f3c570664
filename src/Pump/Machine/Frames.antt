-- ===== src/Pump/Machine/Frames.antt =====
-- Calls that carry the bytes of the same frame.
use intelipump.Common.{String, ◌≡◌, refl, ◌≢◌, true, false, some, arith, str_eq, eq_iff}
use intelipump.Pump.Context.{PumpContext, duplicate_source_frame, duplicate_completion_evidence}
use intelipump.Pump.Machine.{
  Input, is_before, hex_of, truthy_hex, apply_stale, apply_identical, apply_duplicate,
  apply_unknown, apply_implicit, apply_noop, apply_invalid, apply_transition, apply, same_text,
}
use intelipump.Pump.Machine.Steps.{apply_cases}

truthy-some : (h : String) → str_eq h "" ≡ false → truthy_hex (some h) ≡ some h
truthy-some h e = ground (arith, e)

remembers :
    (h : String) (ctx : PumpContext) (i : Input)
    → hex_of i.observation ≡ some h
    → str_eq h "" ≡ false
    → (apply ctx i).accepted ≡ true
    → (apply ctx i).reason ≢ duplicate_source_frame
    → (apply ctx i).reason ≢ duplicate_completion_evidence
    → (apply ctx i).context.last_source_frame_hex ≡ some h
unfolding apply_stale apply_identical apply_duplicate apply_unknown apply_implicit apply_noop
    apply_invalid apply_transition
remembers h ctx i e full =
    apply_cases
      (λ r.
        r.accepted ≡ true
        → r.reason ≢ duplicate_source_frame
        → r.reason ≢ duplicate_completion_evidence
        → r.context.last_source_frame_hex ≡ some h)
      ctx i (λ a. cc) (λ a n m. absurd (n refl)) (λ a n m. absurd (m refl))
      (λ a n m. rw (e, truthy-some h full) refl) (λ a. cc)
      (λ g a n m. rw (e, truthy-some h full) refl) (λ g a. cc)
      λ t f c g a n m. rw (e, truthy-some h full) refl

identical-apply :
    (h : String) (c : PumpContext) (j : Input)
    → hex_of j.observation ≡ some h
    → c.last_source_frame_hex ≡ some h
    → is_before j.observed_at c.last_observation_at ≡ false
    → apply c j ≡ apply_identical c j
unfolding apply
identical-apply h c j k kept now =
    let same : same_text (hex_of j.observation) c.last_source_frame_hex ≡ true =
      rw (k, kept) (ground (arith, eq_iff h h)) in
    rw (now, same) refl

-- The defect: of the transactions of one data frame, which the session applies one after the other with
-- the same frame bytes, only the first counts. After a call with those bytes was accepted, and not as a
-- duplicate, the next call with them that is not stale is a no-op, whatever its event is: it keeps the
-- state, the nozzle, the transaction and the version.
pub second_of_frame_ignored :
    (h : String) (ctx : PumpContext) (i j : Input)
    → hex_of i.observation ≡ some h
    → hex_of j.observation ≡ some h
    → str_eq h "" ≡ false
    → (apply ctx i).accepted ≡ true
    → (apply ctx i).reason ≢ duplicate_source_frame
    → (apply ctx i).reason ≢ duplicate_completion_evidence
    → is_before j.observed_at (apply ctx i).context.last_observation_at ≡ false
    → ((apply (apply ctx i).context j).reason ≡ duplicate_source_frame)
      × ((apply (apply ctx i).context j).context.current_state
          ≡ (apply ctx i).context.current_state)
      × ((apply (apply ctx i).context j).context.selected_nozzle
          ≡ (apply ctx i).context.selected_nozzle)
      × ((apply (apply ctx i).context j).context.active_transaction_id
          ≡ (apply ctx i).context.active_transaction_id)
      × ((apply (apply ctx i).context j).context.state_version
          ≡ (apply ctx i).context.state_version)
unfolding apply_identical
second_of_frame_ignored h ctx i j e k full a n m fresh =
    let ctx' : PumpContext = (apply ctx i).context in
    rw (identical-apply h ctx' j k (remembers h ctx i e full a n m) fresh)
      (refl, refl, refl, refl, refl)
