-- ===== src/Pump/Machine/Connection.antt =====
-- The machine when the connection is lost, and when it starts.
use intelipump.Pump.Transitions.{lookup_transition, is_same_state_noop}
use intelipump.Pump.Machine.Call.{hex_of, Input}
use intelipump.Pump.Context.{PumpContext}
use intelipump.Common.{◌≡◌, inl, inr, none, Bool-cases, refl, arith}
use intelipump.Pump.Machine.{
  unchanged, apply_context_fields, apply_noop, apply_transition, apply_lookup, apply,
}
use intelipump.Pump.State.{
  communication_lost, communication_started, disconnected, discovering, PumpState-discrete,
  PumpEvent-discrete,
}

module _ (ctx : PumpContext) (i : Input) (untimed : i.observed_at ≡ none)
    (unseen : hex_of i.observation ≡ none) where
  -- COMMUNICATION_LOST disconnects the machine, in whatever state it is.
  pub lost_disconnects :
      i.event ≡ communication_lost → (apply ctx i).context.current_state ≡ disconnected
  unfolding PumpEvent-discrete PumpState-discrete apply apply_noop apply_lookup apply_transition
      apply_context_fields unchanged is_same_state_noop lookup_transition
  lost_disconnects e = elim (Bool-cases (is_same_state_noop ctx.current_state communication_lost)) [
    | inl a ↦ rw (e, untimed, unseen, a) (ground (arith, a))
    | inr a ↦ rw (e, untimed, unseen, a) (ground arith)
  ]

  pub started_discovers :
      i.event ≡ communication_started
      → ctx.current_state ≡ disconnected
      → (apply ctx i).context.current_state ≡ discovering
  unfolding PumpEvent-discrete PumpState-discrete apply apply_lookup apply_transition
      is_same_state_noop lookup_transition
  started_discovers e s = rw (e, untimed, unseen, s) refl
