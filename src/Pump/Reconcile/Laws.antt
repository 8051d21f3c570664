-- ===== src/Pump/Reconcile/Laws.antt =====
-- What a restart keeps, and what it never does.
use intelipump.Common.{
  ◌+◌, ◌≡◌, ◌⊎◌, inl, inr, Bool-cases, Bool, true, false, Option, some, List, arith,
}
use intelipump.Pump.State.{PumpCommand}
use intelipump.Pump.Context.{PumpContext}
use intelipump.Pump.Reconcile.{
  LiveObservationSummary, ReconciliationResult, reconcile_after_restart,
}

module _ (persisted : PumpContext) (live : LiveObservationSummary) (had : Option Bool)
    (pending : List PumpCommand) where
  abbrev outcome : ReconciliationResult
  outcome = reconcile_after_restart persisted live had pending

  -- After a restart, a pump that communicates has no verified price, and one that does not is marked so.
  pub restart_doubts :
      (outcome.context.price_verified ≡ false) ⊎ (outcome.context.communication_healthy ≡ false)
  unfolding reconcile_after_restart
  restart_doubts = elim (Bool-cases live.communication_healthy) [
    | inl h ↦ inl (ground (arith, h))
    | inr h ↦ inr (ground (arith, h))
  ]

  -- The unresolved transaction survives, in the context and in the result; every pending command is
  -- discarded and none replayed; no authorization is attempted; the
  -- completed keys stay; and the version counts the restart.
  pub restart_keeps :
      (outcome.context.active_transaction_id ≡ persisted.active_transaction_id)
      × (outcome.preserved_unresolved_transaction_id ≡ persisted.active_transaction_id)
      × (outcome.discarded_pending_commands ≡ pending)
      × (outcome.pending_commands_replayed ≡ false)
      × (outcome.auto_authorize_attempted ≡ false)
      × (outcome.context.state_version ≡ persisted.state_version + 1)
      × (outcome.context.completed_evidence_keys ≡ persisted.completed_evidence_keys)
  unfolding reconcile_after_restart
  restart_keeps = ground arith

  -- The defect: after a restart with communication, live evidence of nozzle 0 does not replace the
  -- persisted nozzle, whatever else the evidence says.
  pub nozzle_zero_ignored :
      live.communication_healthy ≡ true
      → live.selected_nozzle ≡ some 0
      → outcome.context.selected_nozzle ≡ persisted.selected_nozzle
  unfolding reconcile_after_restart
  nozzle_zero_ignored h z = ground arith
