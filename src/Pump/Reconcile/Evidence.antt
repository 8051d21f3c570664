-- ===== src/Pump/Reconcile/Evidence.antt =====
-- What a restart may not take from before it: an authorization, and what one needs.
use intelipump.Common.{◌≡◌, ◌∙◌, ◌⊎◌, inl, inr, Bool, true, false, Option, List, arith}
use intelipump.Pump.State.{PumpCommand, authorize, preset_amount, preset_volume}
use intelipump.Pump.Context.{PumpContext}
use intelipump.Pump.Guards.{DecimalTest, evaluate_command_eligibility}
use intelipump.Pump.Guards.Eligibility.{permitted, eligible-eq-permitted}
use intelipump.Pump.Reconcile.{LiveObservationSummary, reconcile_after_restart}
use intelipump.Pump.Reconcile.Laws.{restart_doubts}

-- The commands that start or limit a sale.
abbrev pub starts_sale : PumpCommand → Bool
starts_sale authorize = true
starts_sale preset_amount = true
starts_sale preset_volume = true
starts_sale _ = false

doubted :
    {V : Type 0} (test : V → DecimalTest) (command : PumpCommand) (c : PumpContext)
    (value : Option V)
    → starts_sale command ≡ true
    → (c.price_verified ≡ false) ⊎ (c.communication_healthy ≡ false)
    → permitted test command c value ≡ false
doubted test authorize c value h (inl p) = ground (arith, p)
doubted test authorize c value h (inr p) = ground (arith, p)
doubted test preset_amount c value h (inl p) = ground (arith, p)
doubted test preset_amount c value h (inr p) = ground (arith, p)
doubted test preset_volume c value h (inl p) = ground (arith, p)
doubted test preset_volume c value h (inr p) = ground (arith, p)
doubted test _ c value h d = absurd (ground (arith, h))

-- Whatever was persisted, pending and observed, in the context after a restart neither AUTHORIZE nor a
-- preset is eligible, with whatever value and enable flags.
pub restart_blocks_sale :
    {V : Type 0} (test : V → DecimalTest) (command : PumpCommand) (value : Option V)
    (physical enabled : Bool) (persisted : PumpContext) (live : LiveObservationSummary)
    (had : Option Bool) (pending : List PumpCommand)
    → starts_sale command ≡ true
    → (evaluate_command_eligibility test command
        (reconcile_after_restart persisted live had pending).context
        value
        physical
        enabled).eligible
      ≡ false
restart_blocks_sale test command value physical enabled persisted live had pending h =
    let after = (reconcile_after_restart persisted live had pending).context in
    eligible-eq-permitted test command after value physical enabled
    ∙ doubted test command after value h (restart_doubts persisted live had pending)
