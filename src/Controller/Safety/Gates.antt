-- ===== src/Controller/Safety/Gates.antt =====
-- What the gates let through.
use intelipump.Common.{◌≡◌, ◌↔◌, true, ◌&&◌, ◌||◌, [], arith}
use intelipump.Controller.Safety.{
  OutboundDataItem, ControllerSafetyContext, is_read, listens_or_bench, is_lab,
  evaluate_outbound_safety, evaluate_polling_allowed,
}

-- An item is allowed exactly when the mode is LISTEN_ONLY or BENCH_CONTROL, the environment is the
-- laboratory, the item is for the simulator only, and it is a read or laboratory commands are allowed.
-- The two enable flags never let anything through.
pub outbound_allowed :
    (item : OutboundDataItem) (ctx : ControllerSafetyContext)
    → (evaluate_outbound_safety item ctx).allowed ≡ (
        listens_or_bench ctx.mode
        && is_lab ctx
        && item.simulator_only
        && (is_read item.command_type || ctx.allow_lab_simulator_commands))
unfolding evaluate_outbound_safety
outbound_allowed item ctx = ground arith

-- Polling is allowed exactly in the modes LISTEN_ONLY and BENCH_CONTROL, in the laboratory or where
-- virtual polling is allowed.
polling_allowed :
    (ctx : ControllerSafetyContext)
    → (evaluate_polling_allowed ctx).allowed
      ≡ (listens_or_bench ctx.mode && (ctx.allow_virtual_polling || is_lab ctx))
unfolding evaluate_polling_allowed
polling_allowed ctx = ground arith

-- A decision is allowed exactly when it gives no reason against.
reasons-allowed :
    (item : OutboundDataItem) (ctx : ControllerSafetyContext)
    → ((evaluate_outbound_safety item ctx).allowed ≡ true)
      ↔ ((evaluate_outbound_safety item ctx).reasons ≡ [])
unfolding evaluate_outbound_safety
reasons-allowed item ctx = ground arith
