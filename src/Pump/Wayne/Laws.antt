-- ===== src/Pump/Wayne/Laws.antt =====
-- What the mapper lets through to the machine.
use intelipump.Common.{
  ◌≡◌, ◌⊎◌, inl, inr, Bool, true, not, ◌&&◌, false, if◌then◌else◌, arith, none, ℕ, String, refl,
  ◌≢◌, Option, some, List,
}
use intelipump.App.Transaction.{
  dc3_nozzle_status_price, ambiguous_cd1_or_dc1, ApplicationTransaction, wayne_status, int_of,
  flag_of, lookup, body_or_empty,
}
use intelipump.Pump.State.{
  unknown_observation, PumpState, nozzle_lifted, nozzle_returned, ready_observed,
}
use intelipump.Pump.Context.{PumpContext, transition_applied}
use intelipump.Pump.Machine.{Input, apply, run}
use intelipump.Pump.Machine.Steps.{FollowsTable, apply-FollowsTable}
use intelipump.Pump.Transitions.{lookup_transition}
use intelipump.Pump.Machine.Safety.{completed_once}
use intelipump.Pump.Reconcile.{LiveObservationSummary, infer_live_state}
use intelipump.Pump.Wayne.{
  direction_or, is_slave, MapperContext, resolves_dc1, resolves_cd1, map_ambiguous_cd1_dc1,
  resolves_dc3, map_dc3, dc3_nozzle, nozzle_in_use, map_wayne_observation, completion_key,
  known_status_event, map_wayne_status_code, mapped_input, apply_mapped,
}

-- The wire codes that two families share, 0x01 and 0x03.
abbrev pub IsShared : ApplicationTransaction → Type 0
IsShared tx =
    (tx.transaction_type ≡ ambiguous_cd1_or_dc1) ⊎ (tx.transaction_type ≡ dc3_nozzle_status_price)

-- Nothing says that the pump sent the transaction.
abbrev pub unresolved : ApplicationTransaction → MapperContext → Bool
unresolved tx ctx =
    not ctx.resolve_as_dc1
    && not ctx.outstanding_request_was_cd1_status
    && not ctx.resolve_as_dc3
    && not (is_slave (direction_or ctx.bus_direction tx.direction))

shared_is_unknown :
    (tx : ApplicationTransaction) (ctx : MapperContext)
    → IsShared tx
    → unresolved tx ctx ≡ true
    → (map_wayne_observation tx ctx).event ≡ unknown_observation
unfolding map_wayne_observation map_ambiguous_cd1_dc1 map_dc3 resolves_dc1 resolves_cd1 resolves_dc3
shared_is_unknown tx ctx (inl e) u = rw e (ground (arith, u))
shared_is_unknown tx ctx (inr e) u = rw e (ground (arith, u))

-- A nozzle's transaction that the caller takes for the pump's, and that gives the nozzle, tells which
-- nozzle it is, and whether it is out.
pub nozzle_heard :
    (tx : ApplicationTransaction) (ctx : MapperContext) (nozzle : ℕ) (out : Bool)
    → tx.transaction_type ≡ dc3_nozzle_status_price
    → ctx.resolve_as_cd3 ≡ false
    → ctx.resolve_as_dc3 ≡ true
    → int_of (lookup "selected_logical_nozzle" (body_or_empty tx.decoded_body)) ≡ some nozzle
    → flag_of (lookup "nozzle_out" (body_or_empty tx.decoded_body)) ≡ some out
    → ((map_wayne_observation tx ctx).event ≡ (
        if out
        then nozzle_lifted
        else if nozzle_in_use ctx.current_state
        then nozzle_returned
        else ready_observed))
      × ((map_wayne_observation tx ctx).selected_nozzle ≡ some nozzle)
unfolding map_wayne_observation map_dc3 resolves_dc3 dc3_nozzle
nozzle_heard tx ctx nozzle true type cd3 dc3 n o = rw type (ground (arith, cd3, dc3, n, o))
nozzle_heard tx ctx nozzle false type cd3 dc3 n o = rw type (ground (arith, cd3, dc3, n, o))

no_row : (s : PumpState) → lookup_transition s unknown_observation ≡ none
unfolding lookup_transition
no_row s = ground arith

unknown_keeps_state :
    (ctx : PumpContext) (i : Input)
    → i.event ≡ unknown_observation
    → (apply ctx i).context.current_state ≡ ctx.current_state
unknown_keeps_state ctx i e = stays (apply-FollowsTable ctx i)
  where
    stays :
        FollowsTable ctx i (apply ctx i) → (apply ctx i).context.current_state ≡ ctx.current_state
    stays (inl h) = absurd (ground (arith, h.2, e, no_row ctx.current_state))
    stays (inr h) = ground (arith, h)

-- A transaction whose wire code two families share, of which neither the caller nor the direction says
-- that the pump sent it, leaves the state of the machine alone.
pub shared_keeps_state :
    (ctx : PumpContext) (tx : ApplicationTransaction) (given : MapperContext) (at : Option ℕ)
    (transaction : Option String) (price : Option Bool) (fault : Option ℕ) (implicit : Option Bool)
    → IsShared tx
    → unresolved tx given ≡ true
    → (apply_mapped ctx
        (map_wayne_observation tx given)
        at
        transaction
        price
        fault
        implicit).context.current_state
      ≡ ctx.current_state
unfolding apply_mapped mapped_input
shared_keeps_state ctx tx given at transaction price fault implicit shared u =
    unknown_keeps_state ctx
      (mapped_input (map_wayne_observation tx given) at transaction price fault implicit)
      (shared_is_unknown tx given shared u)

-- What a status byte says live.
abbrev pub seen_live : ℕ → LiveObservationSummary
seen_live code = record {
  communication_healthy = true;
  wayne_status = some code;
  normalized_hint = none;
  observed_at = none;
  selected_nozzle = none;
  raw_source_hex = none;
}

status_row :
    (code : ℕ) (previous : Option ℕ) (state : Option PumpState) (frame : Option String)
    (id : Option ℕ) (s t : PumpState)
    → lookup_transition s (map_wayne_status_code code previous state frame id).event ≡ some t
    → infer_live_state (seen_live code) ≡ some t
unfolding map_wayne_status_code known_status_event wayne_status lookup_transition infer_live_state
status_row code previous state frame id s t h = ground (arith, h)

-- A status byte that moves the machine moves it to the state that restart reconciliation reads off the
-- same byte, whatever was seen before.
pub status_agrees :
    (ctx : PumpContext) (code : ℕ) (previous : Option ℕ) (state : Option PumpState)
    (frame : Option String) (id at : Option ℕ) (transaction : Option String) (price : Option Bool)
    (fault : Option ℕ) (implicit : Option Bool)
    → (apply_mapped ctx
        (map_wayne_status_code code previous state frame id)
        at
        transaction
        price
        fault
        implicit).reason
      ≡ transition_applied
    → infer_live_state (seen_live code)
      ≡ some
          (apply_mapped ctx
            (map_wayne_status_code code previous state frame id)
            at
            transaction
            price
            fault
            implicit).context.current_state
unfolding apply_mapped mapped_input
status_agrees ctx code previous state frame id at transaction price fault implicit h =
    moved (apply-FollowsTable ctx call)
  where
    call : Input
    call =
        mapped_input (map_wayne_status_code code previous state frame id) at transaction price fault
          implicit

    moved :
        FollowsTable ctx call (apply ctx call)
        → infer_live_state (seen_live code) ≡ some (apply ctx call).context.current_state
    moved (inl r) =
        status_row code previous state frame id ctx.current_state
          (apply ctx call).context.current_state r.2
    moved (inr r) = absurd (r.0 h)

-- The defect: a completion is known by the bytes of its frame, so a frame with the same bytes, or a
-- second one without bytes, never completes another sale: after a status 5 was applied, no status 5
-- from the same bytes is applied, however many calls and sales lie between.
pub same_frame_completes_once :
    (ctx : PumpContext) (frame : Option String) (previous previous' : Option ℕ)
    (state state' : Option PumpState) (id id' at at' : Option ℕ) (between : List Input)
    → (apply_mapped ctx
        (map_wayne_status_code 5 previous state frame id)
        at
        none
        none
        none
        none).reason
      ≡ transition_applied
    → (apply_mapped
        (run
          (apply_mapped ctx
            (map_wayne_status_code 5 previous state frame id)
            at
            none
            none
            none
            none).context
          between)
        (map_wayne_status_code 5 previous' state' frame id')
        at'
        none
        none
        none
        none).reason
      ≢ transition_applied
unfolding apply_mapped mapped_input map_wayne_status_code known_status_event wayne_status
same_frame_completes_once ctx frame previous previous' state state' id id' at at' between h =
    completed_once (completion_key frame) ctx _ _ between (refl, refl) h (refl, refl)
