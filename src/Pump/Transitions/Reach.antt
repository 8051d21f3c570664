-- ===== src/Pump/Transitions/Reach.antt =====
-- Which states the table reaches.
use intelipump.Common.{◌≡◌, ◌⊎◌, Bool, true, false, some, arith}
use intelipump.Pump.State.{
  PumpState, nozzle_up, authorized, filling, filling_complete, suspended, PumpEvent,
  authorization_confirmed, filling_started,
}
use intelipump.Pump.Transitions.{lookup_transition}

-- Fuel flows, may flow, or has flowed since the last reset.
abbrev pub is_dispensing : PumpState → Bool
is_dispensing authorized = true
is_dispensing filling = true
is_dispensing suspended = true
is_dispensing PumpState.limit_reached = true
is_dispensing filling_complete = true
is_dispensing _ = false

-- The only ways from a state with no sale into one with a sale.
pub sale_needs :
    (s t : PumpState) (e : PumpEvent)
    → lookup_transition s e ≡ some t
    → is_dispensing s ≡ false
    → is_dispensing t ≡ true
    → (s ≡ nozzle_up)
      × ((e ≡ authorization_confirmed) × (t ≡ authorized) ⊎ (e ≡ filling_started) × (t ≡ filling))
unfolding lookup_transition
sale_needs s t e h p q = ground arith
