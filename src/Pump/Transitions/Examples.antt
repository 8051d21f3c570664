-- ===== src/Pump/Transitions/Examples.antt =====
-- The table at concrete states.
use intelipump.Common.{◌≡◌, refl, ◌⊎◌}
use intelipump.Pump.State.{nozzle_up, authorized, filling, authorization_confirmed, filling_started}
use intelipump.Pump.Transitions.{lookup_transition}
use intelipump.Pump.Transitions.Reach.{sale_needs}

sale_needs_example :
    (nozzle_up ≡ nozzle_up)
    × ((authorization_confirmed ≡ authorization_confirmed) × (authorized ≡ authorized)
        ⊎ (authorization_confirmed ≡ filling_started) × (authorized ≡ filling))
unfolding lookup_transition
sale_needs_example = sale_needs nozzle_up authorized authorization_confirmed refl refl refl
