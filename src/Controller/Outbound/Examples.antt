-- ===== src/Controller/Outbound/Examples.antt =====
-- A queue that was filled and emptied.
use intelipump.Common.{◌≡◌, some, [], ◌∷◌}
use intelipump.Pump.State.{read_status, read_totals}
use intelipump.Controller.Safety.{is_expired}
use intelipump.Controller.Safety.Examples.{request}
use intelipump.Controller.Outbound.{OutboundQueue, pop_for_address}
use intelipump.Controller.Outbound.Order.{pop-first}

-- The second item has expired at 3000.
abbrev waiting : OutboundQueue
waiting = record {
  max_size = 4;
  items =
      request read_status 2
      ∷ record (request read_status 1) { expires_at = 2000 }
      ∷ request read_totals 1
      ∷ [];
}

pop-first_example :
    pop_for_address 3000 1 waiting
    ≡ (some (request read_totals 1), record waiting { items = request read_status 2 ∷ [] })
unfolding is_expired
pop-first_example = pop-first 3000 1 waiting
