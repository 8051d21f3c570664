-- ===== src/Broker/Examples.antt =====
-- A broker with one subscriber, whose queue of one entry is full.
use intelipump.Common.{ℕ, ◌≡◌, refl, true, false, none, some, [], ◌∷◌, arith, All, err}
use intelipump.Broker.{
  LiveEventType, heartbeat, alarm_raised, LiveEvent, EventFilter, matches, sse, EventBroker,
  publish, subscribe,
}
use intelipump.Broker.Heard.{Heard, IsBounded, critical-Heard}

abbrev event_of : LiveEventType → ℕ → LiveEvent
event_of t sequence = record {
  event_id = "e1";
  event_type = t;
  timestamp = 5;
  station_id = "s1";
  environment = "LAB";
  simulated = true;
  sequence = sequence;
  pump_id = none;
  transaction_id = none;
  correlation_id = none;
  severity = none;
  payload = "{}";
  state_version = none;
}

abbrev any_event : EventFilter
any_event = record {
  station_id = some "s1";
  pump_id = none;
  event_types = none;
  severity = none;
  simulated = none;
}

abbrev full_broker : EventBroker
full_broker = record {
  max_sse = 1;
  max_ws = 1;
  queue_size = 1;
  subs =
      record {
        subscription_id = "u1";
        max_size = 1;
        queue = some (event_of heartbeat 1) ∷ [];
        event_filter = any_event;
        kind = sse;
        dropped = 0;
        closed = false;
      }
      ∷ [];
  seq = 1;
  dropped_noncritical = 0;
}

no_second : subscribe "u2" sse any_event full_broker ≡ err sse
unfolding subscribe
no_second = refl

heartbeat_dropped : (publish (event_of heartbeat 2) full_broker).dropped_noncritical ≡ 1
unfolding publish matches
heartbeat_dropped = refl

critical-Heard_example :
    All
      (λ s.
        (s.closed ≡ false
          → matches s.event_filter (event_of alarm_raised 2) ≡ true
          → Heard (event_of alarm_raised 2) s)
        × IsBounded s)
      (publish (event_of alarm_raised 2) full_broker).subs
critical-Heard_example =
    critical-Heard (event_of alarm_raised 2) full_broker refl ((omega arith, omega arith), tt)
