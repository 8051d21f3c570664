-- ===== src/Controller/Events/Examples.antt =====
-- A bus with a subscriber.
use intelipump.Common.{◌∷◌, [], some, ◌≡◌, refl}
use intelipump.Controller.Events.Delivery.{heard_until_removed, publish_all, heard}
use intelipump.Controller.Events.{
  EventSubscriber, poll_sent, eot_received, ControllerEventType, ControllerEventType-discrete,
  no_detail, no_payload, ControllerEvent, new_bus, add_subscriber, remove_subscriber, publish,
  clear, of_type,
}

abbrev plain_event : ControllerEventType → ControllerEvent
plain_event type = record {
  type = type;
  address = some 1;
  detail = no_detail;
  payload = no_payload;
}

-- Two objects for one callback.
abbrev attached : EventSubscriber
attached = record { identity = 1; target = 7 }

abbrev detached : EventSubscriber
detached = record { identity = 2; target = 7 }

heard_until_removed_example :
    heard 7
      (publish_all (plain_event eot_received ∷ []) (
        remove_subscriber detached
          (publish_all (plain_event poll_sent ∷ []) (add_subscriber attached new_bus)))).delivered
    ≡ plain_event poll_sent ∷ plain_event eot_received ∷ []
heard_until_removed_example =
    heard_until_removed attached detached (plain_event poll_sent ∷ [])
      (plain_event eot_received ∷ []) new_bus refl

kept_by_type :
    of_type poll_sent (publish (plain_event poll_sent) (publish (plain_event eot_received) new_bus))
    ≡ plain_event poll_sent ∷ []
unfolding of_type publish ControllerEventType-discrete
kept_by_type = refl

cleared : (clear (publish (plain_event poll_sent) new_bus)).events ≡ []
unfolding clear publish
cleared = refl
