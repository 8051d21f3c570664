-- ===== src/Broker.antt =====
-- events/broker.py, events/models.py and events/subscription.py: the live events of the HTTP clients. The
-- dict of subscriptions is a list in the order of insertion, and the queue of a subscription, an
-- asyncio.Queue, is the list of its entries, where `none` ends the stream. The ids and the times of new
-- subscriptions and events are arguments, and a payload is its JSON text. The lock is left out: no body
-- under it awaits anything.
pub mod Heard
mod Examples
use intelipump.Common.{
  none, ℕ, suc, ◌+◌, String, Bool, true, false, not, xor, ◌&&◌, ◌||◌, Option, some, List, [], ◌∷◌,
  ◌++◌, map, str_eq, ltb, leb, if◌then◌else◌, decided, length, drop, Result, ok, err,
}

pub data LiveEventType : Type 0 where
  connected heartbeat pump_connected pump_disconnected pump_state_changed : LiveEventType
  nozzle_lifted authorization_confirmed filling_started filling_updated : LiveEventType
  filling_completed transaction_created transaction_completed alarm_raised : LiveEventType
  alarm_cleared protocol_error persistence_warning controller_recovered : LiveEventType
  command_evaluated subscriber_dropped : LiveEventType

unfoldable pub LiveEventType-discrete : Discrete LiveEventType
LiveEventType-discrete = hlevel

-- Membership in CRITICAL_LIVE_EVENTS.
abbrev pub is_critical : LiveEventType → Bool
is_critical transaction_completed = true
is_critical alarm_raised = true
is_critical filling_completed = true
is_critical controller_recovered = true
is_critical _ = false

pub record LiveEvent : Type 0 where
  pub event_id : String
  pub event_type : LiveEventType
  pub timestamp : ℕ
  pub station_id : String
  pub environment : String
  pub simulated : Bool
  pub sequence : ℕ
  pub pump_id : Option String
  pub transaction_id : Option String
  pub correlation_id : Option String
  pub severity : Option String
  pub payload : String
  pub state_version : Option ℕ

pub record EventFilter : Type 0 where
  pub station_id : Option String
  pub pump_id : Option String
  pub event_types : Option (List LiveEventType)
  pub severity : Option String
  pub simulated : Option Bool

abbrev text_differs : Option String → String → Bool
text_differs none text = false
text_differs (some wanted) text = not (str_eq text wanted)

-- The filter asks for a text, and the event has another or none.
abbrev option_differs : Option String → Option String → Bool
option_differs none text = false
option_differs (some wanted) none = true
option_differs (some wanted) (some text) = not (str_eq text wanted)

abbrev pub is_among : LiveEventType → List LiveEventType → Bool
is_among t [] = false
is_among t (x ∷ xs) = decided (LiveEventType-discrete t x) || is_among t xs

abbrev type_differs : Option (List LiveEventType) → LiveEventType → Bool
type_differs none t = false
type_differs (some types) t = not (is_among t types)

abbrev flag_differs : Option Bool → Bool → Bool
flag_differs none flag = false
flag_differs (some wanted) flag = xor wanted flag

unfoldable pub matches : EventFilter → LiveEvent → Bool
matches wanted e =
    if text_differs wanted.station_id e.station_id
    then false
    else if option_differs wanted.pump_id e.pump_id
    then false
    else if type_differs wanted.event_types e.event_type
    then false
    else if option_differs wanted.severity e.severity
    then false
    else not (flag_differs wanted.simulated e.simulated)

pub data Kind : Type 0 where
  sse ws : Kind

pub record Subscription : Type 0 where
  pub subscription_id : String
  pub max_size : ℕ
  pub queue : List (Option LiveEvent)
  pub event_filter : EventFilter
  pub kind : Kind
  pub dropped : ℕ
  pub closed : Bool

-- The queue of a size above 0 is full.
abbrev pub is_full : Subscription → Bool
is_full s = ltb 0 s.max_size && leb s.max_size (length s.queue)

abbrev pub put : Option LiveEvent → Subscription → Subscription
put entry s = record s { queue = s.queue ++ entry ∷ [] }

pub close : Subscription → Subscription
close s =
    let shut : Subscription = record s { closed = true } in
    if s.closed then s else if is_full s then shut else put none shut

pub record EventBroker : Type 0 where
  pub max_sse : ℕ
  pub max_ws : ℕ
  pub queue_size : ℕ
  pub subs : List Subscription
  pub seq : ℕ
  pub dropped_noncritical : ℕ

pub data Offer : Type 0 where
  skipped dropped_event queued replaced_oldest : Offer

-- What `publish` does with one subscription.
abbrev pub offer : LiveEvent → Subscription → Offer
offer e s =
    if s.closed || not (matches s.event_filter e)
    then skipped
    else if not (is_full s)
    then queued
    else if is_critical e.event_type
    then replaced_oldest
    else dropped_event

abbrev pub take_offer : Offer → LiveEvent → Subscription → Subscription
take_offer skipped e s = s
take_offer queued e s = put (some e) s
take_offer replaced_oldest e s = put (some e) (record s { queue = drop 1 s.queue })
take_offer dropped_event e s = record s { dropped = s.dropped + 1 }

abbrev pub receive : LiveEvent → Subscription → Subscription
receive e s = take_offer (offer e s) e s

abbrev drops : LiveEvent → List Subscription → ℕ
drops e [] = 0
drops e (s ∷ rest) = let n = drops e rest in elim (offer e s) [ dropped_event ↦ suc n | _ ↦ n ]

unfoldable pub publish : LiveEvent → EventBroker → EventBroker
publish e b = record b {
  subs = map (receive e) b.subs;
  dropped_noncritical = b.dropped_noncritical + drops e b.subs;
}

abbrev same_kind : Kind → Kind → Bool
same_kind sse sse = true
same_kind ws ws = true
same_kind _ _ = false

abbrev pub active : Kind → List Subscription → ℕ
active kind [] = 0
active kind (s ∷ rest) =
    let n = active kind rest in if same_kind s.kind kind && not s.closed then suc n else n

abbrev pub limit_of : Kind → EventBroker → ℕ
limit_of sse b = b.max_sse
limit_of ws b = b.max_ws

-- An `err` is the SubscriberLimitError, with the kind that it names.
unfoldable pub subscribe :
    String → Kind → EventFilter → EventBroker → Result Kind (Subscription × EventBroker)
subscribe id kind wanted b =
    let s : Subscription = record {
      subscription_id = id;
      max_size = b.queue_size;
      queue = [];
      event_filter = wanted;
      kind = kind;
      dropped = 0;
      closed = false;
    } in
    if leb (limit_of kind b) (active kind b.subs)
    then err kind
    else ok (s, record b { subs = b.subs ++ s ∷ [] })

-- Ids are unique: the subscription that is removed, and the others.
abbrev pop_sub : String → List Subscription → Option Subscription × List Subscription
pop_sub id [] = (none, [])
pop_sub id (s ∷ rest) =
    let (found, others) = pop_sub id rest in
    if str_eq s.subscription_id id then (some s, rest) else (found, s ∷ others)

abbrev close_found : Option Subscription → Option Subscription
close_found none = none
close_found (some s) = some (close s)

-- The subscription that was closed, whose stream still reads its queue.
unsubscribe : String → EventBroker → Option Subscription × EventBroker
unsubscribe id b =
    let (found, others) = pop_sub id b.subs in (close_found found, record b { subs = others })

close_all : EventBroker → List Subscription × EventBroker
close_all b = (map close b.subs, record b { subs = [] })
