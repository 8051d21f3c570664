-- ===== src/Pump/Machine/Call.antt =====
-- The arguments of PumpStateMachine.apply (state_machine/machine.py), and the tests on optional values
-- that its branches make.
use intelipump.Common.{
  ℕ, String, Bool, true, false, not, xor, ◌||◌, Option, none, some, List, [], ◌∷◌, str_eq, ltb,
  ◌==◌, if◌then◌else◌, decided,
}
use intelipump.Pump.State.{PumpState, PumpEvent, PumpState-discrete, PumpEvent-discrete}
use intelipump.Pump.Context.{ObservationRef}

-- The arguments of `apply`; `none` is the default `None`.
pub record Input : Type 0 where
  pub event : PumpEvent
  pub observation : Option ObservationRef
  pub observed_at : Option ℕ
  pub selected_nozzle : Option ℕ
  pub active_transaction_id : Option String
  pub raw_wayne_status : Option ℕ
  pub price_verified : Option Bool
  pub fault_code : Option ℕ
  pub completion_evidence_key : Option String
  pub allow_implicit_authorize_to_filling : Bool

abbrev pub is_event : PumpEvent → PumpEvent → Bool
is_event a b = decided (PumpEvent-discrete a b)

abbrev pub is_state : PumpState → PumpState → Bool
is_state a b = decided (PumpState-discrete a b)

-- `observed_at < last_observation_at`, both given.
abbrev pub is_before : Option ℕ → Option ℕ → Bool
is_before (some a) (some b) = ltb a b
is_before _ _ = false

-- `observation.source_frame_raw_hex`
abbrev pub hex_of : Option ObservationRef → Option String
hex_of none = none
hex_of (some o) = o.source_frame_raw_hex

-- `observation and observation.source_frame_raw_hex`: an empty text is false.
abbrev pub truthy_hex : Option String → Option String
truthy_hex none = none
truthy_hex (some h) = if str_eq h "" then none else some h

abbrev pub same_text : Option String → Option String → Bool
same_text (some a) (some b) = str_eq a b
same_text _ _ = false

abbrev pub has_key : String → List String → Bool
has_key k [] = false
has_key k (j ∷ js) = str_eq k j || has_key k js

-- `key is not None and key in keys`
abbrev pub known_key : Option String → List String → Bool
known_key none keys = false
known_key (some k) keys = has_key k keys

-- `frozenset({*keys, key})`
abbrev pub add_key : String → List String → List String
add_key k keys = if has_key k keys then keys else k ∷ keys

-- `new is not None and new != old`, on numbers, texts and Booleans.
abbrev pub differs : Option ℕ → Option ℕ → Bool
differs none old = false
differs (some n) none = true
differs (some n) (some m) = not (n == m)

abbrev pub text_differs : Option String → Option String → Bool
text_differs none old = false
text_differs (some n) none = true
text_differs (some n) (some m) = not (str_eq n m)

abbrev pub flag_differs : Option Bool → Bool → Bool
flag_differs none old = false
flag_differs (some n) old = xor n old

abbrev pub or_flag : Option Bool → Bool → Bool
or_flag none old = old
or_flag (some b) old = b
