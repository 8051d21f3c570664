-- ===== src/Controller/Session/Examples.antt =====
-- A session with one pump, and frames that it sends.
use intelipump.Simulator.Config.{spec_f_to_1}
use intelipump.Controller.Events.{new_bus}
use intelipump.Controller.Session.Log.{Follows}
use intelipump.Controller.Session.Silence.{silence_disconnects, timeouts, IsLost}
use intelipump.Controller.Session.Parts.{link}
use intelipump.Pump.Context.{new_context}
use intelipump.Controller.Session.Acceptance.{
  unaccepted-Stands, Woken, next_is_answered, repeat_not_applied, Stands, Answers,
}
use intelipump.Line.Frame.{DartLineFrame}
use intelipump.Controller.Session.Sequence.{calls-InStep, InStep}
use intelipump.Controller.Session.Types.{PumpSession, new_session}
use intelipump.Controller.Session.Run.{
  timed_out_after, calls-Follows, responded, calls, polled, SessionCall,
}
use intelipump.Common.{
  refl, ℕ, ◌≡◌, ◌⊎◌, Bool, true, false, Option, none, some, List, [], ◌∷◌, arith,
}
use intelipump.Controller.Session.{handle_response_frame}
use intelipump.Line.Control.{ControlType, eot, data_block}

abbrev fresh : PumpSession
fresh = new_session 1 "pump-1" new_bus spec_f_to_1

abbrev frame_of : ControlType → ℕ → List ℕ → Option Bool → DartLineFrame
frame_of type sequence payload valid = record {
  address = 1;
  control = 0;
  control_type = type;
  sequence = sequence;
  payload = payload;
  received_crc = none;
  computed_crc = none;
  crc_valid = valid;
  raw_frame = 1 ∷ [];
  unknown_control = false;
}

-- DC1 of status 1, with a good and with a bad CRC.
abbrev reset_frame : DartLineFrame
reset_frame = frame_of data_block 0 (0x01 ∷ 1 ∷ 1 ∷ []) (some true)

abbrev damaged : DartLineFrame
damaged = frame_of data_block 0 (0x01 ∷ 1 ∷ 1 ∷ []) (some false)

abbrev quiet_eot : DartLineFrame
quiet_eot = frame_of eot 0 [] none

unaccepted-Stands_example :
    Stands fresh (handle_response_frame 5 damaged fresh).0
    ⊎ ((data_block ≡ eot) × Woken fresh (handle_response_frame 5 damaged fresh).0)
unfolding new_session
unaccepted-Stands_example = unaccepted-Stands 5 damaged fresh refl

next_is_answered_example : Answers 5 reset_frame fresh (handle_response_frame 5 reset_frame fresh)
unfolding new_session
next_is_answered_example = next_is_answered 5 reset_frame fresh refl (omega arith) (omega arith)

repeat_not_applied_example :
    ((handle_response_frame 9 reset_frame (handle_response_frame 5 reset_frame fresh).0).1
      ≡ (handle_response_frame 5 reset_frame fresh).1)
    × Stands
        (handle_response_frame 5 reset_frame fresh).0
        (handle_response_frame 9 reset_frame (handle_response_frame 5 reset_frame fresh).0).0
unfolding new_session
repeat_not_applied_example =
    repeat_not_applied 5 9 reset_frame reset_frame fresh refl (omega arith) (omega arith) refl refl
      refl refl

abbrev some_calls : List SessionCall
some_calls = polled 1 ∷ responded 2 reset_frame ∷ timed_out_after 5 ∷ responded 3 quiet_eot ∷ []

calls-Follows_example : Follows (calls some_calls fresh)
unfolding new_session new_context
calls-Follows_example = calls-Follows some_calls fresh refl

calls-InStep_example : InStep (link (calls some_calls fresh))
calls-InStep_example =
    calls-InStep some_calls 1 "pump-1" new_bus spec_f_to_1 (omega arith)
      (tt, (omega arith, (tt, (omega arith, tt))))

silence_disconnects_example : IsLost (timeouts 5 5 fresh)
unfolding new_session
silence_disconnects_example = silence_disconnects 4 5 fresh (omega arith)
