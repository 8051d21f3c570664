-- ===== src/Controller/Session/Cases.antt =====
-- The branches of handle_response_frame and of `_on_data`.
use intelipump.Controller.Session.Apply.{tell}
use intelipump.Controller.Events.{SessionError, address_mismatch, unexpected_control}
use intelipump.Line.Frame.{DartLineFrame}
use intelipump.Controller.Session.Types.{PumpSession}
use intelipump.Controller.Session.Data.{
  on_unexpected, on_duplicate, repeats, on_bad_crc, crc_failed, Reply, on_data, on_accepted,
}
use intelipump.Controller.Session.{on_nak, on_eot, receive, with_error, handle_response_frame}
use intelipump.Common.{ℕ, ◌≡◌, refl, inl, inr, true, false, none, ◌==◌, Bool-cases, ok, ◌∙◌, arith}
use intelipump.Line.Control.{eot, data_block, nak, ControlType, poll, iap, ack, ackpoll, unknown}

-- A proof for every branch, given the test that leads there.
pub handle_cases {ℓ} :
    (P : PumpSession × Reply → Type ℓ) (now : ℕ) (fr : DartLineFrame) (s : PumpSession)
    → ((e : SessionError) → P (with_error e (receive now fr s), ok none))
    → (fr.control_type ≡ eot → P (on_eot (receive now fr s), ok none))
    → (fr.control_type ≡ nak → P (on_nak fr (receive now fr s), ok none))
    → ((fr.address == s.state.address) ≡ true
        → fr.control_type ≡ data_block
        → P (on_data fr (receive now fr s)))
    → P (handle_response_frame now fr s)
unfolding handle_response_frame
handle_cases P now fr s other heard refused block =
    elim (Bool-cases (fr.address == s.state.address)) [
      | inr a ↦ rw a (other address_mismatch)
      | inl a ↦ rw a (by_type fr.control_type refl a)
    ]
  where
    branch : ControlType → PumpSession × Reply
    branch t = elim t [
      | eot ↦ (on_eot (receive now fr s), ok none)
      | data_block ↦ on_data fr (receive now fr s)
      | nak ↦ (on_nak fr (receive now fr s), ok none)
      | other ↦ (with_error (unexpected_control other) (receive now fr s), ok none)
    ]

    by_type :
        (t : ControlType)
        → fr.control_type ≡ t
        → (fr.address == s.state.address) ≡ true
        → P (branch t)
    by_type eot e a = heard e
    by_type nak e a = refused e
    by_type data_block e a = block a e
    by_type poll e a = other (unexpected_control poll)
    by_type iap e a = other (unexpected_control iap)
    by_type ack e a = other (unexpected_control ack)
    by_type ackpoll e a = other (unexpected_control ackpoll)
    by_type unknown e a = other (unexpected_control unknown)

pub on_data_cases {ℓ} :
    (P : PumpSession × Reply → Type ℓ) (fr : DartLineFrame) (s : PumpSession)
    → (crc_failed fr ≡ true → P (on_bad_crc s, ok none))
    → (crc_failed fr ≡ false → repeats fr s ≡ true → P (on_duplicate fr s))
    → (P (on_unexpected fr s, ok none))
    → (crc_failed fr ≡ false
        → repeats fr s ≡ false
        → (fr.sequence == s.state.expected_rx_sequence) ≡ true
        → P (on_accepted fr s))
    → P (on_data fr s)
unfolding on_data
on_data_cases P fr s bad again unexpected next = elim (Bool-cases (crc_failed fr)) [
  | inl a ↦ rw a (bad a)
  | inr a ↦ elim (Bool-cases (repeats fr s)) [
    | inl b ↦ rw (a, b) (again a b)
    | inr b ↦ elim (Bool-cases (fr.sequence == s.state.expected_rx_sequence)) [
      | inl c ↦ rw (a, b, c) (next a b c)
      | inr c ↦ rw (a, b, c) unexpected
    ]
  ]
]

-- A data frame from the address of the session comes to `_on_data`.
pub data_path :
    (now : ℕ) (fr : DartLineFrame) (s : PumpSession)
    → fr.address ≡ s.state.address
    → fr.control_type ≡ data_block
    → handle_response_frame now fr s ≡ on_data fr (receive now fr s)
unfolding handle_response_frame
data_path now fr s address type =
    let here : (fr.address == s.state.address) ≡ true = ground (arith, address) in
    simp (handle_response_frame, here, type) refl

pub next_path :
    (fr : DartLineFrame) (s : PumpSession)
    → crc_failed fr ≡ false
    → repeats fr s ≡ false
    → (fr.sequence == s.state.expected_rx_sequence) ≡ true
    → on_data fr s ≡ on_accepted fr s
unfolding on_data
next_path fr s sound new next = rw (on_data, sound, new, next) refl

pub repeat_path :
    (fr : DartLineFrame) (s : PumpSession)
    → crc_failed fr ≡ false
    → repeats fr s ≡ true
    → on_data fr s ≡ on_duplicate fr s
unfolding on_data
repeat_path fr s sound again = rw (on_data, sound, again) refl

pub duplicate_path :
    (now : ℕ) (fr : DartLineFrame) (s : PumpSession)
    → fr.address ≡ s.state.address
    → fr.control_type ≡ data_block
    → crc_failed fr ≡ false
    → repeats fr s ≡ true
    → handle_response_frame now fr s ≡ on_duplicate fr (receive now fr s)
unfolding receive tell
duplicate_path now fr s address type sound again =
    data_path now fr s address type ∙ repeat_path fr (receive now fr s) sound again
