-- ===== src/Line/Control.antt =====
-- line/control.py and line/sequence.py. The constructor `data_block` is ControlType.DATA.
pub mod Laws
mod Examples
use intelipump.Common.{
  ℕ, ◌+◌, Bool, true, false, ◌&&◌, ◌||◌, bit_and, bit_or, leb, ◌==◌, if◌then◌else◌, Result, ok, err,
  ◌>>=◌, ◌>>◌, guard,
}
use intelipump.Line.Constants.{
  poll_base, data_base, iap_base, nak_base, eot_base, ack_base, ackpoll_base, sequence_mask,
  control_type_mask, LineError, control_out_of_range, sequence_out_of_range, cannot_compose_unknown,
  sequence_must_be_zero, no_base_defined,
}

pub data ControlType : Type 0 where
  poll data_block iap nak eot ack ackpoll unknown : ControlType

pub control_type_base : ControlType → Result LineError ℕ
control_type_base poll = ok poll_base
control_type_base data_block = ok data_base
control_type_base iap = ok iap_base
control_type_base nak = ok nak_base
control_type_base eot = ok eot_base
control_type_base ack = ok ack_base
control_type_base ackpoll = ok ackpoll_base
control_type_base unknown = err no_base_defined

-- The family of a byte, after the range check.
classify_byte : ℕ → ControlType
classify_byte control =
    if control == poll_base
    then poll
    else if control == iap_base
    then iap
    else let high = bit_and control control_type_mask in
      if high == data_base
      then data_block
      else if high == nak_base
      then nak
      else if high == eot_base
      then eot
      else if high == ack_base
      then ack
      else if high == ackpoll_base
      then ackpoll
      else unknown

unfoldable pub classify_control : ℕ → Result LineError ControlType
unfolding classify_byte
classify_control control = do
  guard (leb control 0xFF) control_out_of_range
  ok (classify_byte control)

unfoldable pub extract_sequence : ℕ → Result LineError ℕ
extract_sequence control = do
  guard (leb control 0xFF) control_out_of_range
  ok (bit_and control sequence_mask)

abbrev pub is_unknown : ControlType → Bool
is_unknown unknown = true
is_unknown _ = false

abbrev pub is_data : ControlType → Bool
is_data data_block = true
is_data _ = false

-- POLL and IAP are single bytes with no sequence number.
abbrev pub is_fixed : ControlType → Bool
is_fixed poll = true
is_fixed iap = true
is_fixed _ = false

unfoldable pub compose_control : ControlType → ℕ → Result LineError ℕ
unfolding control_type_base
compose_control control_type sequence = do
  guard (leb sequence 0x0F) sequence_out_of_range
  if is_unknown control_type then err cannot_compose_unknown else ok tt
  if is_fixed control_type then guard (sequence == 0) sequence_must_be_zero else ok tt
  base ← control_type_base control_type
  ok (bit_or base sequence)

validate_sequence : ℕ → Result LineError ℕ
validate_sequence sequence = do guard (leb sequence 0x0F) sequence_out_of_range; ok sequence

unfoldable pub next_tx_sequence : ℕ → Result LineError ℕ
unfolding validate_sequence
next_tx_sequence sequence = do
  _ ← validate_sequence sequence
  if sequence == 0x0F then ok 0x01 else ok (sequence + 1)
