-- ===== src/Line/Frame.antt =====
-- line/models.py, line/frame_builder.py and line/frame_parser.py. `raw` is a list of bytes; a
-- message's text is left out of `ParseError`. `none` for `crc_fn` is Python's `None`.
pub mod RoundTrip
pub mod Reading
mod Examples
use intelipump.Common.{
  ℕ, ◌-◌, Bool, not, Option, none, some, List, [], ◌∷◌, ◌++◌, ltb, leb, ◌==◌, if◌then◌else◌, length,
  take, drop, get_or, Result, ok, err, ◌>>=◌, ◌>>◌, guard,
}
use intelipump.Line.Constants.{
  etx, dle, sf, max_buffer_size, min_data_frame_size, LineError, sequence_out_of_range,
  address_out_of_range, use_data_builder, cannot_build_unknown, buffer_exceeds_max,
}
use intelipump.Line.Control.{
  ControlType, poll, data_block, iap, nak, eot, ack, ackpoll, classify_control, extract_sequence,
  is_unknown, is_data, compose_control,
}
use intelipump.Line.Crc.{CrcFn, CrcCandidate, get_crc_fn, crc_bytes_le, crc_from_le_bytes}
use intelipump.Line.Escaping.{escape_dle, unescape_dle}

pub data ParseErrorCode : Type 0 where
  too_short missing_sf invalid_terminator malformed_dle : ParseErrorCode
  too_short_data missing_etx buffer_too_large : ParseErrorCode

pub record ParseError : Type 0 where
  pub code : ParseErrorCode
  pub raw : List ℕ

pub record DartLineFrame : Type 0 where
  pub address : ℕ
  pub control : ℕ
  pub control_type : ControlType
  pub sequence : ℕ
  pub payload : List ℕ
  pub received_crc : Option ℕ
  pub computed_crc : Option ℕ
  pub crc_valid : Option Bool
  pub raw_frame : List ℕ
  pub unknown_control : Bool

-- `DartLineFrame | ParseError`
pub data Parsed : Type 0 where
  frame : DartLineFrame → Parsed
  failed : ParseError → Parsed

validate_address : ℕ → Result LineError (Unit {0})
validate_address address = guard (leb address 0xFF) address_out_of_range

unfoldable pub build_control_frame : ℕ → ControlType → ℕ → Result LineError (List ℕ)
unfolding validate_address
build_control_frame address control_type sequence = do
  if is_data control_type then err use_data_builder else ok tt
  if is_unknown control_type then err cannot_build_unknown else ok tt
  validate_address address
  control ← compose_control control_type sequence
  let buffer = address ∷ control ∷ []
  guard (leb (length buffer) max_buffer_size) buffer_exceeds_max
  ok (escape_dle buffer ++ sf ∷ [])

pub build_poll : ℕ → Result LineError (List ℕ)
build_poll address = build_control_frame address poll 0

unfoldable pub build_ack : ℕ → ℕ → Result LineError (List ℕ)
build_ack address sequence = build_control_frame address ack sequence

build_nak : ℕ → ℕ → Result LineError (List ℕ)
build_nak address sequence = build_control_frame address nak sequence

build_eot : ℕ → ℕ → Result LineError (List ℕ)
build_eot address sequence = build_control_frame address eot sequence

build_ackpoll : ℕ → ℕ → Result LineError (List ℕ)
build_ackpoll address sequence = build_control_frame address ackpoll sequence

build_iap : ℕ → Result LineError (List ℕ)
build_iap address = build_control_frame address iap 0

-- `crc_fn if crc_fn is not None else get_crc_fn(crc_candidate)`
abbrev pub choose_crc : Option CrcFn → CrcCandidate → CrcFn
choose_crc none candidate = get_crc_fn candidate
choose_crc (some fn) candidate = fn

-- ADR CTRL DATA... CRC1 CRC2 ETX, before escaping.
data_buffer : CrcFn → ℕ → ℕ → List ℕ → Result LineError (List ℕ)
data_buffer fn address control payload = do
  let crc_input = address ∷ control ∷ payload
  pair ← crc_bytes_le (fn crc_input)
  ok (crc_input ++ (pair ++ etx ∷ []))

unfoldable pub build_data_frame :
    Option CrcFn → CrcCandidate → ℕ → ℕ → List ℕ → Result LineError (List ℕ)
unfolding validate_address data_buffer
build_data_frame crc_fn candidate address sequence payload = do
  validate_address address
  guard (leb sequence 0x0F) sequence_out_of_range
  control ← compose_control data_block sequence
  buffer ← data_buffer (choose_crc crc_fn candidate) address control payload
  guard (leb (length buffer) max_buffer_size) buffer_exceeds_max
  ok (escape_dle buffer ++ sf ∷ [])

-- `xs[-k]`, for `k` from 1 to the length; 0 stands for an index out of range, which the parser's
-- length tests exclude.
abbrev pub from_end : ℕ → List ℕ → ℕ
from_end k xs = get_or xs (length xs - k) 0

-- `xs[:-k]`
abbrev pub drop_end : ℕ → List ℕ → List ℕ
drop_end k xs = take (length xs - k) xs

-- A frame of two bytes, ADR and CTRL.
abbrev control_frame : List ℕ → ControlType → ℕ → ℕ → ℕ → Parsed
control_frame raw control_type address control sequence =
    if is_data control_type
    then failed (record { code = too_short_data; raw = raw })
    else frame (record {
      address = address;
      control = control;
      control_type = control_type;
      sequence = sequence;
      payload = [];
      received_crc = none;
      computed_crc = none;
      crc_valid = none;
      raw_frame = raw;
      unknown_control = is_unknown control_type;
    })

-- A longer frame, whatever its control byte.
data_frame : CrcFn → List ℕ → List ℕ → ControlType → ℕ → ℕ → ℕ → Result LineError Parsed
data_frame fn raw buffer control_type address control sequence =
    if ltb (length buffer) min_data_frame_size
    then ok (failed (record { code = too_short_data; raw = raw }))
    else if not (from_end 1 buffer == etx)
    then ok (failed (record { code = missing_etx; raw = raw }))
    else do
      let payload = drop 2 (drop_end 3 buffer)
      received ← crc_from_le_bytes (from_end 3 buffer) (from_end 2 buffer)
      let computed = fn (address ∷ control ∷ payload)
      ok (
          frame (record {
            address = address;
            control = control;
            control_type = control_type;
            sequence = sequence;
            payload = payload;
            received_crc = some received;
            computed_crc = some computed;
            crc_valid = some (computed == received);
            raw_frame = raw;
            unknown_control = is_unknown control_type;
          }))

-- The parser after unescaping.
parse_buffer : CrcFn → List ℕ → List ℕ → Result LineError Parsed
unfolding data_frame
parse_buffer fn raw buffer =
    if ltb max_buffer_size (length buffer)
    then ok (failed (record { code = buffer_too_large; raw = raw }))
    else if ltb (length buffer) 2
    then ok (failed (record { code = too_short; raw = raw }))
    else do
      let address = get_or buffer 0 0
      let control = get_or buffer 1 0
      control_type ← classify_control control
      sequence ← extract_sequence control
      if length buffer == 2
          then ok (control_frame raw control_type address control sequence)
          else data_frame fn raw buffer control_type address control sequence

parse_body : CrcFn → List ℕ → Result LineError (List ℕ) → Result LineError Parsed
unfolding parse_buffer
parse_body fn raw (ok buffer) = parse_buffer fn raw buffer
parse_body fn raw (err e) = ok (failed (record { code = malformed_dle; raw = raw }))

unfoldable pub parse_frame : Option CrcFn → CrcCandidate → List ℕ → Result LineError Parsed
unfolding parse_body
parse_frame crc_fn candidate raw =
    if ltb (length raw) 3
    then ok (failed (record { code = too_short; raw = raw }))
    else if not (from_end 1 raw == sf)
    then ok (failed (record { code = missing_sf; raw = raw }))
    else if from_end 2 raw == dle
    then ok (failed (record { code = invalid_terminator; raw = raw }))
    else parse_body (choose_crc crc_fn candidate) raw (unescape_dle (drop_end 1 raw))
