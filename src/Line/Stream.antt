-- ===== src/Line/Stream.antt =====
-- line/stream.py. An event's message is left out, since its kind and its error determine it.
pub mod Conservation
pub mod Assembly
pub mod Splitting
mod Examples
use intelipump.Common.{
  ℕ, ◌+◌, ◌*◌, Bool, true, false, Option, none, some, List, [], ◌∷◌, ◌++◌, ltb, leb, ◌==◌,
  if◌then◌else◌, length, Result, ok, ◌>>=◌, ◌>>◌,
}
use intelipump.Line.Constants.{dle, sf, max_buffer_size, LineError}
use intelipump.Line.Crc.{default_crc_candidate}
use intelipump.Line.Frame.{ParseError, DartLineFrame, Parsed, frame, failed, parse_frame}

pub data AssemblerEventKind : Type 0 where
  assembled rejected overflow noise : AssemblerEventKind

pub record AssemblerEvent : Type 0 where
  pub kind : AssemblerEventKind
  pub raw : List ℕ
  pub parsed : Option DartLineFrame
  pub error : Option ParseError

pub record Assembler : Type 0 where
  pub max_buffer : ℕ
  pub buf : List ℕ
  pub after_dle : Bool

-- The constructor; `none` is its ValueError.
new_assembler : ℕ → Option Assembler
new_assembler max_buffer =
    if ltb max_buffer 3
    then none
    else some (record { max_buffer = max_buffer; buf = []; after_dle = false })

abbrev pub default_max_buffer : ℕ
default_max_buffer = max_buffer_size * 2

unfoldable pub pending_size : Assembler → ℕ
pending_size a = length a.buf + (if a.after_dle then 1 else 0)

-- The cleared state and the bytes that it held.
unfoldable pub reset : Assembler → Assembler × List ℕ
reset a = (record a { buf = []; after_dle = false }, a.buf)

abbrev pub Fed : Type 0
Fed = Assembler × List AssemblerEvent

pub check_overflow : Assembler → Fed
unfolding pending_size reset
check_overflow a =
    if leb (pending_size a) a.max_buffer
    then (a, [])
    else let (cleared, discarded) = reset a in
      (cleared, record { kind = overflow; raw = discarded; parsed = none; error = none } ∷ [])

-- The event for a complete candidate, by what `parse_frame` says of it.
candidate_event : List ℕ → Parsed → AssemblerEvent
candidate_event raw (failed e) = record {
  kind = rejected;
  raw = raw;
  parsed = none;
  error = some e;
}
candidate_event raw (frame f) = record {
  kind = assembled;
  raw = raw;
  parsed = some f;
  error = none;
}

-- An unescaped SF: `raw` is the buffer with it.
pub close_frame : Assembler → List ℕ → Result LineError Fed
unfolding candidate_event
close_frame a raw = do
  let cleared = record a { buf = []; after_dle = false }
  if ltb (length raw) 3
      then ok (cleared, record { kind = noise; raw = raw; parsed = none; error = none } ∷ [])
      else do
        p ← parse_frame none default_crc_candidate raw
        ok (cleared, candidate_event raw p ∷ [])

unfoldable pub feed_byte : Assembler → ℕ → Result LineError Fed
feed_byte a byte =
    let buf' = a.buf ++ byte ∷ [] in
    if a.after_dle
    then ok (check_overflow (record a { buf = buf'; after_dle = false }))
    else if byte == dle
    then ok (check_overflow (record a { buf = buf'; after_dle = true }))
    else if byte == sf
    then close_frame a buf'
    else ok (check_overflow (record a { buf = buf' }))

unfoldable pub feed : Assembler → List ℕ → Result LineError Fed
feed a [] = ok (a, [])
feed a (byte ∷ rest) = do
  now ← feed_byte a byte
  later ← feed now.0 rest
  ok (later.0, now.1 ++ later.1)
