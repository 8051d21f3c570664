-- ===== src/Line/Frame/Examples.antt =====
-- The laws of frames at concrete frames.
use intelipump.Line.Frame.RoundTrip.{parse-build_data, received}
use intelipump.Common.{ℕ, ◌≡◌, refl, none, List, [], ◌∷◌, ok}
use intelipump.Line.Control.{compose_control}
use intelipump.Line.Crc.{get_crc_fn, default_crc_candidate, crc_bytes_le}
use intelipump.Line.Escaping.{escape_dle}
use intelipump.Line.Frame.{build_data_frame, frame, parse_frame}

abbrev status_wire : List ℕ
status_wire = 0x51 ∷ 0x32 ∷ 0x01 ∷ 0x01 ∷ 0x05 ∷ 0x63 ∷ 0x27 ∷ 0x03 ∷ 0xFA ∷ []

built : build_data_frame none default_crc_candidate 0x51 2 (1 ∷ 1 ∷ 5 ∷ []) ≡ ok status_wire
unfolding build_data_frame compose_control crc_bytes_le get_crc_fn escape_dle
built = refl

parse-build_data_example :
    parse_frame none default_crc_candidate status_wire
    ≡ ok (frame (received none default_crc_candidate 0x51 2 (1 ∷ 1 ∷ 5 ∷ []) status_wire))
parse-build_data_example =
    parse-build_data none default_crc_candidate 0x51 2 (1 ∷ 1 ∷ 5 ∷ []) status_wire built
