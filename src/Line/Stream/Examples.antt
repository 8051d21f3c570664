-- ===== src/Line/Stream/Examples.antt =====
-- The assembler at concrete byte streams.
use intelipump.Line.Stream.Splitting.{feed_splits_frame, cut_event}
use intelipump.Common.{ℕ, ◌≡◌, refl, false, none, some, List, [], ◌∷◌, ◌++◌, arith, ok}
use intelipump.Line.Constants.{etx, dle, sf}
use intelipump.Line.Crc.{get_crc_fn, default_crc_candidate, crc_bytes_le}
use intelipump.Line.Control.{compose_control}
use intelipump.Line.Escaping.{escape_dle}
use intelipump.Line.Frame.{build_data_frame, frame, parse_frame}
use intelipump.Line.Frame.RoundTrip.{received}
use intelipump.Line.Stream.{
  assembled, noise, AssemblerEvent, Assembler, default_max_buffer, pending_size, Fed,
  check_overflow, close_frame, feed_byte, feed,
}
use intelipump.Line.Stream.Conservation.{raws, feed-conserves, IsBounded, feed-IsBounded}
use intelipump.Line.Stream.Assembly.{IsIdle, feed-build_data}

abbrev idle_assembler : Assembler
idle_assembler = record { max_buffer = default_max_buffer; buf = []; after_dle = false }

idle_assembler-IsIdle : IsIdle idle_assembler
idle_assembler-IsIdle = record { empty = refl; flag = refl; room = omega arith }

abbrev noise_event : AssemblerEvent
noise_event = record { kind = noise; raw = sf ∷ []; parsed = none; error = none }

noise_first :
    feed idle_assembler (sf ∷ 0x51 ∷ [])
    ≡ ok (record idle_assembler { buf = 0x51 ∷ [] }, noise_event ∷ [])
unfolding feed feed_byte check_overflow close_frame pending_size
noise_first = refl

feed-conserves_example : raws (noise_event ∷ []) ++ 0x51 ∷ [] ≡ sf ∷ 0x51 ∷ []
feed-conserves_example = feed-conserves idle_assembler (sf ∷ 0x51 ∷ []) noise_first

feed-IsBounded_example : IsBounded 512 (record idle_assembler { buf = 0x51 ∷ [] })
unfolding pending_size
feed-IsBounded_example =
    feed-IsBounded idle_assembler (sf ∷ 0x51 ∷ []) 512 (omega arith, refl) noise_first

abbrev status_wire : List ℕ
status_wire = 0x51 ∷ 0x32 ∷ 0x01 ∷ 0x01 ∷ 0x05 ∷ 0x63 ∷ 0x27 ∷ 0x03 ∷ 0xFA ∷ []

built : build_data_frame none default_crc_candidate 0x51 2 (1 ∷ 1 ∷ 5 ∷ []) ≡ ok status_wire
unfolding build_data_frame compose_control crc_bytes_le get_crc_fn escape_dle
built = refl

feed-build_data_example :
    feed idle_assembler status_wire
    ≡ ok (
      idle_assembler,
      record {
        kind = assembled;
        raw = status_wire;
        parsed = some (received none default_crc_candidate 0x51 2 (1 ∷ 1 ∷ 5 ∷ []) status_wire);
        error = none;
      }
          ∷ [],
    )
unfolding get_crc_fn
feed-build_data_example =
    feed-build_data 0x51 2 (1 ∷ 1 ∷ 5 ∷ []) status_wire idle_assembler idle_assembler-IsIdle built
      (refl, (refl, (refl, (refl, (refl, (refl, (refl, (refl, tt))))))))

-- A payload of DLE and SF.
abbrev cut_wire : List ℕ
cut_wire = 0x51 ∷ 0x32 ∷ dle ∷ dle ∷ sf ∷ 0x3C ∷ 0xB0 ∷ etx ∷ sf ∷ []

built_cut : build_data_frame none default_crc_candidate 0x51 2 (dle ∷ sf ∷ []) ≡ ok cut_wire
unfolding build_data_frame compose_control crc_bytes_le get_crc_fn escape_dle
built_cut = refl

feed_splits_frame_example :
    (r : Fed) × (rest : List AssemblerEvent) × (feed idle_assembler cut_wire ≡ ok r)
    × (r.1 ≡ cut_event (escape_dle (0x51 ∷ 0x32 ∷ [])) ∷ rest)
    × (parse_frame none default_crc_candidate cut_wire
        ≡ ok (frame (received none default_crc_candidate 0x51 2 (dle ∷ sf ∷ []) cut_wire)))
feed_splits_frame_example =
    feed_splits_frame 0x51 2 [] [] cut_wire idle_assembler idle_assembler-IsIdle built_cut
      (refl, (refl, tt)) (omega arith)
