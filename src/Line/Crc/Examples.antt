-- ===== src/Line/Crc/Examples.antt =====
-- Tests of the checksum, and its laws at concrete messages.
use intelipump.Common.{◌≡◌, refl, ◌≢◌, [], ◌∷◌, arith}
use intelipump.Line.Crc.{dart_crc16}
use intelipump.Line.Crc.Laws.{dart_crc16_detects_byte}

-- The check value of CRC-16/ARC, the catalogue's name for this algorithm.
arc_check : dart_crc16 (0x31 ∷ 0x32 ∷ 0x33 ∷ 0x34 ∷ 0x35 ∷ 0x36 ∷ 0x37 ∷ 0x38 ∷ 0x39 ∷ []) ≡ 0xBB3D
unfolding dart_crc16
arc_check = refl

dart_crc16_detects_byte_example :
    dart_crc16 (0x51 ∷ 0x30 ∷ 0x01 ∷ []) ≢ dart_crc16 (0x51 ∷ 0x31 ∷ 0x01 ∷ [])
dart_crc16_detects_byte_example =
    dart_crc16_detects_byte (0x51 ∷ []) (0x01 ∷ []) 0x30 0x31 (omega arith) (omega arith)
      (omega arith) (omega arith) (omega arith)
