-- ===== src/Line/Constants.antt =====
-- line/constants.py, and the exceptions that the line modules raise. An exception is named for its
-- message; the numbers that the messages quote are left out.
use intelipump.Common.{ℕ}

abbrev pub etx : ℕ
etx = 0x03

abbrev pub dle : ℕ
dle = 0x10

abbrev pub sf : ℕ
sf = 0xFA

abbrev pub poll_base : ℕ
poll_base = 0x20

abbrev pub data_base : ℕ
data_base = 0x30

abbrev pub iap_base : ℕ
iap_base = 0x40

abbrev pub nak_base : ℕ
nak_base = 0x50

abbrev pub eot_base : ℕ
eot_base = 0x70

abbrev pub ack_base : ℕ
ack_base = 0xC0

abbrev pub ackpoll_base : ℕ
ackpoll_base = 0xE0

abbrev pub sequence_mask : ℕ
sequence_mask = 0x0F

abbrev pub control_type_mask : ℕ
control_type_mask = 0xF0

abbrev pub max_buffer_size : ℕ
max_buffer_size = 256

abbrev pub min_data_frame_size : ℕ
min_data_frame_size = 5

pub data LineError : Type 0 where
  control_out_of_range sequence_out_of_range cannot_compose_unknown : LineError
  sequence_must_be_zero no_base_defined : LineError
  crc_out_of_range crc_bytes_out_of_range : LineError
  truncated_escape unescaped_sf : LineError
  address_out_of_range use_data_builder cannot_build_unknown buffer_exceeds_max : LineError
