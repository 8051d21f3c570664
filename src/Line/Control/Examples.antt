-- ===== src/Line/Control/Examples.antt =====
-- Tests of the control bytes, and the laws at concrete bytes.
use intelipump.Common.{◌≡◌, refl, ok}
use intelipump.Line.Control.{ack, classify_control}

classify_ack : classify_control 0xC5 ≡ ok ack
unfolding classify_control
classify_ack = refl
