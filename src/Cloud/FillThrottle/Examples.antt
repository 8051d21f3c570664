-- ===== src/Cloud/FillThrottle/Examples.antt =====
-- A filling whose updates are throttled.
use intelipump.Common.{◌≡◌, refl, false, []}
use intelipump.Cloud.FillThrottle.{should_publish_fill, FillPublishBook, decide}
use intelipump.Cloud.FillThrottle.Spacing.{publish_spacing}

abbrev empty_book : FillPublishBook
empty_book = record {
  config = record { min_interval_seconds = 2; min_volume_delta = 100; min_amount_delta = 100 };
  states = [];
}

publish_spacing_example :
    (decide (decide empty_book "t1" 10 20 false 50).1 "t1" 60 70 false 51).0 ≡ false
unfolding decide should_publish_fill
publish_spacing_example = publish_spacing empty_book "t1" 10 20 50 60 70 51 refl
