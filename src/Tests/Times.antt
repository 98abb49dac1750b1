-- ===== src/Tests/Times.antt =====
-- Times of crates/api/src/timestamp.rs and the layout of crates/dht/src/time.rs.
use kitsune.Prelude.{◌≡◌, some, none, arith}
use kitsune.Timestamp.{Timestamp, Duration, add_duration, sub_duration, sub_timestamp}
use kitsune.Timestamp.Order.{sub-add}

sub-add_example :
    (d : Duration) × (sub_timestamp 1700000000000000 900000000 ≡ some d)
    × (add_duration 900000000 d ≡ 1700000000000000)
    × (sub_duration 1700000000000000 d ≡ some 900000000)
    × (sub_timestamp 900000000 1700000000000000 ≡ none)
sub-add_example = sub-add 1700000000000000 900000000 (omega arith) (omega arith)
