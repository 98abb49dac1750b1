-- ===== src/Tests/Slices.antt =====
-- A partition with two partial slices, asked by slice index (crates/dht/src/time.rs).
use kitsune.Prelude.{[], ◌∷◌, length, ◌≡◌}
use kitsune.Prelude.Outcome.{other, ok, err, panic}
use kitsune.Arc.{arc}
use kitsune.Timestamp.{add_duration}
use kitsune.Time.Partition.{
  TimePartition, full_slice_end_timestamp, time_bounds_for_partial_slice_index,
  time_bounds_for_full_slice_index, partial_slice_hash,
}
use kitsune.Time.Bounds.{partial_slice_past_end, full_slice_past_end}

-- Factor 2 with one full slice of four units, then slices of two units and of one.
abbrev two_slices : TimePartition
two_slices = record {
  factor = 2;
  full_slices = 1;
  partial_slices =
      record { start = 3600000000; size = 1; hash = 7 ∷ [] }
      ∷ record { start = 5400000000; size = 0; hash = [] }
      ∷ [];
  full_slice_duration = 3600000000;
  min_recent_time = 2700000000;
  next_update_at = 7200000000;
  sector_constraint = arc 0 8388607;
}

partial_slice_past_end_example :
    (time_bounds_for_partial_slice_index two_slices (length two_slices.partial_slices) ≡ panic)
    × (partial_slice_hash two_slices (length two_slices.partial_slices)
        ≡ err (other "Requested slice index is beyond the current partial slices"))
partial_slice_past_end_example = partial_slice_past_end two_slices

full_slice_past_end_example :
    time_bounds_for_full_slice_index two_slices two_slices.full_slices
    ≡ ok (
      full_slice_end_timestamp two_slices,
      add_duration (full_slice_end_timestamp two_slices) two_slices.full_slice_duration,
    )
full_slice_past_end_example = full_slice_past_end two_slices
