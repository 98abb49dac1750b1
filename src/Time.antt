-- ===== src/Time.antt =====
-- `TimePartition` of crates/dht/src/time.rs: the slices of time of one sector.
pub mod Sizes
pub mod Layout
pub mod Partition
pub mod Update
pub mod Inform
pub mod Matches
pub mod Hashes
pub mod Slices
pub mod Stored
pub mod Informed
pub mod Informing
pub mod StoredHashes
pub mod Links
pub mod Contiguity
pub mod Bounds
use Prim.Native.Nat.{bit_or}
use kitsune.Prelude.{
  ℕ, zero, suc, ◌+◌, ◌-◌, ◌*◌, ◌/◌, ◌%◌, ◌^◌, Bool, true, false, Option, none, some, List, [], ◌∷◌,
  ◌++◌, ltb, leb, if◌then◌else◌,
}
use kitsune.Prelude.Outcome.{Outcome, K2Error, other, ok, err, panic, ◌>>=◌}
use kitsune.Timestamp.{Timestamp, Duration, unix_timestamp, from_secs, add_duration, sub_timestamp}

-- `UNIT_TIME.as_secs()` of crates/dht/src/constant.rs
abbrev pub unit_secs : ℕ
unit_secs = 15 * 60

-- `1u64 << i`: the shift count is taken modulo the width
abbrev pub shl_one : ℕ → ℕ
shl_one i = 2 ^ (i % 64)

-- `Duration::from_secs((1u64 << size) * UNIT_TIME.as_secs())`
unfoldable pub slice_duration : ℕ → Duration
slice_duration size = from_secs (shl_one size * unit_secs % 2 ^ 64)

-- `for i in 1..=factor { sum |= 1u64 << i; }`
unfoldable pub residual_sum : ℕ → ℕ
residual_sum zero = 1
residual_sum (suc i) = bit_or (residual_sum i) (shl_one (suc i))

unfoldable pub residual_duration_for_factor : ℕ → Outcome Duration
residual_duration_for_factor factor =
    if leb 54 factor
    then err (other "Time partitioning factor must be less than 54")
    else ok (from_secs (residual_sum factor * unit_secs % 2 ^ 64))

-- The slices of one size: where they start and how large they are, then the new `start_at` and
-- `recent_time`. A `Duration` that would fall below zero panics.
unfoldable pub push_slices :
    ℕ → ℕ → Duration → Timestamp → Duration → Outcome (List (Timestamp × ℕ) × Timestamp × Duration)
push_slices zero i slice_size start_at recent_time = ok ([], start_at, recent_time)
push_slices (suc n) i slice_size start_at recent_time =
    if ltb recent_time slice_size
    then panic
    else push_slices n i slice_size (add_duration start_at slice_size) (recent_time - slice_size)
      >>= λ r. ok ((start_at, i) ∷ r.0, r.1, r.2)

-- The number of slices of size `i`; 0 where the source continues.
unfoldable pub slice_count : ℕ → Duration → Outcome ℕ
slice_count i recent_time = do
  residual ← residual_duration_for_factor i
  ok (
      if ltb (residual + slice_duration i) recent_time
      then 2
      else if ltb (slice_duration i) recent_time
      then 1
      else 0)

-- `for i in (0..self.factor).rev()`
unfoldable pub partials_below : ℕ → Timestamp → Duration → Outcome (List (Timestamp × ℕ))
partials_below zero start_at recent_time = ok []
partials_below (suc i) start_at recent_time = do
  n ← slice_count i recent_time
  r ← push_slices n i (slice_duration i) start_at recent_time
  rest ← partials_below i r.1 r.2
  ok (r.0 ++ rest)

unfoldable pub layout_partials : ℕ → Timestamp → Timestamp → Outcome (List (Timestamp × ℕ))
layout_partials factor start_at current_time = elim (sub_timestamp current_time start_at) [
  | none ↦ err (
      other
        "Failed to calculate recent time for partials, either the clock is wrong or this is a bug")
  | some recent_time ↦ partials_below factor start_at recent_time
]
