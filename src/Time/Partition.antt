-- ===== src/Time/Partition.antt =====
-- The state of `TimePartition` (crates/dht/src/time.rs), and the methods that do not call the op
-- store.
use kitsune.Prelude.Outcome
use kitsune.Prelude.Outcome.{Outcome, K2Error, other, ok, err, panic}
use kitsune.Arc.{DhtArc}
use kitsune.Combine.{Bytes}
use kitsune.Prelude.{
  ℕ, ◌+◌, ◌-◌, ◌*◌, ◌/◌, ◌%◌, ◌^◌, ◌&&◌, Option, none, some, List, [], ◌∷◌, ◌++◌, map, length,
  get_elem?, ltb, ◌==◌, if◌then◌else◌,
}
use kitsune.Timestamp.{
  Timestamp, Duration, unix_timestamp, from_secs, add_duration, sub_timestamp, lt_i64,
}
use kitsune.Time.{unit_secs, slice_duration, residual_duration_for_factor}

pub record PartialSlice : Type 0 where
  pub start : Timestamp
  pub size : ℕ
  pub hash : Bytes

pub record TimePartition : Type 0 where
  pub factor : ℕ
  pub full_slices : ℕ
  pub partial_slices : List PartialSlice
  pub full_slice_duration : Duration
  pub min_recent_time : Duration
  pub next_update_at : Timestamp
  pub sector_constraint : DhtArc

-- `PartialSlice::end`
unfoldable pub slice_end : PartialSlice → Timestamp
slice_end p = add_duration p.start (slice_duration p.size)

abbrev pub last {ℓ} : {A : Type ℓ} → List A → Option A
last [] = none
last (x ∷ []) = some x
last (x ∷ y ∷ ys) = last (y ∷ ys)

abbrev pub as_secs : Duration → ℕ
as_secs d = d / 1000000

-- `TimePartition::new`; `factor - 1` is taken on `u8`.
unfoldable pub new : ℕ → DhtArc → Outcome TimePartition
new factor sector_constraint =
    Outcome.◌>>=◌ (residual_duration_for_factor ((factor + 255) % 256)) λ min_recent_time.
      ok (record {
        factor = factor;
        full_slices = 0;
        partial_slices = [];
        full_slice_duration = slice_duration factor;
        min_recent_time = min_recent_time;
        next_update_at = 0;
        sector_constraint = sector_constraint;
      })

unfoldable pub full_slice_end_timestamp : TimePartition → Timestamp
full_slice_end_timestamp pt =
    add_duration unix_timestamp
      (from_secs (pt.full_slices * as_secs pt.full_slice_duration % 2 ^ 64))

unfoldable pub layout_full_slices : TimePartition → Timestamp → Outcome ℕ
layout_full_slices pt current_time =
    elim (sub_timestamp current_time (full_slice_end_timestamp pt)) [
      | none ↦ err (other "Current time is before the complete time slice boundary")
      | some recent_time ↦ ok (
          if ltb pt.min_recent_time recent_time
          then as_secs (recent_time - pt.min_recent_time) / as_secs pt.full_slice_duration
          else 0)
    ]

-- The hash of an old slice with the same start and size.
unfoldable pub old_hash : List PartialSlice → Timestamp → ℕ → Option Bytes
old_hash [] start size = none
old_hash (b ∷ old) start size =
    if b.start == start && b.size == size then some b.hash else old_hash old start size

unfoldable pub push_partial : PartialSlice → TimePartition → TimePartition
push_partial p pt = record pt { partial_slices = pt.partial_slices ++ p ∷ [] }

unfoldable pub set_next_update : TimePartition → TimePartition
set_next_update pt = elim (last pt.partial_slices) [
  | none ↦ pt
  | some p ↦ record pt { next_update_at = add_duration (slice_end p) (from_secs unit_secs) }
]

-- The count of full slices that `try_from_store` begins with, where none are stored: those before
-- the one that the earliest op belongs to. `as_micros() as u128` extends the sign.
unfoldable pub initial_full_slices : TimePartition → Timestamp → ℕ
initial_full_slices pt earliest =
    let micros = if lt_i64 earliest 0 then 2 ^ 128 - 2 ^ 64 + earliest else earliest in
    (micros / pt.full_slice_duration - 1) % 2 ^ 64

-- The checks of `try_from_store` before the first update.
unfoldable pub recent_time_reserved : TimePartition → Timestamp → Outcome (Unit {0})
recent_time_reserved pt current_time =
    elim (sub_timestamp current_time (full_slice_end_timestamp pt)) [
      | none ↦
          err (other "Failed to calculate recent time, either the clock is wrong or this is a bug")
      | some recent_time ↦
          Outcome.fail_if (ltb 0 pt.full_slices && ltb recent_time pt.min_recent_time)
            (other "Not enough recent time reserved, either the clock is wrong or this is a bug")
    ]

-- An index past the end by one is let through by the test, and then panics.
unfoldable pub time_bounds_for_partial_slice_index :
    TimePartition → ℕ → Outcome (Timestamp × Timestamp)
time_bounds_for_partial_slice_index pt slice_index =
    if ltb (length pt.partial_slices) slice_index
    then err (other "Requested slice index is beyond the current partial slices")
    else elim (get_elem? pt.partial_slices slice_index) [
      | none ↦ panic
      | some p ↦ ok (p.start, slice_end p)
    ]

unfoldable pub time_bounds_for_full_slice_index :
    TimePartition → ℕ → Outcome (Timestamp × Timestamp)
time_bounds_for_full_slice_index pt slice_index =
    if ltb pt.full_slices slice_index
    then err (other "Requested slice index is beyond the current full slices")
    else let start =
        add_duration unix_timestamp
          (from_secs (slice_index * as_secs pt.full_slice_duration % 2 ^ 64)) in
      ok (start, add_duration start pt.full_slice_duration)

unfoldable pub partial_slice_hashes : TimePartition → List Bytes
partial_slice_hashes pt = map (λ p. p.hash) pt.partial_slices

unfoldable pub partial_slice_hash : TimePartition → ℕ → Outcome Bytes
partial_slice_hash pt slice_index = elim (get_elem? pt.partial_slices slice_index) [
  | none ↦ err (other "Requested slice index is beyond the current partial slices")
  | some p ↦ ok p.hash
]
