-- ===== src/Time/Update.antt =====
-- `TimePartition::try_from_store` and `update` (crates/dht/src/time.rs), over the op store that the
-- host provides. A method works on the partition and the state of the store.
use kitsune.Prelude.{ℕ, zero, suc, ◌+◌, Option, none, some, List, [], ◌∷◌, ◌==◌, if◌then◌else◌}
use kitsune.Prelude.Outcome
use kitsune.Prelude.Outcome.{Outcome, K2Error, other, ok, err, panic}
use kitsune.Prelude.Exec.{Exec, pure, lift, reads, modify, ◌>>=◌, ◌>>◌}
use kitsune.Arc.{DhtArc, empty, arc}
use kitsune.Timestamp.{Timestamp, add_duration, ge_i64}
use kitsune.Combine.{Bytes, is_empty, combine_op_hashes}
use kitsune.OpStore.{OpStore}
use kitsune.Time.{slice_duration, layout_partials}
use kitsune.Time.Partition.{
  PartialSlice, TimePartition, new, full_slice_end_timestamp, layout_full_slices, old_hash,
  push_partial, set_next_update, initial_full_slices, recent_time_reserved,
}

module _ (store : OpStore) where
  open store use {
    State, retrieve_op_hashes_in_time_slice, earliest_timestamp_in_arc, store_slice_hash,
    slice_hash_count, retrieve_slice_hash, retrieve_slice_hashes,
  }

  abbrev pub World : Type 0
  World = TimePartition × State

  -- Storing a combined hash for the partition's sector.
  unfoldable pub put_slice_hash : ℕ → Bytes → Exec World (Unit {0})
  put_slice_hash index hash w =
      let (r, s') = store_slice_hash w.1 w.0.sector_constraint index hash in (r, (w.0, s'))

  -- The rounds of `update_full_slice_hashes`, with the local end of the full slices.
  unfoldable pub add_full_slices : ℕ → Timestamp → Exec World (Unit {0})
  add_full_slices zero end w = (ok tt, w)
  add_full_slices (suc n) end w =
      (do
        ops ← reads (λ w.
            retrieve_op_hashes_in_time_slice w.1 w.0.sector_constraint end
              (add_duration end w.0.full_slice_duration))
        hash ← lift (combine_op_hashes ops.0)
        (if is_empty hash then pure tt else put_slice_hash w.0.full_slices hash)
        modify (λ w. (record w.0 { full_slices = w.0.full_slices + 1 }, w.1))
        add_full_slices n (add_duration end w.0.full_slice_duration))
        w

  unfoldable pub update_full_slice_hashes : Timestamp → Exec World (Unit {0})
  update_full_slice_hashes current_time w =
      (do
        n ← lift (layout_full_slices w.0 current_time)
        add_full_slices n (full_slice_end_timestamp w.0))
        w

  -- The hash of a slice that was not there before.
  unfoldable pub fresh_hash : Option Timestamp → Timestamp → ℕ → World → Outcome Bytes
  fresh_hash none start size w = ok []
  fresh_hash (some t) start size w =
      let end = add_duration start (slice_duration size) in
      if ge_i64 end t
      then (Outcome.◌>>=◌ (retrieve_op_hashes_in_time_slice w.1 w.0.sector_constraint start end)
          λ ops. combine_op_hashes ops.0)
      else ok []

  unfoldable pub slice_hash :
      List PartialSlice → Option Timestamp → Timestamp → ℕ → World → Outcome Bytes
  slice_hash old earliest start size w = elim (old_hash old start size) [
    | some h ↦ ok h
    | none ↦ fresh_hash earliest start size w
  ]

  -- `for (start, size) in new_partials`
  unfoldable pub push_partials :
      List PartialSlice → Option Timestamp → List (Timestamp × ℕ) → Exec World (Unit {0})
  push_partials old earliest [] w = (ok tt, w)
  push_partials old earliest ((start, size) ∷ rest) w =
      (do
        hash ← reads (slice_hash old earliest start size)
        modify (λ w. (push_partial (record { start = start; size = size; hash = hash }) w.0, w.1))
        push_partials old earliest rest)
        w

  unfoldable pub update_partials : Option Timestamp → Timestamp → Exec World (Unit {0})
  update_partials earliest current_time w =
      (do
        new_partials ← lift (layout_partials w.0.factor (full_slice_end_timestamp w.0) current_time)
        modify (λ w. (record w.0 { partial_slices = [] }, w.1))
        push_partials w.0.partial_slices earliest new_partials)
        w

  unfoldable pub update : Timestamp → Exec World (Unit {0})
  update current_time = do
    update_full_slice_hashes current_time
    earliest ← reads (λ w. earliest_timestamp_in_arc w.1 w.0.sector_constraint)
    update_partials earliest current_time
    modify (λ w. (set_next_update w.0, w.1))

  unfoldable pub count_full_slices : TimePartition → Timestamp → State → Outcome ℕ
  count_full_slices pt current_time s =
      Outcome.◌>>=◌ (slice_hash_count s pt.sector_constraint) λ count.
        if count == 0
        then (Outcome.◌>>=◌ (earliest_timestamp_in_arc s pt.sector_constraint) λ earliest.
            ok (initial_full_slices pt (elim earliest [ none ↦ current_time | some t ↦ t ])))
        else ok count

  unfoldable pub open_partition : ℕ → Timestamp → DhtArc → State → Outcome TimePartition
  open_partition factor current_time sector_constraint s =
      Outcome.◌>>=◌ (new factor sector_constraint) λ pt.
        Outcome.◌>>=◌ (count_full_slices pt current_time s) λ n.
          let pt' = record pt { full_slices = n } in
          Outcome.◌>>=◌ (recent_time_reserved pt' current_time) λ _. ok pt'

  unfoldable pub try_from_store : ℕ → Timestamp → DhtArc → State → Outcome TimePartition × State
  try_from_store factor current_time empty s = (err (other "Empty arc constraint is not valid"), s)
  try_from_store factor current_time (arc start end) s =
      elim (open_partition factor current_time (arc start end) s) [
        | ok pt ↦
            let (r, (pt', s')) = update current_time (pt, s) in (Outcome.◌>>=◌ r (λ _. ok pt'), s')
        | err e ↦ (err e, s)
        | panic ↦ (panic, s)
      ]
