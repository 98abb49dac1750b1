-- ===== src/Time/Inform.antt =====
-- `TimePartition::inform_ops_stored` and the queries of the full slices (crates/dht/src/time.rs).
use kitsune.Prelude.{
  ℕ, ◌-◌, ◌/◌, ◌%◌, ◌^◌, Bool, true, false, none, some, List, [], ◌∷◌, map, if◌then◌else◌,
}
use mathlib.Core.Bool.{xor}
use kitsune.Prelude.Outcome
use kitsune.Prelude.Outcome.{Outcome, K2Error, other, ok, err, panic}
use kitsune.Prelude.Exec.{Exec, lift, reads, modify, ◌>>=◌, ◌>>◌}
use kitsune.Timestamp.{Timestamp, lt_i64, ge_i64}
use kitsune.Combine.{Bytes, combine_hashes, combine_op_hashes}
use kitsune.OpStore.{OpStore, StoredOp}
use kitsune.Time.Partition.{PartialSlice, TimePartition, slice_end, last, full_slice_end_timestamp}
use kitsune.Time.Update.{World, put_slice_hash}

-- The absolute value of an `i64`.
abbrev magnitude : ℕ → ℕ
magnitude a = if lt_i64 a 0 then 2 ^ 64 - a else a

-- `a / b` on `i64`, towards zero, as a bit pattern.
unfoldable pub div_i64 : ℕ → ℕ → ℕ
div_i64 a b =
    let q = magnitude a / magnitude b in
    if xor (lt_i64 a 0) (lt_i64 b 0) then (2 ^ 64 - q) % 2 ^ 64 else q % 2 ^ 64

-- `(created_at.as_micros() / duration) as u64`
unfoldable pub slice_index_of : TimePartition → Timestamp → ℕ
slice_index_of pt t = div_i64 t (pt.full_slice_duration % 2 ^ 64)

-- `for partial in self.partial_slices.iter_mut().rev()`: the last slice that starts no later.
unfoldable pub combine_last : StoredOp → List PartialSlice → Outcome (List PartialSlice × Bool)
combine_last op [] = ok ([], false)
combine_last op (p ∷ ps) = Outcome.◌>>=◌ (combine_last op ps) λ r.
    if r.1
    then ok (p ∷ r.0, true)
    else if ge_i64 op.created_at p.start
    then (Outcome.◌>>=◌ (combine_hashes p.hash op.op_id)
        λ h. ok (record p { hash = h } ∷ r.0, true))
    else ok (p ∷ r.0, false)

module _ (store : OpStore) where
  open store use {
    State, retrieve_op_hashes_in_time_slice, earliest_timestamp_in_arc, store_slice_hash,
    slice_hash_count, retrieve_slice_hash, retrieve_slice_hashes,
  }

  -- The first branch of `inform_ops_stored`: an op in a full slice.
  unfoldable pub inform_historical : StoredOp → Exec (World store) (Unit {0})
  inform_historical op w =
      (do
        let index = slice_index_of w.0 op.created_at
        current ← reads (λ w. retrieve_slice_hash w.1 w.0.sector_constraint index)
        hash ← lift (elim current [ none ↦ ok op.op_id | some h ↦ combine_hashes h op.op_id ])
        put_slice_hash store index hash)
        w

  unfoldable pub inform_recent : StoredOp → PartialSlice → Exec (World store) (Unit {0})
  inform_recent op last_partial w =
      if ge_i64 op.created_at (slice_end last_partial)
      then (ok tt, w)
      else (do
        r ← lift (combine_last op w.0.partial_slices)
        modify (λ w. (record w.0 { partial_slices = r.0 }, w.1)))
          w

  -- One op, with the end of the full slices taken before the loop.
  unfoldable pub inform_op : Timestamp → StoredOp → Exec (World store) (Unit {0})
  inform_op full_slice_end op w =
      if lt_i64 op.created_at full_slice_end
      then inform_historical op w
      else elim (last w.0.partial_slices) [ none ↦ (ok tt, w) | some p ↦ inform_recent op p w ]

  unfoldable pub inform_each : Timestamp → List StoredOp → Exec (World store) (Unit {0})
  inform_each full_slice_end [] w = (ok tt, w)
  inform_each full_slice_end (op ∷ ops) w =
      (do inform_op full_slice_end op; inform_each full_slice_end ops) w

  unfoldable pub inform_ops_stored : List StoredOp → Exec (World store) (Unit {0})
  inform_ops_stored ops w = inform_each (full_slice_end_timestamp w.0) ops w

  unfoldable pub full_time_slice_top_hash : TimePartition → State → Outcome Bytes
  full_time_slice_top_hash pt s =
      Outcome.◌>>=◌ (retrieve_slice_hashes s pt.sector_constraint)
        λ hashes. combine_op_hashes (map (λ h. h.1) hashes)

  unfoldable pub full_time_slice_hashes : TimePartition → State → Outcome (List (ℕ × Bytes))
  full_time_slice_hashes pt s = retrieve_slice_hashes s pt.sector_constraint
