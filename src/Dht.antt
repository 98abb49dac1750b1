-- ===== src/Dht.antt =====
-- `Dht` of crates/dht/src/dht.rs: the model that two peers compare, snapshot by snapshot.
pub mod Fetch
pub mod Handle
pub mod Budget
pub mod Rounds
pub mod Exchange
pub mod Agreement
use kitsune.Prelude.{
  ℕ, ◌+◌, ◌%◌, ◌^◌, Bool, true, false, not, Option, none, some, List, [], ◌∷◌, ◌++◌, length, leb,
  ◌==◌, if◌then◌else◌,
}
use kitsune.Prelude.Outcome
use kitsune.Prelude.Outcome.{Outcome, K2Error, other, ok, err, panic}
use kitsune.Prelude.Exec.{Exec, pure, modify, ◌>>=◌, ◌>>◌}
use kitsune.Prelude.Exec
use kitsune.Prelude.Words.{add32, le_i32}
use kitsune.Prelude.Maps.{Map, keys}
use kitsune.Arc.{DhtArc}
use kitsune.ArcSet.{ArcSet, covered_sector_count, sort}
use kitsune.Timestamp.{Timestamp}
use kitsune.OpStore.{OpId, OpStore, StoredOp}
use kitsune.Snapshot.{
  DhtSnapshot, minimal, disc_sectors, disc_sector_details, ring_sector_details, SnapshotDiff,
  identical, cannot_compare, disc_mismatch, disc_sector_mismatches, disc_sector_slice_mismatches,
  ring_mismatches, ring_sector_mismatches, compare,
}
use kitsune.Hash
use kitsune.Hash.{HashPartition, dht_arc_for_sector_index}
use kitsune.Hash.Queries

pub record Dht : Type 0 where
  pub partition : HashPartition
  pub op_count : ℕ

pub data DhtSnapshotNextAction : Type 0 where
  in_sync cannot_compare_dhts : DhtSnapshotNextAction
  new_snapshot : DhtSnapshot → DhtSnapshotNextAction
  new_snapshot_and_hash_list : DhtSnapshot → List OpId → DhtSnapshotNextAction
  hash_list : List OpId → DhtSnapshotNextAction

unfoldable pub snapshot_ring_sector_details : Dht → List ℕ → ArcSet → Outcome DhtSnapshot
snapshot_ring_sector_details dht mismatched_rings arc_set =
    Outcome.◌>>=◌ (Queries.ring_details dht.partition arc_set mismatched_rings)
      λ r. ok (ring_sector_details r.0 r.1)

unfoldable pub next_update_at : Dht → Outcome Timestamp
next_update_at dht = Queries.next_update_at dht.partition

module _ (store : OpStore) where
  open store use {State, retrieve_op_hashes_in_time_slice, query_total_op_count}

  unfoldable pub try_from_store : Timestamp → Exec State Dht
  try_from_store current_time s =
      (do
        op_count ← Exec.reads query_total_op_count
        partition ← Hash.try_from_store store 9 current_time
        pure (record { partition = partition; op_count = op_count }))
        s

  unfoldable pub update : Timestamp → Exec (Dht × State) (Unit {0})
  update current_time (dht, s) =
      let (r, (hp, s')) = Hash.update store current_time (dht.partition, s) in
      (r, (record dht { partition = hp }, s'))

  -- `op_count` grows once the partition has taken the ops.
  unfoldable pub inform_ops_stored : (OpId → ℕ) → List StoredOp → Exec (Dht × State) (Unit {0})
  inform_ops_stored loc stored_ops (dht, s) =
      let (r, (hp, s')) = Hash.inform_ops_stored store loc stored_ops (dht.partition, s) in
      let dht' = record dht { partition = hp } in
      elim r [
        | ok u ↦
            (ok tt, (record dht' { op_count = (dht.op_count + length stored_ops) % 2 ^ 64 }, s'))
        | err e ↦ (err e, (dht', s'))
        | panic ↦ (panic, (dht', s'))
      ]

  unfoldable pub snapshot_minimal : Dht → ArcSet → State → Outcome DhtSnapshot
  snapshot_minimal dht arc_set s =
      if covered_sector_count arc_set == 0
      then err (other "No arcs to snapshot")
      else Outcome.◌>>=◌ (Hash.disc_top_hash store dht.partition arc_set s) λ d.
        Outcome.◌>>=◌ (Queries.ring_top_hashes dht.partition arc_set)
          λ rings. ok (minimal d.0 d.1 rings)

  unfoldable pub snapshot_disc_sectors : Dht → ArcSet → State → Outcome DhtSnapshot
  snapshot_disc_sectors dht arc_set s =
      Outcome.◌>>=◌ (Queries.disc_sector_hashes store dht.partition arc_set s)
        λ d. ok (disc_sectors d.0 d.1)

  unfoldable pub snapshot_disc_sector_details : Dht → List ℕ → ArcSet → State → Outcome DhtSnapshot
  snapshot_disc_sector_details dht mismatched_sector_indices arc_set s =
      Outcome.◌>>=◌
        (Queries.disc_sector_sector_details store dht.partition arc_set mismatched_sector_indices s)
        λ d. ok (disc_sector_details d.0 d.1)
