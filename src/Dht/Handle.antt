-- ===== src/Dht/Handle.antt =====
-- `Dht::handle_snapshot` (crates/dht/src/dht.rs): the answer to a snapshot of another peer.
use kitsune.Prelude.{ℕ, Bool, true, false, Option, none, some, [], ◌==◌, if◌then◌else◌}
use kitsune.Prelude.Outcome
use kitsune.Prelude.Outcome.{Outcome, K2Error, other, ok, err, panic}
use kitsune.Prelude.Maps.{keys}
use kitsune.ArcSet.{ArcSet, covered_sector_count}
use kitsune.OpStore.{OpStore}
use kitsune.Snapshot.{
  DhtSnapshot, minimal, disc_sectors, disc_sector_details, ring_sector_details, SnapshotDiff,
  identical, cannot_compare, disc_mismatch, disc_sector_mismatches, disc_sector_slice_mismatches,
  ring_mismatches, ring_sector_mismatches, compare,
}
use kitsune.Dht.{
  Dht, DhtSnapshotNextAction, in_sync, cannot_compare_dhts, new_snapshot,
  new_snapshot_and_hash_list, hash_list, snapshot_minimal, snapshot_disc_sectors,
  snapshot_disc_sector_details, snapshot_ring_sector_details,
}
use kitsune.Dht.Fetch.{Batch, sort_by_key, fetch_disc, fetch_rings}

-- `matches!(our_previous_snapshot, ..)`
unfoldable pub is_final : Option DhtSnapshot → Bool
is_final none = false
is_final (some (minimal d t r)) = false
is_final (some (disc_sectors m t)) = false
is_final (some (disc_sector_details m t)) = true
is_final (some (ring_sector_details m t)) = true

unfoldable pub last_action : Option DhtSnapshot → DhtSnapshot → Batch → DhtSnapshotNextAction × ℕ
last_action previous ours (out, used_bytes) =
    (if is_final previous then hash_list out else new_snapshot_and_hash_list ours out, used_bytes)

module _ (store : OpStore) where
  open store use {State}

  -- A snapshot of the kind that the peer sent, or the one computed before.
  unfoldable pub our_snapshot :
      Dht → DhtSnapshot → Option DhtSnapshot → ArcSet → State → Outcome DhtSnapshot
  our_snapshot dht (minimal d t r) previous arc_set s = snapshot_minimal store dht arc_set s
  our_snapshot dht (disc_sectors m t) previous arc_set s = snapshot_disc_sectors store dht arc_set s
  our_snapshot dht (disc_sector_details m t) (some (disc_sector_details m' t')) arc_set s =
      ok (disc_sector_details m' t')
  our_snapshot dht (disc_sector_details m t) previous arc_set s =
      snapshot_disc_sector_details store dht (keys m) arc_set s
  our_snapshot dht (ring_sector_details m t) (some (ring_sector_details m' t')) arc_set s =
      ok (ring_sector_details m' t')
  our_snapshot dht (ring_sector_details m t) previous arc_set s =
      snapshot_ring_sector_details dht (keys m) arc_set

  -- The `match` on the difference.
  unfoldable pub next_action :
      Dht
      → DhtSnapshot
      → Option DhtSnapshot
      → ArcSet
      → ℕ
      → SnapshotDiff
      → State
      → Outcome (DhtSnapshotNextAction × ℕ)
  next_action dht ours previous arc_set max_op_data_bytes identical s = ok (in_sync, 0)
  next_action dht ours previous arc_set max_op_data_bytes cannot_compare s =
      ok (cannot_compare_dhts, 0)
  next_action dht ours previous arc_set max_op_data_bytes disc_mismatch s =
      Outcome.◌>>=◌ (snapshot_disc_sectors store dht arc_set s) λ n. ok (new_snapshot n, 0)
  next_action dht ours previous arc_set max_op_data_bytes (disc_sector_mismatches sectors) s =
      Outcome.◌>>=◌ (snapshot_disc_sector_details store dht sectors arc_set s)
        λ n. ok (new_snapshot n, 0)
  next_action dht ours previous arc_set max_op_data_bytes (disc_sector_slice_mismatches slices) s =
      Outcome.◌>>=◌ (fetch_disc store dht max_op_data_bytes (sort_by_key slices) ([], 0) s)
        λ batch. ok (last_action previous ours batch)
  next_action dht ours previous arc_set max_op_data_bytes (ring_mismatches rings) s =
      Outcome.◌>>=◌ (snapshot_ring_sector_details dht rings arc_set) λ n. ok (new_snapshot n, 0)
  next_action dht ours previous arc_set max_op_data_bytes (ring_sector_mismatches sectors) s =
      Outcome.◌>>=◌ (fetch_rings store dht max_op_data_bytes (sort_by_key sectors) ([], 0) s)
        λ batch. ok (last_action previous ours batch)

  unfoldable pub handle_snapshot :
      Dht
      → DhtSnapshot
      → Option DhtSnapshot
      → ArcSet
      → ℕ
      → State
      → Outcome (DhtSnapshotNextAction × ℕ)
  handle_snapshot dht their_snapshot our_previous_snapshot arc_set max_op_data_bytes s =
      if covered_sector_count arc_set == 0
      then err (other "No arcs to snapshot")
      else Outcome.◌>>=◌ (our_snapshot dht their_snapshot our_previous_snapshot arc_set s) λ ours.
        next_action dht ours our_previous_snapshot arc_set max_op_data_bytes
          (compare ours their_snapshot) s
