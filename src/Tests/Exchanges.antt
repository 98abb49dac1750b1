-- ===== src/Tests/Exchanges.antt =====
-- Two peers with one sector each that exchange snapshots (crates/dht/src/dht.rs).
use kitsune.Prelude.Lists.{same_list}
use kitsune.Prelude.Sets.{member}
use kitsune.Prelude.{
  ℕ, ◌+◌, ◌^◌, ◌≤◌, ◌<◌, none, some, List, [], ◌∷◌, length, ◌≡◌, ◌↔◌, refl, sym, ap, ◌∙◌, arith,
}
use kitsune.Prelude.Outcome.{ok, ok-injective}
use kitsune.Prelude.Maps.{
  get, put, keys, select, sym_difference, common_keys, mismatched_keys, values_differ, same_option,
  same_map, entries_in,
}
use kitsune.Arc.{DhtArc, arc}
use kitsune.ArcSet.{ArcSet, covered_sector_count, includes_sector_index, insert_sorted, sort}
use kitsune.Timestamp.{Timestamp, add_duration}
use kitsune.Combine.{combine_hashes, combine_op_hashes}
use kitsune.OpStore.{OpStore, OpId}
use kitsune.Snapshot.{
  DhtSnapshot, minimal, disc_sectors, disc_sector_details, same_snapshot, one_sided, extend_entry,
  add_common, slice_mismatches, differences, compare,
}
use kitsune.Time.Partition
use kitsune.Time.Partition.{TimePartition, full_slice_end_timestamp, partial_slice_hashes}
use kitsune.Time.Inform
use kitsune.Hash
use kitsune.Hash.Queries
use kitsune.Dht.{Dht, in_sync, new_snapshot, hash_list, snapshot_minimal, snapshot_disc_sectors}
use kitsune.Dht.Fetch.{add_batch, or_continue, insert_by_key, sort_by_key, fetch_slices, fetch_disc}
use kitsune.Dht.Handle.{is_final, last_action, our_snapshot, next_action, handle_snapshot}
use kitsune.Dht.Budget.{ids_of, total, handle_snapshot-budget}
use kitsune.Dht.Rounds.{level, Progress, handle_snapshot-Progress}
use kitsune.Dht.Exchange.{done, answer, Exchange-level}
use kitsune.Dht.Agreement.{in_sync_iff}

-- A store with one op of two bytes in every interval, and no stored slice hashes.
abbrev one_op : OpStore
one_op = record {
  State = Unit {0};
  retrieve_op_hashes_in_time_slice = λ s a start end. ok ((17 ∷ 4 ∷ []) ∷ [], 2);
  earliest_timestamp_in_arc = λ s a. ok none;
  store_slice_hash = λ s a index hash. (ok tt, s);
  slice_hash_count = λ s a. ok 0;
  retrieve_slice_hash = λ s a index. ok none;
  retrieve_slice_hashes = λ s a. ok [];
  query_total_op_count = λ s. ok 1;
}

abbrev sector_zero : TimePartition
sector_zero = record {
  factor = 2;
  full_slices = 1;
  partial_slices = record { start = 3600000000; size = 1; hash = 17 ∷ 4 ∷ [] } ∷ [];
  full_slice_duration = 3600000000;
  min_recent_time = 2700000000;
  next_update_at = 0;
  sector_constraint = arc 0 8388607;
}

abbrev small_dht : Dht
small_dht = record {
  partition = record { size = 8388608; sectors = sector_zero ∷ [] };
  op_count = 1;
}

abbrev sector_zero_only : ArcSet
sector_zero_only = record { inner = 0 ∷ [] }

abbrev ours : DhtSnapshot
ours = disc_sector_details ((0, (0, 8 ∷ []) ∷ []) ∷ []) 3600000000

abbrev theirs : DhtSnapshot
theirs = disc_sector_details ((0, (0, 9 ∷ []) ∷ []) ∷ []) 3600000000

-- The last answer of an exchange: the ops of the slice that differs.
last_answer :
    handle_snapshot one_op small_dht theirs (some ours) sector_zero_only 100 tt
    ≡ ok (hash_list ((17 ∷ 4 ∷ []) ∷ []), 2)
unfolding handle_snapshot covered_sector_count our_snapshot compare same_snapshot same_map
    entries_in same_option get differences slice_mismatches sym_difference common_keys select keys
    one_sided add_common mismatched_keys values_differ extend_entry put next_action sort_by_key
    insert_by_key fetch_disc sort insert_sorted fetch_slices or_continue
    Hash.dht_arc_for_sector_index Queries.time_bounds_for_full_slice_index
    Partition.time_bounds_for_full_slice_index add_duration add_batch last_action is_final same_list
    member
last_answer = refl

one_op-sized :
    (a : DhtArc) (start end : Timestamp) (ids : List OpId) (ub : ℕ)
    → one_op.retrieve_op_hashes_in_time_slice tt a start end ≡ ok (ids, ub)
    → (ub ≡ total length ids) × (ub + 100 < 2 ^ 31)
one_op-sized a start end ids ub e =
    let p = ok-injective e in
    let q : 2 ≡ ub = ap (λ x. x.1) p in (sym q ∙ ap (λ x. total length x.0) p, omega (arith, q))

handle_snapshot-budget_example :
    (2 ≡ total length (ids_of (hash_list ((17 ∷ 4 ∷ []) ∷ [])))) × (2 ≤ 100)
handle_snapshot-budget_example =
    handle_snapshot-budget length 100 one_op small_dht tt one_op-sized theirs (some ours)
      sector_zero_only (hash_list ((17 ∷ 4 ∷ []) ∷ [])) 2 last_answer

handle_snapshot-Progress_example : Progress theirs (some ours) (hash_list ((17 ∷ 4 ∷ []) ∷ []))
handle_snapshot-Progress_example =
    handle_snapshot-Progress one_op small_dht tt sector_zero_only 100 theirs (some ours)
      (hash_list ((17 ∷ 4 ∷ []) ∷ [])) 2 last_answer

abbrev small_minimal : DhtSnapshot
small_minimal = minimal [] 3600000000 ((17 ∷ 4 ∷ []) ∷ [])

small_minimal-eq : snapshot_minimal one_op small_dht sector_zero_only tt ≡ ok small_minimal
unfolding snapshot_minimal covered_sector_count Hash.disc_top_hash Hash.combine_sectors
    includes_sector_index Inform.full_time_slice_top_hash combine_op_hashes combine_hashes
    full_slice_end_timestamp add_duration Queries.ring_top_hashes Queries.partials_from
    Queries.rings_of Queries.combine_rings Queries.combine_ring Queries.combine_next
    partial_slice_hashes member
small_minimal-eq = refl

in_sync_iff_example :
    (handle_snapshot one_op small_dht small_minimal none sector_zero_only 0 tt ≡ ok (in_sync, 0))
    ↔ (small_minimal ≡ small_minimal)
in_sync_iff_example =
    in_sync_iff one_op small_dht small_dht tt tt sector_zero_only sector_zero_only small_minimal
      small_minimal none 0 small_minimal-eq small_minimal-eq

-- A peer with another disc hash is answered with the sectors.
disc_differs :
    handle_snapshot one_op small_dht (minimal (1 ∷ []) 3600000000 []) none sector_zero_only 0 tt
    ≡ ok (new_snapshot (disc_sectors [] 3600000000), 0)
unfolding handle_snapshot our_snapshot snapshot_minimal covered_sector_count Hash.disc_top_hash
    Hash.combine_sectors includes_sector_index Inform.full_time_slice_top_hash combine_op_hashes
    combine_hashes full_slice_end_timestamp add_duration Queries.ring_top_hashes
    Queries.partials_from Queries.rings_of Queries.combine_rings Queries.combine_ring
    Queries.combine_next partial_slice_hashes compare same_snapshot differences next_action
    snapshot_disc_sectors Queries.disc_sector_hashes Queries.sector_hashes_from member same_list
disc_differs = refl

Exchange-level_example : 1 + level (minimal (1 ∷ []) 3600000000 []) ≤ 3
Exchange-level_example = Exchange-level one_op 1 (minimal (1 ∷ []) 3600000000 []) (
    answer small_dht tt sector_zero_only 0 (new_snapshot (disc_sectors [] 3600000000)) 0
      (disc_sectors [] 3600000000) disc_differs refl done)
