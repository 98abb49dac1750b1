-- ===== src/Hash/Queries.antt =====
-- What a `HashPartition` tells of its hashes (crates/dht/src/hash.rs): the hashes of rings, of sectors
-- and of the slices of a sector.
use kitsune.Prelude.{
  ℕ, ◌+◌, ◌&&◌, true, false, none, some, List, [], ◌∷◌, map, get_elem?, if◌then◌else◌,
}
use kitsune.Prelude.Outcome
use kitsune.Prelude.Outcome.{Outcome, ok, panic}
use kitsune.Prelude.Sets.{member}
use kitsune.Prelude.Maps.{Map, get, put}
use kitsune.ArcSet.{ArcSet, includes_sector_index}
use kitsune.Timestamp.{Timestamp}
use kitsune.Combine.{Bytes, is_empty, combine_hashes}
use kitsune.OpStore.{OpStore}
use kitsune.Snapshot.{inner}
use kitsune.Time.Partition.{
  TimePartition, full_slice_end_timestamp, partial_slice_hashes, partial_slice_hash,
}
use kitsune.Time.Partition
use kitsune.Time.Inform
use kitsune.Hash.{HashPartition}

-- `self.sectors[0]`
abbrev pub first_sector {ℓ} : {A : Type ℓ} → HashPartition → (TimePartition → Outcome A) → Outcome A
first_sector hp f = elim (get_elem? hp.sectors 0) [ none ↦ panic | some pt ↦ f pt ]

unfoldable pub next_update_at : HashPartition → Outcome Timestamp
next_update_at hp = first_sector hp (λ pt. ok pt.next_update_at)

unfoldable pub time_bounds_for_full_slice_index :
    HashPartition → ℕ → Outcome (Timestamp × Timestamp)
time_bounds_for_full_slice_index hp slice_index =
    first_sector hp (λ pt. Partition.time_bounds_for_full_slice_index pt slice_index)

unfoldable pub time_bounds_for_partial_slice_index :
    HashPartition → ℕ → Outcome (Timestamp × Timestamp)
time_bounds_for_partial_slice_index hp slice_index =
    first_sector hp (λ pt. Partition.time_bounds_for_partial_slice_index pt slice_index)

-- The boundary that comes beside the hashes.
abbrev pub with_boundary : {A : Type 0} → HashPartition → A → Outcome (A × Timestamp)
with_boundary hp out = first_sector hp (λ pt. ok (out, full_slice_end_timestamp pt))

-- `if let Some(hash) = partial.next() && !hash.is_empty()`
unfoldable pub combine_next : Bytes → List Bytes → Outcome Bytes
combine_next combined [] = ok combined
combine_next combined (hash ∷ hashes) = elim (is_empty hash) [
  | true ↦ ok combined
  | false ↦ combine_hashes combined hash
]

-- `for partial in &mut partials`
unfoldable pub combine_ring : Bytes → List (List Bytes) → Outcome Bytes
combine_ring combined [] = ok combined
combine_ring combined (partial ∷ partials) =
    Outcome.◌>>=◌ (combine_next combined partial) λ combined'. combine_ring combined' partials

-- What an iterator has left after `next`.
abbrev pub rest_of : List Bytes → List Bytes
rest_of [] = []
rest_of (hash ∷ hashes) = hashes

-- The `while`, as long as the first iterator has more.
unfoldable pub combine_rings : List Bytes → List (List Bytes) → Outcome (List Bytes)
combine_rings [] partials = ok []
combine_rings (hash ∷ first) partials =
    Outcome.◌>>=◌ (combine_ring [] ((hash ∷ first) ∷ partials)) λ combined.
      Outcome.◌>>=◌ (combine_rings first (map rest_of partials)) λ out. ok (combined ∷ out)

-- The hashes of the partial slices of the sectors that the arc set includes.
unfoldable pub partials_from : ArcSet → ℕ → List TimePartition → List (List Bytes)
partials_from arc_set i [] = []
partials_from arc_set i (pt ∷ pts) =
    let rest = partials_from arc_set (i + 1) pts in
    if includes_sector_index arc_set i then partial_slice_hashes pt ∷ rest else rest

unfoldable pub rings_of : List (List Bytes) → Outcome (List Bytes)
rings_of [] = ok []
rings_of (first ∷ partials) = combine_rings first partials

unfoldable pub ring_top_hashes : HashPartition → ArcSet → Outcome (List Bytes)
ring_top_hashes hp arc_set = rings_of (partials_from arc_set 0 hp.sectors)

-- `entry(ring_index).or_insert_with(HashMap::new)`, and the hash if it is not empty.
unfoldable pub add_ring_hash : ℕ → ℕ → Bytes → Map (Map Bytes) → Map (Map Bytes)
add_ring_hash ring_index sector_index hash out =
    let entry = inner (get ring_index out) in
    put ring_index (if is_empty hash then entry else put sector_index hash entry) out

-- `for ring_index in &ring_indices`
unfoldable pub add_rings : TimePartition → ℕ → List ℕ → Map (Map Bytes) → Outcome (Map (Map Bytes))
add_rings pt sector_index [] out = ok out
add_rings pt sector_index (ring_index ∷ rest) out =
    Outcome.◌>>=◌ (partial_slice_hash pt ring_index)
      λ hash. add_rings pt sector_index rest (add_ring_hash ring_index sector_index hash out)

unfoldable pub ring_details_from :
    ArcSet → List ℕ → ℕ → List TimePartition → Map (Map Bytes) → Outcome (Map (Map Bytes))
ring_details_from arc_set ring_indices i [] out = ok out
ring_details_from arc_set ring_indices i (pt ∷ pts) out = elim (includes_sector_index arc_set i) [
  | false ↦ ring_details_from arc_set ring_indices (i + 1) pts out
  | true ↦
      Outcome.◌>>=◌ (add_rings pt i ring_indices out)
        λ out'. ring_details_from arc_set ring_indices (i + 1) pts out'
]

unfoldable pub ring_details :
    HashPartition → ArcSet → List ℕ → Outcome (Map (Map Bytes) × Timestamp)
ring_details hp arc_set ring_indices =
    Outcome.◌>>=◌ (ring_details_from arc_set ring_indices 0 hp.sectors []) (with_boundary hp)

-- `.into_iter().collect()` into a `HashMap`
unfoldable pub collect : List (ℕ × Bytes) → Map Bytes → Map Bytes
collect [] out = out
collect ((index, hash) ∷ hashes) out = collect hashes (put index hash out)

module _ (store : OpStore) where
  open store use {State}

  unfoldable pub sector_hashes_from :
      ArcSet → ℕ → List TimePartition → Map Bytes → State → Outcome (Map Bytes)
  sector_hashes_from arc_set i [] out s = ok out
  sector_hashes_from arc_set i (pt ∷ pts) out s = elim (includes_sector_index arc_set i) [
    | false ↦ sector_hashes_from arc_set (i + 1) pts out s
    | true ↦ Outcome.◌>>=◌ (Inform.full_time_slice_top_hash store pt s) λ hash.
        sector_hashes_from arc_set (i + 1) pts (if is_empty hash then out else put i hash out) s
  ]

  unfoldable pub disc_sector_hashes :
      HashPartition → ArcSet → State → Outcome (Map Bytes × Timestamp)
  disc_sector_hashes hp arc_set s =
      Outcome.◌>>=◌ (sector_hashes_from arc_set 0 hp.sectors [] s) (with_boundary hp)

  unfoldable pub sector_details_from :
      ArcSet → List ℕ → ℕ → List TimePartition → Map (Map Bytes) → State → Outcome (Map (Map Bytes))
  sector_details_from arc_set sector_indices i [] out s = ok out
  sector_details_from arc_set sector_indices i (pt ∷ pts) out s =
      elim (includes_sector_index arc_set i && member i sector_indices) [
        | false ↦ sector_details_from arc_set sector_indices (i + 1) pts out s
        | true ↦ Outcome.◌>>=◌ (Inform.full_time_slice_hashes store pt s) λ hashes.
            sector_details_from arc_set sector_indices (i + 1) pts (put i (collect hashes []) out) s
      ]

  unfoldable pub disc_sector_sector_details :
      HashPartition → ArcSet → List ℕ → State → Outcome (Map (Map Bytes) × Timestamp)
  disc_sector_sector_details hp arc_set sector_indices s =
      Outcome.◌>>=◌ (sector_details_from arc_set sector_indices 0 hp.sectors [] s)
        (with_boundary hp)
