-- ===== src/Snapshot.antt =====
-- `DhtSnapshot` and `compare` of crates/dht/src/dht/snapshot.rs: what a peer sends of its DHT, and
-- where two of these differ.
pub mod Equal
pub mod Discs
pub mod Rings
use kitsune.Prelude.{
  ℕ, zero, suc, ◌+◌, ◌%◌, ◌^◌, Bool, true, false, ◌&&◌, not, Option, none, some, List, [], ◌∷◌,
  ◌++◌, map, length, same_list, ◌==◌, if◌then◌else◌,
}
use kitsune.Prelude.Words.{u32_mod}
use kitsune.Prelude.Maps.{
  Map, get, put, keys, same_map, sym_difference, common_keys, mismatched_keys, same_keys,
}
use kitsune.Timestamp.{Timestamp}
use kitsune.Combine.{Bytes}

abbrev pub same_bytes : Bytes → Bytes → Bool
same_bytes a b = same_list ◌==◌ a b

pub data DhtSnapshot : Type 0 where
  minimal : Bytes → Timestamp → List Bytes → DhtSnapshot
  disc_sectors : Map Bytes → Timestamp → DhtSnapshot
  disc_sector_details : Map (Map Bytes) → Timestamp → DhtSnapshot
  ring_sector_details : Map (Map Bytes) → Timestamp → DhtSnapshot

pub data SnapshotDiff : Type 0 where
  identical cannot_compare disc_mismatch : SnapshotDiff
  disc_sector_mismatches : List ℕ → SnapshotDiff
  disc_sector_slice_mismatches : Map (List ℕ) → SnapshotDiff
  ring_mismatches : List ℕ → SnapshotDiff
  ring_sector_mismatches : Map (List ℕ) → SnapshotDiff

-- The derived `==`.
unfoldable pub same_snapshot : DhtSnapshot → DhtSnapshot → Bool
same_snapshot (minimal d t r) (minimal d' t' r') =
    same_bytes d d' && t == t' && same_list same_bytes r r'
same_snapshot (disc_sectors m t) (disc_sectors m' t') = same_map same_bytes m m' && t == t'
same_snapshot (disc_sector_details m t) (disc_sector_details m' t') =
    same_map (same_map same_bytes) m m' && t == t'
same_snapshot (ring_sector_details m t) (ring_sector_details m' t') =
    same_map (same_map same_bytes) m m' && t == t'
same_snapshot s s' = false

-- `enumerate().zip(..)` from an index on
unfoldable pub hash_mismatch_indices : ℕ → List Bytes → List Bytes → List ℕ
hash_mismatch_indices i [] right = []
hash_mismatch_indices i (l ∷ left) [] = []
hash_mismatch_indices i (l ∷ left) (r ∷ right) =
    let rest = hash_mismatch_indices (i + 1) left right in
    if not (same_bytes l r) then (i % u32_mod) ∷ rest else rest

-- The inner map at a key that is there.
abbrev pub inner : Option (Map Bytes) → Map Bytes
inner none = []
inner (some m) = m

abbrev pub indices : Option (List ℕ) → List ℕ
indices none = []
indices (some l) = l

-- All slices of a sector that only one side has.
unfoldable pub one_sided : Map (Map Bytes) → Map (Map Bytes) → ℕ → ℕ × List ℕ
one_sided ours theirs index =
    (index, keys (elim (get index ours) [ some m ↦ m | none ↦ inner (get index theirs) ]))

-- `entry(index).or_insert_with(Vec::new).extend(found)`
unfoldable pub extend_entry : ℕ → List ℕ → Map (List ℕ) → Map (List ℕ)
extend_entry index found acc = put index (indices (get index acc) ++ found) acc

-- `for sector_index in common_sector_indices`
unfoldable pub add_common : Map (Map Bytes) → Map (Map Bytes) → List ℕ → Map (List ℕ) → Map (List ℕ)
add_common ours theirs [] acc = acc
add_common ours theirs (index ∷ rest) acc =
    let found = mismatched_keys same_bytes (inner (get index ours)) (inner (get index theirs)) in
    add_common ours theirs rest (if length found == 0 then acc else extend_entry index found acc)

unfoldable pub slice_mismatches : Map (Map Bytes) → Map (Map Bytes) → Map (List ℕ)
slice_mismatches ours theirs =
    add_common ours theirs (common_keys ours theirs)
      (map (one_sided ours theirs) (sym_difference ours theirs))

-- `for ring_index in common_ring_indices`
unfoldable pub ring_sectors : Map (Map Bytes) → Map (Map Bytes) → List ℕ → Map (List ℕ)
ring_sectors ours theirs [] = []
ring_sectors ours theirs (index ∷ rest) =
    put index (mismatched_keys same_bytes (inner (get index ours)) (inner (get index theirs)))
      (ring_sectors ours theirs rest)

-- The `match` of `compare`.
unfoldable pub differences : DhtSnapshot → DhtSnapshot → SnapshotDiff
differences (minimal d t r) (minimal d' t' r') =
    if not (t == t')
    then cannot_compare
    else if not (same_bytes d d')
    then disc_mismatch
    else if not (length r == length r')
    then cannot_compare
    else ring_mismatches (hash_mismatch_indices 0 r r')
differences (disc_sectors m t) (disc_sectors m' t') =
    if not (t == t')
    then cannot_compare
    else disc_sector_mismatches (mismatched_keys same_bytes m m')
differences (disc_sector_details m t) (disc_sector_details m' t') =
    if not (t == t') then cannot_compare else disc_sector_slice_mismatches (slice_mismatches m m')
differences (ring_sector_details m t) (ring_sector_details m' t') =
    if not (t == t')
    then cannot_compare
    else if not (same_keys m m')
    then cannot_compare
    else ring_sector_mismatches (ring_sectors m m' (common_keys m m'))
differences s s' = cannot_compare

unfoldable pub compare : DhtSnapshot → DhtSnapshot → SnapshotDiff
compare s s' = if same_snapshot s s' then identical else differences s s'
