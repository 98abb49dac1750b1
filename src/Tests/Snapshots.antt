-- ===== src/Tests/Snapshots.antt =====
-- Snapshots that differ in one hash (crates/dht/src/dht/snapshot.rs).
use kitsune.Prelude.Lists.{same_list}
use kitsune.Prelude.{ℕ, false, not, List, [], ◌∷◌, get_elem?, ◌≡◌, ◌≢◌, ◌⊎◌, refl, arith}
use kitsune.Prelude.Sets.{member}
use kitsune.Prelude.Maps.{Map, get, IsMap, is_some, same_map, entries_in, same_option}
use kitsune.Combine.{Bytes}
use kitsune.Snapshot.{
  minimal, disc_sectors, disc_sector_details, ring_sector_details, identical, cannot_compare,
  disc_sector_mismatches, disc_sector_slice_mismatches, ring_mismatches, ring_sector_mismatches,
  same_bytes, same_snapshot, indices, compare,
}
use kitsune.Snapshot.Discs.{hash_at, compare-disc_sectors, compare-disc_sector_details}
use kitsune.Snapshot.Rings.{compare-minimal, compare-ring_sector_details}

abbrev ours : Map Bytes
ours = (3, 7 ∷ []) ∷ (5, 1 ∷ []) ∷ []

abbrev theirs : Map Bytes
theirs = (5, 2 ∷ []) ∷ (3, 7 ∷ []) ∷ []

ours-IsMap : IsMap ours
unfolding get
ours-IsMap = (refl, (refl, tt))

theirs-IsMap : IsMap theirs
unfolding get
theirs-IsMap = (refl, (refl, tt))

abbrev our_details : Map (Map Bytes)
our_details = (0, ours) ∷ []

abbrev their_details : Map (Map Bytes)
their_details = (0, theirs) ∷ []

our_details-IsMap : IsMap our_details
unfolding get
our_details-IsMap = (refl, tt)

their_details-IsMap : IsMap their_details
unfolding get
their_details-IsMap = (refl, tt)

compare-disc_sectors_example :
    ((compare (disc_sectors ours 900) (disc_sectors theirs 900) ≡ identical)
      × ((k : ℕ) → get k ours ≡ get k theirs))
    ⊎ ((l : List ℕ) × (compare (disc_sectors ours 900) (disc_sectors theirs 900)
          ≡ disc_sector_mismatches l)
        × (l ≢ [])
        × ((k : ℕ) → member k l ≡ not (same_option same_bytes (get k ours) (get k theirs))))
compare-disc_sectors_example = compare-disc_sectors ours theirs 900 ours-IsMap theirs-IsMap

differ :
    same_snapshot (disc_sector_details our_details 900) (disc_sector_details their_details 900)
    ≡ false
unfolding same_snapshot same_map entries_in same_option get same_list
differ = refl

differ_rings :
    same_snapshot (ring_sector_details our_details 900) (ring_sector_details their_details 900)
    ≡ false
unfolding same_snapshot same_map entries_in same_option get same_list
differ_rings = refl

compare-disc_sector_details_example :
    (found : Map (List ℕ)) × (compare
        (disc_sector_details our_details 900)
        (disc_sector_details their_details 900)
      ≡ disc_sector_slice_mismatches found)
    × ((k j : ℕ)
        → member j (indices (get k found))
          ≡ not (same_option same_bytes (hash_at k j our_details) (hash_at k j their_details)))
compare-disc_sector_details_example =
    compare-disc_sector_details our_details their_details 900 differ

compare-ring_sector_details_example :
    (((k : ℕ) → is_some (get k our_details) ≡ is_some (get k their_details))
      × (found : Map (List ℕ)) × (compare
            (ring_sector_details our_details 900)
            (ring_sector_details their_details 900)
          ≡ ring_sector_mismatches found)
      × ((k j : ℕ)
          → member j (indices (get k found))
            ≡ not (same_option same_bytes (hash_at k j our_details) (hash_at k j their_details))))
    ⊎ ((¬ ((k : ℕ) → is_some (get k our_details) ≡ is_some (get k their_details)))
        × (compare (ring_sector_details our_details 900) (ring_sector_details their_details 900)
            ≡ cannot_compare))
compare-ring_sector_details_example =
    compare-ring_sector_details our_details their_details 900 our_details-IsMap their_details-IsMap
      differ_rings

abbrev low : List Bytes
low = (1 ∷ []) ∷ []

abbrev high : List Bytes
high = (2 ∷ []) ∷ []

compare-minimal_example :
    ((compare (minimal [] 900 low) (minimal [] 900 high) ≡ identical) × (low ≡ high))
    ⊎ ((l : List ℕ) × (compare (minimal [] 900 low) (minimal [] 900 high) ≡ ring_mismatches l)
        × (l ≢ [])
        × ((k : ℕ)
            → member k l ≡ not (same_option same_bytes (get_elem? low k) (get_elem? high k))))
compare-minimal_example = compare-minimal [] 900 low high refl (omega arith)
