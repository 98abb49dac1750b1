-- ===== src/Snapshot/Discs.antt =====
-- What `compare` reports of the disc (crates/dht/src/dht/snapshot.rs).
use kitsune.Prelude.{
  ℕ, suc, false, ◌&&◌, ◌||◌, not, Option, none, some, List, [], ◌∷◌, ◌++◌, map, length, ◌==◌,
  ==_iff, if◌then◌else◌, Bool-cases, ◌≡◌, ◌≢◌, ◌⊎◌, inl, inr, refl, ap, ◌∙◌, arith,
}
use kitsune.Prelude.Sets.{member}
use kitsune.Prelude.Maps.{
  Map, get, keys, get-put, is_some, IsMap, same_option, same_map, mismatched_keys, sym_difference,
  common_keys, member-mismatched_keys, member-sym_difference, member-common_keys, member-keys,
  member-append,
}
use kitsune.Prelude.Maps.Same.{same_map_iff}
use kitsune.Timestamp.{Timestamp}
use kitsune.Combine.{Bytes}
use kitsune.Snapshot.{
  disc_sectors, disc_sector_details, identical, disc_sector_mismatches,
  disc_sector_slice_mismatches, same_bytes, same_snapshot, inner, indices, one_sided, extend_entry,
  add_common, slice_mismatches, differences, compare,
}
use kitsune.Snapshot.Equal.{same_bytes_iff, same_option_iff, compare-same, compare-other}

-- The hash of a slice of a sector.
abbrev pub hash_at : ℕ → ℕ → Map (Map Bytes) → Option Bytes
hash_at k j m = get j (inner (get k m))

module _ (m m' : Map Bytes) (t : Timestamp) where
  differences-disc_sectors :
      differences (disc_sectors m t) (disc_sectors m' t)
      ≡ disc_sector_mismatches (mismatched_keys same_bytes m m')
  unfolding differences
  differences-disc_sectors = ground arith

  same-disc_sectors :
      same_snapshot (disc_sectors m t) (disc_sectors m' t) ≡ same_map same_bytes m m'
  unfolding same_snapshot
  same-disc_sectors = ground arith

  -- Where no key is mismatched the maps are the same.
  mismatched-ne-nil :
      IsMap m → IsMap m' → same_map same_bytes m m' ≡ false → mismatched_keys same_bytes m m' ≢ []
  unfolding member
  mismatched-ne-nil v v' h e =
      let all : (k : ℕ) → get k m ≡ get k m' = λ k. (same_option_iff (get k m) (get k m')).0 (
        let p = member-mismatched_keys same_bytes m m' k in
        let q = ap (λ l. member k l) e in ground arith) in
      let p = (same_map_iff same_bytes same_bytes_iff m m' v v').1 all in cc

  -- Of two disc sector snapshots with the same boundary, `compare` reports those sectors where one
  -- has a hash that the other has not, at least one; or they are identical, and have the same
  -- hashes.
  pub compare-disc_sectors :
      IsMap m
      → IsMap m'
      → ((compare (disc_sectors m t) (disc_sectors m' t) ≡ identical)
          × ((k : ℕ) → get k m ≡ get k m'))
        ⊎ ((l : List ℕ) × (compare (disc_sectors m t) (disc_sectors m' t)
              ≡ disc_sector_mismatches l)
            × (l ≢ [])
            × ((k : ℕ) → member k l ≡ not (same_option same_bytes (get k m) (get k m'))))
  compare-disc_sectors v v' = elim (Bool-cases (same_map same_bytes m m')) [
    | inl h ↦ inl (
      compare-same _ _ (same-disc_sectors ∙ h),
      (same_map_iff same_bytes same_bytes_iff m m' v v').0 h,
    )
    | inr h ↦ inr (
      mismatched_keys same_bytes m m',
      compare-other _ _ (same-disc_sectors ∙ h) ∙ differences-disc_sectors,
      mismatched-ne-nil v v' h,
      member-mismatched_keys same_bytes m m',
    )
  ]

suc_ne_zero : (n : ℕ) → (suc n == 0) ≡ false
suc_ne_zero n = ground arith

some-keys :
    (j : ℕ) (m : Map Bytes) → member j (keys m) ≡ not (same_option same_bytes (get j m) none)
unfolding same_option
some-keys j m = member-keys j m ∙ present (get j m)
  where
    present : (o : Option Bytes) → is_some o ≡ not (same_option same_bytes o none)
    present none = refl
    present (some v) = refl

keys-some :
    (j : ℕ) (m : Map Bytes) → member j (keys m) ≡ not (same_option same_bytes none (get j m))
unfolding same_option
keys-some j m = member-keys j m ∙ present (get j m)
  where
    present : (o : Option Bytes) → is_some o ≡ not (same_option same_bytes none o)
    present none = refl
    present (some v) = refl

-- The slices reported of a sector, by which of the two sides have it.
reported :
    (j : ℕ) (o p : Option (Map Bytes))
    → ((is_some o && not (is_some p) || is_some p && not (is_some o))
          && member j (keys (elim o [ some m ↦ m | none ↦ inner p ]))
        || is_some o && is_some p && member j (mismatched_keys same_bytes (inner o) (inner p)))
      ≡ not (same_option same_bytes (get j (inner o)) (get j (inner p)))
unfolding get same_option
reported j none none = refl
reported j (some m) none = ground (arith, some-keys j m)
reported j none (some m) = ground (arith, keys-some j m)
reported j (some m) (some m') = member-mismatched_keys same_bytes m m' j

module _ (ours theirs : Map (Map Bytes)) (k j : ℕ) where
  -- The slices that one common sector adds.
  abbrev found_at : ℕ → List ℕ
  found_at i = mismatched_keys same_bytes (inner (get i ours)) (inner (get i theirs))

  indices-extend_entry :
      (i : ℕ) (found : List ℕ) (acc : Map (List ℕ))
      → member j (indices (get k (extend_entry i found acc)))
        ≡ (member j (indices (get k acc)) || i == k && member j found)
  unfolding extend_entry
  indices-extend_entry i found acc =
      ap (λ o. member j (indices o)) (get-put k i (indices (get i acc) ++ found) acc)
      ∙ elim (Bool-cases (i == k)) [
        | inl e ↦ rw e (
            member-append j (indices (get i acc)) found
            ∙ ap (λ n. member j (indices (get n acc)) || member j found) ((==_iff i k).0 e))
        | inr e ↦ rw e (ground arith)
      ]

  add_one :
      (i : ℕ) (found : List ℕ) (acc : Map (List ℕ))
      → member j (indices (get k (if length found == 0 then acc else extend_entry i found acc)))
        ≡ (member j (indices (get k acc)) || i == k && member j found)
  unfolding member
  add_one i [] acc = ground arith
  add_one i (x ∷ found) acc =
      rw (suc_ne_zero (length found)) (indices-extend_entry i (x ∷ found) acc)

  indices-add_common :
      (l : List ℕ) (acc : Map (List ℕ))
      → member j (indices (get k (add_common ours theirs l acc)))
        ≡ (member j (indices (get k acc)) || member k l && member j (found_at k))
  unfolding add_common member
  indices-add_common [] acc = ground arith
  indices-add_common (i ∷ l) acc =
      indices-add_common l
        (if length (found_at i) == 0 then acc else extend_entry i (found_at i) acc)
      ∙ ap (λ b. b || member k l && member j (found_at k)) (add_one i (found_at i) acc)
      ∙ elim (Bool-cases (i == k)) [
        | inl e ↦
            let p : member j (found_at i) ≡ member j (found_at k) =
              ap (λ n. member j (found_at n)) ((==_iff i k).0 e) in
            ground arith
        | inr e ↦ ground arith
      ]

  indices-one_sided :
      (l : List ℕ)
      → member j (indices (get k (map (one_sided ours theirs) l)))
        ≡ (member k l && member j (one_sided ours theirs k).1)
  unfolding get member one_sided
  indices-one_sided [] = refl
  indices-one_sided (i ∷ l) = elim (Bool-cases (i == k)) [
    | inl e ↦ rw e (ap (λ n. member j (one_sided ours theirs n).1) ((==_iff i k).0 e))
    | inr e ↦ rw e (indices-one_sided l)
  ]

  member-slice_mismatches :
      member j (indices (get k (slice_mismatches ours theirs)))
      ≡ not (same_option same_bytes (hash_at k j ours) (hash_at k j theirs))
  unfolding slice_mismatches one_sided
  member-slice_mismatches =
      indices-add_common (common_keys ours theirs)
        (map (one_sided ours theirs) (sym_difference ours theirs))
      ∙ ap (λ b. b || member k (common_keys ours theirs) && member j (found_at k))
          (indices-one_sided (sym_difference ours theirs))
      ∙ simp (member-sym_difference, member-common_keys) (reported j (get k ours) (get k theirs))

module _ (m m' : Map (Map Bytes)) (t : Timestamp) where
  differences-details :
      differences (disc_sector_details m t) (disc_sector_details m' t)
      ≡ disc_sector_slice_mismatches (slice_mismatches m m')
  unfolding differences
  differences-details = ground arith

  -- Of two snapshots of disc sector details with the same boundary that are not the same, `compare`
  -- reports for each sector those slices where one has a hash that the other has not.
  pub compare-disc_sector_details :
      same_snapshot (disc_sector_details m t) (disc_sector_details m' t) ≡ false
      → (found : Map (List ℕ)) × (compare (disc_sector_details m t) (disc_sector_details m' t)
          ≡ disc_sector_slice_mismatches found)
        × ((k j : ℕ)
            → member j (indices (get k found))
              ≡ not (same_option same_bytes (hash_at k j m) (hash_at k j m')))
  compare-disc_sector_details h = (
    slice_mismatches m m',
    compare-other _ _ h ∙ differences-details,
    λ k j. member-slice_mismatches m m' k j,
  )
