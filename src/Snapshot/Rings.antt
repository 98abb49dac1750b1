-- ===== src/Snapshot/Rings.antt =====
-- What `compare` reports of the rings (crates/dht/src/dht/snapshot.rs).
use mathlib.Core.Path.{subst}
use kitsune.Prelude.{
  ℕ, zero, suc, ◌+◌, ◌≤◌, ◌<◌, ◌%◌, true, false, ◌&&◌, not, Option, none, some, List, [], ◌∷◌,
  length, get_elem?, ◌==◌, ==_iff, same_list, Bool-cases, ◌≡◌, ◌≢◌, ◌⊎◌, inl, inr, refl, ap, ◌∙◌,
  arith, same_list_iff,
}
use kitsune.Prelude.Words.{u32_mod}
use kitsune.Prelude.Sets.{member}
use kitsune.Prelude.Maps.{
  Map, get, get-put, is_some, IsMap, same_option, mismatched_keys, common_keys, same_keys,
  member-mismatched_keys, member-common_keys,
}
use kitsune.Prelude.Maps.Keys.{same_keys_iff}
use kitsune.Timestamp.{Timestamp}
use kitsune.Combine.{Bytes}
use kitsune.Snapshot.{
  minimal, ring_sector_details, identical, cannot_compare, ring_mismatches, ring_sector_mismatches,
  same_bytes, same_snapshot, hash_mismatch_indices, inner, indices, ring_sectors, differences,
  compare,
}
use kitsune.Snapshot.Equal.{same_bytes_iff, compare-same, compare-other}
use kitsune.Snapshot.Discs.{hash_at}

indices-above :
    (i j : ℕ) (r r' : List Bytes)
    → j < i
    → i + length r ≤ u32_mod
    → member j (hash_mismatch_indices i r r') ≡ false
unfolding hash_mismatch_indices member
indices-above i j [] r' h b = refl
indices-above i j (x ∷ r) [] h b = refl
indices-above i j (x ∷ r) (y ∷ r') h b =
    ground (arith, indices-above (i + 1) j r r' (omega arith) (omega arith))

-- Ring `k` is reported exactly when its hashes differ, for rings counted from `i` on.
member-hash_mismatch_indices :
    (i k : ℕ) (r r' : List Bytes)
    → length r ≡ length r'
    → i + length r ≤ u32_mod
    → member (i + k) (hash_mismatch_indices i r r')
      ≡ not (same_option same_bytes (get_elem? r k) (get_elem? r' k))
unfolding hash_mismatch_indices member same_option
member-hash_mismatch_indices i k [] [] e b = refl
member-hash_mismatch_indices i k [] (y ∷ r') e b = absurd (omega arith)
member-hash_mismatch_indices i k (x ∷ r) [] e b = absurd (omega arith)
member-hash_mismatch_indices i zero (x ∷ r) (y ∷ r') e b =
    ground (arith, indices-above (i + 1) (i + 0) r r' (omega arith) (omega arith))
member-hash_mismatch_indices i (suc k) (x ∷ r) (y ∷ r') e b =
    let n : (i % u32_mod == i + suc k) ≡ false = ground arith in
    let ih =
      subst
        (λ j.
          member j (hash_mismatch_indices (i + 1) r r')
          ≡ not (same_option same_bytes (get_elem? r k) (get_elem? r' k)))
        (let q : i + 1 + k ≡ i + suc k = omega arith in q)
        (member-hash_mismatch_indices (i + 1) k r r' (omega arith) (omega arith)) in
    ground (arith, n, ih)

-- Lists of one length with the same element everywhere are equal.
same_elements :
    (r r' : List Bytes)
    → length r ≡ length r'
    → ((k : ℕ) → same_option same_bytes (get_elem? r k) (get_elem? r' k) ≡ true)
    → r ≡ r'
unfolding same_option
same_elements [] [] e h = refl
same_elements [] (y ∷ r') e h = absurd (omega arith)
same_elements (x ∷ r) [] e h = absurd (omega arith)
same_elements (x ∷ r) (y ∷ r') e h =
    cc ((same_bytes_iff x y).0 (h 0), same_elements r r' (omega arith) (λ k. h (suc k)))

module _ (d : Bytes) (t : Timestamp) (r r' : List Bytes) where
  same-minimal : same_snapshot (minimal d t r) (minimal d t r') ≡ same_list same_bytes r r'
  unfolding same_snapshot
  same-minimal = ground (arith, (same_bytes_iff d d).1 refl)

  differences-minimal :
      length r ≡ length r'
      → differences (minimal d t r) (minimal d t r')
        ≡ ring_mismatches (hash_mismatch_indices 0 r r')
  unfolding differences
  differences-minimal h = ground (arith, (same_bytes_iff d d).1 refl)

  mismatches-ne-nil :
      length r ≡ length r'
      → length r ≤ u32_mod
      → same_list same_bytes r r' ≡ false
      → hash_mismatch_indices 0 r r' ≢ []
  unfolding member
  mismatches-ne-nil e b h q =
      let all : (k : ℕ) → same_option same_bytes (get_elem? r k) (get_elem? r' k) ≡ true = λ k.
        (let p = member-hash_mismatch_indices 0 k r r' e (omega arith) in
          let z = ap (λ l. member (0 + k) l) q in ground arith) in
      let p = (same_list_iff same_bytes same_bytes_iff r r').1 (same_elements r r' e all) in cc

  -- Of two minimal snapshots with the same boundary, the same disc hash and as many rings, at most
  -- 2 ^ 32, `compare` reports exactly the rings whose hashes differ, at least one; or they are identical,
  -- and their rings are equal.
  pub compare-minimal :
      length r ≡ length r'
      → length r ≤ u32_mod
      → ((compare (minimal d t r) (minimal d t r') ≡ identical) × (r ≡ r'))
        ⊎ ((l : List ℕ) × (compare (minimal d t r) (minimal d t r') ≡ ring_mismatches l)
            × (l ≢ [])
            × ((k : ℕ)
                → member k l ≡ not (same_option same_bytes (get_elem? r k) (get_elem? r' k))))
  compare-minimal e b = elim (Bool-cases (same_list same_bytes r r')) [
    | inl h ↦
        inl
          (compare-same _ _ (same-minimal ∙ h), (same_list_iff same_bytes same_bytes_iff r r').0 h)
    | inr h ↦ inr (
      hash_mismatch_indices 0 r r',
      compare-other _ _ (same-minimal ∙ h) ∙ differences-minimal e,
      mismatches-ne-nil e b h,
      λ k.
          ap (λ j. member j (hash_mismatch_indices 0 r r')) (let q : k ≡ 0 + k = omega arith in q)
          ∙ member-hash_mismatch_indices 0 k r r' e (omega arith),
    )
  ]

module _ (m m' : Map (Map Bytes)) where
  indices-ring_sectors :
      (k j : ℕ) (l : List ℕ)
      → member j (indices (get k (ring_sectors m m' l)))
        ≡ (member k l && member j (mismatched_keys same_bytes (inner (get k m)) (inner (get k m'))))
  unfolding ring_sectors member get
  indices-ring_sectors k j [] = refl
  indices-ring_sectors k j (i ∷ l) =
      ap (λ o. member j (indices o)) (get-put k i _ (ring_sectors m m' l))
      ∙ elim (Bool-cases (i == k)) [
        | inl e ↦ rw e (
            ap (λ n. member j (mismatched_keys same_bytes (inner (get n m)) (inner (get n m'))))
              ((==_iff i k).0 e))
        | inr e ↦ rw e (indices-ring_sectors k j l)
      ]

  module _ (t : Timestamp) where
    differences-rings :
        same_keys m m' ≡ true
        → differences (ring_sector_details m t) (ring_sector_details m' t)
          ≡ ring_sector_mismatches (ring_sectors m m' (common_keys m m'))
    unfolding differences
    differences-rings h = ground arith

    differences-other_rings :
        same_keys m m' ≡ false
        → differences (ring_sector_details m t) (ring_sector_details m' t) ≡ cannot_compare
    unfolding differences
    differences-other_rings h = ground arith

    reported :
        (o o' : Option (Map Bytes)) (j : ℕ)
        → is_some o ≡ is_some o'
        → (is_some o && is_some o' && member j (mismatched_keys same_bytes (inner o) (inner o')))
          ≡ not (same_option same_bytes (get j (inner o)) (get j (inner o')))
    unfolding get same_option
    reported none none j e = refl
    reported none (some x) j e = cc
    reported (some x) none j e = cc
    reported (some x) (some x') j e = member-mismatched_keys same_bytes x x' j

    -- Of two snapshots of ring details with the same boundary that are not the same, `compare` reports
    -- for each ring those sectors where one has a hash that the other has not, if both snapshots are
    -- of the same rings; otherwise it reports that they cannot be compared.
    pub compare-ring_sector_details :
        IsMap m
        → IsMap m'
        → same_snapshot (ring_sector_details m t) (ring_sector_details m' t) ≡ false
        → (((k : ℕ) → is_some (get k m) ≡ is_some (get k m'))
            × (found : Map (List ℕ)) × (compare (ring_sector_details m t) (ring_sector_details m' t)
                ≡ ring_sector_mismatches found)
            × ((k j : ℕ)
                → member j (indices (get k found))
                  ≡ not (same_option same_bytes (hash_at k j m) (hash_at k j m'))))
          ⊎ ((¬ ((k : ℕ) → is_some (get k m) ≡ is_some (get k m')))
              × (compare (ring_sector_details m t) (ring_sector_details m' t) ≡ cannot_compare))
    compare-ring_sector_details v v' h = elim (Bool-cases (same_keys m m')) [
      | inl e ↦
          let same = (same_keys_iff m m' v v').0 e in
          inl (
            same,
            ring_sectors m m' (common_keys m m'),
            compare-other _ _ h ∙ differences-rings e,
            λ k j.
                indices-ring_sectors k j (common_keys m m')
                ∙ ap
                    (λ b.
                      b
                      && member j (mismatched_keys same_bytes (inner (get k m)) (inner (get k m'))))
                    (member-common_keys m m' k)
                ∙ reported (get k m) (get k m') j (same k),
          )
      | inr e ↦ inr (
        λ same. let p = (same_keys_iff m m' v v').1 same in cc,
        compare-other _ _ h ∙ differences-other_rings e,
      )
    ]
