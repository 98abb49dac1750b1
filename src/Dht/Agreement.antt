-- ===== src/Dht/Agreement.antt =====
-- When a peer finds that it is in sync with another (crates/dht/src/dht.rs): exactly when their minimal
-- snapshots are the same.
use kitsune.Prelude.{
  ℕ, Bool, true, false, not, Option, List, length, if◌then◌else◌, Bool-cases, ◌==◌, ==_iff, ◌≡◌,
  ◌↔◌, inl, inr, refl, ap, sym, ◌∙◌, arith, same_list, same_list_iff,
}
use kitsune.Prelude.Outcome
use kitsune.Prelude.Outcome.{Outcome, ok, err, panic, Ensures, Ensures-ok, >>=-Ensures, if-Ensures}
use kitsune.ArcSet.{ArcSet, covered_sector_count}
use kitsune.Timestamp.{Timestamp}
use kitsune.Combine.{Bytes}
use kitsune.OpStore.{OpStore}
use kitsune.Hash
use kitsune.Hash.Queries
use kitsune.Snapshot.{
  DhtSnapshot, minimal, SnapshotDiff, same_bytes, same_snapshot, identical, cannot_compare,
  disc_mismatch, disc_sector_mismatches, disc_sector_slice_mismatches, ring_mismatches,
  ring_sector_mismatches, differences, compare,
}
use kitsune.Snapshot.Equal.{same_bytes_iff, compare-same, compare-other}
use kitsune.Dht.{
  Dht, DhtSnapshotNextAction, in_sync, snapshot_minimal, snapshot_disc_sectors,
  snapshot_disc_sector_details, snapshot_ring_sector_details,
}
use kitsune.Dht.Fetch.{Batch, sort_by_key, fetch_disc, fetch_rings}
use kitsune.Dht.Handle.{is_final, last_action, our_snapshot, next_action, handle_snapshot}

abbrev IsMinimal : DhtSnapshot → Type 0
IsMinimal x = (d : Bytes) × (t : Timestamp) × (r : List Bytes) × (x ≡ minimal d t r)

same-eq : (x y : DhtSnapshot) → IsMinimal x → IsMinimal y → (same_snapshot x y ≡ true) ↔ (x ≡ y)
unfolding same_snapshot
same-eq x y (d, t, r, e) (d', t', r', e') =
    rw (e, e')
      (
        λ h.
            let a : same_bytes d d' ≡ true = ground arith in
            let b : (t == t') ≡ true = ground arith in
            let c : same_list same_bytes r r' ≡ true = ground arith in
            cc (
              (same_bytes_iff d d').0 a,
              (==_iff t t').0 b,
              (same_list_iff same_bytes same_bytes_iff r r').0 c,
            ),
        λ h.
            let a = (same_bytes_iff d d').1 (cc) in
            let b = (==_iff t t').1 (cc) in
            let c = (same_list_iff same_bytes same_bytes_iff r r').1 (cc) in
            ground (arith, a, b, c),
      )

-- A difference.
abbrev Differs : SnapshotDiff → Type 0
Differs identical = ⊥
Differs d = Unit

if-Differs :
    (b : Bool) (d d' : SnapshotDiff) → Differs d → Differs d' → Differs (if b then d else d')
if-Differs true d d' h h' = h
if-Differs false d d' h h' = h'

differences-Differs : (x y : DhtSnapshot) → IsMinimal x → IsMinimal y → Differs (differences x y)
unfolding differences
differences-Differs x y (d, t, r, e) (d', t', r', e') =
    rw (e, e')
      (if-Differs (not (t == t')) _ _ tt (
        if-Differs (not (same_bytes d d')) _ _ tt
          (if-Differs (not (length r == length r')) _ _ tt tt)))

-- Not the answer of a peer in sync.
abbrev OutOfSync : DhtSnapshotNextAction × ℕ → Type 0
OutOfSync (in_sync, used_bytes) = ⊥
OutOfSync (action, used_bytes) = Unit

last_action-OutOfSync :
    (previous : Option DhtSnapshot) (ours : DhtSnapshot) (batch : Batch)
    → OutOfSync (last_action previous ours batch)
unfolding last_action
last_action-OutOfSync previous ours (out, used) = elim (Bool-cases (is_final previous)) [
  | inl y ↦ rw y tt
  | inr n ↦ rw n tt
]

module _ (store : OpStore) (dht : Dht) (s : store.State) (arc_set : ArcSet) where
  next_action-OutOfSync :
      (ours : DhtSnapshot) (previous : Option DhtSnapshot) (limit : ℕ) (d : SnapshotDiff)
      → Differs d
      → Ensures OutOfSync (next_action store dht ours previous arc_set limit d s)
  unfolding next_action
  next_action-OutOfSync ours previous limit identical h = absurd h
  next_action-OutOfSync ours previous limit cannot_compare h = tt
  next_action-OutOfSync ours previous limit disc_mismatch h =
      >>=-Ensures OutOfSync (snapshot_disc_sectors store dht arc_set s) _ λ n e. tt
  next_action-OutOfSync ours previous limit (disc_sector_mismatches l) h =
      >>=-Ensures OutOfSync (snapshot_disc_sector_details store dht l arc_set s) _ λ n e. tt
  next_action-OutOfSync ours previous limit (disc_sector_slice_mismatches m) h =
      >>=-Ensures OutOfSync (fetch_disc store dht limit (sort_by_key m) _ s) _
        λ batch e. last_action-OutOfSync previous ours batch
  next_action-OutOfSync ours previous limit (ring_mismatches l) h =
      >>=-Ensures OutOfSync (snapshot_ring_sector_details dht l arc_set) _ λ n e. tt
  next_action-OutOfSync ours previous limit (ring_sector_mismatches m) h =
      >>=-Ensures OutOfSync (fetch_rings store dht limit (sort_by_key m) _ s) _
        λ batch e. last_action-OutOfSync previous ours batch

  -- A minimal snapshot is minimal, and is of some sectors.
  abbrev Covering : DhtSnapshot → Type 0
  Covering x = IsMinimal x × ((covered_sector_count arc_set == 0) ≡ false)

  snapshot_minimal-Covering : Ensures Covering (snapshot_minimal store dht arc_set s)
  unfolding snapshot_minimal
  snapshot_minimal-Covering = elim (Bool-cases (covered_sector_count arc_set == 0)) [
    | inl y ↦ rw y tt
    | inr n ↦
        let h : Ensures Covering (
            Outcome.◌>>=◌ (Hash.disc_top_hash store dht.partition arc_set s) λ d.
              Outcome.◌>>=◌ (Queries.ring_top_hashes dht.partition arc_set)
                λ rings. ok (minimal d.0 d.1 rings)) =
          >>=-Ensures Covering (Hash.disc_top_hash store dht.partition arc_set s) _ λ d e.
            >>=-Ensures Covering (Queries.ring_top_hashes dht.partition arc_set) _
              λ r q. ((d.0, d.1, r, refl), n) in
        rw n h
  ]

  handle_snapshot-eq :
      (x y : DhtSnapshot) (previous : Option DhtSnapshot) (limit : ℕ)
      → IsMinimal x
      → (covered_sector_count arc_set == 0) ≡ false
      → snapshot_minimal store dht arc_set s ≡ ok y
      → handle_snapshot store dht x previous arc_set limit s
        ≡ next_action store dht y previous arc_set limit (compare y x) s
  unfolding handle_snapshot our_snapshot
  handle_snapshot-eq x y previous limit (d, t, r, e) n h = rw (e, n, h) refl

  next_action-identical :
      (y : DhtSnapshot) (previous : Option DhtSnapshot) (limit : ℕ)
      → next_action store dht y previous arc_set limit identical s ≡ ok (in_sync, 0)
  unfolding next_action
  next_action-identical y previous limit = refl

-- A peer that is sent the minimal snapshot of another answers that they are in sync exactly when its
-- own minimal snapshot is the same, whatever it has kept and whatever the limit.
module _ (store : OpStore) (dht dht' : Dht) (s s' : store.State) (arc_set arc_set' : ArcSet) where
  pub in_sync_iff :
      (x y : DhtSnapshot) (previous : Option DhtSnapshot) (limit : ℕ)
      → snapshot_minimal store dht arc_set s ≡ ok x
      → snapshot_minimal store dht' arc_set' s' ≡ ok y
      → (handle_snapshot store dht' x previous arc_set' limit s' ≡ ok (in_sync, 0)) ↔ (x ≡ y)
  in_sync_iff x y previous limit e e' =
      let (m, c) =
        Ensures-ok (Covering store dht s arc_set) (snapshot_minimal-Covering store dht s arc_set)
          e in
      let (m', c') =
        Ensures-ok (Covering store dht' s' arc_set')
          (snapshot_minimal-Covering store dht' s' arc_set') e' in
      let q = handle_snapshot-eq store dht' s' arc_set' x y previous limit m c' e' in
      elim (Bool-cases (same_snapshot y x)) [
        | inl h ↦ (
          λ z. sym ((same-eq y x m' m).0 h),
          λ z.
              q
              ∙ ap (λ d. next_action store dht' y previous arc_set' limit d s') (compare-same y x h)
              ∙ next_action-identical store dht' s' arc_set' y previous limit,
        )
        | inr h ↦ (
          λ z.
              let p : next_action store dht' y previous arc_set' limit (differences y x) s'
                  ≡ ok (in_sync, 0) =
                ap (λ d. next_action store dht' y previous arc_set' limit d s')
                  (sym (compare-other y x h))
                ∙ sym q
                ∙ z in
              absurd (
                Ensures-ok OutOfSync
                  (next_action-OutOfSync store dht' s' arc_set' y previous limit (differences y x)
                    (differences-Differs y x m' m))
                  p),
          λ z. let p = (same-eq y x m' m).1 (sym z) in cc,
        )
      ]
