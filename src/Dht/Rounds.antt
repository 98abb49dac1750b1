-- ===== src/Dht/Rounds.antt =====
-- How an exchange of snapshots between two peers goes on (crates/dht/src/dht.rs): each answer is more
-- detailed than the question, or the last but one, or the last.
use kitsune.Prelude.{
  ℕ, ◌<◌, Bool, true, false, not, Option, none, some, List, if◌then◌else◌, Bool-cases, ◌≡◌, inl,
  inr, refl, ◌∙◌, ◌==◌, arith, length,
}
use kitsune.Prelude.Outcome
use kitsune.Prelude.Outcome.{
  Outcome, ok, err, panic, Ensures, Ensures-ok, >>=-Ensures, elim-Ensures, if-Ensures,
}
use kitsune.Prelude.Maps.{same_keys, keys}
use kitsune.ArcSet.{ArcSet, covered_sector_count}
use kitsune.OpStore.{OpStore}
use kitsune.Hash.Queries
use kitsune.Hash
use kitsune.Snapshot.{
  DhtSnapshot, minimal, disc_sectors, disc_sector_details, ring_sector_details, SnapshotDiff,
  same_bytes, same_snapshot, identical, cannot_compare, disc_mismatch, disc_sector_mismatches,
  disc_sector_slice_mismatches, ring_mismatches, ring_sector_mismatches, differences, compare,
}
use kitsune.Dht.{
  Dht, DhtSnapshotNextAction, in_sync, cannot_compare_dhts, new_snapshot,
  new_snapshot_and_hash_list, hash_list, snapshot_minimal, snapshot_disc_sectors,
  snapshot_disc_sector_details, snapshot_ring_sector_details,
}
use kitsune.Dht.Fetch.{Batch, sort_by_key, fetch_disc, fetch_rings}
use kitsune.Dht.Handle.{is_final, last_action, our_snapshot, next_action, handle_snapshot}

-- How detailed a snapshot is.
abbrev pub level : DhtSnapshot → ℕ
level (minimal d t r) = 0
level (disc_sectors m t) = 1
level (disc_sector_details m t) = 2
level (ring_sector_details m t) = 2

-- Which differences two snapshots can have, by the level of the second.
abbrev Arises : DhtSnapshot → SnapshotDiff → Type 0
Arises s identical = Unit
Arises s cannot_compare = Unit
Arises s disc_mismatch = level s ≡ 0
Arises s (disc_sector_mismatches l) = level s ≡ 1
Arises s (disc_sector_slice_mismatches m) = level s ≡ 2
Arises s (ring_mismatches l) = level s ≡ 0
Arises s (ring_sector_mismatches m) = level s ≡ 2

if-Arises :
    (s : DhtSnapshot) (b : Bool) (d d' : SnapshotDiff)
    → Arises s d
    → Arises s d'
    → Arises s (if b then d else d')
if-Arises s true d d' h h' = h
if-Arises s false d d' h h' = h'

differences-Arises : (s s' : DhtSnapshot) → Arises s' (differences s s')
unfolding differences
differences-Arises (minimal d t r) (minimal d' t' r') =
    let s' = minimal d' t' r' in
    if-Arises s' (not (t == t')) _ _ tt (
      if-Arises s' (not (same_bytes d d')) _ _ refl
        (if-Arises s' (not (length r == length r')) _ _ tt refl))
differences-Arises (disc_sectors m t) (disc_sectors m' t') =
    if-Arises (disc_sectors m' t') (not (t == t')) _ _ tt refl
differences-Arises (disc_sector_details m t) (disc_sector_details m' t') =
    if-Arises (disc_sector_details m' t') (not (t == t')) _ _ tt refl
differences-Arises (ring_sector_details m t) (ring_sector_details m' t') =
    let s' = ring_sector_details m' t' in
    if-Arises s' (not (t == t')) _ _ tt (if-Arises s' (not (same_keys m m')) _ _ tt refl)
differences-Arises s s' = tt

compare-Arises : (s s' : DhtSnapshot) → Arises s' (compare s s')
unfolding compare
compare-Arises s s' = if-Arises s' (same_snapshot s s') _ _ tt (differences-Arises s s')

-- What an answer to the snapshot `their` may be: a more detailed snapshot, or with one that is as
-- detailed as can be the ops, or the ops alone.
abbrev pub Progress : DhtSnapshot → Option DhtSnapshot → DhtSnapshotNextAction → Type 0
Progress their previous in_sync = Unit
Progress their previous cannot_compare_dhts = Unit
Progress their previous (new_snapshot x) = level their < level x
Progress their previous (new_snapshot_and_hash_list x ids) =
    (is_final previous ≡ false) × (level their ≡ 2) × (level x ≡ 2)
Progress their previous (hash_list ids) = (is_final previous ≡ true) × (level their ≡ 2)

module _ (store : OpStore) (dht : Dht) (s : store.State) (arc_set : ArcSet) where
  -- A snapshot at a level.
  abbrev At : ℕ → DhtSnapshot → Type 0
  At n x = level x ≡ n

  snapshot_minimal-level : Ensures (At 0) (snapshot_minimal store dht arc_set s)
  unfolding snapshot_minimal
  snapshot_minimal-level =
      if-Ensures (At 0) (covered_sector_count arc_set == 0)
        (err (Outcome.other "No arcs to snapshot")) _ tt
        (>>=-Ensures (At 0) (Hash.disc_top_hash store dht.partition arc_set s) _
          λ d e. >>=-Ensures (At 0) (Queries.ring_top_hashes dht.partition arc_set) _ λ r e. refl)

  snapshot_disc_sectors-level : Ensures (At 1) (snapshot_disc_sectors store dht arc_set s)
  unfolding snapshot_disc_sectors
  snapshot_disc_sectors-level =
      >>=-Ensures (At 1) (Queries.disc_sector_hashes store dht.partition arc_set s) _ λ d e. refl

  snapshot_disc_sector_details-level :
      (l : List ℕ) → Ensures (At 2) (snapshot_disc_sector_details store dht l arc_set s)
  unfolding snapshot_disc_sector_details
  snapshot_disc_sector_details-level l =
      >>=-Ensures (At 2) (Queries.disc_sector_sector_details store dht.partition arc_set l s) _
        λ d e. refl

  snapshot_ring_sector_details-level :
      (l : List ℕ) → Ensures (At 2) (snapshot_ring_sector_details dht l arc_set)
  unfolding snapshot_ring_sector_details
  snapshot_ring_sector_details-level l =
      >>=-Ensures (At 2) (Queries.ring_details dht.partition arc_set l) _ λ d e. refl

  our_snapshot-level :
      (their : DhtSnapshot) (previous : Option DhtSnapshot)
      → Ensures (At (level their)) (our_snapshot store dht their previous arc_set s)
  unfolding our_snapshot
  our_snapshot-level (minimal d t r) p = snapshot_minimal-level
  our_snapshot-level (disc_sectors m t) p = snapshot_disc_sectors-level
  our_snapshot-level (disc_sector_details m t) none = snapshot_disc_sector_details-level (keys m)
  our_snapshot-level (disc_sector_details m t) (some (disc_sector_details m' t')) = refl
  our_snapshot-level (disc_sector_details m t) (some (minimal d t' r)) =
      snapshot_disc_sector_details-level (keys m)
  our_snapshot-level (disc_sector_details m t) (some (disc_sectors m' t')) =
      snapshot_disc_sector_details-level (keys m)
  our_snapshot-level (disc_sector_details m t) (some (ring_sector_details m' t')) =
      snapshot_disc_sector_details-level (keys m)
  our_snapshot-level (ring_sector_details m t) none = snapshot_ring_sector_details-level (keys m)
  our_snapshot-level (ring_sector_details m t) (some (ring_sector_details m' t')) = refl
  our_snapshot-level (ring_sector_details m t) (some (minimal d t' r)) =
      snapshot_ring_sector_details-level (keys m)
  our_snapshot-level (ring_sector_details m t) (some (disc_sectors m' t')) =
      snapshot_ring_sector_details-level (keys m)
  our_snapshot-level (ring_sector_details m t) (some (disc_sector_details m' t')) =
      snapshot_ring_sector_details-level (keys m)

  module _ (max_op_data_bytes : ℕ) (their : DhtSnapshot) (previous : Option DhtSnapshot) where
    abbrev Proceeds : DhtSnapshotNextAction × ℕ → Type 0
    Proceeds (action, used_bytes) = Progress their previous action

    -- A snapshot of a higher level is progress.
    deeper :
        (n : ℕ) (r : Outcome DhtSnapshot)
        → level their < n
        → Ensures (At n) r
        → Ensures Proceeds (Outcome.◌>>=◌ r λ x. ok (new_snapshot x, 0))
    deeper n r h e = >>=-Ensures Proceeds r _ λ x q.
        (let p = Ensures-ok (At n) e q in let z : level their < level x = omega (arith, p) in z)

    last_action-Progress :
        (ours : DhtSnapshot) (batch : Batch)
        → level ours ≡ 2
        → level their ≡ 2
        → Proceeds (last_action previous ours batch)
    unfolding last_action
    last_action-Progress ours (out, used) h e = elim (Bool-cases (is_final previous)) [
      | inl y ↦ rw y (y, e)
      | inr n ↦ rw n (n, e, h)
    ]

    next_action-Progress :
        (ours : DhtSnapshot) (d : SnapshotDiff)
        → level ours ≡ level their
        → Arises their d
        → Ensures Proceeds (next_action store dht ours previous arc_set max_op_data_bytes d s)
    unfolding next_action
    next_action-Progress ours identical h e = tt
    next_action-Progress ours cannot_compare h e = tt
    next_action-Progress ours disc_mismatch h e =
        deeper 1 _ (omega arith) snapshot_disc_sectors-level
    next_action-Progress ours (disc_sector_mismatches l) h e =
        deeper 2 _ (omega arith) (snapshot_disc_sector_details-level l)
    next_action-Progress ours (disc_sector_slice_mismatches m) h e =
        >>=-Ensures Proceeds (fetch_disc store dht max_op_data_bytes (sort_by_key m) _ s) _
          λ batch q. last_action-Progress ours batch (h ∙ e) e
    next_action-Progress ours (ring_mismatches l) h e =
        deeper 2 _ (omega arith) (snapshot_ring_sector_details-level l)
    next_action-Progress ours (ring_sector_mismatches m) h e =
        >>=-Ensures Proceeds (fetch_rings store dht max_op_data_bytes (sort_by_key m) _ s) _
          λ batch q. last_action-Progress ours batch (h ∙ e) e

    -- Every answer to a snapshot makes progress.
    pub handle_snapshot-Progress :
        (action : DhtSnapshotNextAction) (used_bytes : ℕ)
        → handle_snapshot store dht their previous arc_set max_op_data_bytes s
          ≡ ok (action, used_bytes)
        → Progress their previous action
    unfolding handle_snapshot
    handle_snapshot-Progress action used_bytes e =
        let h : Ensures Proceeds
            (handle_snapshot store dht their previous arc_set max_op_data_bytes s) =
          if-Ensures Proceeds (covered_sector_count arc_set == 0)
            (err (Outcome.other "No arcs to snapshot")) _ tt
            (>>=-Ensures Proceeds (our_snapshot store dht their previous arc_set s) _ λ ours q.
              next_action-Progress ours (compare ours their)
                (Ensures-ok (At (level their)) (our_snapshot-level their previous) q)
                (compare-Arises ours their)) in
        Ensures-ok Proceeds h e
