-- ===== src/Dht/Budget.antt =====
-- The limit on the op data that one answer of `Dht::handle_snapshot` refers to (crates/dht/src/dht.rs).
use kitsune.Prelude.{
  ℕ, ◌+◌, ◌^◌, ◌≤◌, ◌<◌, ◌%◌, Bool, Option, List, [], ◌∷◌, ◌++◌, Bool-cases, ◌≡◌, inl, inr, refl,
  ◌∙◌, ◌==◌, arith,
}
use kitsune.Prelude.Outcome
use kitsune.Prelude.Outcome.{
  Outcome, ok, err, panic, Ensures, Ensures-ok, >>=-Ensures, elim-Ensures, if-Ensures,
}
use kitsune.Prelude.Words.{add32, le_i32}
use kitsune.Prelude.Maps.{Map}
use kitsune.Arc.{DhtArc}
use kitsune.ArcSet.{ArcSet, covered_sector_count, sort}
use kitsune.Timestamp.{Timestamp}
use kitsune.OpStore.{OpId, OpStore}
use kitsune.Snapshot.{
  DhtSnapshot, SnapshotDiff, identical, cannot_compare, disc_mismatch, disc_sector_mismatches,
  disc_sector_slice_mismatches, ring_mismatches, ring_sector_mismatches, compare,
}
use kitsune.Dht.{
  Dht, DhtSnapshotNextAction, in_sync, cannot_compare_dhts, new_snapshot,
  new_snapshot_and_hash_list, hash_list, snapshot_disc_sectors, snapshot_disc_sector_details,
  snapshot_ring_sector_details,
}
use kitsune.Dht.Fetch.{
  Batch, add_batch, is_used_up, or_continue, sort_by_key, fetch_slices, fetch_disc, fetch_ring,
  fetch_rings,
}
use kitsune.Dht.Handle.{is_final, last_action, our_snapshot, next_action, handle_snapshot}

-- The op ids that an answer carries.
abbrev pub ids_of : DhtSnapshotNextAction → List OpId
ids_of in_sync = []
ids_of cannot_compare_dhts = []
ids_of (new_snapshot x) = []
ids_of (new_snapshot_and_hash_list x ids) = ids
ids_of (hash_list ids) = ids

or_continue-Ensures :
    {A B : Type 0} (P : B → Type 0) (r : Outcome A) (skip : Outcome B) (f : A → Outcome B)
    → Ensures P skip
    → ((a : A) → Ensures P (f a))
    → Ensures P (or_continue r skip f)
unfolding or_continue
or_continue-Ensures P (ok a) skip f h k = k a
or_continue-Ensures P (err e) skip f h k = h
or_continue-Ensures P panic skip f h k = tt

module _ (size : OpId → ℕ) where
  -- The size of the data of some ops.
  abbrev pub total : List OpId → ℕ
  total [] = 0
  total (id ∷ ids) = size id + total ids

  total-append : (xs ys : List OpId) → total (xs ++ ys) ≡ total xs + total ys
  total-append [] ys = let q : total ys ≡ 0 + total ys = omega arith in q
  total-append (x ∷ xs) ys = omega (arith, total-append xs ys)

  module _ (limit : ℕ) where
    -- What has been collected is as large as it says, and not over the limit.
    abbrev Fits : Batch → Type 0
    Fits (out, used_bytes) = (used_bytes ≡ total out) × (used_bytes ≤ limit)

    abbrev FitsFlagged : Bool × Batch → Type 0
    FitsFlagged (b, batch) = Fits batch

    add_batch-Fits :
        (batch : Batch) (ids : List OpId) (ub : ℕ)
        → ub ≡ total ids
        → ub + limit < 2 ^ 31
        → Fits batch
        → Fits (add_batch limit batch (ids, ub))
    unfolding add_batch
    add_batch-Fits (out, used) ids ub e b (u, h) =
        let q : (used + ub) % 2 ^ 32 ≡ used + ub = omega arith in
        let t = total-append out ids in
        elim (Bool-cases (le_i32 (add32 used ub) limit)) [
          | inl y ↦ rw y (
            q ∙ (let z : used + ub ≡ total (out ++ ids) = omega (arith, t, e, u) in z),
            ground arith,
          )
          | inr n ↦ rw n (u, h)
        ]

    module _ (store : OpStore) (dht : Dht) (s : store.State)
        (sized : (arc : DhtArc) (start end : Timestamp) (ids : List OpId) (ub : ℕ)
          → store.retrieve_op_hashes_in_time_slice s arc start end ≡ ok (ids, ub)
          → (ub ≡ total ids) × (ub + limit < 2 ^ 31)) where
      abbrev step-Fits :
          {sector : DhtArc} {start end : Timestamp} (batch : Batch)
          → Fits batch
          → (ops : List OpId × ℕ)
          → store.retrieve_op_hashes_in_time_slice s sector start end ≡ ok ops
          → Fits (add_batch limit batch ops)
      step-Fits batch h (ids, ub) e =
          let (x, y) = sized _ _ _ ids ub e in add_batch-Fits batch ids ub x y h

      abbrev retrieved : DhtArc → Timestamp × Timestamp → Outcome (List OpId × ℕ)
      retrieved sector bounds = store.retrieve_op_hashes_in_time_slice s sector bounds.0 bounds.1

      fetch_slices-Fits :
          (sector : DhtArc) (slices : List ℕ) (batch : Batch)
          → Fits batch
          → Ensures Fits (fetch_slices store dht limit sector slices batch s)
      unfolding fetch_slices
      fetch_slices-Fits sector [] batch h = h
      fetch_slices-Fits sector (x ∷ xs) batch h =
          or_continue-Ensures Fits _ _ _ (fetch_slices-Fits sector xs batch h) λ bounds.
            >>=-Ensures Fits (retrieved sector bounds) _
              λ ops e. fetch_slices-Fits sector xs _ (step-Fits batch h ops e)

      fetch_disc-Fits :
          (slices : Map (List ℕ)) (batch : Batch)
          → Fits batch
          → Ensures Fits (fetch_disc store dht limit slices batch s)
      unfolding fetch_disc
      fetch_disc-Fits [] batch h = h
      fetch_disc-Fits ((k, l) ∷ rest) batch h = elim-Ensures Fits (is_used_up limit batch) _ _ h (
          or_continue-Ensures Fits _ _ _ (fetch_disc-Fits rest batch h) λ sector.
            >>=-Ensures Fits (fetch_slices store dht limit sector (sort l) batch s) _ λ batch' e.
              fetch_disc-Fits rest batch'
                (Ensures-ok Fits (fetch_slices-Fits sector (sort l) batch h) e))

      fetch_ring-Fits :
          (k : ℕ) (sectors : List ℕ) (batch : Batch)
          → Fits batch
          → Ensures FitsFlagged (fetch_ring store dht limit k sectors batch s)
      unfolding fetch_ring
      fetch_ring-Fits k [] batch h = h
      fetch_ring-Fits k (x ∷ xs) batch h =
          let skip = fetch_ring-Fits k xs batch h in
          elim-Ensures FitsFlagged (is_used_up limit batch) _ _ h (
            or_continue-Ensures FitsFlagged _ _ _ skip λ sector.
              or_continue-Ensures FitsFlagged _ _ _ skip λ bounds.
                >>=-Ensures FitsFlagged (retrieved sector bounds) _
                  λ ops e. fetch_ring-Fits k xs _ (step-Fits batch h ops e))

      fetch_rings-Fits :
          (sectors : Map (List ℕ)) (batch : Batch)
          → Fits batch
          → Ensures Fits (fetch_rings store dht limit sectors batch s)
      unfolding fetch_rings
      fetch_rings-Fits [] batch h = h
      fetch_rings-Fits ((k, l) ∷ rest) batch h =
          >>=-Ensures Fits (fetch_ring store dht limit k (sort l) batch s) _ λ r e.
            let f = Ensures-ok FitsFlagged (fetch_ring-Fits k (sort l) batch h) e in
            elim-Ensures Fits r.0 _ _ f (fetch_rings-Fits rest r.1 f)

      -- What an answer says of its ops.
      abbrev InBudget : DhtSnapshotNextAction × ℕ → Type 0
      InBudget (action, used_bytes) = (used_bytes ≡ total (ids_of action)) × (used_bytes ≤ limit)

      last_action-InBudget :
          (previous : Option DhtSnapshot) (ours : DhtSnapshot) (batch : Batch)
          → Fits batch
          → InBudget (last_action previous ours batch)
      unfolding last_action
      last_action-InBudget previous ours (out, used) h = elim (Bool-cases (is_final previous)) [
        | inl y ↦ rw y h
        | inr n ↦ rw n h
      ]

      -- An answer without ops.
      abbrev no_ops : (x : DhtSnapshot) → InBudget (new_snapshot x, 0)
      no_ops x = (refl, omega arith)

      next_action-InBudget :
          (ours : DhtSnapshot) (previous : Option DhtSnapshot) (arc_set : ArcSet) (d : SnapshotDiff)
          → Ensures InBudget (next_action store dht ours previous arc_set limit d s)
      unfolding next_action
      next_action-InBudget ours previous arc_set identical = (refl, omega arith)
      next_action-InBudget ours previous arc_set cannot_compare = (refl, omega arith)
      next_action-InBudget ours previous arc_set disc_mismatch =
          >>=-Ensures InBudget (snapshot_disc_sectors store dht arc_set s) _ λ n e. no_ops n
      next_action-InBudget ours previous arc_set (disc_sector_mismatches l) =
          >>=-Ensures InBudget (snapshot_disc_sector_details store dht l arc_set s) _
            λ n e. no_ops n
      next_action-InBudget ours previous arc_set (disc_sector_slice_mismatches m) =
          >>=-Ensures InBudget (fetch_disc store dht limit (sort_by_key m) ([], 0) s) _ λ batch e.
            last_action-InBudget previous ours batch
              (Ensures-ok Fits (fetch_disc-Fits (sort_by_key m) ([], 0) (refl, omega arith)) e)
      next_action-InBudget ours previous arc_set (ring_mismatches l) =
          >>=-Ensures InBudget (snapshot_ring_sector_details dht l arc_set) _ λ n e. no_ops n
      next_action-InBudget ours previous arc_set (ring_sector_mismatches m) =
          >>=-Ensures InBudget (fetch_rings store dht limit (sort_by_key m) ([], 0) s) _ λ batch e.
            last_action-InBudget previous ours batch
              (Ensures-ok Fits (fetch_rings-Fits (sort_by_key m) ([], 0) (refl, omega arith)) e)

      -- An answer to a snapshot reports the size of the op data that it refers to, and that is not
      -- over the limit, where the store reports the size of each batch, and no batch and the limit
      -- together reach 2 ^ 31.
      pub handle_snapshot-budget :
          (their : DhtSnapshot) (previous : Option DhtSnapshot) (arc_set : ArcSet)
          (action : DhtSnapshotNextAction) (used_bytes : ℕ)
          → handle_snapshot store dht their previous arc_set limit s ≡ ok (action, used_bytes)
          → (used_bytes ≡ total (ids_of action)) × (used_bytes ≤ limit)
      unfolding handle_snapshot
      handle_snapshot-budget their previous arc_set action used_bytes e =
          let h : Ensures InBudget (handle_snapshot store dht their previous arc_set limit s) =
            if-Ensures InBudget (covered_sector_count arc_set == 0)
              (err (Outcome.other "No arcs to snapshot")) _ tt
              (>>=-Ensures InBudget (our_snapshot store dht their previous arc_set s) _
                λ ours e. next_action-InBudget ours previous arc_set (compare ours their)) in
          Ensures-ok InBudget h e
