-- ===== src/Time/StoredHashes.antt =====
-- `inform_ops_stored` of crates/dht/src/time.rs, as a whole: the combined hashes follow the store.
use mathlib.Core.List.{Perm}
use kitsune.Prelude.{ℕ, ◌<◌, List, [], ◌∷◌, All, ◌≡◌, refl, ap, ◌∙◌}
use kitsune.Prelude.Outcome.{ok}
use kitsune.Arc.{DhtArc}
use kitsune.Timestamp.{Timestamp}
use kitsune.Combine.{combine_op_hashes}
use kitsune.Combine.Laws.{combine_op_hashes-perm}
use kitsune.OpStore.{OpStore, StoreLaws, StoredOp}
use kitsune.Time.Partition.{PartialSlice, slice_end, full_slice_end_timestamp}
use kitsune.Time.Update.{World}
use kitsune.Time.Inform.{inform_each, inform_ops_stored}
use kitsune.Time.Slices.{OpsOf, add_op, add_ops, Combines, Contiguous}
use kitsune.Time.Stored.{AllSized, add_op-AllSized}
use kitsune.Time.Hashes.{HashesMatch}
use kitsune.Time.Informing.{IsSized, NotBefore, inform_each-keeps, inform_each-recent}

add_ops-AllSized :
    (n : ℕ) (ops : OpsOf) (stored : List StoredOp)
    → AllSized n ops
    → All (IsSized n) stored
    → AllSized n (add_ops ops stored)
unfolding add_ops
add_ops-AllSized n ops [] z l = z
add_ops-AllSized n ops (op ∷ stored) z (l, ls) =
    add_ops-AllSized n (add_op ops op) stored (add_op-AllSized n ops op z l) ls

Combines-map :
    (ops ops' : OpsOf) (ps : List PartialSlice)
    → ((a b : Timestamp) → combine_op_hashes (ops' a b) ≡ combine_op_hashes (ops a b))
    → All (Combines ops) ps
    → All (Combines ops') ps
Combines-map ops ops' [] e h = tt
Combines-map ops ops' (p ∷ ps) e (m, h) =
    (e p.start (slice_end p) ∙ m, Combines-map ops ops' ps e h)

module _ (store : OpStore) (laws : StoreLaws store) where
  -- The store of `w` holds the ops of `before` and those that were stored, in some order.
  abbrev pub HasStored : store.State → List StoredOp → World store → Type 0
  HasStored before stored w =
      (a b : Timestamp)
      → Perm (laws.ops w.1 w.0.sector_constraint a b)
          (add_ops (laws.ops before w.0.sector_constraint) stored a b)

module _ (store : OpStore) (laws : StoreLaws store) (n : ℕ) (pos : 0 < n)
    (sized : (s : store.State) (c : DhtArc) → AllSized n (laws.ops s c)) where
  -- Where the store obeys its contract, where the ids of the ops of every state of the store and
  -- of the stored ops are all of one same length, not zero, and where the store holds the ops that
  -- it held before and the stored ones, in any order: if `inform_ops_stored` succeeds on a
  -- partition whose partial slices follow one another from the end of its full slices, none of
  -- them empty, and whose combined hashes matched the store before, for stored ops of any time,
  -- historical ones among them, then the combined hashes match the store afterwards.
  pub inform_ops_stored-HashesMatch :
      (stored : List StoredOp) (before : store.State) (w : World store)
      → All (IsSized n) stored
      → Contiguous (full_slice_end_timestamp w.0) w.0.partial_slices
      → HashesMatch store laws (w.0, before)
      → HasStored store laws before stored w
      → (inform_ops_stored store stored w).0 ≡ ok tt
      → HashesMatch store laws (inform_ops_stored store stored w).1
  unfolding inform_ops_stored HashesMatch
  inform_ops_stored-HashesMatch stored before w l c h perm o =
      let sector = w.0.sector_constraint in
      let ops = laws.ops before sector in
      let (i, k) =
        inform_each-keeps store laws w.1 sector n pos (full_slice_end_timestamp w.0) ops stored w
          (sized before sector) l (c, h) (record { same_sector = refl; same_ops = λ a b. refl })
          o in
      let w' = (inform_each store (full_slice_end_timestamp w.0) stored w).1 in
      Combines-map (add_ops ops stored) (laws.ops w'.1 w'.0.sector_constraint) w'.0.partial_slices
        (λ a b.
          ap (λ x. combine_op_hashes (laws.ops w'.1 x a b)) k.same_sector
          ∙ ap combine_op_hashes (k.same_ops a b)
          ∙ combine_op_hashes-perm n pos _ _ (sized w.1 sector a b)
              (add_ops-AllSized n ops stored (sized before sector) l a b) (perm a b))
        i.1

  recent-ok :
      (stored : List StoredOp) (before : store.State) (w : World store)
      → All (IsSized n) stored
      → All (NotBefore (full_slice_end_timestamp w.0)) stored
      → Contiguous (full_slice_end_timestamp w.0) w.0.partial_slices
      → HashesMatch store laws (w.0, before)
      → (inform_ops_stored store stored w).0 ≡ ok tt
  unfolding inform_ops_stored HashesMatch
  recent-ok stored before w l b c h =
      inform_each-recent store laws w.1 w.0.sector_constraint n pos (full_slice_end_timestamp w.0)
        (laws.ops before w.0.sector_constraint) stored w (sized before w.0.sector_constraint) l b
        (c, h)

  -- Where the store obeys its contract, where the ids of the ops of every state of the store and
  -- of the stored ops are all of one same length, not zero, and where the store holds the ops that
  -- it held before and the stored ones, in any order: `inform_ops_stored` succeeds on a partition
  -- whose partial slices follow one another from the end of its full slices, none of them empty,
  -- and whose combined hashes matched the store before, if none of the stored ops is before the
  -- end of the full slices, and the combined hashes then match the store.
  pub inform_recent-HashesMatch :
      (stored : List StoredOp) (before : store.State) (w : World store)
      → All (IsSized n) stored
      → All (NotBefore (full_slice_end_timestamp w.0)) stored
      → Contiguous (full_slice_end_timestamp w.0) w.0.partial_slices
      → HashesMatch store laws (w.0, before)
      → HasStored store laws before stored w
      → ((inform_ops_stored store stored w).0 ≡ ok tt)
        × HashesMatch store laws (inform_ops_stored store stored w).1
  inform_recent-HashesMatch stored before w l b c h perm =
      let o = recent-ok stored before w l b c h in
      (o, inform_ops_stored-HashesMatch stored before w l c h perm o)
