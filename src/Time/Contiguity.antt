-- ===== src/Time/Contiguity.antt =====
-- The partial slices after `update` of crates/dht/src/time.rs: with no gap from the end of the full
-- slices on.
use mathlib.Core.Path.{subst}
use kitsune.Prelude.{
  ℕ, ◌<◌, ◌^◌, Option, List, [], ◌∷◌, ◌++◌, true, ◌≡◌, refl, ap, sym, ◌∙◌, arith, Option-cases, inl,
  inr,
}
use kitsune.Prelude.Outcome.{ok}
use kitsune.Prelude.Exec.{continue-keeps, continue-ok}
use kitsune.Timestamp.{Timestamp, lt_i64, add_duration}
use kitsune.OpStore.{OpStore}
use kitsune.Time.{slice_duration, layout_partials}
use kitsune.Time.Partition.{
  PartialSlice, TimePartition, slice_end, push_partial, set_next_update, last,
  full_slice_end_timestamp,
}
use kitsune.Time.Update.{
  World, update_full_slice_hashes, slice_hash, push_partials, update_partials, update,
}
use kitsune.Time.Slices.{Contiguous, ending}
use kitsune.Time.Links.{Links, layout_partials-Links}

module _ (p : PartialSlice) where
  Contiguous-snoc :
      (t : Timestamp) (ps : List PartialSlice)
      → Contiguous t ps
      → p.start ≡ ending t ps
      → lt_i64 (ending t ps) (slice_end p) ≡ true
      → Contiguous t (ps ++ p ∷ [])
  Contiguous-snoc t [] c e l = (e, l, tt)
  Contiguous-snoc t (q ∷ ps) (s, b, c) e l = (s, b, Contiguous-snoc (slice_end q) ps c e l)

  ending-snoc : (t : Timestamp) (ps : List PartialSlice) → ending t (ps ++ p ∷ []) ≡ slice_end p
  ending-snoc t [] = refl
  ending-snoc t (q ∷ ps) = ending-snoc (slice_end q) ps

-- The partial slices follow one another from the end of the full ones on.
unfoldable pub IsContiguous : TimePartition → Type 0
IsContiguous pt = Contiguous (full_slice_end_timestamp pt) pt.partial_slices

-- Where the partial slices end.
unfoldable partials_end : TimePartition → Timestamp
partials_end pt = ending (full_slice_end_timestamp pt) pt.partial_slices

full_slice_end-bound : (pt : TimePartition) → full_slice_end_timestamp pt < 2 ^ 64
unfolding full_slice_end_timestamp add_duration
full_slice_end-bound pt = omega arith

module _ (p : PartialSlice) (pt : TimePartition) where
  push_partial-IsContiguous :
      IsContiguous pt
      → p.start ≡ partials_end pt
      → lt_i64 (partials_end pt) (slice_end p) ≡ true
      → IsContiguous (push_partial p pt)
  unfolding IsContiguous partials_end push_partial full_slice_end_timestamp
  push_partial-IsContiguous c e l =
      Contiguous-snoc p (full_slice_end_timestamp pt) pt.partial_slices c e l

  push_partial-end : partials_end (push_partial p pt) ≡ slice_end p
  unfolding partials_end push_partial full_slice_end_timestamp
  push_partial-end = ending-snoc p (full_slice_end_timestamp pt) pt.partial_slices

none_left-IsContiguous : (pt : TimePartition) → IsContiguous (record pt { partial_slices = [] })
unfolding IsContiguous
none_left-IsContiguous pt = tt

none_left-end :
    (pt : TimePartition)
    → partials_end (record pt { partial_slices = [] }) ≡ full_slice_end_timestamp pt
unfolding partials_end full_slice_end_timestamp
none_left-end pt = refl

set_next-IsContiguous : (pt : TimePartition) → IsContiguous pt → IsContiguous (set_next_update pt)
unfolding IsContiguous set_next_update full_slice_end_timestamp
set_next-IsContiguous pt c = elim (Option-cases (last pt.partial_slices)) [
  | inl n ↦ rw (n, set_next_update) c
  | inr p ↦ rw (p.1, set_next_update) c
]

module _ (store : OpStore) where
  push_partials-IsContiguous :
      (old : List PartialSlice) (earliest : Option Timestamp) (new : List (Timestamp × ℕ))
      (w : World store)
      → IsContiguous w.0
      → Links (partials_end w.0) new
      → IsContiguous (push_partials store old earliest new w).1.0
  unfolding push_partials slice_end
  push_partials-IsContiguous old earliest [] w c l = c
  push_partials-IsContiguous old earliest ((start, size) ∷ rest) w c (e, b, l) =
      continue-keeps (λ w. IsContiguous w.0) (slice_hash store old earliest start size w) _ w c
        λ hash q.
          let p : PartialSlice = record { start = start; size = size; hash = hash } in
          let same : add_duration (partials_end w.0) (slice_duration size) ≡ slice_end p =
            ap (λ t. add_duration t (slice_duration size)) (sym e) in
          push_partials-IsContiguous old earliest rest (push_partial p w.0, w.1)
            (push_partial-IsContiguous p w.0 c e
              (subst (λ t. lt_i64 (partials_end w.0) t ≡ true) same b))
            (subst (λ t. Links t rest) (same ∙ sym (push_partial-end p w.0)) l)

  update_partials-IsContiguous :
      (earliest : Option Timestamp) (current : Timestamp) (w : World store)
      → (update_partials store earliest current w).0 ≡ ok tt
      → IsContiguous (update_partials store earliest current w).1.0
  unfolding update_partials
  update_partials-IsContiguous earliest current w h =
      let (new, e, h') =
        continue-ok (layout_partials w.0.factor (full_slice_end_timestamp w.0) current) _ w h in
      rw (e, update_partials)
        (push_partials-IsContiguous w.0.partial_slices earliest new
          (record w.0 { partial_slices = [] }, w.1) (none_left-IsContiguous w.0)
          (subst (λ t. Links t new) (sym (none_left-end w.0))
            (layout_partials-Links w.0.factor (full_slice_end_timestamp w.0) current
              (full_slice_end-bound w.0) e)))

  -- After an `update` that succeeds, whatever the partition and the store were before, the partial
  -- slices follow one another with no gap from the end of the full slices on, and none is empty.
  pub update-IsContiguous :
      (current : Timestamp) (w : World store)
      → (update store current w).0 ≡ ok tt
      → IsContiguous (update store current w).1.0
  unfolding update
  update-IsContiguous current w h =
      let w1 = (update_full_slice_hashes store current w).1 in
      let (u, e1, h1) = continue-ok (update_full_slice_hashes store current w).0 _ w1 h in
      let (earliest, e2, h2) =
        continue-ok (store.earliest_timestamp_in_arc w1.1 w1.0.sector_constraint) _ w1 h1 in
      let w2 = (update_partials store earliest current w1).1 in
      let (v, e3, h3) = continue-ok (update_partials store earliest current w1).0 _ w2 h2 in
      rw (e1, update)
        (rw e2 (
          rw e3 (set_next-IsContiguous w2.0 (update_partials-IsContiguous earliest current w1 e3))))
