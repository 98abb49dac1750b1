-- ===== src/Time/Hashes.antt =====
-- The combined hashes of the partial slices (crates/dht/src/time.rs): each is the combination of the
-- ops that the store holds for its slice, however the partition was updated.
use kitsune.Prelude.{
  ℕ, zero, suc, ◌+◌, Option, List, [], ◌∷◌, All, All-append, if◌then◌else◌, ◌≡◌, ap, ◌∙◌,
  Option-cases, inl, inr,
}
use kitsune.Prelude.Outcome.{ok}
use kitsune.Prelude.Exec.{pure, modify, continue, continue-keeps, ◌>>◌}
use kitsune.Arc.{DhtArc}
use kitsune.Timestamp.{Timestamp, add_duration}
use kitsune.Combine.{Bytes, is_empty, combine_op_hashes}
use kitsune.OpStore.{OpStore, StoreLaws}
use kitsune.Time.{layout_partials}
use kitsune.Time.Partition.{
  PartialSlice, slice_end, push_partial, set_next_update, last, full_slice_end_timestamp,
  layout_full_slices,
}
use kitsune.Time.Update.{
  World, put_slice_hash, add_full_slices, update_full_slice_hashes, slice_hash, push_partials,
  update_partials, update,
}
use kitsune.Time.Matches.{Matches, slice_hash-Matches}

module _ (store : OpStore) (laws : StoreLaws store) where
  -- So it is for every partial slice.
  unfoldable pub HashesMatch : World store → Type 0
  HashesMatch w = All (Matches store laws w.1 w.0.sector_constraint) w.0.partial_slices

  Matches-ext :
      (s s' : store.State) (c : DhtArc) (ps : List PartialSlice)
      → ((a b : Timestamp) → laws.ops s' c a b ≡ laws.ops s c a b)
      → All (Matches store laws s c) ps
      → All (Matches store laws s' c) ps
  Matches-ext s s' c [] e h = tt
  Matches-ext s s' c (p ∷ ps) e h =
      (ap combine_op_hashes (e p.start (slice_end p)) ∙ h.0, Matches-ext s s' c ps e h.1)

  put_slice_hash-HashesMatch :
      (index : ℕ) (hash : Bytes) (w : World store)
      → HashesMatch w
      → HashesMatch (put_slice_hash store index hash w).1
  unfolding HashesMatch put_slice_hash
  put_slice_hash-HashesMatch index hash w h =
      Matches-ext w.1 (store.store_slice_hash w.1 w.0.sector_constraint index hash).1
        w.0.sector_constraint w.0.partial_slices
        (λ a b.
          laws.ops-store_slice_hash w.1 w.0.sector_constraint w.0.sector_constraint index hash a b)
        h

  store_full-HashesMatch :
      (index : ℕ) (hash : Bytes) (w : World store)
      → HashesMatch w
      → HashesMatch ((if is_empty hash then pure tt else put_slice_hash store index hash) w).1
  store_full-HashesMatch index [] w h = h
  store_full-HashesMatch index (b ∷ bs) w h = put_slice_hash-HashesMatch index (b ∷ bs) w h

  count_one-HashesMatch :
      (w : World store)
      → HashesMatch w
      → HashesMatch (record w.0 { full_slices = w.0.full_slices + 1 }, w.1)
  unfolding HashesMatch
  count_one-HashesMatch w h = h

  add_full_slices-HashesMatch :
      (n : ℕ) (end : Timestamp) (w : World store)
      → HashesMatch w
      → HashesMatch (add_full_slices store n end w).1
  unfolding add_full_slices
  add_full_slices-HashesMatch zero end w h = h
  add_full_slices-HashesMatch (suc n) end w h =
      continue-keeps HashesMatch
        (store.retrieve_op_hashes_in_time_slice w.1 w.0.sector_constraint end
          (add_duration end w.0.full_slice_duration))
        _ w h
        λ ops _. continue-keeps HashesMatch (combine_op_hashes ops.0) _ w h λ hash _.
          continue-keeps HashesMatch
            ((if is_empty hash then pure tt else put_slice_hash store w.0.full_slices hash) w).0 _
            ((if is_empty hash then pure tt else put_slice_hash store w.0.full_slices hash) w).1
            (store_full-HashesMatch w.0.full_slices hash w h)
            λ _ _.
              add_full_slices-HashesMatch n (add_duration end w.0.full_slice_duration) _
                (count_one-HashesMatch _ (store_full-HashesMatch w.0.full_slices hash w h))

  push_partial-HashesMatch :
      (p : PartialSlice) (w : World store)
      → HashesMatch w
      → Matches store laws w.1 w.0.sector_constraint p
      → HashesMatch (push_partial p w.0, w.1)
  unfolding HashesMatch push_partial
  push_partial-HashesMatch p w h m =
      All-append (Matches store laws w.1 w.0.sector_constraint) w.0.partial_slices (p ∷ []) h
        (m, tt)

  -- The slices that were there before and the new ones of a round all match.
  push_partials-HashesMatch :
      (old : List PartialSlice) (earliest : Option Timestamp) (new : List (Timestamp × ℕ))
      (w : World store)
      → All (Matches store laws w.1 w.0.sector_constraint) old
      → store.earliest_timestamp_in_arc w.1 w.0.sector_constraint ≡ ok earliest
      → HashesMatch w
      → HashesMatch (push_partials store old earliest new w).1
  unfolding push_partials push_partial slice_end
  push_partials-HashesMatch old earliest [] w o e h = h
  push_partials-HashesMatch old earliest ((start, size) ∷ rest) w o e h =
      continue-keeps HashesMatch (slice_hash store old earliest start size w) _ w h λ hash q.
        push_partials-HashesMatch old earliest rest
          (push_partial (record { start = start; size = size; hash = hash }) w.0, w.1) o e
          (push_partial-HashesMatch (record { start = start; size = size; hash = hash }) w h
            (slice_hash-Matches store laws old earliest start size w o e q))

  update_partials-HashesMatch :
      (earliest : Option Timestamp) (current : Timestamp) (w : World store)
      → store.earliest_timestamp_in_arc w.1 w.0.sector_constraint ≡ ok earliest
      → HashesMatch w
      → HashesMatch (update_partials store earliest current w).1
  unfolding update_partials HashesMatch
  update_partials-HashesMatch earliest current w e h =
      continue-keeps HashesMatch (layout_partials w.0.factor (full_slice_end_timestamp w.0) current)
        _ w h
        λ new _.
          push_partials-HashesMatch w.0.partial_slices earliest new
            (record w.0 { partial_slices = [] }, w.1) h e tt

  update_full-HashesMatch :
      (current : Timestamp) (w : World store)
      → HashesMatch w
      → HashesMatch (update_full_slice_hashes store current w).1
  unfolding update_full_slice_hashes
  update_full-HashesMatch current w h =
      continue-keeps HashesMatch (layout_full_slices w.0 current) _ w h
        λ n _. add_full_slices-HashesMatch n (full_slice_end_timestamp w.0) w h

  set_next-HashesMatch : (w : World store) → HashesMatch w → HashesMatch (set_next_update w.0, w.1)
  unfolding HashesMatch set_next_update
  set_next-HashesMatch w h = elim (Option-cases (last w.0.partial_slices)) [
    | inl n ↦ rw (n, set_next_update) h
    | inr p ↦ rw (p.1, set_next_update) h
  ]

  -- `update` keeps every combined hash of the partial slices equal to the combination of the ops
  -- that the store holds for its slice, whether it succeeds or not.
  pub update-HashesMatch :
      (current : Timestamp) (w : World store)
      → HashesMatch w
      → HashesMatch (update store current w).1
  unfolding update
  update-HashesMatch current w h =
      continue-keeps HashesMatch (update_full_slice_hashes store current w).0 _
        (update_full_slice_hashes store current w).1 (update_full-HashesMatch current w h)
        λ _ _.
          rest-HashesMatch (update_full_slice_hashes store current w).1
            (update_full-HashesMatch current w h)
    where
      rest-HashesMatch :
          (w : World store)
          → HashesMatch w
          → HashesMatch
              (continue
                (store.earliest_timestamp_in_arc w.1 w.0.sector_constraint)
                (λ earliest.
                  update_partials store earliest current
                  >> modify (λ w. (set_next_update w.0, w.1)))
                w).1
      rest-HashesMatch w h =
          continue-keeps HashesMatch (store.earliest_timestamp_in_arc w.1 w.0.sector_constraint) _ w
            h
            λ earliest e.
              continue-keeps HashesMatch (update_partials store earliest current w).0 _
                (update_partials store earliest current w).1
                (update_partials-HashesMatch earliest current w e h)
                λ _ _.
                  set_next-HashesMatch (update_partials store earliest current w).1
                    (update_partials-HashesMatch earliest current w e h)
