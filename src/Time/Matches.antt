-- ===== src/Time/Matches.antt =====
-- When the hash of a partial slice is right, and that the hash which `update_partials` takes for one,
-- an old one or a fresh one, is (crates/dht/src/time.rs).
use kitsune.Prelude.{
  ℕ, true, false, Option, none, some, List, [], ◌∷◌, All, ◌==◌, ◌&&◌, ◌≡◌, ap, sym, ◌∙◌, arith,
  Bool-cases, Option-cases, inl, inr,
}
use kitsune.Prelude.Outcome.{ok, ok-injective}
use kitsune.Arc.{DhtArc}
use kitsune.Timestamp.{Timestamp, add_duration, lt_i64}
use kitsune.Combine.{Bytes, combine_op_hashes}
use kitsune.OpStore.{OpStore, StoreLaws}
use kitsune.Time.{slice_duration}
use kitsune.Time.Partition.{PartialSlice, slice_end, old_hash}
use kitsune.Time.Update.{World, fresh_hash, slice_hash}

module _ (b : PartialSlice) (old : List PartialSlice) (start : Timestamp) (size : ℕ) where
  old_hash-skip :
      (b.start == start && b.size == size) ≡ false
      → old_hash (b ∷ old) start size ≡ old_hash old start size
  unfolding old_hash
  old_hash-skip h = rw h

  old_hash-found :
      {hash : Bytes}
      → (b.start == start && b.size == size) ≡ true
      → old_hash (b ∷ old) start size ≡ some hash
      → b.hash ≡ hash
  unfolding old_hash
  old_hash-found h e = ground arith

module _ (store : OpStore) (laws : StoreLaws store) where
  -- The slice's hash combines the ops that the store has for it.
  abbrev pub Matches : store.State → DhtArc → PartialSlice → Type 0
  Matches s c p = combine_op_hashes (laws.ops s c p.start (slice_end p)) ≡ ok p.hash

  old_hash-Matches :
      (s : store.State) (c : DhtArc) (old : List PartialSlice) (start : Timestamp) (size : ℕ)
      {hash : Bytes}
      → All (Matches s c) old
      → old_hash old start size ≡ some hash
      → combine_op_hashes (laws.ops s c start (add_duration start (slice_duration size))) ≡ ok hash
  unfolding old_hash slice_end
  old_hash-Matches s c [] start size h e = cc
  old_hash-Matches s c (b ∷ old) start size {hash} h e =
      elim (Bool-cases (b.start == start && b.size == size)) [
        | inl y ↦
            let p : b.start ≡ start = ground arith in
            let q : b.size ≡ size = ground arith in
            let r : b.hash ≡ hash = old_hash-found b old start size y e in cc h.0
        | inr n ↦
            old_hash-Matches s c old start size h.1 (sym (old_hash-skip b old start size n) ∙ e)
      ]

  -- The ops of a slice with no old hash.
  fresh_hash-ops :
      (earliest : Option Timestamp) (start : Timestamp) (size : ℕ) (w : World store)
      → store.earliest_timestamp_in_arc w.1 w.0.sector_constraint ≡ ok earliest
      → fresh_hash store earliest start size w
        ≡ combine_op_hashes
            (laws.ops w.1 w.0.sector_constraint start (add_duration start (slice_duration size)))
  unfolding fresh_hash combine_op_hashes
  fresh_hash-ops none start size w e = rw (
      laws.none_stored w.1 w.0.sector_constraint start (add_duration start (slice_duration size)) e)
  fresh_hash-ops (some t) start size w e =
      elim (Bool-cases (lt_i64 (add_duration start (slice_duration size)) t)) [
        | inl before ↦ rw (
          before,
          laws.before_earliest w.1 w.0.sector_constraint t start
              (add_duration start (slice_duration size)) e before,
        )
        | inr after ↦ rw (
          after,
          laws.retrieve-ops w.1 w.0.sector_constraint start
              (add_duration start (slice_duration size)),
        )
      ]

  module _ (old : List PartialSlice) (earliest : Option Timestamp) (start : Timestamp) (size : ℕ)
      (w : World store) where
    slice_hash-none :
        {hash : Bytes}
        → old_hash old start size ≡ none
        → slice_hash store old earliest start size w ≡ ok hash
        → fresh_hash store earliest start size w ≡ ok hash
    unfolding slice_hash
    slice_hash-none o q = rw (o, slice_hash) at q

    slice_hash-some :
        {hash : Bytes} (found : Bytes)
        → old_hash old start size ≡ some found
        → slice_hash store old earliest start size w ≡ ok hash
        → found ≡ hash
    unfolding slice_hash
    slice_hash-some found o q = ok-injective (rw (o, slice_hash) at q)

  pub slice_hash-Matches :
      (old : List PartialSlice) (earliest : Option Timestamp) (start : Timestamp) (size : ℕ)
      (w : World store) {hash : Bytes}
      → All (Matches w.1 w.0.sector_constraint) old
      → store.earliest_timestamp_in_arc w.1 w.0.sector_constraint ≡ ok earliest
      → slice_hash store old earliest start size w ≡ ok hash
      → combine_op_hashes
          (laws.ops w.1 w.0.sector_constraint start (add_duration start (slice_duration size)))
        ≡ ok hash
  unfolding slice_hash
  slice_hash-Matches old earliest start size w h e q =
      elim (Option-cases (old_hash old start size)) [
        | inl o ↦
            sym (fresh_hash-ops earliest start size w e)
            ∙ slice_hash-none old earliest start size w o q
        | inr f ↦
            old_hash-Matches w.1 w.0.sector_constraint old start size h
              (f.1 ∙ ap some (slice_hash-some old earliest start size w f.0 f.1 q))
      ]
