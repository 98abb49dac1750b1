-- ===== src/Time/Bounds.antt =====
-- The queries of crates/dht/src/time.rs by slice index.
use mathlib.Core.Path.{subst}
use kitsune.Prelude.{
  ℕ, zero, suc, ◌+◌, ◌-◌, ◌*◌, ◌%◌, ◌^◌, ◌<◌, ◌∙◌, if◌then◌else◌, Bool-cases, inl, inr, true, List,
  [], ◌∷◌, length, get_elem?, none, some, ltb, ◌≡◌, refl, ap, arith, false,
}
use kitsune.Prelude.Outcome.{Outcome, other, ok, err, panic}
use kitsune.Timestamp.{Timestamp, add_duration, unix_timestamp, from_secs}
use kitsune.Time.Partition.{
  PartialSlice, TimePartition, as_secs, slice_end, full_slice_end_timestamp,
  time_bounds_for_partial_slice_index, time_bounds_for_full_slice_index, partial_slice_hash,
}
use kitsune.Time.Slices.{Contiguous}
use kitsune.OpStore.{OpStore}
use kitsune.Time.Update.{World, update}
use kitsune.Time.Contiguity.{IsContiguous, update-IsContiguous}

get_elem-length : (ps : List PartialSlice) → get_elem? ps (length ps) ≡ none
get_elem-length [] = refl
get_elem-length (p ∷ ps) = get_elem-length ps

ltb_same : (n : ℕ) → ltb n n ≡ false
ltb_same n = ground arith

-- At the index one past the last partial slice, the time bounds panic, and the hash is an error.
pub partial_slice_past_end :
    (pt : TimePartition)
    → (time_bounds_for_partial_slice_index pt (length pt.partial_slices) ≡ panic)
      × (partial_slice_hash pt (length pt.partial_slices)
          ≡ err (other "Requested slice index is beyond the current partial slices"))
unfolding time_bounds_for_partial_slice_index partial_slice_hash
partial_slice_past_end pt = (
  rw (ltb_same (length pt.partial_slices), get_elem-length pt.partial_slices),
  rw (get_elem-length pt.partial_slices, partial_slice_hash),
)

-- At the index one past the last full slice, the time bounds are no error: they are the next slice
-- after the end of the full ones.
pub full_slice_past_end :
    (pt : TimePartition)
    → time_bounds_for_full_slice_index pt pt.full_slices
      ≡ ok (
        full_slice_end_timestamp pt,
        add_duration (full_slice_end_timestamp pt) pt.full_slice_duration,
      )
unfolding time_bounds_for_full_slice_index full_slice_end_timestamp
full_slice_past_end pt = rw (ltb_same pt.full_slices)

-- The first interval of time ends where the second begins.
abbrev pub Adjacent : Outcome (Timestamp × Timestamp) → Outcome (Timestamp × Timestamp) → Type 0
Adjacent a b =
    (s : Timestamp) × (m : Timestamp) × (e : Timestamp) × (a ≡ ok (s, m)) × (b ≡ ok (m, e))

-- The length of the full slices is a whole number of seconds.
abbrev pub IsWhole : TimePartition → Type 0
IsWhole pt = pt.full_slice_duration ≡ from_secs (as_secs pt.full_slice_duration)

index_inside : (i n : ℕ) → i < n → ltb n i ≡ false
index_inside i n h = ground arith

-- The slices `i` and `i + 1`.
nth_next :
    (t : Timestamp) (ps : List PartialSlice) (i : ℕ)
    → Contiguous t ps
    → suc i < length ps
    → (p : PartialSlice) × (q : PartialSlice) × (get_elem? ps i ≡ some p)
      × (get_elem? ps (suc i) ≡ some q)
      × (q.start ≡ slice_end p)
nth_next t [] i c h = absurd (omega arith)
nth_next t (p ∷ []) i c h = absurd (omega arith)
nth_next t (p ∷ q ∷ ps) zero c h = (p, q, refl, refl, c.2.0)
nth_next t (p ∷ q ∷ ps) (suc i) c h = nth_next (slice_end p) (q ∷ ps) i c.2 (omega arith)

partial_slice_next :
    (pt : TimePartition) (i : ℕ)
    → IsContiguous pt
    → suc i < length pt.partial_slices
    → Adjacent
        (time_bounds_for_partial_slice_index pt i)
        (time_bounds_for_partial_slice_index pt (suc i))
unfolding time_bounds_for_partial_slice_index IsContiguous
partial_slice_next pt i c h =
    let (p, q, g, k, e) = nth_next (full_slice_end_timestamp pt) pt.partial_slices i c h in
    (
      p.start,
      slice_end p,
      slice_end q,
      rw (index_inside i (length pt.partial_slices) (omega arith), g),
      rw (index_inside (suc i) (length pt.partial_slices) h, k)
          (ap (λ (m : Timestamp). ok (m, slice_end q)) e),
    )

-- The first partial slice begins where the full ones end.
first_partial :
    (pt : TimePartition) (ps : List PartialSlice)
    → pt.partial_slices ≡ ps
    → IsContiguous pt
    → 0 < length ps
    → (e : Timestamp) × (time_bounds_for_partial_slice_index pt 0
        ≡ ok (full_slice_end_timestamp pt, e))
unfolding time_bounds_for_partial_slice_index IsContiguous full_slice_end_timestamp
first_partial pt [] q c h = absurd (omega arith)
first_partial pt (p ∷ ps) q c h =
    let l : length pt.partial_slices ≡ suc (length ps) = ap length q in
    let c' : Contiguous (full_slice_end_timestamp pt) (p ∷ ps) =
      subst (Contiguous (full_slice_end_timestamp pt)) q c in
    (
      slice_end p,
      rw (index_inside 0 (length pt.partial_slices) (omega (arith, l)), q)
          (ap (λ (m : Timestamp). ok (m, slice_end p)) c'.0),
    )

-- The start of a full slice, or the end of the last one.
full_start : TimePartition → ℕ → Timestamp
full_start pt i =
    add_duration unix_timestamp (from_secs (i * as_secs pt.full_slice_duration % 2 ^ 64))

full_start-suc :
    (pt : TimePartition) (i : ℕ)
    → IsWhole pt
    → add_duration (full_start pt i) pt.full_slice_duration ≡ full_start pt (suc i)
unfolding full_start add_duration
full_start-suc pt i h = rw h (omega arith)

full_bounds :
    (pt : TimePartition) (i : ℕ)
    → IsWhole pt
    → i < pt.full_slices
    → time_bounds_for_full_slice_index pt i ≡ ok (full_start pt i, full_start pt (suc i))
unfolding time_bounds_for_full_slice_index full_start
full_bounds pt i w h =
    rw (index_inside i pt.full_slices h)
      (ap (λ (m : Timestamp). ok (full_start pt i, m)) (full_start-suc pt i w))

-- The time bounds of the full slices by index, then those of the partial ones.
abbrev pub slice_bounds : TimePartition → ℕ → Outcome (Timestamp × Timestamp)
slice_bounds pt i =
    if ltb i pt.full_slices
    then time_bounds_for_full_slice_index pt i
    else time_bounds_for_partial_slice_index pt (i - pt.full_slices)

boundary-Adjacent :
    (pt : TimePartition) (i : ℕ)
    → IsWhole pt
    → IsContiguous pt
    → suc i ≡ pt.full_slices
    → 0 < length pt.partial_slices
    → Adjacent (time_bounds_for_full_slice_index pt i) (time_bounds_for_partial_slice_index pt 0)
unfolding full_start full_slice_end_timestamp
boundary-Adjacent pt i w c n h =
    let (e, q) = first_partial pt pt.partial_slices refl c h in
    (
      full_start pt i,
      full_slice_end_timestamp pt,
      e,
      full_bounds pt i w (omega (arith, n)) ∙ ap (λ k. ok (full_start pt i, full_start pt k)) n,
      q,
    )

contiguous-Adjacent :
    (pt : TimePartition) (i : ℕ)
    → IsWhole pt
    → IsContiguous pt
    → suc i < pt.full_slices + length pt.partial_slices
    → Adjacent (slice_bounds pt i) (slice_bounds pt (suc i))
contiguous-Adjacent pt i w c h = elim (Bool-cases (ltb (suc i) pt.full_slices)) [
  | inl a ↦
      let b : ltb i pt.full_slices ≡ true = ground arith in
      rw (a, b)
        (
          full_start pt i,
          full_start pt (suc i),
          full_start pt (suc (suc i)),
          full_bounds pt i w (ground arith),
          full_bounds pt (suc i) w (ground arith),
        )
  | inr a ↦ elim (Bool-cases (ltb i pt.full_slices)) [
    | inl b ↦
        let z : suc i - pt.full_slices ≡ 0 = ground arith in
        rw (a, b, z) (boundary-Adjacent pt i w c (ground arith) (ground arith))
    | inr b ↦
        let z : suc i - pt.full_slices ≡ suc (i - pt.full_slices) = ground arith in
        rw (a, b, z) (partial_slice_next pt (i - pt.full_slices) c (ground arith))
  ]
]

-- After an `update` that succeeds, whatever the partition and the store were before, if the length of
-- the full slices is a whole number of seconds: of the full slices by index and then the partial ones
-- by index, the time bounds of each but the last are no error and end where those of the next begin.
pub update-Adjacent :
    (store : OpStore) (current : Timestamp) (w : World store) (i : ℕ)
    → (update store current w).0 ≡ ok tt
    → IsWhole (update store current w).1.0
    → suc i
      < (update store current w).1.0.full_slices
        + length (update store current w).1.0.partial_slices
    → Adjacent
        (slice_bounds (update store current w).1.0 i)
        (slice_bounds (update store current w).1.0 (suc i))
update-Adjacent store current w i o h l =
    contiguous-Adjacent (update store current w).1.0 i h (update-IsContiguous store current w o) l
