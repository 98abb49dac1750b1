-- ===== src/Time/Informed.antt =====
-- `inform_ops_stored` of crates/dht/src/time.rs, one op at a time.
use mathlib.Core.Path.{subst}
use kitsune.Prelude.{
  ℕ, ◌<◌, true, false, none, some, List, [], ◌∷◌, length, All, ◌≡◌, refl, sym, Bool-cases,
  Option-cases, inl, inr,
}
use kitsune.Prelude.Outcome.{ok}
use kitsune.Timestamp.{Timestamp, lt_i64}
use kitsune.OpStore.{OpStore, StoredOp}
use kitsune.Time.Partition.{PartialSlice, TimePartition, slice_end, last}
use kitsune.Time.Update.{World}
use kitsune.Time.Inform.{combine_last, inform_historical, inform_recent, inform_op}
use kitsune.Time.Slices.{OpsOf, add_op, Combines, Contiguous, ending, after-Combines}
use kitsune.Time.Stored.{AllSized, inform-Informed}

last-cons : (p : PartialSlice) (ps : List PartialSlice) → ¬ (last (p ∷ ps) ≡ none)
last-cons p [] h = cc
last-cons p (q ∷ ps) h = last-cons q ps h

ending-none : (t : Timestamp) (ps : List PartialSlice) → last ps ≡ none → ending t ps ≡ t
ending-none t [] h = refl
ending-none t (p ∷ ps) h = absurd (last-cons p ps h)

ending-last :
    (t : Timestamp) (ps : List PartialSlice) (p : PartialSlice)
    → last ps ≡ some p
    → slice_end p ≡ ending t ps
ending-last t [] p h = cc
ending-last t (q ∷ []) p h = cc
ending-last t (q ∷ r ∷ ps) p h = ending-last (slice_end q) (r ∷ ps) p h

-- The slices follow one another, and their hashes combine these ops.
abbrev pub IsCurrent : OpsOf → Timestamp → TimePartition → Type 0
IsCurrent ops t pt = Contiguous t pt.partial_slices × All (Combines ops) pt.partial_slices

-- The branches of one round.
module _ (store : OpStore) (t : Timestamp) (op : StoredOp) (w : World store) where
  pub inform_op-historical :
      lt_i64 op.created_at t ≡ true → inform_op store t op w ≡ inform_historical store op w
  unfolding inform_op
  inform_op-historical h = rw h

  module _ (recent : lt_i64 op.created_at t ≡ false) where
    inform_op-none : last w.0.partial_slices ≡ none → inform_op store t op w ≡ (ok tt, w)
    unfolding inform_op
    inform_op-none h = rw (recent, h)

    inform_op-later :
        (p : PartialSlice)
        → last w.0.partial_slices ≡ some p
        → lt_i64 op.created_at (slice_end p) ≡ false
        → inform_op store t op w ≡ (ok tt, w)
    unfolding inform_op inform_recent
    inform_op-later p h k = rw (recent, h, k)

    inform_op-inside :
        (p : PartialSlice) (ps : List PartialSlice)
        → last w.0.partial_slices ≡ some p
        → lt_i64 op.created_at (slice_end p) ≡ true
        → combine_last op w.0.partial_slices ≡ ok (ps, true)
        → inform_op store t op w ≡ (ok tt, (record w.0 { partial_slices = ps }, w.1))
    unfolding inform_op inform_recent
    inform_op-inside p ps h k e = rw (recent, h, k, e)

-- What a round leaves behind where the op is not before the partial slices.
pub record Round (store : OpStore) (ops : OpsOf) (t : Timestamp) (op : StoredOp) (w : World store)
    : Type 0 where
  pub slices : List PartialSlice
  pub runs : inform_op store t op w ≡ (ok tt, (record w.0 { partial_slices = slices }, w.1))
  pub current : IsCurrent (add_op ops op) t (record w.0 { partial_slices = slices })

module _ (store : OpStore) (n : ℕ) (pos : 0 < n) (ops : OpsOf) (op : StoredOp)
    (sized : AllSized n ops) (l : length op.op_id ≡ n) where
  -- The op is later than all slices.
  later-Round :
      (t : Timestamp) (w : World store)
      → IsCurrent ops t w.0
      → lt_i64 op.created_at (ending t w.0.partial_slices) ≡ false
      → inform_op store t op w ≡ (ok tt, w)
      → Round store ops t op w
  later-Round t w (c, a) h e = record {
    slices = w.0.partial_slices;
    runs = e;
    current = (c, after-Combines ops op t w.0.partial_slices c h a);
  }

  inside-Round :
      (t : Timestamp) (w : World store) (p : PartialSlice)
      → IsCurrent ops t w.0
      → lt_i64 op.created_at t ≡ false
      → last w.0.partial_slices ≡ some p
      → lt_i64 op.created_at (slice_end p) ≡ true
      → Round store ops t op w
  inside-Round t w p (c, a) h e k =
      let r =
        inform-Informed n pos ops op sized l t w.0.partial_slices c h
          (subst (λ x. lt_i64 op.created_at x ≡ true) (ending-last t w.0.partial_slices p e) k) a in
      record {
        slices = r.slices;
        runs = inform_op-inside store t op w h p r.slices e k r.runs;
        current = (r.contiguous, r.right);
      }

  -- A round with an op that is not before the partial slices succeeds.
  pub recent-Round :
      (t : Timestamp) (w : World store)
      → IsCurrent ops t w.0
      → lt_i64 op.created_at t ≡ false
      → Round store ops t op w
  recent-Round t w c h = elim (Option-cases (last w.0.partial_slices)) [
    | inl e ↦
        later-Round t w c
          (subst (λ x. lt_i64 op.created_at x ≡ false) (sym (ending-none t w.0.partial_slices e)) h)
          (inform_op-none store t op w h e)
    | inr (p, e) ↦ elim (Bool-cases (lt_i64 op.created_at (slice_end p))) [
      | inl b ↦ inside-Round t w p c h e b
      | inr b ↦
          later-Round t w c
            (subst (λ x. lt_i64 op.created_at x ≡ false) (ending-last t w.0.partial_slices p e) b)
            (inform_op-later store t op w h p e b)
    ]
  ]
