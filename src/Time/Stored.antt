-- ===== src/Time/Stored.antt =====
-- The loop of `inform_ops_stored` over the partial slices (crates/dht/src/time.rs): the op goes into
-- the slice that it was created in.
use kitsune.Prelude.{
  ℕ, ◌<◌, true, false, ◌&&◌, List, [], ◌∷◌, length, All, All-append, ◌≡◌, refl, ap, ◌∙◌, Bool-cases,
  inl, inr,
}
use kitsune.Prelude.Outcome.{ok}
use kitsune.Timestamp.{Timestamp, lt_i64, ge_i64}
use kitsune.Combine.{Bytes, combine_hashes, combine_op_hashes}
use kitsune.Combine.Laws.{HasLength, combine_op_hashes-ok}
use kitsune.OpStore.{StoredOp}
use kitsune.Time.Partition.{PartialSlice, slice_end}
use kitsune.Time.Inform.{combine_last}
use kitsune.Time.Slices.{
  OpsOf, add_op, Combines, Contiguous, ending, lt_i64_trans, before-Combines, add_op-after,
  combine-inside,
}

-- Every op id of every interval has `n` bytes.
abbrev pub AllSized : ℕ → OpsOf → Type 0
AllSized n ops = (start end : Timestamp) → All (HasLength n) (ops start end)

pub add_op-AllSized :
    (n : ℕ) (ops : OpsOf) (op : StoredOp)
    → AllSized n ops
    → length op.op_id ≡ n
    → AllSized n (add_op ops op)
unfolding add_op
add_op-AllSized n ops op a l start end =
    elim (Bool-cases (ge_i64 op.created_at start && lt_i64 op.created_at end)) [
      | inl e ↦
          rw e (All-append (HasLength n) (ops start end) (op.op_id ∷ []) (a start end) (l, tt))
      | inr e ↦ rw e (a start end)
    ]

module _ (op : StoredOp) (p : PartialSlice) where
  step_done :
      (ps ps' : List PartialSlice)
      → combine_last op ps ≡ ok (ps', true)
      → combine_last op (p ∷ ps) ≡ ok (p ∷ ps', true)
  unfolding combine_last
  step_done ps ps' h = rw h

  step_before :
      (ps : List PartialSlice)
      → combine_last op ps ≡ ok (ps, false)
      → lt_i64 op.created_at p.start ≡ true
      → combine_last op (p ∷ ps) ≡ ok (p ∷ ps, false)
  unfolding combine_last
  step_before ps h k = rw (h, k)

  step_here :
      (ps : List PartialSlice) (hash : Bytes)
      → combine_last op ps ≡ ok (ps, false)
      → lt_i64 op.created_at p.start ≡ false
      → combine_hashes p.hash op.op_id ≡ ok hash
      → combine_last op (p ∷ ps) ≡ ok (record p { hash = hash } ∷ ps, true)
  unfolding combine_last
  step_here ps hash h k e = rw (h, k, e)

-- An op created before all of the slices goes into none.
combine_last-before :
    (op : StoredOp) (t : Timestamp) (ps : List PartialSlice)
    → Contiguous t ps
    → lt_i64 op.created_at t ≡ true
    → combine_last op ps ≡ ok (ps, false)
unfolding combine_last
combine_last-before op t [] c h = refl
combine_last-before op t (p ∷ ps) (s, l, c) h =
    step_before op p ps
      (combine_last-before op (slice_end p) ps c (lt_i64_trans op.created_at t (slice_end p) h l))
      cc

-- The slices after an op has gone into one of them.
pub record Informed (ops : OpsOf) (op : StoredOp) (t : Timestamp) (ps : List PartialSlice)
    : Type 0 where
  pub slices : List PartialSlice
  pub runs : combine_last op ps ≡ ok (slices, true)
  pub right : All (Combines (add_op ops op)) slices
  pub contiguous : Contiguous t slices
  pub same_end : ending t slices ≡ ending t ps

module _ (n : ℕ) (pos : 0 < n) (ops : OpsOf) (op : StoredOp) (sized : AllSized n ops)
    (l : length op.op_id ≡ n) where
  inform-here :
      (t : Timestamp) (p : PartialSlice) (ps : List PartialSlice)
      → Contiguous t (p ∷ ps)
      → lt_i64 op.created_at t ≡ false
      → lt_i64 op.created_at (slice_end p) ≡ true
      → All (Combines ops) (p ∷ ps)
      → Informed ops op t (p ∷ ps)
  unfolding slice_end
  inform-here t p ps (s, e, c) h k (m, a) =
      let started : lt_i64 op.created_at p.start ≡ false = cc in
      let (hash, q) =
        combine_op_hashes-ok n pos (add_op ops op p.start (slice_end p))
          (add_op-AllSized n ops op sized l p.start (slice_end p)) in
      record {
        slices = record p { hash = hash } ∷ ps;
        runs =
            step_here op p ps hash (combine_last-before op (slice_end p) ps c k) started
              (combine-inside ops op n p pos (sized p.start (slice_end p)) l started k m ∙ q);
        right = (q, before-Combines ops op (slice_end p) ps c k a);
        contiguous = (s, e, c);
        same_end = refl;
      }

  -- The op goes into the slice that it was created in.
  pub inform-Informed :
      (t : Timestamp) (ps : List PartialSlice)
      → Contiguous t ps
      → lt_i64 op.created_at t ≡ false
      → lt_i64 op.created_at (ending t ps) ≡ true
      → All (Combines ops) ps
      → Informed ops op t ps
  inform-Informed t [] c h k a = cc
  inform-Informed t (p ∷ ps) (s, e, c) h k (m, a) =
      elim (Bool-cases (lt_i64 op.created_at (slice_end p))) [
        | inl b ↦ inform-here t p ps (s, e, c) h b (m, a)
        | inr b ↦
            let r = inform-Informed (slice_end p) ps c b k a in
            record {
              slices = p ∷ r.slices;
              runs = step_done op p ps r.slices r.runs;
              right =
                  (ap combine_op_hashes (add_op-after ops op p.start (slice_end p) b) ∙ m, r.right);
              contiguous = (s, e, r.contiguous);
              same_end = r.same_end;
            }
      ]
