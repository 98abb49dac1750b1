-- ===== src/Time/Slices.antt =====
-- The ops of a slice before and after one more is stored, and slices that follow one another
-- (crates/dht/src/time.rs, `inform_ops_stored`).
use kitsune.Prelude.{
  ℕ, ◌<◌, true, false, ◌&&◌, List, [], ◌∷◌, ◌++◌, length, All, if◌then◌else◌, ◌≡◌, ap, sym, ◌∙◌,
  arith, Bool-cases, inl, inr,
}
use kitsune.Prelude.Outcome.{ok, ◌>>=◌}
use kitsune.Timestamp.{Timestamp, lt_i64, ge_i64}
use kitsune.Combine.{combine_hashes, combine_op_hashes}
use kitsune.Combine.Laws.{HasLength, combine_op_hashes-snoc}
use kitsune.OpStore.{OpId, StoredOp}
use kitsune.Time.Partition.{PartialSlice, slice_end}

-- The ops of each interval of time.
abbrev pub OpsOf : Type 0
OpsOf = Timestamp → Timestamp → List OpId

-- The ops with one more, in the intervals that it was created in.
unfoldable pub add_op : OpsOf → StoredOp → OpsOf
add_op ops op start end =
    if ge_i64 op.created_at start && lt_i64 op.created_at end
    then ops start end ++ op.op_id ∷ []
    else ops start end

unfoldable pub add_ops : OpsOf → List StoredOp → OpsOf
add_ops ops [] = ops
add_ops ops (op ∷ rest) = add_ops (add_op ops op) rest

-- The slice's hash combines the ops of its interval.
abbrev pub Combines : OpsOf → PartialSlice → Type 0
Combines ops p = combine_op_hashes (ops p.start (slice_end p)) ≡ ok p.hash

-- Slices that follow one another from `t` on with no gap, none of them empty.
abbrev pub Contiguous : Timestamp → List PartialSlice → Type 0
Contiguous t [] = Unit
Contiguous t (p ∷ ps) =
    (p.start ≡ t) × (lt_i64 t (slice_end p) ≡ true) × Contiguous (slice_end p) ps

-- Where they end.
abbrev pub ending : Timestamp → List PartialSlice → Timestamp
ending t [] = t
ending t (p ∷ ps) = ending (slice_end p) ps

pub lt_i64_trans : (a b c : ℕ) → lt_i64 a b ≡ true → lt_i64 b c ≡ true → lt_i64 a c ≡ true
lt_i64_trans a b c h k = ground arith

-- `a ≥ b` and `b > c`
pub ge_i64_trans : (a b c : ℕ) → lt_i64 a b ≡ false → lt_i64 c b ≡ true → lt_i64 a c ≡ false
ge_i64_trans a b c h k = ground arith

module _ (ops : OpsOf) (op : StoredOp) where
  pub add_op-before :
      (start end : Timestamp)
      → lt_i64 op.created_at start ≡ true
      → add_op ops op start end ≡ ops start end
  unfolding add_op
  add_op-before start end h = rw h

  pub add_op-after :
      (start end : Timestamp)
      → lt_i64 op.created_at end ≡ false
      → add_op ops op start end ≡ ops start end
  unfolding add_op
  add_op-after start end h = elim (Bool-cases (lt_i64 op.created_at start)) [
    | inl b ↦ rw b
    | inr b ↦ rw (b, h)
  ]

  pub add_op-inside :
      (start end : Timestamp)
      → lt_i64 op.created_at start ≡ false
      → lt_i64 op.created_at end ≡ true
      → add_op ops op start end ≡ ops start end ++ op.op_id ∷ []
  unfolding add_op
  add_op-inside start end h k = rw (h, k)

  -- An op created before all of the slices leaves them right.
  pub before-Combines :
      (t : Timestamp) (ps : List PartialSlice)
      → Contiguous t ps
      → lt_i64 op.created_at t ≡ true
      → All (Combines ops) ps
      → All (Combines (add_op ops op)) ps
  before-Combines t [] c h a = tt
  before-Combines t (p ∷ ps) (s, l, c) h (m, a) = (
    ap combine_op_hashes (add_op-before p.start (slice_end p) (cc)) ∙ m,
    before-Combines (slice_end p) ps c (lt_i64_trans op.created_at t (slice_end p) h l) a,
  )

  -- The end of contiguous slices is not before their start.
  pub ending-ge :
      (t : Timestamp) (ps : List PartialSlice)
      → Contiguous t ps
      → lt_i64 op.created_at (ending t ps) ≡ false
      → lt_i64 op.created_at t ≡ false
  ending-ge t [] c h = h
  ending-ge t (p ∷ ps) (s, l, c) h =
      ge_i64_trans op.created_at (slice_end p) t (ending-ge (slice_end p) ps c h) l

  -- An op created after all of the slices leaves them right.
  pub after-Combines :
      (t : Timestamp) (ps : List PartialSlice)
      → Contiguous t ps
      → lt_i64 op.created_at (ending t ps) ≡ false
      → All (Combines ops) ps
      → All (Combines (add_op ops op)) ps
  after-Combines t [] c h a = tt
  after-Combines t (p ∷ ps) (s, l, c) h (m, a) = (
    ap combine_op_hashes (add_op-after p.start (slice_end p) (ending-ge (slice_end p) ps c h)) ∙ m,
    after-Combines (slice_end p) ps c h a,
  )

  -- Combining the op into the hash of the slice that it was created in.
  pub combine-inside :
      (n : ℕ) (p : PartialSlice)
      → 0 < n
      → All (HasLength n) (ops p.start (slice_end p))
      → length op.op_id ≡ n
      → lt_i64 op.created_at p.start ≡ false
      → lt_i64 op.created_at (slice_end p) ≡ true
      → Combines ops p
      → combine_hashes p.hash op.op_id ≡ combine_op_hashes (add_op ops op p.start (slice_end p))
  combine-inside n p pos sized l h k m =
      ap (λ r. r >>= λ c. combine_hashes c op.op_id) (sym m)
      ∙ combine_op_hashes-snoc n pos (ops p.start (slice_end p)) op.op_id sized l
      ∙ ap combine_op_hashes (sym (add_op-inside p.start (slice_end p) h k))
