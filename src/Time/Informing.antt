-- ===== src/Time/Informing.antt =====
-- `inform_ops_stored` of crates/dht/src/time.rs, one round and the loop.
use mathlib.Core.Path.{subst}
use kitsune.Prelude.{
  ℕ, ◌<◌, false, List, [], ◌∷◌, length, All, none, some, ◌≡◌, refl, sym, ◌∙◌, Bool-cases, inl, inr,
}
use kitsune.Prelude.Outcome.{Outcome, ok}
use kitsune.Prelude.Exec.{continue-keeps, continue-ok, continue-eq}
use kitsune.Arc.{DhtArc}
use kitsune.Timestamp.{Timestamp, lt_i64}
use kitsune.Combine.{Bytes, combine_hashes}
use kitsune.OpStore.{OpStore, StoreLaws, StoredOp}
use kitsune.Time.Update.{World, put_slice_hash}
use kitsune.Time.Inform.{slice_index_of, inform_historical, inform_op, inform_each}
use kitsune.Time.Slices.{OpsOf, add_op, add_ops, before-Combines}
use kitsune.Time.Stored.{AllSized, add_op-AllSized}
use kitsune.Time.Informed.{IsCurrent, recent-Round, inform_op-historical}

-- An op id of `n` bytes.
abbrev pub IsSized : ℕ → StoredOp → Type 0
IsSized n op = length op.op_id ≡ n

-- An op that is not before `t`.
abbrev pub NotBefore : Timestamp → StoredOp → Type 0
NotBefore t op = lt_i64 op.created_at t ≡ false

-- What a historical op keeps: what storing a slice hash keeps.
historical-keeps {ℓ} :
    (store : OpStore) (P : World store → Type ℓ) (op : StoredOp) (w : World store)
    → P w
    → ((index : ℕ) (hash : Bytes) → P (put_slice_hash store index hash w).1)
    → P (inform_historical store op w).1
unfolding inform_historical
historical-keeps store P op w h k =
    let index = slice_index_of w.0 op.created_at in
    continue-keeps P (store.retrieve_slice_hash w.1 w.0.sector_constraint index) _ w h λ current _.
      continue-keeps P
        (elim current as (λ x. Outcome Bytes) [
          | none ↦ ok op.op_id
          | some hash ↦ combine_hashes hash op.op_id
        ])
        (λ hash. put_slice_hash store index hash) w h λ hash _. k index hash

module _ (store : OpStore) (laws : StoreLaws store) (s : store.State) (c : DhtArc) where
  -- The sector is `c`, and its ops are those of the state `s`.
  pub record Kept (w : World store) : Type 0 where
    pub same_sector : w.0.sector_constraint ≡ c
    pub same_ops : (a b : Timestamp) → laws.ops w.1 c a b ≡ laws.ops s c a b

  put-Kept :
      (w : World store) (index : ℕ) (hash : Bytes)
      → Kept w
      → Kept (put_slice_hash store index hash w).1
  unfolding put_slice_hash
  put-Kept w index hash k = record {
    same_sector = k.same_sector;
    same_ops = λ a b.
        laws.ops-store_slice_hash w.1 w.0.sector_constraint c index hash a b ∙ k.same_ops a b;
  }

  put-partition :
      (w : World store) (index : ℕ) (hash : Bytes) → (put_slice_hash store index hash w).1.0 ≡ w.0
  unfolding put_slice_hash
  put-partition w index hash = refl

  module _ (n : ℕ) (pos : 0 < n) (t : Timestamp) where
    -- One round.
    inform_op-keeps :
        (ops : OpsOf) (op : StoredOp) (w : World store)
        → AllSized n ops
        → IsSized n op
        → IsCurrent ops t w.0
        → Kept w
        → IsCurrent (add_op ops op) t (inform_op store t op w).1.0 × Kept (inform_op store t op w).1
    inform_op-keeps ops op w z l (i, a) k = elim (Bool-cases (lt_i64 op.created_at t)) [
      | inl b ↦ rw (inform_op-historical store t op w b) (
          historical-keeps store (λ w'. IsCurrent (add_op ops op) t w'.0 × Kept w') op w
            ((i, before-Combines ops op t w.0.partial_slices i b a), k)
            λ index hash. (
              subst (IsCurrent (add_op ops op) t) (sym (put-partition w index hash))
                  (i, before-Combines ops op t w.0.partial_slices i b a),
              put-Kept w index hash k,
            ))
      | inr b ↦
          let r = recent-Round store n pos ops op z l t w (i, a) b in
          rw r.runs (r.current, record { same_sector = k.same_sector; same_ops = k.same_ops })
    ]

    pub inform_each-keeps :
        (ops : OpsOf) (stored : List StoredOp) (w : World store)
        → AllSized n ops
        → All (IsSized n) stored
        → IsCurrent ops t w.0
        → Kept w
        → (inform_each store t stored w).0 ≡ ok tt
        → IsCurrent (add_ops ops stored) t (inform_each store t stored w).1.0
          × Kept (inform_each store t stored w).1
    unfolding inform_each add_ops
    inform_each-keeps ops [] w z l i k h = (i, k)
    inform_each-keeps ops (op ∷ stored) w z (l, ls) i k h =
        let w' = (inform_op store t op w).1 in
        let (u, e, h') = continue-ok (inform_op store t op w).0 _ w' h in
        let (i', k') = inform_op-keeps ops op w z l i k in
        rw (continue-eq (λ _. inform_each store t stored) w' e)
          (inform_each-keeps (add_op ops op) stored w' (add_op-AllSized n ops op z l) ls i' k' h')

    -- Ops that are not before the partial slices are all taken in.
    pub inform_each-recent :
        (ops : OpsOf) (stored : List StoredOp) (w : World store)
        → AllSized n ops
        → All (IsSized n) stored
        → All (NotBefore t) stored
        → IsCurrent ops t w.0
        → (inform_each store t stored w).0 ≡ ok tt
    unfolding inform_each
    inform_each-recent ops [] w z l b i = refl
    inform_each-recent ops (op ∷ stored) w z (l, ls) (b, bs) i =
        let r = recent-Round store n pos ops op z l t w i b in
        rw r.runs (
          inform_each-recent (add_op ops op) stored (record w.0 { partial_slices = r.slices }, w.1)
            (add_op-AllSized n ops op z l) ls bs r.current)
