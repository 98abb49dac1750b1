-- ===== src/Hash/Routing.antt =====
-- How `inform_ops_stored` of crates/dht/src/hash.rs hands the ops to the sectors.
use mathlib.Core.List.{append_assoc, append-nil}
use kitsune.Prelude.{
  ℕ, ◌/◌, true, false, List, [], ◌∷◌, ◌++◌, All, ◌==◌, if◌then◌else◌, ◌≡◌, ◌≢◌, refl, ap, sym, ◌∙◌,
  arith, Bool-cases, inl, inr,
}
use kitsune.OpStore.{OpId, StoredOp}
use kitsune.Hash.{push_op, group_ops}

-- The group of a sector.
abbrev pub ops_at : ℕ → List (ℕ × List StoredOp) → List StoredOp
ops_at k [] = []
ops_at k ((j, ops) ∷ groups) = if j == k then ops else ops_at k groups

-- The ops whose location lies in a sector, in their order.
abbrev pub ops_of : (OpId → ℕ) → ℕ → ℕ → List StoredOp → List StoredOp
ops_of loc size k [] = []
ops_of loc size k (op ∷ ops) =
    if loc op.op_id / size == k then op ∷ ops_of loc size k ops else ops_of loc size k ops

-- No sector has two groups.
abbrev pub AllApart : List (ℕ × List StoredOp) → Type 0
AllApart [] = Unit
AllApart ((j, ops) ∷ groups) = All (λ g. g.0 ≢ j) groups × AllApart groups

module _ (location j : ℕ) (op : StoredOp) (ops : List StoredOp)
    (groups : List (ℕ × List StoredOp)) where
  push_op-same :
      (j == location) ≡ true
      → push_op location op ((j, ops) ∷ groups) ≡ (j, ops ++ op ∷ []) ∷ groups
  unfolding push_op
  push_op-same h = rw h

  push_op-other :
      (j == location) ≡ false
      → push_op location op ((j, ops) ∷ groups) ≡ (j, ops) ∷ push_op location op groups
  unfolding push_op
  push_op-other h = rw h

ops_at-push_op :
    (k location : ℕ) (op : StoredOp) (groups : List (ℕ × List StoredOp))
    → ops_at k (push_op location op groups)
      ≡ ops_at k groups ++ (if location == k then op ∷ [] else [])
unfolding push_op
ops_at-push_op k location op [] = refl
ops_at-push_op k location op ((j, ops) ∷ groups) = elim (Bool-cases (j == location)) [
  | inl h ↦ rw (push_op-same location j op ops groups h) (same h)
  | inr h ↦ rw (push_op-other location j op ops groups h) (
      other h (ops_at k groups) (ops_at k (push_op location op groups))
        (ops_at-push_op k location op groups))
]
  where
    same :
        (j == location) ≡ true
        → (if j == k then ops ++ op ∷ [] else ops_at k groups)
          ≡ (if j == k then ops else ops_at k groups) ++ (if location == k then op ∷ [] else [])
    same h = elim (Bool-cases (j == k)) [
      | inl e ↦ let l : (location == k) ≡ true = ground arith in rw (e, l) refl
      | inr e ↦
          let l : (location == k) ≡ false = ground arith in
          rw (e, l) (sym (append-nil (ops_at k groups)))
    ]

    other :
        (j == location) ≡ false
        → (before after : List StoredOp) → after ≡ before ++ (if location == k then op ∷ [] else [])
        → (if j == k then ops else after)
          ≡ (if j == k then ops else before) ++ (if location == k then op ∷ [] else [])
    other h before after e = elim (Bool-cases (j == k)) [
      | inl q ↦ let l : (location == k) ≡ false = ground arith in rw (q, l) (sym (append-nil ops))
      | inr q ↦ rw q e
    ]

push_op-apart :
    (j location : ℕ) (op : StoredOp) (groups : List (ℕ × List StoredOp))
    → j ≢ location
    → All (λ g. g.0 ≢ j) groups
    → All (λ g. g.0 ≢ j) (push_op location op groups)
unfolding push_op
push_op-apart j location op [] h a = (λ e. h (sym e), tt)
push_op-apart j location op ((k, ops) ∷ groups) h (n, a) = elim (Bool-cases (k == location)) [
  | inl e ↦ rw (push_op-same location k op ops groups e) (n, a)
  | inr e ↦
      rw (push_op-other location k op ops groups e) (n, push_op-apart j location op groups h a)
]

push_op-AllApart :
    (location : ℕ) (op : StoredOp) (groups : List (ℕ × List StoredOp))
    → AllApart groups
    → AllApart (push_op location op groups)
unfolding push_op
push_op-AllApart location op [] a = (tt, tt)
push_op-AllApart location op ((k, ops) ∷ groups) (n, a) = elim (Bool-cases (k == location)) [
  | inl e ↦ rw (push_op-same location k op ops groups e) (n, a)
  | inr e ↦ rw (push_op-other location k op ops groups e) (
    push_op-apart k location op groups (λ q. ground arith) n,
    push_op-AllApart location op groups a,
  )
]

module _ (loc : OpId → ℕ) (size : ℕ) where
  group_ops-AllApart :
      (ops : List StoredOp) (groups : List (ℕ × List StoredOp))
      → AllApart groups
      → AllApart (group_ops loc size groups ops)
  unfolding group_ops
  group_ops-AllApart [] groups a = a
  group_ops-AllApart (op ∷ ops) groups a =
      group_ops-AllApart ops (push_op (loc op.op_id / size) op groups)
        (push_op-AllApart (loc op.op_id / size) op groups a)

  ops_of-cons :
      (k : ℕ) (op : StoredOp) (ops : List StoredOp)
      → (if loc op.op_id / size == k then op ∷ [] else []) ++ ops_of loc size k ops
        ≡ ops_of loc size k (op ∷ ops)
  ops_of-cons k op ops = elim (Bool-cases (loc op.op_id / size == k)) [
    | inl h ↦ rw h refl
    | inr h ↦ rw h refl
  ]

  ops_at-group_ops :
      (k : ℕ) (ops : List StoredOp) (groups : List (ℕ × List StoredOp))
      → ops_at k (group_ops loc size groups ops) ≡ ops_at k groups ++ ops_of loc size k ops
  unfolding group_ops
  ops_at-group_ops k [] groups = sym (append-nil (ops_at k groups))
  ops_at-group_ops k (op ∷ ops) groups =
      ops_at-group_ops k ops (push_op (loc op.op_id / size) op groups)
      ∙ ap (λ x. x ++ ops_of loc size k ops) (ops_at-push_op k (loc op.op_id / size) op groups)
      ∙ append_assoc (ops_at k groups) (if loc op.op_id / size == k then op ∷ [] else [])
          (ops_of loc size k ops)
      ∙ ap (λ x. ops_at k groups ++ x) (ops_of-cons k op ops)

  -- The ops that are stored are handed out in one group for a sector at most, and the group of a
  -- sector holds the ops whose location lies in it, all of them and in their order.
  pub group_ops_lem :
      (ops : List StoredOp) (k : ℕ)
      → AllApart (group_ops loc size [] ops)
        × (ops_at k (group_ops loc size [] ops) ≡ ops_of loc size k ops)
  group_ops_lem ops k = (group_ops-AllApart ops [] tt, ops_at-group_ops k ops [])
