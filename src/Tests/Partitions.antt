-- ===== src/Tests/Partitions.antt =====
-- A store that holds one op, and a partition over it (crates/dht/src/time.rs).
use kitsune.Prelude.{◌+◌, length, ℕ, Bool, true, false, some, none, [], ◌∷◌, ◌≡◌, refl, sym, arith}
use kitsune.Prelude.Outcome.{ok, ok-injective}
use mathlib.Core.Path.{subst}
use mathlib.Core.Option.{some-injective}
use mathlib.Core.List.Perm
use kitsune.Arc.{full, arc}
use kitsune.Timestamp.{add_duration, sub_timestamp, lt_i64}
use kitsune.Combine.{combine_op_hashes, combine_from, combine_hashes, xor_into}
use kitsune.OpStore.{OpStore, StoredOp, StoreLaws}
use kitsune.Time.{
  slice_duration, residual_sum, residual_duration_for_factor, push_slices, slice_count,
  partials_below, layout_partials,
}
use kitsune.Time.Partition.{
  TimePartition, slice_end, full_slice_end_timestamp, layout_full_slices, old_hash, push_partial,
  set_next_update,
}
use kitsune.Time.Update.{
  put_slice_hash, add_full_slices, update_full_slice_hashes, fresh_hash, slice_hash, push_partials,
  update_partials, update,
}
use kitsune.Time.Inform.{combine_last, inform_recent, inform_op, inform_each, inform_ops_stored}
use kitsune.Time.Hashes.{HashesMatch, update-HashesMatch}
use kitsune.Time.Slices.{OpsOf, add_op, add_ops, Contiguous}
use kitsune.Time.Stored.{AllSized, add_op-AllSized}
use kitsune.Time.Informing.{NotBefore}
use kitsune.Time.Bounds.{Adjacent, IsWhole, slice_bounds, update-Adjacent}
use kitsune.Time.Contiguity.{IsContiguous, update-IsContiguous}
use kitsune.Time.StoredHashes.{HasStored, inform_ops_stored-HashesMatch, inform_recent-HashesMatch}

-- An op created 20 minutes after the epoch, which the store always holds, and one of a minute
-- later, which it holds in the state `true`.
abbrev first_op : StoredOp
first_op = record { op_id = 17 ∷ 4 ∷ []; created_at = 1200000000 }

abbrev second_op : StoredOp
second_op = record { op_id = 1 ∷ 5 ∷ []; created_at = 1260000000 }

abbrev held : Bool → OpsOf
held false = add_op (λ a b. []) first_op
held true = add_op (add_op (λ a b. []) first_op) second_op

abbrev small_store : OpStore
small_store = record {
  State = Bool;
  retrieve_op_hashes_in_time_slice = λ s a start end. ok (held s start end, 2);
  earliest_timestamp_in_arc = λ s a. ok (some 1200000000);
  store_slice_hash = λ s a index hash. (ok tt, s);
  slice_hash_count = λ s a. ok 0;
  retrieve_slice_hash = λ s a index. ok none;
  retrieve_slice_hashes = λ s a. ok [];
  query_total_op_count = λ s. ok 1;
}

held-before : (s : Bool) (start end : ℕ) → lt_i64 end 1200000000 ≡ true → held s start end ≡ []
unfolding add_op
held-before false start end h = ground arith
held-before true start end h = ground arith

held-none :
    (s : Bool) (start end : ℕ)
    → small_store.earliest_timestamp_in_arc s full ≡ ok none
    → held s start end ≡ []
held-none s start end e = cc

abbrev small_laws : StoreLaws small_store
small_laws = record {
  ops = λ s a start end. held s start end;
  used = λ s a start end. 2;
  retrieve-ops = λ s a start end. refl;
  ops-store_slice_hash = λ s a' a index hash start end. refl;
  before_earliest = λ s a t start end e h.
      held-before s start end
        (subst (λ x. lt_i64 end x ≡ true) (sym (some-injective _ _ (ok-injective e))) h);
  none_stored = λ s a start end e. held-none s start end e;
}

held-AllSized : (s : Bool) → AllSized 2 (held s)
held-AllSized false = add_op-AllSized 2 (λ a b. []) first_op (λ a b. tt) refl
held-AllSized true =
    add_op-AllSized 2 (held false) second_op
      (add_op-AllSized 2 (λ a b. []) first_op (λ a b. tt) refl) refl

-- Factor 2, with the slice of two units that holds the first op.
abbrev one_slice : TimePartition
one_slice = record {
  factor = 2;
  full_slices = 0;
  partial_slices = record { start = 0; size = 1; hash = first_op.op_id } ∷ [];
  full_slice_duration = 3600000000;
  min_recent_time = 2700000000;
  next_update_at = 0;
  sector_constraint = arc 0 8388607;
}

one_slice-HashesMatch : HashesMatch small_store small_laws (one_slice, false)
unfolding add_op HashesMatch slice_end slice_duration add_duration combine_op_hashes combine_from
    combine_hashes xor_into
one_slice-HashesMatch = (refl, tt)

one_slice-Contiguous : Contiguous (full_slice_end_timestamp one_slice) one_slice.partial_slices
unfolding full_slice_end_timestamp slice_end slice_duration add_duration
one_slice-Contiguous = (refl, refl, tt)

second_op-NotBefore : NotBefore (full_slice_end_timestamp one_slice) second_op
unfolding full_slice_end_timestamp add_duration
second_op-NotBefore = refl

second_op-HasStored : HasStored small_store small_laws false (second_op ∷ []) (one_slice, true)
unfolding add_ops
second_op-HasStored a b = Perm.refl _

second_op-ok : (inform_ops_stored small_store (second_op ∷ []) (one_slice, true)).0 ≡ ok tt
unfolding inform_ops_stored inform_each inform_op inform_recent combine_last
    full_slice_end_timestamp slice_end slice_duration add_duration combine_hashes xor_into
second_op-ok = refl

update-HashesMatch_example :
    HashesMatch small_store small_laws (update small_store 9000000001 (one_slice, false)).1
update-HashesMatch_example =
    update-HashesMatch small_store small_laws 9000000001 (one_slice, false) one_slice-HashesMatch

-- The two ops, the second of which comes after the slice was hashed.
inform_recent-HashesMatch_example :
    ((inform_ops_stored small_store (second_op ∷ []) (one_slice, true)).0 ≡ ok tt)
    × HashesMatch small_store small_laws
        (inform_ops_stored small_store (second_op ∷ []) (one_slice, true)).1
inform_recent-HashesMatch_example =
    inform_recent-HashesMatch small_store small_laws 2 (omega arith) (λ s c. held-AllSized s)
      (second_op ∷ []) false (one_slice, true) (refl, tt) (second_op-NotBefore, tt)
      one_slice-Contiguous one_slice-HashesMatch second_op-HasStored

inform_ops_stored-HashesMatch_example :
    HashesMatch small_store small_laws
      (inform_ops_stored small_store (second_op ∷ []) (one_slice, true)).1
inform_ops_stored-HashesMatch_example =
    inform_ops_stored-HashesMatch small_store small_laws 2 (omega arith) (λ s c. held-AllSized s)
      (second_op ∷ []) false (one_slice, true) (refl, tt) one_slice-Contiguous one_slice-HashesMatch
      second_op-HasStored second_op-ok

-- Seven units and a microsecond after the start, the first full slice of four units is old enough.
updated-ok : (update small_store 6300000001 (one_slice, false)).0 ≡ ok tt
unfolding update update_full_slice_hashes add_full_slices layout_full_slices update_partials
    push_partials slice_hash old_hash fresh_hash push_partial set_next_update
    full_slice_end_timestamp layout_partials partials_below push_slices slice_count
    residual_duration_for_factor residual_sum sub_timestamp slice_end slice_duration add_duration
    add_op combine_op_hashes combine_from combine_hashes xor_into put_slice_hash
updated-ok = refl

update-IsContiguous_example : IsContiguous (update small_store 6300000001 (one_slice, false)).1.0
update-IsContiguous_example =
    update-IsContiguous small_store 6300000001 (one_slice, false) updated-ok

updated-IsWhole : IsWhole (update small_store 6300000001 (one_slice, false)).1.0
unfolding update update_full_slice_hashes add_full_slices layout_full_slices update_partials
    push_partials slice_hash old_hash fresh_hash push_partial set_next_update
    full_slice_end_timestamp layout_partials partials_below push_slices slice_count
    residual_duration_for_factor residual_sum sub_timestamp slice_end slice_duration add_duration
    add_op combine_op_hashes combine_from combine_hashes xor_into put_slice_hash
updated-IsWhole = refl

updated-count :
    length (update small_store 6300000001 (one_slice, false)).1.0.partial_slices
      + (update small_store 6300000001 (one_slice, false)).1.0.full_slices
    ≡ 3
unfolding update update_full_slice_hashes add_full_slices layout_full_slices update_partials
    push_partials slice_hash old_hash fresh_hash push_partial set_next_update
    full_slice_end_timestamp layout_partials partials_below push_slices slice_count
    residual_duration_for_factor residual_sum sub_timestamp slice_end slice_duration add_duration
    add_op combine_op_hashes combine_from combine_hashes xor_into put_slice_hash
updated-count = refl

-- The boundary between the full slice and the first partial one.
update-Adjacent_example :
    Adjacent
      (slice_bounds (update small_store 6300000001 (one_slice, false)).1.0 0)
      (slice_bounds (update small_store 6300000001 (one_slice, false)).1.0 1)
update-Adjacent_example =
    update-Adjacent small_store 6300000001 (one_slice, false) 0 updated-ok updated-IsWhole
      (omega (arith, updated-count))
