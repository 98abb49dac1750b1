-- ===== src/OpStore.antt =====
-- The interface `OpStore` of crates/api/src/op_store.rs, as far as the DHT model calls it. The host
-- implements it; `MemOpStore` is the implementation in this repository.
use kitsune.Prelude.{ℕ, List, [], Option, some, none, true, ◌≡◌}
use kitsune.Prelude.Outcome.{Outcome, ok}
use kitsune.Timestamp.{Timestamp, lt_i64}
use kitsune.Arc.{DhtArc}
use kitsune.Combine.{Bytes}

-- `OpId` is the bytes of a hash.
abbrev pub OpId : Type 0
OpId = Bytes

-- `StoredOp`
pub record StoredOp : Type 0 where
  pub op_id : OpId
  pub created_at : Timestamp

pub record OpStore : Type 1 where
  pub State : Type 0
  -- the op ids of an arc that were created in `[start, end)`, and the size of their data
  pub retrieve_op_hashes_in_time_slice :
      State → DhtArc → Timestamp → Timestamp → Outcome (List OpId × ℕ)
  pub earliest_timestamp_in_arc : State → DhtArc → Outcome (Option Timestamp)
  pub store_slice_hash : State → DhtArc → ℕ → Bytes → Outcome (Unit {0}) × State
  pub slice_hash_count : State → DhtArc → Outcome ℕ
  pub retrieve_slice_hash : State → DhtArc → ℕ → Outcome (Option Bytes)
  pub retrieve_slice_hashes : State → DhtArc → Outcome (List (ℕ × Bytes))
  pub query_total_op_count : State → Outcome ℕ

-- What the model relies on of a store: reading never fails, the ops of an interval are those that
-- were created in it, a stored slice hash leaves the ops alone, and none is created before the
-- earliest.
pub record StoreLaws (store : OpStore) : Type 0 where
  pub ops : store.State → DhtArc → Timestamp → Timestamp → List OpId
  pub used : store.State → DhtArc → Timestamp → Timestamp → ℕ
  pub retrieve-ops :
      (s : store.State) (arc : DhtArc) (start end : Timestamp)
      → store.retrieve_op_hashes_in_time_slice s arc start end
        ≡ ok (ops s arc start end, used s arc start end)
  pub ops-store_slice_hash :
      (s : store.State) (arc' arc : DhtArc) (index : ℕ) (hash : Bytes) (start end : Timestamp)
      → ops (store.store_slice_hash s arc' index hash).1 arc start end ≡ ops s arc start end
  pub before_earliest :
      (s : store.State) (arc : DhtArc) (t start end : Timestamp)
      → store.earliest_timestamp_in_arc s arc ≡ ok (some t)
      → lt_i64 end t ≡ true
      → ops s arc start end ≡ []
  pub none_stored :
      (s : store.State) (arc : DhtArc) (start end : Timestamp)
      → store.earliest_timestamp_in_arc s arc ≡ ok none
      → ops s arc start end ≡ []
