-- ===== src/Dht/Fetch.antt =====
-- The op ids that `Dht::handle_snapshot` collects for the slices that differ, up to a number of bytes
-- of op data (crates/dht/src/dht.rs).
use kitsune.Prelude.{ℕ, Bool, true, false, List, [], ◌∷◌, ◌++◌, leb, if◌then◌else◌}
use kitsune.Prelude.Outcome
use kitsune.Prelude.Outcome.{Outcome, K2Error, other, ok, err, panic}
use kitsune.Prelude.Words.{add32, le_i32}
use kitsune.Prelude.Maps.{Map}
use kitsune.Arc.{DhtArc}
use kitsune.ArcSet.{sort}
use kitsune.OpStore.{OpId, OpStore}
use kitsune.Hash.{dht_arc_for_sector_index}
use kitsune.Hash.Queries
use kitsune.Dht.{Dht}

-- `sort_by_key(|(index, _)| *index)`
unfoldable pub insert_by_key : ℕ × List ℕ → Map (List ℕ) → Map (List ℕ)
insert_by_key e [] = e ∷ []
insert_by_key e (x ∷ xs) =
    let rest = insert_by_key e xs in if leb e.0 x.0 then e ∷ x ∷ xs else x ∷ rest

unfoldable pub sort_by_key : Map (List ℕ) → Map (List ℕ)
sort_by_key [] = []
sort_by_key (x ∷ xs) = insert_by_key x (sort_by_key xs)

-- `out` and `used_bytes`
abbrev pub Batch : Type 0
Batch = List OpId × ℕ

-- The last step of a round: a batch of ops is taken if it fits.
unfoldable pub add_batch : ℕ → Batch → List OpId × ℕ → Batch
add_batch max_op_data_bytes (out, used_bytes) (op_ids, ub) =
    if le_i32 (add32 used_bytes ub) max_op_data_bytes
    then (out ++ op_ids, add32 used_bytes ub)
    else (out, used_bytes)

-- `used_bytes as i32 >= max_op_data_bytes`
abbrev pub is_used_up : ℕ → Batch → Bool
is_used_up max_op_data_bytes (out, used_bytes) = le_i32 max_op_data_bytes used_bytes

-- `let Ok(..) = .. else { continue }`
unfoldable pub or_continue {ℓ κ} :
    {A : Type ℓ} {B : Type κ} → Outcome A → Outcome B → (A → Outcome B) → Outcome B
or_continue (ok a) skip f = f a
or_continue (err e) skip f = skip
or_continue panic skip f = panic

module _ (store : OpStore) where
  open store use {State, retrieve_op_hashes_in_time_slice}

  -- `for missing_slice in missing_slices`
  unfoldable pub fetch_slices : Dht → ℕ → DhtArc → List ℕ → Batch → State → Outcome Batch
  fetch_slices dht max_op_data_bytes sector [] batch s = ok batch
  fetch_slices dht max_op_data_bytes sector (missing_slice ∷ rest) batch s =
      or_continue (Queries.time_bounds_for_full_slice_index dht.partition missing_slice)
        (fetch_slices dht max_op_data_bytes sector rest batch s)
        λ bounds. Outcome.◌>>=◌ (retrieve_op_hashes_in_time_slice s sector bounds.0 bounds.1) λ ops.
          fetch_slices dht max_op_data_bytes sector rest (add_batch max_op_data_bytes batch ops) s

  -- `for (sector_index, missing_slices) in mismatched_slice_indices`
  unfoldable pub fetch_disc : Dht → ℕ → Map (List ℕ) → Batch → State → Outcome Batch
  fetch_disc dht max_op_data_bytes [] batch s = ok batch
  fetch_disc dht max_op_data_bytes ((sector_index, missing_slices) ∷ rest) batch s =
      elim (is_used_up max_op_data_bytes batch) [
        | true ↦ ok batch
        | false ↦
            or_continue (dht_arc_for_sector_index dht.partition sector_index)
              (fetch_disc dht max_op_data_bytes rest batch s)
              λ sector.
                Outcome.◌>>=◌
                  (fetch_slices dht max_op_data_bytes sector (sort missing_slices) batch s)
                  λ batch'. fetch_disc dht max_op_data_bytes rest batch' s
      ]

  -- `for sector_index in missing_sectors`; the flag tells of `break 'outer`.
  unfoldable pub fetch_ring : Dht → ℕ → ℕ → List ℕ → Batch → State → Outcome (Bool × Batch)
  fetch_ring dht max_op_data_bytes ring_index [] batch s = ok (false, batch)
  fetch_ring dht max_op_data_bytes ring_index (sector_index ∷ rest) batch s =
      elim (is_used_up max_op_data_bytes batch) [
        | true ↦ ok (true, batch)
        | false ↦
            let skip = fetch_ring dht max_op_data_bytes ring_index rest batch s in
            or_continue (dht_arc_for_sector_index dht.partition sector_index) skip λ sector.
              or_continue (Queries.time_bounds_for_partial_slice_index dht.partition ring_index)
                skip
                λ bounds.
                  Outcome.◌>>=◌ (retrieve_op_hashes_in_time_slice s sector bounds.0 bounds.1) λ ops.
                    fetch_ring dht max_op_data_bytes ring_index rest
                      (add_batch max_op_data_bytes batch ops) s
      ]

  -- `'outer: for (ring_index, missing_sectors) in mismatched_sectors`
  unfoldable pub fetch_rings : Dht → ℕ → Map (List ℕ) → Batch → State → Outcome Batch
  fetch_rings dht max_op_data_bytes [] batch s = ok batch
  fetch_rings dht max_op_data_bytes ((ring_index, missing_sectors) ∷ rest) batch s =
      Outcome.◌>>=◌ (fetch_ring dht max_op_data_bytes ring_index (sort missing_sectors) batch s)
        λ r. elim r.0 [ true ↦ ok r.1 | false ↦ fetch_rings dht max_op_data_bytes rest r.1 s ]
