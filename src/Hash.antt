-- ===== src/Hash.antt =====
-- `HashPartition` of crates/dht/src/hash.rs: one time partition for each sector. The location of an
-- op id is a function that the host sets.
pub mod Routing
pub mod Queries
pub mod Sectors
use kitsune.Prelude.{
  ℕ, zero, suc, ◌+◌, ◌-◌, ◌*◌, ◌/◌, ◌%◌, ◌^◌, min, Bool, true, false, not, none, some, List, [],
  ◌∷◌, ◌++◌, length, get_elem?, set, leb, ◌==◌, if◌then◌else◌,
}
use kitsune.Prelude.Outcome
use kitsune.Prelude.Outcome.{Outcome, K2Error, other, ok, err, panic}
use kitsune.Prelude.Words.{u32_max}
use kitsune.Prelude.Exec.{Exec, pure, ◌>>=◌, ◌>>◌}
use kitsune.Arc.{DhtArc, arc}
use kitsune.ArcSet.{ArcSet, sector_size, includes_sector_index}
use kitsune.ArcSet
use kitsune.Timestamp.{Timestamp}
use kitsune.Combine.{Bytes, is_empty, combine_hashes}
use kitsune.OpStore.{OpId, OpStore, StoredOp}
use kitsune.Time.Partition.{TimePartition, full_slice_end_timestamp}
use kitsune.Time.Update
use kitsune.Time.Inform

pub record HashPartition : Type 0 where
  pub size : ℕ
  pub sectors : List TimePartition

-- The arc of a sector that is not the last, and of the last.
abbrev pub inner_arc : ℕ → DhtArc
inner_arc i = arc (i * sector_size) (min ((i + 1) * sector_size) u32_max - 1)

abbrev pub last_arc : DhtArc
last_arc = arc ((ArcSet.factor - 1) * sector_size) u32_max

-- An entry of the map from sector to ops: `acc.entry(location).or_default().push(op)`.
unfoldable pub push_op : ℕ → StoredOp → List (ℕ × List StoredOp) → List (ℕ × List StoredOp)
push_op location op [] = (location, op ∷ []) ∷ []
push_op location op ((k, ops) ∷ acc) =
    let rest = push_op location op acc in
    if k == location then (k, ops ++ op ∷ []) ∷ acc else (k, ops) ∷ rest

-- The fold over the ops. The groups are in the order of the first op of each, which stands for the
-- order of iteration that the source leaves open.
unfoldable pub group_ops :
    (OpId → ℕ) → ℕ → List (ℕ × List StoredOp) → List StoredOp → List (ℕ × List StoredOp)
group_ops loc size acc [] = acc
group_ops loc size acc (op ∷ ops) = group_ops loc size (push_op (loc op.op_id / size) op acc) ops

unfoldable pub dht_arc_for_sector_index : HashPartition → ℕ → Outcome DhtArc
dht_arc_for_sector_index hp sector_index = elim (get_elem? hp.sectors sector_index) [
  | none ↦ err (other "Sector index out of bounds")
  | some pt ↦ ok pt.sector_constraint
]

module _ (store : OpStore) where
  open store use {State}

  -- `for i in 0..(num_partitions - 1)`
  unfoldable pub open_sectors : ℕ → ℕ → ℕ → Timestamp → Exec State (List TimePartition)
  open_sectors zero i time_factor current_time s = (ok [], s)
  open_sectors (suc n) i time_factor current_time s =
      (do
        pt ← Update.try_from_store store time_factor current_time (inner_arc i)
        rest ← open_sectors n (i + 1) time_factor current_time
        pure (pt ∷ rest))
        s

  unfoldable pub try_from_store : ℕ → Timestamp → Exec State HashPartition
  try_from_store time_factor current_time = do
    inner ← open_sectors (ArcSet.factor - 1) 0 time_factor current_time
    last ← Update.try_from_store store time_factor current_time last_arc
    pure (record { size = sector_size; sectors = inner ++ last ∷ [] })

  -- `for partition in self.sectors.iter_mut()`
  unfoldable pub update_sectors :
      Timestamp → List TimePartition → State → Outcome (Unit {0}) × (List TimePartition × State)
  update_sectors current_time [] s = (ok tt, ([], s))
  update_sectors current_time (pt ∷ pts) s =
      let (r, (pt', s')) = Update.update store current_time (pt, s) in
      let (rest, (pts', s'')) = update_sectors current_time pts s' in
      elim r [
        | ok u ↦ (rest, (pt' ∷ pts', s''))
        | err e ↦ (err e, (pt' ∷ pts, s'))
        | panic ↦ (panic, (pt' ∷ pts, s'))
      ]

  unfoldable pub update : Timestamp → Exec (HashPartition × State) (Unit {0})
  update current_time (hp, s) =
      let (r, (pts, s')) = update_sectors current_time hp.sectors s in
      (r, (record hp { sectors = pts }, s'))

  -- One group of ops; an index past the end panics.
  unfoldable pub inform_sector : ℕ → List StoredOp → Exec (HashPartition × State) (Unit {0})
  inform_sector location ops (hp, s) = elim (get_elem? hp.sectors location) [
    | none ↦ (panic, (hp, s))
    | some pt ↦
        let (r, (pt', s')) = Inform.inform_ops_stored store ops (pt, s) in
        (r, (record hp { sectors = set hp.sectors location pt' }, s'))
  ]

  unfoldable pub inform_groups : List (ℕ × List StoredOp) → Exec (HashPartition × State) (Unit {0})
  inform_groups [] w = (ok tt, w)
  inform_groups ((location, ops) ∷ groups) w =
      (do inform_sector location ops; inform_groups groups) w

  unfoldable pub inform_ops_stored :
      (OpId → ℕ) → List StoredOp → Exec (HashPartition × State) (Unit {0})
  inform_ops_stored loc stored_ops (hp, s) =
      inform_groups (group_ops loc hp.size [] stored_ops) (hp, s)

  -- The loop of `disc_top_hash` from a sector index on.
  unfoldable pub combine_sectors : ArcSet → ℕ → Bytes → List TimePartition → State → Outcome Bytes
  combine_sectors arc_set i combined [] s = ok combined
  combine_sectors arc_set i combined (pt ∷ pts) s = elim (includes_sector_index arc_set i) [
    | false ↦ combine_sectors arc_set (i + 1) combined pts s
    | true ↦ Outcome.◌>>=◌ (Inform.full_time_slice_top_hash store pt s) λ hash.
        Outcome.◌>>=◌
          (elim (is_empty hash) [ true ↦ ok combined | false ↦ combine_hashes combined hash ])
          λ combined'. combine_sectors arc_set (i + 1) combined' pts s
  ]

  unfoldable pub disc_top_hash : HashPartition → ArcSet → State → Outcome (Bytes × Timestamp)
  disc_top_hash hp arc_set s = Outcome.◌>>=◌ (combine_sectors arc_set 0 [] hp.sectors s) λ combined.
      elim (get_elem? hp.sectors 0) [
        | none ↦ panic
        | some pt ↦ ok (combined, full_slice_end_timestamp pt)
      ]
