-- ===== src/Gossip/Storage.antt =====
-- The storage arcs of local agents after a comparison (crates/gossip/src/storage_arc.rs). Whether the
-- cargo feature `sharding` is on is a parameter.
pub mod Chosen
pub mod Inside
use kitsune.Prelude.{
  ℕ, ◌&&◌, Bool, true, false, Option, none, some, List, [], ◌∷◌, ◌++◌, ltb, ◌==◌, if◌then◌else◌,
}
use kitsune.Prelude.Outcome
use kitsune.Prelude.Outcome.{Outcome, ok, err, panic}
use kitsune.Prelude.Maps.{Map, keys}
use kitsune.Arc.{DhtArc, empty, arc, full, arc_span, overlaps}
use kitsune.ArcSet
use kitsune.ArcSet.{ArcSet, as_arcs, without_sector_indices}
use kitsune.Combine.{Bytes}
use kitsune.OpStore.{OpStore}
use kitsune.Snapshot.{DhtSnapshot, minimal, ring_sector_details}
use kitsune.Dht.{DhtSnapshotNextAction, cannot_compare_dhts}
use kitsune.Gossip.Host.{Host, LocalAgent, Action, pure, lift, call, reads, ◌>>=◌, ◌>>◌}

abbrev pub same_arc : DhtArc → DhtArc → Bool
same_arc empty empty = true
same_arc (arc s e) (arc s' e') = s == s' && e == e'
same_arc a b = false

-- `ring_sector_hashes.values().flat_map(|v| v.keys())`
unfoldable pub ring_sector_keys : Map (Map Bytes) → List ℕ
ring_sector_keys [] = []
ring_sector_keys ((k, h) ∷ m) = keys h ++ ring_sector_keys m

-- The sectors that did not match; none where the snapshot tells nothing of them.
unfoldable pub mismatched_sectors : DhtSnapshot → Option (List ℕ)
mismatched_sectors (minimal d t r) = some []
mismatched_sectors (ring_sector_details m t) = some (ring_sector_keys m)
mismatched_sectors s = none

-- `max_by_key(|arc| arc.arc_span())`, the last one where several are largest
unfoldable pub widest : List DhtArc → Option DhtArc
widest [] = none
widest (a ∷ arcs) = elim (widest arcs) [
  | none ↦ some a
  | some b ↦ some (if ltb (arc_span b) (arc_span a) then a else b)
]

-- `find` of a larger arc that overlaps
unfoldable pub grown : DhtArc → List DhtArc → Option DhtArc
grown current [] = none
grown current (a ∷ arcs) =
    let rest = grown current arcs in
    if ltb (arc_span current) (arc_span a) && overlaps a current then some a else rest

-- `any(|arc| arc == DhtArc::FULL)`
unfoldable pub full_one : List DhtArc → Option DhtArc
full_one [] = none
full_one (a ∷ arcs) = let rest = full_one arcs in if same_arc a full then some full else rest

-- The new storage arc of an agent, if it changes.
unfoldable pub new_storage_arc : Bool → List DhtArc → LocalAgent → Outcome (Option DhtArc)
new_storage_arc sharding synced_arcs a =
    let target = a.tgt_storage_arc in
    let current = a.cur_storage_arc in
    elim (same_arc target current) [
      | true ↦ ok none
      | false ↦ Outcome.◌>>=◌ (ArcSet.new (target ∷ [])) λ target_set.
          Outcome.◌>>=◌ (ArcSet.new (synced_arcs ++ current ∷ [])) λ synced_arc_set.
            let new_arcs = as_arcs (ArcSet.intersection synced_arc_set target_set) in
            ok (
              if sharding
              then (if same_arc current empty then widest new_arcs else grown current new_arcs)
              else full_one new_arcs)
    ]

module _ (store : OpStore) (host : Host) (sharding : Bool) where
  -- `for local_agent in local_agents`; agents before an error keep their new arcs, and the caller
  -- logs the error.
  unfoldable pub update_each : List DhtArc → List LocalAgent → Action store host (Unit {0})
  update_each synced_arcs [] = pure tt
  update_each synced_arcs (a ∷ agents) = elim (new_storage_arc sharding synced_arcs a) [
    | ok none ↦ update_each synced_arcs agents
    | ok (some new_arc) ↦ do
      call (host.set_cur_storage_arc a.agent new_arc)
      update_each synced_arcs agents
    | err e ↦ pure tt
    | panic ↦ lift panic
  ]

  -- `K2Gossip::update_storage_arcs` of crates/gossip/src/gossip.rs, once there is something to use.
  unfoldable pub use_snapshot : DhtSnapshot → ArcSet → Action store host (Unit {0})
  use_snapshot their_snapshot common_arc_set = do
    local_agents ← reads (λ w. host.local_agents w.outside)
    elim (mismatched_sectors their_snapshot) [
      | none ↦ pure tt
      | some mismatched ↦
          update_each (as_arcs (without_sector_indices common_arc_set mismatched)) local_agents
    ]

  unfoldable pub update_storage_arcs :
      DhtSnapshotNextAction → DhtSnapshot → ArcSet → Action store host (Unit {0})
  update_storage_arcs cannot_compare_dhts their_snapshot common_arc_set = pure tt
  update_storage_arcs action their_snapshot common_arc_set =
      use_snapshot their_snapshot common_arc_set
