-- ===== src/Tests/Storage.antt =====
-- An agent whose storage arc grows into a synced one (crates/gossip/src/storage_arc.rs).
use kitsune.Prelude.{true, Option, some, [], ◌∷◌, ◌≡◌, arith}
use kitsune.Prelude.Outcome.{ok}
use kitsune.Arc.{DhtArc, arc}
use kitsune.Gossip.Host.{LocalAgent}
use kitsune.Gossip.Storage.{new_storage_arc}
use kitsune.Gossip.Storage.Inside.{IsInside, new_storage_arc_lem}

-- It wants the sectors 0 to 3 and has the sector 1; the sectors 2 to 5 are in sync.
abbrev growing : LocalAgent
growing = record {
  agent = 1 ∷ [];
  tgt_storage_arc = arc 0 33554431;
  cur_storage_arc = arc 8388608 16777215;
}

new_storage_arc_lem_example :
    (r : Option DhtArc) × (new_storage_arc true (arc 16777216 50331647 ∷ []) growing ≡ ok r)
    × ((new_arc : DhtArc)
        → r ≡ some new_arc
        → IsInside (arc 16777216 50331647 ∷ []) growing new_arc)
new_storage_arc_lem_example =
    new_storage_arc_lem true (arc 16777216 50331647 ∷ []) growing (omega arith, tt) (omega arith)
      (omega arith)
