-- ===== src/Gossip/Kept/Accept.antt =====
-- The accepted rounds under an accept message (crates/gossip/src/respond/accept.rs).
use kitsune.Prelude.{Bool}
use kitsune.ArcSet.{ArcSet}
use kitsune.Combine.{Bytes}
use kitsune.OpStore.{OpStore}
use kitsune.Snapshot.{DhtSnapshot, minimal, disc_sectors, disc_sector_details, ring_sector_details}
use kitsune.Dht.{
  DhtSnapshotNextAction, in_sync, cannot_compare_dhts, new_snapshot, new_snapshot_and_hash_list,
  hash_list,
}
use kitsune.Gossip.{Url, K2GossipConfig}
use kitsune.Gossip.Protocol.{AcceptResponseMessage, K2GossipAcceptMessage}
use kitsune.Gossip.Accept.{answer_no_diff, answer_snapshot, answer_action, respond_to_accept}
use kitsune.Gossip.Quiet.{
  filter_known_agents-Runs, load_agent_infos-Runs, encode_agent_infos-Runs,
  update_new_ops_bookmark-Runs, retrieve_new_op_ids-Runs, record_op_count-Runs,
  update_storage_arcs-Runs,
}
use kitsune.Gossip.Host.{Host}
use kitsune.Gossip.Runs.{
  Runs-pure, Runs-lift, Runs-call, Runs-reads, Runs-bind, Runs-then, Runs-option,
}
use kitsune.Gossip.Kept.{Keeps, changed, changes}

module _ (store : OpStore) (host : Host) (config : K2GossipConfig) where
  answer_snapshot-Keeps :
      (sharding : Bool) (id : Bytes) (r : AcceptResponseMessage) (arcs : ArcSet) (x : DhtSnapshot)
      → Keeps config (answer_snapshot store host config sharding id r arcs x)
  unfolding answer_snapshot
  answer_snapshot-Keeps sharding id r arcs (minimal d t l) = search changes depth 12
  answer_snapshot-Keeps sharding id r arcs (disc_sectors m t) = search changes depth 12
  answer_snapshot-Keeps sharding id r arcs (disc_sector_details m t) = search changes depth 12
  answer_snapshot-Keeps sharding id r arcs (ring_sector_details m t) = search changes depth 12

  answer_no_diff-Keeps :
      (sharding : Bool) (id : Bytes) (r : AcceptResponseMessage) (b : Bool)
      → Keeps config (answer_no_diff store host config sharding id r b)
  unfolding answer_no_diff
  answer_no_diff-Keeps sharding id r b = Runs-pure _

  answer_action-Keeps :
      (sharding : Bool) (id : Bytes) (r : AcceptResponseMessage) (arcs : ArcSet)
      (their : DhtSnapshot) (action : DhtSnapshotNextAction)
      → Keeps config (answer_action store host config sharding id r arcs their action)
  unfolding answer_action
  answer_action-Keeps sharding id r arcs their in_sync =
      search (changes, update_storage_arcs-Runs, answer_no_diff-Keeps) depth 12
  answer_action-Keeps sharding id r arcs their cannot_compare_dhts =
      search (changes, answer_no_diff-Keeps) depth 12
  answer_action-Keeps sharding id r arcs their (new_snapshot x) =
      answer_snapshot-Keeps sharding id r arcs x
  answer_action-Keeps sharding id r arcs their (new_snapshot_and_hash_list x l) =
      search changes depth 12
  answer_action-Keeps sharding id r arcs their (hash_list l) = search changes depth 12

  pub respond_to_accept-Keeps :
      (sharding : Bool) (url : Url) (m : K2GossipAcceptMessage)
      → Keeps config (respond_to_accept store host config sharding url m)
  unfolding respond_to_accept
  respond_to_accept-Keeps sharding url m = Runs-bind _ _ (Runs-reads _) λ stage.
      Runs-bind _ _ (Runs-lift _) λ other_arc_set.
        Runs-bind _ _ (filter_known_agents-Runs store host _) λ missing_agents.
          Runs-bind _ _ (load_agent_infos-Runs store host _) λ infos.
            Runs-then _ _ (update_new_ops_bookmark-Runs store host _ _) (
              Runs-then _ _ (record_op_count-Runs store host config _ _) (
                Runs-then _ _ (Runs-call _) (
                  Runs-bind _ _ (retrieve_new_op_ids-Runs store host _ _ _) λ new_ops.
                    Runs-then _ _ (changed config _) (
                      Runs-bind _ _ (encode_agent_infos-Runs store host _) λ provided.
                        Runs-option m.snapshot _ _
                          (Runs-then _ _ (changed config _) (answer_no_diff-Keeps sharding _ _ _))
                          λ message.
                            Runs-bind _ _ (Runs-reads _)
                              λ action. answer_action-Keeps sharding _ _ _ _ action.0))))
