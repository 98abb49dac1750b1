-- ===== src/Gossip/Kept/Diffs.antt =====
-- The accepted rounds under the messages about differences (crates/gossip/src/respond).
use kitsune.Prelude.{Bool, Option, none, some, List, [], ◌∷◌}
use kitsune.ArcSet.{ArcSet}
use kitsune.Combine.{Bytes}
use kitsune.OpStore.{OpStore}
use kitsune.Dht.{
  DhtSnapshotNextAction, in_sync, cannot_compare_dhts, new_snapshot, new_snapshot_and_hash_list,
  hash_list,
}
use kitsune.Gossip.{Url, AgentId, K2GossipConfig}
use kitsune.Gossip.Protocol
use kitsune.Gossip.Protocol.{
  GossipMessage, AcceptResponseMessage, K2GossipAcceptMessage, K2GossipNoDiffMessage,
  K2GossipDiscSectorsDiffMessage, K2GossipDiscSectorDetailsDiffMessage,
  K2GossipDiscSectorDetailsDiffResponseMessage, K2GossipRingSectorDetailsDiffMessage,
  K2GossipRingSectorDetailsDiffResponseMessage, K2GossipHashesMessage, K2GossipAgentsMessage,
  K2GossipBusyMessage, K2GossipTerminateMessage,
}
use kitsune.Gossip.Peers.{encode_agent_infos}
use kitsune.Gossip.Rounds.{terminated}
use kitsune.Gossip.Discs.{
  answer_disc_sectors, answer_disc_details, answer_disc_response, respond_to_disc_sectors_diff,
  respond_to_disc_sector_details_diff, respond_to_disc_sector_details_diff_response,
}
use kitsune.Gossip.Rings.{
  answer_agents, answer_ring_details, answer_ring_response, respond_to_ring_sector_details_diff,
  respond_to_ring_sector_details_diff_response,
}
use kitsune.Gossip.Quiet.{
  load_agent_infos-Runs, encode_agent_infos-Runs, handle_accept_response-Runs,
  update_storage_arcs-Runs,
}
use kitsune.Gossip.Host.{Host, Action, pure, ◌>>=◌}
use kitsune.Gossip.Runs.{Runs-pure, Runs-bind, Runs-then, quiet_rules}
use kitsune.Gossip.Kept.{Keeps, removed, changes}

module _ (store : OpStore) (host : Host) (config : K2GossipConfig) where
  answer_disc_sectors-Keeps :
      (url : Url) (id : Bytes) (o : Option (List host.AgentInfo)) (arcs : ArcSet)
      (action : DhtSnapshotNextAction)
      → Keeps config (answer_disc_sectors store host url id o arcs action)
  unfolding answer_disc_sectors
  answer_disc_sectors-Keeps url id o arcs (new_snapshot x) =
      search (changes, encode_agent_infos-Runs) depth 12
  answer_disc_sectors-Keeps url id none arcs in_sync = search changes depth 12
  answer_disc_sectors-Keeps url id none arcs cannot_compare_dhts = search changes depth 12
  answer_disc_sectors-Keeps url id (some l) arcs in_sync =
      search (changes, encode_agent_infos-Runs) depth 12
  answer_disc_sectors-Keeps url id (some l) arcs cannot_compare_dhts =
      search (changes, encode_agent_infos-Runs) depth 12
  answer_disc_sectors-Keeps url id o arcs (new_snapshot_and_hash_list x l) = search changes depth 12
  answer_disc_sectors-Keeps url id o arcs (hash_list l) = search changes depth 12

  pub respond_to_disc_sectors_diff-Keeps :
      (url : Url) (m : K2GossipDiscSectorsDiffMessage)
      → Keeps config (respond_to_disc_sectors_diff store host url m)
  unfolding respond_to_disc_sectors_diff
  respond_to_disc_sectors_diff-Keeps url m =
      search (changes, handle_accept_response-Runs, answer_disc_sectors-Keeps) depth 24

  answer_disc_details-Keeps :
      (id : Bytes) (arcs : ArcSet) (action : DhtSnapshotNextAction)
      → Keeps config (answer_disc_details store host id arcs action)
  unfolding answer_disc_details
  answer_disc_details-Keeps id arcs in_sync = search changes depth 12
  answer_disc_details-Keeps id arcs cannot_compare_dhts = search changes depth 12
  answer_disc_details-Keeps id arcs (new_snapshot x) = search changes depth 12
  answer_disc_details-Keeps id arcs (new_snapshot_and_hash_list x l) = search changes depth 12
  answer_disc_details-Keeps id arcs (hash_list l) = search changes depth 12

  pub respond_to_disc_sector_details_diff-Keeps :
      (url : Url) (m : K2GossipDiscSectorDetailsDiffMessage)
      → Keeps config (respond_to_disc_sector_details_diff store host url m)
  unfolding respond_to_disc_sector_details_diff
  respond_to_disc_sector_details_diff-Keeps url m =
      search (changes, answer_disc_details-Keeps) depth 24

  answer_disc_response-Keeps :
      (url : Url) (id : Bytes) (action : DhtSnapshotNextAction)
      → Keeps config (answer_disc_response store host url id action)
  unfolding answer_disc_response
  answer_disc_response-Keeps url id in_sync = search changes depth 12
  answer_disc_response-Keeps url id cannot_compare_dhts = search changes depth 12
  answer_disc_response-Keeps url id (new_snapshot x) = search changes depth 12
  answer_disc_response-Keeps url id (new_snapshot_and_hash_list x l) = search changes depth 12
  answer_disc_response-Keeps url id (hash_list l) = search changes depth 12

  pub respond_to_disc_sector_details_diff_response-Keeps :
      (url : Url) (m : K2GossipDiscSectorDetailsDiffResponseMessage)
      → Keeps config (respond_to_disc_sector_details_diff_response store host url m)
  unfolding respond_to_disc_sector_details_diff_response
  respond_to_disc_sector_details_diff_response-Keeps url m =
      search (changes, answer_disc_response-Keeps) depth 24

  answer_agents-Keeps :
      (sharding : Bool) (url : Url) (id : Bytes) (l : List AgentId)
      → Keeps config (answer_agents store host sharding url id l)
  unfolding answer_agents
  answer_agents-Keeps sharding url id l =
      Runs-then _ _ (removed config url)
        (Runs-bind _ _ (load_agent_infos-Runs store host l) (provided id))
    where
      provided :
          (id : Bytes) (infos : List host.AgentInfo)
          → Keeps config (elim infos as (λ x. Action store host (Option GossipMessage)) [
            | [] ↦ pure (terminated id "Nothing to compare and no agents")
            | info ∷ rest ↦ do
              provided_agents ← encode_agent_infos store host (info ∷ rest)
              pure (
                  some (
                    Protocol.agents
                      (record { session_id = id; provided_agents = provided_agents })))
          ])
      provided id [] = Runs-pure _
      provided id (info ∷ rest) = search (quiet_rules, encode_agent_infos-Runs)

  answer_ring_details-Keeps :
      (sharding : Bool) (url : Url) (id : Bytes) (l : List AgentId) (arcs : ArcSet)
      (action : DhtSnapshotNextAction)
      → Keeps config (answer_ring_details store host sharding url id l arcs action)
  unfolding answer_ring_details
  answer_ring_details-Keeps sharding url id l arcs in_sync = answer_agents-Keeps sharding url id l
  answer_ring_details-Keeps sharding url id l arcs cannot_compare_dhts =
      answer_agents-Keeps sharding url id l
  answer_ring_details-Keeps sharding url id l arcs (new_snapshot x) = search changes depth 12
  answer_ring_details-Keeps sharding url id l arcs (new_snapshot_and_hash_list x ids) =
      search changes depth 12
  answer_ring_details-Keeps sharding url id l arcs (hash_list ids) = search changes depth 12

  pub respond_to_ring_sector_details_diff-Keeps :
      (sharding : Bool) (url : Url) (m : K2GossipRingSectorDetailsDiffMessage)
      → Keeps config (respond_to_ring_sector_details_diff store host sharding url m)
  unfolding respond_to_ring_sector_details_diff
  respond_to_ring_sector_details_diff-Keeps sharding url m =
      search
        (changes, handle_accept_response-Runs, update_storage_arcs-Runs, answer_ring_details-Keeps)
        depth 24

  answer_ring_response-Keeps :
      (sharding : Bool) (id : Bytes) (action : DhtSnapshotNextAction)
      → Keeps config (answer_ring_response store host sharding id action)
  unfolding answer_ring_response
  answer_ring_response-Keeps sharding id in_sync = search changes depth 12
  answer_ring_response-Keeps sharding id cannot_compare_dhts = search changes depth 12
  answer_ring_response-Keeps sharding id (new_snapshot x) = search changes depth 12
  answer_ring_response-Keeps sharding id (new_snapshot_and_hash_list x l) = search changes depth 12
  answer_ring_response-Keeps sharding id (hash_list l) = search changes depth 12

  pub respond_to_ring_sector_details_diff_response-Keeps :
      (sharding : Bool) (url : Url) (m : K2GossipRingSectorDetailsDiffResponseMessage)
      → Keeps config (respond_to_ring_sector_details_diff_response store host sharding url m)
  unfolding respond_to_ring_sector_details_diff_response
  respond_to_ring_sector_details_diff_response-Keeps sharding url m =
      search (changes, update_storage_arcs-Runs, answer_ring_response-Keeps) depth 24
