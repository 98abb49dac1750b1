-- ===== src/Gossip/Rings.antt =====
-- The answers to the messages that compare rings: ring_sector_details_diff and
-- ring_sector_details_diff_response of crates/gossip/src/respond.
use kitsune.Prelude.{Bool, Option, none, some, List, [], ◌∷◌}
use kitsune.ArcSet.{ArcSet}
use kitsune.Combine.{Bytes}
use kitsune.OpStore.{OpStore}
use kitsune.Dht.{
  DhtSnapshotNextAction, in_sync, cannot_compare_dhts, new_snapshot_and_hash_list, hash_list,
}
use kitsune.Dht.Handle.{handle_snapshot}
use kitsune.Gossip.{Url, AgentId, ring_sector_details_diff}
use kitsune.Gossip.Wire.{from_ring_sector_details, to_ring_sector_details}
use kitsune.Gossip.Protocol
use kitsune.Gossip.Protocol.{
  GossipMessage, K2GossipRingSectorDetailsDiffMessage, K2GossipRingSectorDetailsDiffResponseMessage,
}
use kitsune.Gossip.Validate.{
  validate_ring_sector_details_diff, validate_ring_sector_details_diff_response,
}
use kitsune.Gossip.Rounds.{
  take_initiated, remove_accepted, change_initiated, at_stage, on_initiated, on_accepted,
  terminated,
}
use kitsune.Gossip.Peers.{handle_accept_response, load_agent_infos, encode_agent_infos}
use kitsune.Gossip.Initiate.{change_accepted, spend}
use kitsune.Gossip.Close.{unwrap}
use kitsune.Gossip.Discs.{initiated_limit, accepted_limit}
use kitsune.Gossip.Storage.{update_storage_arcs}
use kitsune.Gossip.Host.{Host, Action, pure, lift, call, reads, modify, ◌>>=◌, ◌>>◌}

module _ (store : OpStore) (host : Host) (sharding : Bool) where
  -- Where nothing can be compared: the agents that were asked for, if any, or the end.
  unfoldable pub answer_agents :
      Url → Bytes → List AgentId → Action store host (Option GossipMessage)
  answer_agents from_peer session_id missing_agents = do
    modify (remove_accepted from_peer)
    send_agents ← load_agent_infos store host missing_agents
    elim send_agents [
      | [] ↦ pure (terminated session_id "Nothing to compare and no agents")
      | info ∷ rest ↦ do
        provided_agents ← encode_agent_infos store host (info ∷ rest)
        pure (
            some (
              Protocol.agents
                (record { session_id = session_id; provided_agents = provided_agents })))
    ]

  -- The `match` of `respond_to_ring_sector_details_diff`.
  unfoldable pub answer_ring_details :
      Url
      → Bytes
      → List AgentId
      → ArcSet
      → DhtSnapshotNextAction
      → Action store host (Option GossipMessage)
  answer_ring_details from_peer session_id missing_agents common_arc_set in_sync =
      answer_agents from_peer session_id missing_agents
  answer_ring_details from_peer session_id missing_agents common_arc_set cannot_compare_dhts =
      answer_agents from_peer session_id missing_agents
  answer_ring_details from_peer session_id missing_agents common_arc_set
        (new_snapshot_and_hash_list snapshot op_ids) =
      do
        modify (
            change_accepted from_peer (at_stage (ring_sector_details_diff common_arc_set snapshot)))
        message ← lift (to_ring_sector_details snapshot)
        pure (
            some (
              Protocol.ring_sector_details_diff_response (record {
                session_id = session_id;
                missing_ids = op_ids;
                snapshot = some message;
              })))
  answer_ring_details from_peer session_id missing_agents common_arc_set action = do
    modify (remove_accepted from_peer)
    pure (terminated session_id "Unexpected next action")

  unfoldable pub respond_to_ring_sector_details_diff :
      Url → K2GossipRingSectorDetailsDiffMessage → Action store host (Option GossipMessage)
  respond_to_ring_sector_details_diff from_peer message = do
    stage ← reads (λ w.
        on_accepted from_peer (λ round. validate_ring_sector_details_diff round from_peer message)
          w.gossip)
    accept_response ← lift (unwrap store host message.accept_response)
    handle_accept_response store host from_peer accept_response
    snapshot ← lift (unwrap store host message.snapshot)
    their_snapshot ← lift (from_ring_sector_details snapshot)
    action ← reads (λ w.
        handle_snapshot store w.dht their_snapshot none stage.1 (accepted_limit from_peer w.gossip)
          w.ops)
    modify (change_accepted from_peer (spend action.1))
    update_storage_arcs store host sharding action.0 their_snapshot stage.1
    answer_ring_details from_peer message.session_id accept_response.missing_agents stage.1 action.0

  -- The `match` of `respond_to_ring_sector_details_diff_response`.
  unfoldable pub answer_ring_response :
      Bytes → DhtSnapshotNextAction → Action store host (Option GossipMessage)
  answer_ring_response session_id in_sync = do
    modify take_initiated
    pure (terminated session_id "Nothing to compare")
  answer_ring_response session_id cannot_compare_dhts = do
    modify take_initiated
    pure (terminated session_id "Nothing to compare")
  answer_ring_response session_id (hash_list op_ids) = do
    modify take_initiated
    pure (some (Protocol.hashes (record { session_id = session_id; missing_ids = op_ids })))
  answer_ring_response session_id action = do
    modify take_initiated
    pure (terminated session_id "Unexpected next action")

  unfoldable pub respond_to_ring_sector_details_diff_response :
      Url → K2GossipRingSectorDetailsDiffResponseMessage → Action store host (Option GossipMessage)
  respond_to_ring_sector_details_diff_response from_peer response = do
    stage ← reads (λ w.
        on_initiated (λ round. validate_ring_sector_details_diff_response round from_peer response)
          w.gossip)
    call (host.request_ops response.missing_ids from_peer)
    snapshot ← lift (unwrap store host response.snapshot)
    their_snapshot ← lift (from_ring_sector_details snapshot)
    action ← reads (λ w.
        handle_snapshot store w.dht their_snapshot (some stage.1) stage.0 (initiated_limit w.gossip)
          w.ops)
    modify (change_initiated (spend action.1))
    update_storage_arcs store host sharding action.0 their_snapshot stage.0
    answer_ring_response response.session_id action.0
