-- ===== src/Gossip/Discs.antt =====
-- The answers to the messages that compare discs: disc_sectors_diff, disc_sector_details_diff and
-- disc_sector_details_diff_response of crates/gossip/src/respond.
use kitsune.Prelude.{ℕ, Option, none, some, List, []}
use kitsune.Prelude.Maps.{get}
use kitsune.ArcSet.{ArcSet}
use kitsune.Combine.{Bytes}
use kitsune.OpStore.{OpStore}
use kitsune.Dht.{
  DhtSnapshotNextAction, in_sync, cannot_compare_dhts, new_snapshot, new_snapshot_and_hash_list,
  hash_list,
}
use kitsune.Dht.Handle.{handle_snapshot}
use kitsune.Gossip.{Url, disc_sector_details_diff, K2Gossip}
use kitsune.Gossip.Wire.{from_disc_sectors, from_disc_sector_details, to_disc_sector_details}
use kitsune.Gossip.Protocol
use kitsune.Gossip.Protocol.{
  GossipMessage, K2GossipDiscSectorsDiffMessage, K2GossipDiscSectorDetailsDiffMessage,
  K2GossipDiscSectorDetailsDiffResponseMessage,
}
use kitsune.Gossip.Validate.{
  validate_disc_sectors_diff, validate_disc_sector_details_diff,
  validate_disc_sector_details_diff_response,
}
use kitsune.Gossip.Rounds.{
  take_initiated, remove_accepted, change_initiated, at_stage, on_initiated, on_accepted,
  terminated,
}
use kitsune.Gossip.Peers.{handle_accept_response, encode_agent_infos}
use kitsune.Gossip.Initiate.{change_accepted, spend}
use kitsune.Gossip.Close.{unwrap}
use kitsune.Gossip.Host.{Host, Action, pure, lift, call, reads, modify, ◌>>=◌, ◌>>◌}

-- The limit on op data of the initiated round, 0 where there is none.
abbrev pub initiated_limit : K2Gossip → ℕ
initiated_limit g = elim g.initiated_round_state [
  | none ↦ 0
  | some round ↦ round.peer_max_op_data_bytes
]

-- The limit of the accepted round with the peer, whose lock is held.
abbrev pub accepted_limit : Url → K2Gossip → ℕ
accepted_limit from_peer g = elim (get from_peer g.accepted_round_states) [
  | none ↦ 0
  | some round ↦ round.peer_max_op_data_bytes
]

module _ (store : OpStore) (host : Host) where
  open host use {AgentInfo}

  abbrev pub infos_or_none : Option (List AgentInfo) → List AgentInfo
  infos_or_none none = []
  infos_or_none (some infos) = infos

  -- The `match` of `respond_to_disc_sectors_diff`.
  unfoldable pub answer_disc_sectors :
      Url
      → Bytes
      → Option (List AgentInfo)
      → ArcSet
      → DhtSnapshotNextAction
      → Action store host (Option GossipMessage)
  answer_disc_sectors from_peer session_id send_agents common_arc_set (new_snapshot snapshot) = do
    modify (change_accepted from_peer (at_stage (disc_sector_details_diff common_arc_set snapshot)))
    provided_agents ← encode_agent_infos store host (infos_or_none send_agents)
    message ← lift (to_disc_sector_details snapshot)
    pure (
        some (
          Protocol.disc_sector_details_diff (record {
            session_id = session_id;
            provided_agents = provided_agents;
            snapshot = some message;
          })))
  answer_disc_sectors from_peer session_id none common_arc_set in_sync = do
    modify (remove_accepted from_peer)
    pure none
  answer_disc_sectors from_peer session_id none common_arc_set cannot_compare_dhts = do
    modify (remove_accepted from_peer)
    pure none
  answer_disc_sectors from_peer session_id (some infos) common_arc_set in_sync = do
    modify (remove_accepted from_peer)
    provided_agents ← encode_agent_infos store host infos
    pure (
        some
          (Protocol.agents (record { session_id = session_id; provided_agents = provided_agents })))
  answer_disc_sectors from_peer session_id (some infos) common_arc_set cannot_compare_dhts = do
    modify (remove_accepted from_peer)
    provided_agents ← encode_agent_infos store host infos
    pure (
        some
          (Protocol.agents (record { session_id = session_id; provided_agents = provided_agents })))
  answer_disc_sectors from_peer session_id send_agents common_arc_set action = do
    modify (remove_accepted from_peer)
    pure (terminated session_id "Unexpected next action")

  unfoldable pub respond_to_disc_sectors_diff :
      Url → K2GossipDiscSectorsDiffMessage → Action store host (Option GossipMessage)
  respond_to_disc_sectors_diff from_peer message = do
    stage ← reads (λ w.
        on_accepted from_peer (λ round. validate_disc_sectors_diff round from_peer message)
          w.gossip)
    accept_response ← lift (unwrap store host message.accept_response)
    send_agents ← handle_accept_response store host from_peer accept_response
    snapshot ← lift (unwrap store host message.snapshot)
    their_snapshot ← lift (from_disc_sectors snapshot)
    action ← reads (λ w. handle_snapshot store w.dht their_snapshot none stage.1 0 w.ops)
    answer_disc_sectors from_peer message.session_id send_agents stage.1 action.0

  -- The `match` of `respond_to_disc_sector_details_diff`.
  unfoldable pub answer_disc_details :
      Bytes → ArcSet → DhtSnapshotNextAction → Action store host (Option GossipMessage)
  answer_disc_details session_id common_arc_set in_sync = do
    modify take_initiated
    pure (terminated session_id "Nothing to compare")
  answer_disc_details session_id common_arc_set cannot_compare_dhts = do
    modify take_initiated
    pure (terminated session_id "Nothing to compare")
  answer_disc_details session_id common_arc_set (new_snapshot_and_hash_list snapshot ops) = do
    modify (change_initiated (at_stage (disc_sector_details_diff common_arc_set snapshot)))
    message ← lift (to_disc_sector_details snapshot)
    pure (
        some (
          Protocol.disc_sector_details_diff_response
            (record { session_id = session_id; missing_ids = ops; snapshot = some message })))
  answer_disc_details session_id common_arc_set action = do
    modify take_initiated
    pure (terminated session_id "Unexpected next action")

  unfoldable pub respond_to_disc_sector_details_diff :
      Url → K2GossipDiscSectorDetailsDiffMessage → Action store host (Option GossipMessage)
  respond_to_disc_sector_details_diff from_peer message = do
    common_arc_set ← reads (λ w.
        on_initiated (λ round. validate_disc_sector_details_diff round from_peer message) w.gossip)
    snapshot ← lift (unwrap store host message.snapshot)
    their_snapshot ← lift (from_disc_sector_details snapshot)
    action ← reads (λ w.
        handle_snapshot store w.dht their_snapshot none common_arc_set (initiated_limit w.gossip)
          w.ops)
    modify (change_initiated (spend action.1))
    answer_disc_details message.session_id common_arc_set action.0

  -- The `match` of `respond_to_disc_sector_details_diff_response`.
  unfoldable pub answer_disc_response :
      Url → Bytes → DhtSnapshotNextAction → Action store host (Option GossipMessage)
  answer_disc_response from_peer session_id in_sync = do
    modify (remove_accepted from_peer)
    pure (terminated session_id "Nothing to compare")
  answer_disc_response from_peer session_id cannot_compare_dhts = do
    modify (remove_accepted from_peer)
    pure (terminated session_id "Nothing to compare")
  answer_disc_response from_peer session_id (hash_list op_ids) = do
    modify (remove_accepted from_peer)
    pure (some (Protocol.hashes (record { session_id = session_id; missing_ids = op_ids })))
  answer_disc_response from_peer session_id action = do
    modify (remove_accepted from_peer)
    pure (terminated session_id "Unexpected next action")

  unfoldable pub respond_to_disc_sector_details_diff_response :
      Url → K2GossipDiscSectorDetailsDiffResponseMessage → Action store host (Option GossipMessage)
  respond_to_disc_sector_details_diff_response from_peer response = do
    stage ← reads (λ w.
        on_accepted from_peer
          (λ round. validate_disc_sector_details_diff_response round from_peer response) w.gossip)
    call (host.request_ops response.missing_ids from_peer)
    snapshot ← lift (unwrap store host response.snapshot)
    their_snapshot ← lift (from_disc_sector_details snapshot)
    action ← reads (λ w.
        handle_snapshot store w.dht their_snapshot (some stage.1) stage.0
          (accepted_limit from_peer w.gossip) w.ops)
    modify (change_accepted from_peer (spend action.1))
    answer_disc_response from_peer response.session_id action.0
