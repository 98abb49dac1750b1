-- ===== src/Gossip/Accept.antt =====
-- The answer to an accept message (crates/gossip/src/respond/accept.rs).
use kitsune.Prelude.{ℕ, min, Bool, true, false, Option, none, some, List}
use kitsune.Prelude.Outcome.{Outcome, peer_behavior, err}
use kitsune.Prelude.Words.{sub32}
use kitsune.ArcSet
use kitsune.ArcSet.{ArcSet, decode}
use kitsune.Combine.{Bytes}
use kitsune.OpStore.{OpStore}
use kitsune.Snapshot.{DhtSnapshot, disc_sectors, ring_sector_details}
use kitsune.Dht.{DhtSnapshotNextAction, in_sync, cannot_compare_dhts, new_snapshot}
use kitsune.Dht.Handle.{handle_snapshot}
use kitsune.Gossip.{
  Url, no_diff, disc_sectors_diff, ring_sector_details_diff, GossipRoundState, K2GossipConfig,
}
use kitsune.Gossip.Wire.{from_minimal, to_disc_sectors, to_ring_sector_details}
use kitsune.Gossip.Protocol
use kitsune.Gossip.Protocol.{GossipMessage, AcceptResponseMessage, K2GossipAcceptMessage}
use kitsune.Gossip.Validate.{validate_accept}
use kitsune.Gossip.Rounds.{take_initiated, change_initiated, at_stage, on_initiated, terminated}
use kitsune.Gossip.Peers.{
  filter_known_agents, load_agent_infos, update_new_ops_bookmark, retrieve_new_op_ids,
  encode_agent_infos,
}
use kitsune.Gossip.Initiate.{record_op_count}
use kitsune.Gossip.Storage.{update_storage_arcs}
use kitsune.Gossip.Host.{Host, Action, pure, lift, call, reads, modify, ◌>>=◌, ◌>>◌}

abbrev pub arc_set_of : Option (List ℕ) → Outcome ArcSet
arc_set_of none = err (peer_behavior "no arc set in accept message")
arc_set_of (some value) = decode value

module _ (store : OpStore) (host : Host) (config : K2GossipConfig) (sharding : Bool) where
  unfoldable pub answer_no_diff :
      Bytes → AcceptResponseMessage → Bool → Action store host (Option GossipMessage)
  answer_no_diff session_id response cannot_compare = pure (
      some (
        Protocol.no_diff (record {
          session_id = session_id;
          accept_response = some response;
          cannot_compare = cannot_compare;
        })))

  -- The `match` on the new snapshot.
  unfoldable pub answer_snapshot :
      Bytes
      → AcceptResponseMessage
      → ArcSet
      → DhtSnapshot
      → Action store host (Option GossipMessage)
  answer_snapshot session_id response common_arc_set (disc_sectors m t) = do
    modify (change_initiated (at_stage (disc_sectors_diff common_arc_set)))
    snapshot ← lift (to_disc_sectors (disc_sectors m t))
    pure (
        some (
          Protocol.disc_sectors_diff (record {
            session_id = session_id;
            accept_response = some response;
            snapshot = some snapshot;
          })))
  answer_snapshot session_id response common_arc_set (ring_sector_details m t) = do
    modify (
        change_initiated
          (at_stage (ring_sector_details_diff common_arc_set (ring_sector_details m t))))
    snapshot ← lift (to_ring_sector_details (ring_sector_details m t))
    pure (
        some (
          Protocol.ring_sector_details_diff (record {
            session_id = session_id;
            accept_response = some response;
            snapshot = some snapshot;
          })))
  answer_snapshot session_id response common_arc_set snapshot = do
    modify take_initiated
    pure (terminated session_id "Unexpected snapshot type")

  -- The `match` on the next action.
  unfoldable pub answer_action :
      Bytes
      → AcceptResponseMessage
      → ArcSet
      → DhtSnapshot
      → DhtSnapshotNextAction
      → Action store host (Option GossipMessage)
  answer_action session_id response common_arc_set their_snapshot in_sync = do
    modify (change_initiated (at_stage no_diff))
    update_storage_arcs store host sharding in_sync their_snapshot common_arc_set
    answer_no_diff session_id response false
  answer_action session_id response common_arc_set their_snapshot cannot_compare_dhts = do
    modify (change_initiated (at_stage no_diff))
    answer_no_diff session_id response true
  answer_action session_id response common_arc_set their_snapshot (new_snapshot snapshot) =
      answer_snapshot session_id response common_arc_set snapshot
  answer_action session_id response common_arc_set their_snapshot action = do
    modify take_initiated
    pure (terminated session_id "Unexpected next action")

  -- What is left of the limit on op data; the difference is taken on `u32`.
  abbrev pub set_limit : K2GossipAcceptMessage → ℕ → GossipRoundState → GossipRoundState
  set_limit accept used_bytes round = record round {
    peer_max_op_data_bytes =
        sub32 (min config.max_request_gossip_op_bytes accept.max_op_data_bytes) used_bytes;
  }

  unfoldable pub respond_to_accept :
      Url → K2GossipAcceptMessage → Action store host (Option GossipMessage)
  respond_to_accept from_peer accept = do
    stage ← reads (λ w. on_initiated (λ round. validate_accept round from_peer accept) w.gossip)
    other_arc_set ← lift (arc_set_of accept.arc_set)
    let common_arc_set = ArcSet.intersection other_arc_set stage.1
    missing_agents ← filter_known_agents store host accept.participating_agents
    send_agent_infos ← load_agent_infos store host accept.missing_agents
    update_new_ops_bookmark store host from_peer accept.updated_new_since
    record_op_count store host config from_peer accept.dht_op_count
    call (host.request_ops accept.new_ops from_peer)
    new_ops ←
        retrieve_new_op_ids store host common_arc_set accept.new_since accept.max_op_data_bytes
    modify (change_initiated (set_limit accept new_ops.1))
    provided_agents ← encode_agent_infos store host send_agent_infos
    let response : AcceptResponseMessage = record {
      missing_agents = missing_agents;
      provided_agents = provided_agents;
      new_ops = new_ops.0;
      updated_new_since = new_ops.2;
    }
    elim accept.snapshot [
      | none ↦ do
        modify (change_initiated (at_stage no_diff))
        answer_no_diff accept.session_id response false
      | some message ↦ do
        let their_snapshot = from_minimal message
        action ← reads (λ w. handle_snapshot store w.dht their_snapshot none common_arc_set 0 w.ops)
        answer_action accept.session_id response common_arc_set their_snapshot action.0
    ]
