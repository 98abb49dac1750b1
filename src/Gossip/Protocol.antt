-- ===== src/Gossip/Protocol.antt =====
-- The messages of crates/gossip/src/protocol.rs that begin and end a round, and those that carry a
-- snapshot. Their fields are those of gossip.proto.
use kitsune.Prelude.{ℕ, Bool, String, Option, List}
use kitsune.Timestamp.{Timestamp}
use kitsune.Combine.{Bytes}
use kitsune.Gossip.Wire.{
  SnapshotMinimalMessage, SnapshotDiscSectorsMessage, SnapshotDiscSectorDetailsMessage,
  SnapshotRingSectorDetailsMessage,
}

pub record AcceptResponseMessage : Type 0 where
  pub missing_agents : List Bytes
  pub provided_agents : List Bytes
  pub new_ops : List Bytes
  pub updated_new_since : Timestamp

pub record K2GossipInitiateMessage : Type 0 where
  pub session_id : Bytes
  pub participating_agents : List Bytes
  pub arc_set : Option (List ℕ)
  pub tie_breaker : ℕ
  pub new_since : Timestamp
  pub max_op_data_bytes : ℕ
  pub dht_op_count : Option ℕ

pub record K2GossipAcceptMessage : Type 0 where
  pub session_id : Bytes
  pub participating_agents : List Bytes
  pub arc_set : Option (List ℕ)
  pub missing_agents : List Bytes
  pub new_since : Timestamp
  pub max_op_data_bytes : ℕ
  pub new_ops : List Bytes
  pub updated_new_since : Timestamp
  pub dht_op_count : Option ℕ
  pub snapshot : Option SnapshotMinimalMessage

pub record K2GossipNoDiffMessage : Type 0 where
  pub session_id : Bytes
  pub accept_response : Option AcceptResponseMessage
  pub cannot_compare : Bool

pub record K2GossipDiscSectorsDiffMessage : Type 0 where
  pub session_id : Bytes
  pub accept_response : Option AcceptResponseMessage
  pub snapshot : Option SnapshotDiscSectorsMessage

pub record K2GossipDiscSectorDetailsDiffMessage : Type 0 where
  pub session_id : Bytes
  pub provided_agents : List Bytes
  pub snapshot : Option SnapshotDiscSectorDetailsMessage

pub record K2GossipDiscSectorDetailsDiffResponseMessage : Type 0 where
  pub session_id : Bytes
  pub missing_ids : List Bytes
  pub snapshot : Option SnapshotDiscSectorDetailsMessage

pub record K2GossipRingSectorDetailsDiffMessage : Type 0 where
  pub session_id : Bytes
  pub accept_response : Option AcceptResponseMessage
  pub snapshot : Option SnapshotRingSectorDetailsMessage

pub record K2GossipRingSectorDetailsDiffResponseMessage : Type 0 where
  pub session_id : Bytes
  pub missing_ids : List Bytes
  pub snapshot : Option SnapshotRingSectorDetailsMessage

pub record K2GossipHashesMessage : Type 0 where
  pub session_id : Bytes
  pub missing_ids : List Bytes

pub record K2GossipAgentsMessage : Type 0 where
  pub session_id : Bytes
  pub provided_agents : List Bytes

pub record K2GossipBusyMessage : Type 0 where
  pub session_id : Bytes

pub record K2GossipTerminateMessage : Type 0 where
  pub session_id : Bytes
  pub reason : String

pub data GossipMessage : Type 0 where
  initiate : K2GossipInitiateMessage → GossipMessage
  accept : K2GossipAcceptMessage → GossipMessage
  no_diff : K2GossipNoDiffMessage → GossipMessage
  disc_sectors_diff : K2GossipDiscSectorsDiffMessage → GossipMessage
  disc_sector_details_diff : K2GossipDiscSectorDetailsDiffMessage → GossipMessage
  disc_sector_details_diff_response : K2GossipDiscSectorDetailsDiffResponseMessage → GossipMessage
  ring_sector_details_diff : K2GossipRingSectorDetailsDiffMessage → GossipMessage
  ring_sector_details_diff_response : K2GossipRingSectorDetailsDiffResponseMessage → GossipMessage
  hashes : K2GossipHashesMessage → GossipMessage
  agents : K2GossipAgentsMessage → GossipMessage
  busy : K2GossipBusyMessage → GossipMessage
  terminate : K2GossipTerminateMessage → GossipMessage
