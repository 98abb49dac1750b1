-- ===== src/Gossip.antt =====
-- Gossip, crates/gossip: rounds in which two peers find out what ops one has and the other has not. A
-- `Url` is only compared, so a number stands for it; an agent id is its bytes.
pub mod Wire
pub mod Protocol
pub mod Host
pub mod Burst
pub mod Validate
pub mod Peers
pub mod Initiate
pub mod Rounds
pub mod Close
pub mod Storage
pub mod Accept
pub mod Discs
pub mod Rings
pub mod Respond
pub mod Runs
pub mod Limits
pub mod Quiet
pub mod Kept
pub mod Opened
pub mod Ties
pub mod Bounded
use kitsune.Prelude.{ℕ, Option, none, List}
use kitsune.Prelude.Maps.{Map}
use kitsune.ArcSet.{ArcSet}
use kitsune.Timestamp.{Timestamp}
use kitsune.Combine.{Bytes}
use kitsune.Snapshot.{DhtSnapshot}

abbrev pub Url : Type 0
Url = ℕ

abbrev pub AgentId : Type 0
AgentId = Bytes

-- `RoundStage` of crates/gossip/src/state.rs, with the fields of the structs in the source's order.
pub data RoundStage : Type 0 where
  initiated : List AgentId → ArcSet → ℕ → RoundStage
  accepted : List AgentId → ArcSet → RoundStage
  no_diff : RoundStage
  disc_sectors_diff : ArcSet → RoundStage
  disc_sector_details_diff : ArcSet → DhtSnapshot → RoundStage
  ring_sector_details_diff : ArcSet → DhtSnapshot → RoundStage

-- `GossipRoundState`. `started_at` is in milliseconds, `peer_max_op_data_bytes` is the pattern of an
-- `i32`.
pub record GossipRoundState : Type 0 where
  pub session_with_peer : Url
  pub started_at : ℕ
  pub session_id : Bytes
  pub peer_max_op_data_bytes : ℕ
  pub stage : RoundStage

-- The fields of `K2GossipConfig` that the rounds depend on.
pub record K2GossipConfig : Type 0 where
  pub max_gossip_op_bytes : ℕ
  pub max_request_gossip_op_bytes : ℕ
  pub initiate_interval_ms : ℕ
  pub initiate_burst_factor : ℕ
  pub initiate_burst_window_count : ℕ
  pub round_timeout_ms : ℕ
  pub max_concurrent_accepted_rounds : ℕ

-- What `K2Gossip` keeps of its rounds, and the times of `AcceptBurstTracker`.
pub record K2Gossip : Type 0 where
  pub initiated_round_state : Option GossipRoundState
  pub accepted_round_states : Map GossipRoundState
  pub burst : Map (List Timestamp)
