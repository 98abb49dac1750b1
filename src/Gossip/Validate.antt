-- ===== src/Gossip/Validate.antt =====
-- The checks of a message against the state of a round (crates/gossip/src/respond). The texts of the
-- errors are shortened, and leave out the values that the source prints.
use kitsune.Prelude.{
  ℕ, Bool, false, not, ◌||◌, String, Option, none, some, List, [], ◌∷◌, ◌++◌, ◌==◌,
}
use kitsune.Prelude.Outcome.{Outcome, peer_behavior, ok, err, fail_if, ◌>>=◌, ◌>>◌}
use kitsune.ArcSet.{ArcSet, includes_sector_index}
use kitsune.Combine.{Bytes}
use kitsune.Snapshot.{DhtSnapshot, same_bytes}
use kitsune.Gossip.Wire.{RingSectorHashes}
use kitsune.Gossip.Protocol.{
  K2GossipAcceptMessage, K2GossipNoDiffMessage, K2GossipDiscSectorsDiffMessage,
  K2GossipDiscSectorDetailsDiffMessage, K2GossipDiscSectorDetailsDiffResponseMessage,
  K2GossipRingSectorDetailsDiffMessage, K2GossipRingSectorDetailsDiffResponseMessage,
  K2GossipAgentsMessage, K2GossipBusyMessage,
}
use kitsune.Gossip.{
  Url, AgentId, RoundStage, initiated, accepted, no_diff, disc_sectors_diff,
  disc_sector_details_diff, ring_sector_details_diff, GossipRoundState,
}

-- `our_agents.contains(&a)`
unfoldable pub contains_agent : List AgentId → AgentId → Bool
contains_agent [] a = false
contains_agent (x ∷ xs) a = same_bytes x a || contains_agent xs a

-- `missing_agents.iter().any(|a| !our_agents.contains(a))`
unfoldable pub any_undeclared : List AgentId → List AgentId → Bool
any_undeclared our_agents [] = false
any_undeclared our_agents (a ∷ rest) =
    not (contains_agent our_agents a) || any_undeclared our_agents rest

-- `for sector in sectors { if !common_arc_set.includes_sector_index(sector) { return Err(..) } }`
unfoldable pub any_outside : ArcSet → List ℕ → Bool
any_outside common_arc_set [] = false
any_outside common_arc_set (sector ∷ sectors) =
    not (includes_sector_index common_arc_set sector) || any_outside common_arc_set sectors

-- `ring_sector_hashes.iter().flat_map(|sh| sh.sector_indices.iter())`
unfoldable pub all_sectors : List RingSectorHashes → List ℕ
all_sectors [] = []
all_sectors (h ∷ hs) = h.sector_indices ++ all_sectors hs

-- The checks that every message begins with: who sent it, and of which session.
unfoldable pub same_session : GossipRoundState → Url → Bytes → Outcome (Unit {0})
same_session state from_peer session_id = do
  fail_if (not (state.session_with_peer == from_peer)) (peer_behavior "message from wrong peer")
  fail_if (not (same_bytes state.session_id session_id)) (peer_behavior "Session id mismatch")

-- `let Some(x) = x else { return Err(..) }`
abbrev pub present {ℓ} : {A : Type ℓ} → String → Option A → Outcome A
present message none = err (peer_behavior message)
present message (some a) = ok a

-- The stage that a message must find, with its agents and its arc set.
abbrev pub is_accepted : RoundStage → Outcome (List AgentId × ArcSet)
is_accepted (accepted our_agents common_arc_set) = ok (our_agents, common_arc_set)
is_accepted stage = err (peer_behavior "Unexpected round state")

abbrev pub is_initiated : RoundStage → Outcome (List AgentId × ArcSet)
is_initiated (initiated our_agents our_arc_set tie_breaker) = ok (our_agents, our_arc_set)
is_initiated stage = err (peer_behavior "Unexpected round state")

abbrev pub is_disc_sectors_diff : RoundStage → Outcome ArcSet
is_disc_sectors_diff (disc_sectors_diff common_arc_set) = ok common_arc_set
is_disc_sectors_diff stage = err (peer_behavior "Unexpected round state")

abbrev pub is_disc_sector_details_diff : RoundStage → Outcome (ArcSet × DhtSnapshot)
is_disc_sector_details_diff (disc_sector_details_diff common_arc_set snapshot) =
    ok (common_arc_set, snapshot)
is_disc_sector_details_diff stage = err (peer_behavior "Unexpected round state")

abbrev pub is_ring_sector_details_diff : RoundStage → Outcome (ArcSet × DhtSnapshot)
is_ring_sector_details_diff (ring_sector_details_diff common_arc_set snapshot) =
    ok (common_arc_set, snapshot)
is_ring_sector_details_diff stage = err (peer_behavior "Unexpected round state")

abbrev pub is_no_diff : RoundStage → Outcome (Unit {0})
is_no_diff no_diff = ok tt
is_no_diff stage = err (peer_behavior "Unexpected round stage for agents")

unfoldable pub validate_accept :
    GossipRoundState → Url → K2GossipAcceptMessage → Outcome (List AgentId × ArcSet)
validate_accept state from_peer accept = do
  same_session state from_peer accept.session_id
  stage ← is_initiated state.stage
  fail_if (any_undeclared stage.0 accept.missing_agents)
      (peer_behavior "Accept message contains agents that we didn't declare")
  ok stage

unfoldable pub validate_no_diff :
    GossipRoundState → Url → K2GossipNoDiffMessage → Outcome (Unit {0})
validate_no_diff state from_peer message = do
  same_session state from_peer message.session_id
  stage ← is_accepted state.stage
  response ← present "Received NoDiff message without accept response" message.accept_response
  fail_if (any_undeclared stage.0 response.missing_agents)
      (peer_behavior "NoDiff message contains agents that we didn't declare")

unfoldable pub validate_disc_sectors_diff :
    GossipRoundState → Url → K2GossipDiscSectorsDiffMessage → Outcome (List AgentId × ArcSet)
validate_disc_sectors_diff state from_peer message = do
  same_session state from_peer message.session_id
  snapshot ← present "Received DiscSectorsDiff message without snapshot" message.snapshot
  stage ← is_accepted state.stage
  response ← present "Received NoDiff message without accept response" message.accept_response
  fail_if (any_undeclared stage.0 response.missing_agents)
      (peer_behavior "NoDiff message contains agents that we didn't declare")
  fail_if (any_outside stage.1 snapshot.disc_sectors)
      (peer_behavior "DiscSectorsDiff message contains sector that isn't in the common arc set")
  ok stage

unfoldable pub validate_disc_sector_details_diff :
    GossipRoundState → Url → K2GossipDiscSectorDetailsDiffMessage → Outcome ArcSet
validate_disc_sector_details_diff state from_peer message = do
  same_session state from_peer message.session_id
  snapshot ← present "Received DiscSectorDetailsDiff message without snapshot" message.snapshot
  common_arc_set ← is_disc_sectors_diff state.stage
  fail_if (any_outside common_arc_set snapshot.sector_indices) (
      peer_behavior
        "DiscSectorDetailsDiff message contains sector that isn't in the common arc set")
  ok common_arc_set

unfoldable pub validate_disc_sector_details_diff_response :
    GossipRoundState
    → Url
    → K2GossipDiscSectorDetailsDiffResponseMessage
    → Outcome (ArcSet × DhtSnapshot)
validate_disc_sector_details_diff_response state from_peer message = do
  same_session state from_peer message.session_id
  snapshot ←
      present "Received DiscSectorDetailsDiffResponse message without snapshot" message.snapshot
  stage ← is_disc_sector_details_diff state.stage
  fail_if (any_outside stage.0 snapshot.sector_indices) (
      peer_behavior
        "DiscSectorDetailsDiffResponse message contains sector that isn't in the common arc set")
  ok stage

unfoldable pub validate_ring_sector_details_diff :
    GossipRoundState → Url → K2GossipRingSectorDetailsDiffMessage → Outcome (List AgentId × ArcSet)
validate_ring_sector_details_diff state from_peer message = do
  same_session state from_peer message.session_id
  snapshot ← present "Received RingSectorDetailsDiff message without snapshot" message.snapshot
  stage ← is_accepted state.stage
  response ←
      present "Received RingSectorDetailsDiff message without accept response"
        message.accept_response
  fail_if (any_undeclared stage.0 response.missing_agents)
      (peer_behavior "RingSectorDetailsDiff message contains agents that we didn't declare")
  fail_if (any_outside stage.1 (all_sectors snapshot.ring_sector_hashes)) (
      peer_behavior
        "RingSectorDetailsDiff message contains sector that isn't in the common arc set")
  ok stage

unfoldable pub validate_ring_sector_details_diff_response :
    GossipRoundState
    → Url
    → K2GossipRingSectorDetailsDiffResponseMessage
    → Outcome (ArcSet × DhtSnapshot)
validate_ring_sector_details_diff_response state from_peer message = do
  same_session state from_peer message.session_id
  snapshot ←
      present "Received RingSectorDetailsDiffResponse message without snapshot" message.snapshot
  stage ← is_ring_sector_details_diff state.stage
  fail_if (any_outside stage.0 (all_sectors snapshot.ring_sector_hashes)) (
      peer_behavior
        "RingSectorDetailsDiffResponse message contains sector that isn't in the common arc set")
  ok stage

unfoldable pub validate_agents : GossipRoundState → Url → K2GossipAgentsMessage → Outcome (Unit {0})
validate_agents state from_peer agents = do
  same_session state from_peer agents.session_id
  is_no_diff state.stage

unfoldable pub validate_busy : GossipRoundState → Url → K2GossipBusyMessage → Outcome (Unit {0})
validate_busy state from_peer busy = same_session state from_peer busy.session_id
