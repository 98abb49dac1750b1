-- ===== src/Gossip/Kept.antt =====
-- The accepted rounds under each change that gossip makes to the rounds (crates/gossip/src/respond.rs
-- and its modules).
pub mod Close
pub mod Accept
pub mod Diffs
use kitsune.Prelude.{
  ℕ, Bool, true, false, Option, none, some, List, [], ◌∷◌, if◌then◌else◌, Bool-cases, ◌==◌, ltb,
  ◌≡◌, inl, inr, refl, ap, sym, ◌∙◌,
}
use kitsune.Prelude.Outcome.{Outcome, ok, err, panic}
use kitsune.Prelude.Maps.{Map, get, is_some}
use kitsune.ArcSet.{ArcSet}
use kitsune.Timestamp.{Timestamp}
use kitsune.Combine.{Bytes}
use kitsune.OpStore.{OpStore}
use kitsune.Snapshot.{
  DhtSnapshot, minimal, disc_sectors, disc_sector_details, ring_sector_details, same_bytes,
}
use kitsune.Dht.{
  DhtSnapshotNextAction, in_sync, cannot_compare_dhts, new_snapshot, new_snapshot_and_hash_list,
  hash_list,
}
use kitsune.Gossip.{Url, AgentId, RoundStage, GossipRoundState, K2GossipConfig, K2Gossip}
use kitsune.Gossip.Protocol
use kitsune.Gossip.Protocol.{
  GossipMessage, AcceptResponseMessage, K2GossipAcceptMessage, K2GossipNoDiffMessage,
  K2GossipDiscSectorsDiffMessage, K2GossipDiscSectorDetailsDiffMessage,
  K2GossipDiscSectorDetailsDiffResponseMessage, K2GossipRingSectorDetailsDiffMessage,
  K2GossipRingSectorDetailsDiffResponseMessage, K2GossipHashesMessage, K2GossipAgentsMessage,
  K2GossipBusyMessage, K2GossipTerminateMessage,
}
use kitsune.Gossip.Initiate.{with_accepted, change_accepted, spend}
use kitsune.Gossip.Peers.{encode_agent_infos}
use kitsune.Gossip.Rounds.{take_initiated, remove_accepted, change_initiated, at_stage, terminated}
use kitsune.Gossip.Close.{
  initiated_with, accepted_from, end_initiated, end_accepted, terminate_initiated,
  terminate_accepted, respond_to_busy, respond_to_no_diff, respond_to_hashes, respond_to_agents,
  respond_to_terminate,
}
use kitsune.Gossip.Accept.{answer_no_diff, answer_snapshot, answer_action, respond_to_accept}
use kitsune.Gossip.Discs.{
  answer_disc_sectors, answer_disc_details, answer_disc_response, respond_to_disc_sectors_diff,
  respond_to_disc_sector_details_diff, respond_to_disc_sector_details_diff_response,
}
use kitsune.Gossip.Rings.{
  answer_agents, answer_ring_details, answer_ring_response, respond_to_ring_sector_details_diff,
  respond_to_ring_sector_details_diff_response,
}
use kitsune.Gossip.Limits.{
  IsGossip, take_initiated-IsGossip, change_initiated-IsGossip, remove_accepted-IsGossip,
  change_accepted-IsGossip,
}
use kitsune.Gossip.Quiet.{
  filter_known_agents-Runs, load_agent_infos-Runs, receive_agent_infos-Runs,
  encode_agent_infos-Runs, update_new_ops_bookmark-Runs, retrieve_new_op_ids-Runs,
  handle_accept_response-Runs, record_op_count-Runs, update_storage_arcs-Runs,
}
use kitsune.Gossip.Host.{
  Host, World, Action, pure, lift, call, draw, reads, state, modify, ◌>>=◌, ◌>>◌,
}
use kitsune.Gossip.Runs.{
  Runs, Runs-pure, Runs-lift, Runs-call, Runs-draw, Runs-reads, Runs-state, Runs-modify, Runs-bind,
  Runs-then, Runs-option, Runs-bool, quiet_rules,
}

module _ {store : OpStore} {host : Host} (config : K2GossipConfig) where
  abbrev pub Keeps : {A : Type 0} → Action store host A → Type 0
  Keeps m = Runs (IsGossip config) (IsGossip config) m

  pub taken : Keeps (modify take_initiated)
  taken = Runs-modify _ (take_initiated-IsGossip config)

  pub removed : (url : Url) → Keeps (modify (remove_accepted url))
  removed url = Runs-modify _ (remove_accepted-IsGossip config url)

  pub changed : (f : GossipRoundState → GossipRoundState) → Keeps (modify (change_initiated f))
  changed f = Runs-modify _ (change_initiated-IsGossip config f)

  pub restaged :
      (url : Url) (stage : RoundStage) → Keeps (modify (change_accepted url (at_stage stage)))
  restaged url stage =
      Runs-modify _ (λ g. change_accepted-IsGossip config url (at_stage stage) g (λ r. refl))

  pub spent : (url : Url) (n : ℕ) → Keeps (modify (change_accepted url (spend n)))
  spent url n = Runs-modify _ (λ g. change_accepted-IsGossip config url (spend n) g (λ r. refl))

  pub ruleset changes = (quiet_rules, taken, removed, changed, restaged, spent)
