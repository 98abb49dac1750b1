-- ===== src/Gossip/Quiet.antt =====
-- The helpers of crates/gossip that leave the rounds alone.
use kitsune.Prelude.{ℕ, Bool, Option, none, some, List, [], ◌∷◌}
use kitsune.Prelude.Outcome.{Outcome, ok, err, panic}
use kitsune.Arc.{DhtArc}
use kitsune.ArcSet.{ArcSet, as_arcs}
use kitsune.Timestamp.{Timestamp}
use kitsune.Combine.{Bytes}
use kitsune.OpStore.{OpId, OpStore}
use kitsune.Gossip.{Url, AgentId, K2GossipConfig, K2Gossip}
use kitsune.Gossip.Protocol.{AcceptResponseMessage}
use kitsune.Snapshot.{DhtSnapshot}
use kitsune.Dht.{
  DhtSnapshotNextAction, in_sync, cannot_compare_dhts, new_snapshot, new_snapshot_and_hash_list,
  hash_list,
}
use kitsune.Gossip.Initiate.{record_op_count}
use kitsune.Gossip.Storage.{
  new_storage_arc, mismatched_sectors, update_each, use_snapshot, update_storage_arcs,
}
use kitsune.Gossip.Peers.{
  filter_known_agents, load_agent_infos, decode_infos, receive_agent_infos, encode_agent_infos,
  local_agent_state, update_new_ops_bookmark, retrieve_each, retrieve_new_op_ids,
  get_request_new_since, handle_accept_response,
}
use kitsune.Gossip.Host.{Host, LocalAgent, Action, pure, lift, call, ◌>>=◌, ◌>>◌}
use kitsune.Gossip.Runs.{
  Runs, Runs-pure, Runs-lift, Runs-call, Runs-draw, Runs-reads, Runs-bind, Runs-then, Runs-option,
  quiet_rules,
}

module _ (store : OpStore) (host : Host) {P : K2Gossip → Type 0} where
  pub filter_known_agents-Runs :
      (agents : List AgentId) → Runs P P (filter_known_agents store host agents)
  unfolding filter_known_agents
  filter_known_agents-Runs [] = search quiet_rules
  filter_known_agents-Runs (a ∷ agents) =
      let ih = filter_known_agents-Runs agents in search quiet_rules

  pub load_agent_infos-Runs :
      (agents : List AgentId) → Runs P P (load_agent_infos store host agents)
  unfolding load_agent_infos
  load_agent_infos-Runs [] = search quiet_rules
  load_agent_infos-Runs (a ∷ agents) = let ih = load_agent_infos-Runs agents in search quiet_rules

  decode_infos-Runs : (provided : List Bytes) → Runs P P (decode_infos store host provided)
  unfolding decode_infos
  decode_infos-Runs [] = search quiet_rules
  decode_infos-Runs (a ∷ provided) = let ih = decode_infos-Runs provided in search quiet_rules

  pub receive_agent_infos-Runs :
      (provided : List Bytes) → Runs P P (receive_agent_infos store host provided)
  unfolding receive_agent_infos
  receive_agent_infos-Runs [] = search quiet_rules
  receive_agent_infos-Runs (a ∷ provided) =
      let d = decode_infos-Runs (a ∷ provided) in search quiet_rules

  pub encode_agent_infos-Runs :
      (infos : List host.AgentInfo) → Runs P P (encode_agent_infos store host infos)
  unfolding encode_agent_infos
  encode_agent_infos-Runs [] = search quiet_rules
  encode_agent_infos-Runs (a ∷ infos) = let ih = encode_agent_infos-Runs infos in search quiet_rules

  pub local_agent_state-Runs : Runs P P (local_agent_state store host)
  unfolding local_agent_state
  local_agent_state-Runs = search quiet_rules

  pub update_new_ops_bookmark-Runs :
      (from_peer : Url) (t : Timestamp) → Runs P P (update_new_ops_bookmark store host from_peer t)
  unfolding update_new_ops_bookmark
  update_new_ops_bookmark-Runs from_peer t =
      Runs-bind _ _ (Runs-reads _)
        λ previous. Runs-option previous _ _ (Runs-call _) (λ u. search quiet_rules)

  retrieve_each-Runs :
      (arcs : List DhtArc) (t : Timestamp) (n : ℕ) (ids : List OpId) (used : ℕ) (b : Timestamp)
      → Runs P P (retrieve_each store host arcs t n ids used b)
  unfolding retrieve_each
  retrieve_each-Runs [] t n ids used b = search quiet_rules
  retrieve_each-Runs (a ∷ arcs) t n ids used b =
      Runs-bind _ _ (Runs-reads _) λ r. retrieve_each-Runs arcs t n _ _ _

  pub retrieve_new_op_ids-Runs :
      (arc_set : ArcSet) (t : Timestamp) (n : ℕ)
      → Runs P P (retrieve_new_op_ids store host arc_set t n)
  unfolding retrieve_new_op_ids
  retrieve_new_op_ids-Runs arc_set t n =
      Runs-bind _ _ (Runs-draw _) λ now. retrieve_each-Runs (as_arcs arc_set) t n _ _ _

  pub get_request_new_since-Runs : (url : Url) → Runs P P (get_request_new_since store host url)
  unfolding get_request_new_since
  get_request_new_since-Runs url = Runs-bind _ _ (Runs-reads _) λ bookmark.
      Runs-option bookmark _ _
        (Runs-bind _ _ (Runs-draw _) λ now. Runs-option _ _ _ (Runs-draw _) (λ t. Runs-pure _))
        (λ t. Runs-pure _)

  requested :
      (agents : List AgentId)
      → Runs P P (elim agents as (λ x. Action store host (Option (List host.AgentInfo))) [
        | [] ↦ pure none
        | a ∷ missing ↦ do infos ← load_agent_infos store host (a ∷ missing); pure (some infos)
      ])
  requested [] = Runs-pure _
  requested (a ∷ missing) = Runs-bind _ _ (load_agent_infos-Runs _) λ infos. Runs-pure _

  pub handle_accept_response-Runs :
      (from_peer : Url) (response : AcceptResponseMessage)
      → Runs P P (handle_accept_response store host from_peer response)
  unfolding handle_accept_response
  handle_accept_response-Runs from_peer response =
      Runs-then _ _ (receive_agent_infos-Runs _) (
        Runs-then _ _ (update_new_ops_bookmark-Runs _ _)
          (Runs-then _ _ (Runs-call _) (requested _)))

  pub record_op_count-Runs :
      (config : K2GossipConfig) (from_peer : Url) (o : Option ℕ)
      → Runs P P (record_op_count store host config from_peer o)
  unfolding record_op_count
  record_op_count-Runs config from_peer none = Runs-pure _
  record_op_count-Runs config from_peer (some n) = Runs-call _

  update_each-Runs :
      (sharding : Bool) (arcs : List DhtArc) (agents : List LocalAgent)
      → Runs P P (update_each store host sharding arcs agents)
  unfolding update_each
  update_each-Runs sharding arcs [] = Runs-pure _
  update_each-Runs sharding arcs (a ∷ agents) =
      settled (update_each-Runs sharding arcs agents) (new_storage_arc sharding arcs a)
    where
      settled :
          Runs P P (update_each store host sharding arcs agents)
          → (r : Outcome (Option DhtArc))
          → Runs P P (elim r as (λ x. Action store host (Unit {0})) [
            | ok none ↦ update_each store host sharding arcs agents
            | ok (some new_arc) ↦ do
              call (host.set_cur_storage_arc a.agent new_arc)
              update_each store host sharding arcs agents
            | err e ↦ pure tt
            | panic ↦ lift panic
          ])
      settled ih (ok none) = ih
      settled ih (ok (some b)) = Runs-then _ _ (Runs-call _) ih
      settled ih (err e) = Runs-pure _
      settled ih panic = Runs-lift _

  use_snapshot-Runs :
      (sharding : Bool) (their : DhtSnapshot) (arc_set : ArcSet)
      → Runs P P (use_snapshot store host sharding their arc_set)
  unfolding use_snapshot
  use_snapshot-Runs sharding their arc_set = Runs-bind _ _ (Runs-reads _) λ agents.
      Runs-option (mismatched_sectors their) _ _ (Runs-pure _)
        (λ l. update_each-Runs sharding _ agents)

  pub update_storage_arcs-Runs :
      (sharding : Bool) (action : DhtSnapshotNextAction) (their : DhtSnapshot) (arc_set : ArcSet)
      → Runs P P (update_storage_arcs store host sharding action their arc_set)
  unfolding update_storage_arcs
  update_storage_arcs-Runs sharding cannot_compare_dhts their arc_set = Runs-pure _
  update_storage_arcs-Runs sharding in_sync their arc_set = use_snapshot-Runs _ _ _
  update_storage_arcs-Runs sharding (new_snapshot x) their arc_set = use_snapshot-Runs _ _ _
  update_storage_arcs-Runs sharding (new_snapshot_and_hash_list x l) their arc_set =
      use_snapshot-Runs _ _ _
  update_storage_arcs-Runs sharding (hash_list l) their arc_set = use_snapshot-Runs _ _ _
