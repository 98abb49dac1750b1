-- ===== src/Gossip/Peers.antt =====
-- The helpers of crates/gossip/src/respond.rs: agents, new ops and bookmarks.
use kitsune.Prelude.{ℕ, ◌*◌, Option, none, some, List, [], ◌∷◌, ◌++◌, map, if◌then◌else◌}
use kitsune.Prelude.Outcome.{Outcome, ok, err, panic}
use kitsune.Prelude.Words.{add32, sub32}
use kitsune.Prelude.Maps.{is_some}
use kitsune.Arc.{DhtArc}
use kitsune.ArcSet
use kitsune.ArcSet.{ArcSet, as_arcs}
use kitsune.Timestamp.{Timestamp, lt_i64, sub_duration, from_secs}
use kitsune.Combine.{Bytes}
use kitsune.OpStore.{OpId, OpStore}
use kitsune.Time.{unit_secs}
use kitsune.Gossip.{Url, AgentId}
use kitsune.Gossip.Protocol.{AcceptResponseMessage}
use kitsune.Gossip.Host.{Host, Action, pure, lift, call, draw, reads, ◌>>=◌, ◌>>◌}

module _ (store : OpStore) (host : Host) where
  open host use {AgentInfo}

  -- A call that leaves the rest as it is.
  abbrev pub ask : {A : Type 0} → (host.State → Outcome A) → Action store host A
  ask f = reads (λ w. f w.outside)

  unfoldable pub filter_known_agents : List AgentId → Action store host (List AgentId)
  filter_known_agents [] = pure []
  filter_known_agents (agent ∷ agents) = do
    known ← ask (λ s. host.get_peer s agent)
    out ← filter_known_agents agents
    pure (if is_some known then out else agent ∷ out)

  -- `if let Ok(Some(agent_info)) = ..`
  abbrev pub found : Outcome (Option AgentInfo) → Outcome (List AgentInfo)
  found (ok none) = ok []
  found (ok (some info)) = ok (info ∷ [])
  found (err e) = ok []
  found panic = panic

  unfoldable pub load_agent_infos : List AgentId → Action store host (List AgentInfo)
  load_agent_infos [] = pure []
  load_agent_infos (agent ∷ requested) = do
    infos ← ask (λ s. found (host.get_peer s agent))
    rest ← load_agent_infos requested
    pure (infos ++ rest)

  unfoldable pub decode_infos : List Bytes → Action store host (List AgentInfo)
  decode_infos [] = pure []
  decode_infos (agent ∷ provided) = do
    info ← lift (host.decode_info agent)
    rest ← decode_infos provided
    pure (info ∷ rest)

  unfoldable pub receive_agent_infos : List Bytes → Action store host (Unit {0})
  receive_agent_infos [] = pure tt
  receive_agent_infos (agent ∷ provided) = do
    agents ← decode_infos (agent ∷ provided)
    call (host.insert_peers agents)

  unfoldable pub encode_agent_infos : List AgentInfo → Action store host (List Bytes)
  encode_agent_infos [] = pure []
  encode_agent_infos (info ∷ infos) = do
    a ← lift (host.encode_info info)
    rest ← encode_agent_infos infos
    pure (a ∷ rest)

  unfoldable pub local_agent_state : Action store host (List AgentId × ArcSet)
  local_agent_state = do
    local_agents ← ask host.local_agents
    our_arc_set ← lift (ArcSet.new (map (λ a. a.tgt_storage_arc) local_agents))
    pure (map (λ a. a.agent) local_agents, our_arc_set)

  unfoldable pub update_new_ops_bookmark : Url → Timestamp → Action store host (Unit {0})
  update_new_ops_bookmark from_peer updated = do
    previous ← ask (λ s. host.new_ops_bookmark s from_peer)
    elim previous [
      | none ↦ call (host.set_new_ops_bookmark from_peer updated)
      | some t ↦
          if lt_i64 updated t then pure tt else call (host.set_new_ops_bookmark from_peer updated)
    ]

  -- `for arc in common_arc_set.as_arcs()`
  unfoldable pub retrieve_each :
      List DhtArc
      → Timestamp
      → ℕ
      → List OpId
      → ℕ
      → Timestamp
      → Action store host (List OpId × ℕ × Timestamp)
  retrieve_each [] new_since max_new_bytes ids used_bytes bookmark =
      pure (ids, used_bytes, bookmark)
  retrieve_each (a ∷ arcs) new_since max_new_bytes ids used_bytes bookmark = do
    r ← ask (λ s. host.retrieve_op_ids_bounded s a new_since (sub32 max_new_bytes used_bytes))
    retrieve_each arcs new_since max_new_bytes (ids ++ r.0) (add32 used_bytes r.1)
        (if lt_i64 r.2 bookmark then r.2 else bookmark)

  unfoldable pub retrieve_new_op_ids :
      ArcSet → Timestamp → ℕ → Action store host (List OpId × ℕ × Timestamp)
  retrieve_new_op_ids common_arc_set new_since max_new_bytes = do
    now ← draw host.now
    retrieve_each (as_arcs common_arc_set) new_since max_new_bytes [] 0 now

  -- Two units of time before now, where the clock is that far from its least time.
  unfoldable pub get_request_new_since : Url → Action store host Timestamp
  get_request_new_since target_peer_url = do
    bookmark ← ask (λ s. host.new_ops_bookmark s target_peer_url)
    elim bookmark [
      | some t ↦ pure t
      | none ↦ do
        now ← draw host.now
        elim (sub_duration now (from_secs (2 * unit_secs))) [
          | some t ↦ pure t
          | none ↦ draw host.now
        ]
    ]

  -- The agents that were asked for, if any were.
  unfoldable pub handle_accept_response :
      Url → AcceptResponseMessage → Action store host (Option (List AgentInfo))
  handle_accept_response from_peer response = do
    receive_agent_infos response.provided_agents
    update_new_ops_bookmark from_peer response.updated_new_since
    call (host.request_ops response.new_ops from_peer)
    elim response.missing_agents [
      | [] ↦ pure none
      | a ∷ missing ↦ do infos ← load_agent_infos (a ∷ missing); pure (some infos)
    ]
