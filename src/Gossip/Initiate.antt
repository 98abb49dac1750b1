-- ===== src/Gossip/Initiate.antt =====
-- How a round begins: `initiate_gossip` (crates/gossip/src/gossip.rs), and the answer to an initiate
-- message (crates/gossip/src/respond/initiate.rs, with the helpers of respond.rs).
use kitsune.Prelude.{
  ℕ, ◌+◌, min, Bool, true, false, not, ◌&&◌, Option, none, some, List, length, leb, ltb, ◌==◌,
  if◌then◌else◌,
}
use kitsune.Prelude.Outcome.{Outcome, other, peer_behavior, ok, err}
use kitsune.Prelude.Words.{sub32, u32_max}
use kitsune.Prelude.Maps.{get, put, is_some}
use kitsune.ArcSet
use kitsune.ArcSet.{ArcSet, encode, decode, as_arcs, covered_sector_count}
use kitsune.OpStore.{OpStore}
use kitsune.Dht.{snapshot_minimal}
use kitsune.Gossip.{
  Url, AgentId, RoundStage, initiated, accepted, GossipRoundState, K2GossipConfig, K2Gossip,
}
use kitsune.Gossip.Wire.{to_minimal, SnapshotMinimalMessage}
use kitsune.Gossip.Protocol.{GossipMessage, initiate, accept, busy, K2GossipInitiateMessage}
use kitsune.Gossip.Burst.{check_accept}
use kitsune.Gossip.Peers.{
  filter_known_agents, local_agent_state, retrieve_new_op_ids, get_request_new_since,
}
use kitsune.Gossip.Host.{Host, Action, pure, lift, call, draw, reads, state, modify, ◌>>=◌, ◌>>◌}

-- The rounds that are accepted, with one of them set.
abbrev pub with_accepted : Url → GossipRoundState → K2Gossip → K2Gossip
with_accepted url round g = record g {
  accepted_round_states = put url round g.accepted_round_states;
}

-- A round changed in place, if it is there.
abbrev pub change_accepted : Url → (GossipRoundState → GossipRoundState) → K2Gossip → K2Gossip
change_accepted url f g = elim (get url g.accepted_round_states) [
  | none ↦ g
  | some round ↦ with_accepted url (f round) g
]

-- `peer_max_op_data_bytes -= used_bytes as i32`
abbrev pub spend : ℕ → GossipRoundState → GossipRoundState
spend used_bytes round = record round {
  peer_max_op_data_bytes = sub32 round.peer_max_op_data_bytes used_bytes;
}

-- Whether as many rounds are accepted as may be; 0 stands for no limit.
unfoldable pub is_busy : K2GossipConfig → K2Gossip → Bool
is_busy config g =
    not (config.max_concurrent_accepted_rounds == 0)
    && leb config.max_concurrent_accepted_rounds (length g.accepted_round_states)

abbrev pub arc_set_of : Option (List ℕ) → Outcome ArcSet
arc_set_of none = err (other "no arc set in initiate message")
arc_set_of (some value) = decode value

-- A peer that we have initiated with initiates with us: the higher tie breaker wins. Past the first
-- messages of the round that is an error of the peer.
unfoldable pub tie_at :
    K2GossipInitiateMessage → RoundStage → K2Gossip → Outcome (Option Bool) × K2Gossip
tie_at message (initiated our_agents our_arc_set tie_breaker) g =
    if ltb message.tie_breaker tie_breaker
    then (ok (some false), g)
    else (ok (some true), record g { initiated_round_state = none })
tie_at message stage g = (err (peer_behavior "Attempted to initiate during a round"), g)

unfoldable pub tie_with :
    Url
    → K2GossipInitiateMessage
    → Option GossipRoundState
    → K2Gossip
    → Outcome (Option Bool) × K2Gossip
tie_with from_peer message none g = (ok none, g)
tie_with from_peer message (some round) g =
    if round.session_with_peer == from_peer then tie_at message round.stage g else (ok none, g)

-- The part of `check_peer_initiate_rate` under the lock of the initiated round, with the answer if
-- that is where it ends.
unfoldable pub break_tie :
    Url → K2GossipInitiateMessage → K2Gossip → Outcome (Option Bool) × K2Gossip
break_tie from_peer message g = tie_with from_peer message g.initiated_round_state g

module _ (store : OpStore) (host : Host) (config : K2GossipConfig) where
  unfoldable pub check_burst : Url → Action store host (Unit {0})
  check_burst from_peer = do
    timestamp ← draw host.now
    now ← draw host.now
    state (λ g.
        let (accepts, burst) = check_accept config now from_peer timestamp g.burst in
        (
          if accepts then ok tt else err (peer_behavior "initiate too soon"),
          record g { burst = burst },
        ))

  unfoldable pub check_peer_initiate_rate : Url → K2GossipInitiateMessage → Action store host Bool
  check_peer_initiate_rate from_peer message = do
    decided ← state (break_tie from_peer message)
    elim decided [ some accepts ↦ pure accepts | none ↦ do check_burst from_peer; pure true ]

  -- The entry for a peer: it is an error if there is one already.
  unfoldable pub insert_accepted :
      Url → K2GossipInitiateMessage → List AgentId → ArcSet → Bool → Action store host (Unit {0})
  insert_accepted from_peer message our_agents common_arc_set true =
      lift (err (other "peer already accepted"))
  insert_accepted from_peer message our_agents common_arc_set false = do
    started_at ← draw host.instant
    modify (
        with_accepted from_peer (record {
          session_with_peer = from_peer;
          started_at = started_at;
          session_id = message.session_id;
          peer_max_op_data_bytes = min config.max_request_gossip_op_bytes message.max_op_data_bytes;
          stage = accepted our_agents common_arc_set;
        }))

  unfoldable pub create_accept_state :
      Url → K2GossipInitiateMessage → List AgentId → ArcSet → Action store host (Unit {0})
  create_accept_state from_peer message our_agents common_arc_set = do
    taken ← reads (λ w. ok (is_some (get from_peer w.gossip.accepted_round_states)))
    insert_accepted from_peer message our_agents common_arc_set taken

  -- `if let Some(op_count) = ..dht_op_count`
  unfoldable pub record_op_count : Url → Option ℕ → Action store host (Unit {0})
  record_op_count from_peer none = pure tt
  record_op_count from_peer (some op_count) = call (host.set_peer_dht_op_count from_peer op_count)

  -- The minimal snapshot, if the arcs have a sector in common.
  unfoldable pub common_snapshot : ArcSet → Action store host (Option SnapshotMinimalMessage)
  common_snapshot common_arc_set = elim (ltb 0 (covered_sector_count common_arc_set)) [
    | false ↦ pure none
    | true ↦ do
      snapshot ← reads (λ w. snapshot_minimal store w.dht common_arc_set w.ops)
      message ← lift (to_minimal snapshot)
      pure (some message)
  ]

  -- Accepting a round, from the time stamp on.
  unfoldable pub accept_round :
      Url → K2GossipInitiateMessage → Action store host (Option GossipMessage)
  accept_round from_peer message = do
    now ← draw host.now
    call (host.set_last_gossip_timestamp from_peer now)
    other_arc_set ← lift (arc_set_of message.arc_set)
    ours ← local_agent_state store host
    let common_arc_set = ArcSet.intersection ours.1 other_arc_set
    create_accept_state from_peer message ours.0 common_arc_set
    snapshot ← common_snapshot common_arc_set
    missing_agents ← filter_known_agents store host message.participating_agents
    new_since ← get_request_new_since store host from_peer
    new_ops ←
        retrieve_new_op_ids store host common_arc_set message.new_since message.max_op_data_bytes
    modify (change_accepted from_peer (spend new_ops.1))
    dht_op_count ← reads (λ w. ok w.dht.op_count)
    value ← lift (encode ours.1)
    pure (
        some (
          accept (record {
            session_id = message.session_id;
            participating_agents = ours.0;
            arc_set = some value;
            missing_agents = missing_agents;
            new_since = new_since;
            max_op_data_bytes = config.max_gossip_op_bytes;
            new_ops = new_ops.0;
            updated_new_since = new_ops.2;
            dht_op_count = some dht_op_count;
            snapshot = snapshot;
          })))

  unfoldable pub respond_to_initiate :
      Url → K2GossipInitiateMessage → Action store host (Option GossipMessage)
  respond_to_initiate from_peer message = do
    accepts ← check_peer_initiate_rate from_peer message
    elim accepts [
      | false ↦ pure none
      | true ↦ do
        record_op_count from_peer message.dht_op_count
        is_full ← reads (λ w. ok (is_busy config w.gossip))
        elim is_full [
          | true ↦ pure (some (busy (record { session_id = message.session_id })))
          | false ↦ accept_round from_peer message
        ]
    ]

  -- The part of `initiate_gossip` once there is no initiated round.
  unfoldable pub open_round : Url → Action store host Bool
  open_round target_peer_url = do
    ours ← local_agent_state store host
    new_since ← get_request_new_since store host target_peer_url
    session_id ← draw host.random_session_id
    started_at ← draw host.instant
    random ← draw host.random_u32
    dht_op_count ← reads (λ w. ok w.dht.op_count)
    value ← lift (encode ours.1)
    let tie_breaker = min (random + 1) u32_max
    taken ← reads (λ w. ok (is_some (get target_peer_url w.gossip.accepted_round_states)))
    elim taken [
      | true ↦ pure false
      | false ↦ do
        now ← draw host.now
        call (host.set_last_gossip_timestamp target_peer_url now)
        call (
            host.send_gossip_message
              (initiate (record {
                session_id = session_id;
                participating_agents = ours.0;
                arc_set = some value;
                tie_breaker = tie_breaker;
                new_since = new_since;
                max_op_data_bytes = config.max_gossip_op_bytes;
                dht_op_count = some dht_op_count;
              }))
              target_peer_url)
        modify (λ g. record g {
          initiated_round_state = some (record {
            session_with_peer = target_peer_url;
            started_at = started_at;
            session_id = session_id;
            peer_max_op_data_bytes = 0;
            stage = initiated ours.0 ours.1 tie_breaker;
          });
        })
        pure true
    ]

  unfoldable pub initiate_gossip : Url → Action store host Bool
  initiate_gossip target_peer_url = do
    underway ← reads (λ w. ok (is_some w.gossip.initiated_round_state))
    elim underway [ true ↦ pure false | false ↦ open_round target_peer_url ]
