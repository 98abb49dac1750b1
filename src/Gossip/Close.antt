-- ===== src/Gossip/Close.antt =====
-- The messages that end a round: busy, no diff, hashes, agents and terminate
-- (crates/gossip/src/respond).
use kitsune.Prelude.{Bool, true, false, Option, none, some, [], ◌∷◌, ◌==◌, if◌then◌else◌}
use kitsune.Prelude.Outcome.{Outcome, peer_behavior, ok, err, panic}
use kitsune.Prelude.Maps.{get}
use kitsune.Combine.{Bytes}
use kitsune.OpStore.{OpStore}
use kitsune.Snapshot.{same_bytes}
use kitsune.Gossip.{Url, K2Gossip}
use kitsune.Gossip.Protocol.{
  GossipMessage, agents, K2GossipBusyMessage, K2GossipNoDiffMessage, K2GossipHashesMessage,
  K2GossipAgentsMessage, K2GossipTerminateMessage,
}
use kitsune.Gossip.Validate.{validate_busy, validate_no_diff, validate_agents}
use kitsune.Gossip.Rounds.{take_initiated, remove_accepted, on_initiated, on_accepted, terminated}
use kitsune.Gossip.Peers.{handle_accept_response, receive_agent_infos, encode_agent_infos}
use kitsune.Gossip.Host.{Host, Action, pure, lift, call, draw, reads, state, modify, ◌>>=◌, ◌>>◌}

-- The session of the initiated round, if it is with the peer.
unfoldable pub initiated_with : Url → K2Gossip → Option Bytes
initiated_with from_peer g = elim g.initiated_round_state [
  | none ↦ none
  | some round ↦ if round.session_with_peer == from_peer then some round.session_id else none
]

unfoldable pub accepted_from : Url → K2Gossip → Option Bytes
accepted_from from_peer g = elim (get from_peer g.accepted_round_states) [
  | none ↦ none
  | some round ↦ some round.session_id
]

-- The initiated round ends where it is the session in question.
unfoldable pub end_initiated : Url → Bytes → K2Gossip → Outcome Bool × K2Gossip
end_initiated from_peer session_id g = elim (initiated_with from_peer g) [
  | none ↦ (ok false, g)
  | some id ↦ if same_bytes id session_id then (ok true, take_initiated g) else (ok false, g)
]

unfoldable pub end_accepted : Url → Bytes → K2Gossip → Outcome Bool × K2Gossip
end_accepted from_peer session_id g = elim (accepted_from from_peer g) [
  | none ↦ (ok false, g)
  | some id ↦
      if same_bytes id session_id then (ok true, remove_accepted from_peer g) else (ok false, g)
]

-- Whether a termination concerned the initiated round, which ends also where the session is another.
unfoldable pub terminate_initiated : Url → Bytes → K2Gossip → Outcome Bool × K2Gossip
terminate_initiated from_peer session_id g = elim (initiated_with from_peer g) [
  | none ↦ (ok false, g)
  | some id ↦ (
    if same_bytes id session_id
        then ok true
        else err (peer_behavior "Unsolicited terminate message"),
    take_initiated g,
  )
]

unfoldable pub terminate_accepted : Url → Bytes → K2Gossip → Outcome Bool × K2Gossip
terminate_accepted from_peer session_id g = elim (accepted_from from_peer g) [
  | none ↦ (ok false, g)
  | some id ↦ (
    if same_bytes id session_id
        then ok true
        else err (peer_behavior "Unsolicited terminate message"),
    remove_accepted from_peer g,
  )
]

module _ (store : OpStore) (host : Host) where
  unfoldable pub respond_to_busy :
      Url → K2GossipBusyMessage → Action store host (Option GossipMessage)
  respond_to_busy from_peer busy = do
    reads (λ w. on_initiated (λ round. validate_busy round from_peer busy) w.gossip)
    modify take_initiated
    call (host.incr_peer_busy from_peer)
    now ← draw host.now
    call (host.set_last_gossip_timestamp from_peer now)
    pure none

  -- `unwrap()`
  abbrev pub unwrap {ℓ} : {A : Type ℓ} → Option A → Outcome A
  unwrap none = panic
  unwrap (some a) = ok a

  unfoldable pub respond_to_no_diff :
      Url → K2GossipNoDiffMessage → Action store host (Option GossipMessage)
  respond_to_no_diff from_peer no_diff = do
    reads (λ w. on_accepted from_peer (λ round. validate_no_diff round from_peer no_diff) w.gossip)
    modify (remove_accepted from_peer)
    accept_response ← lift (unwrap no_diff.accept_response)
    send_agents ← handle_accept_response store host from_peer accept_response
    elim send_agents [
      | none ↦ pure (terminated no_diff.session_id "No agents requested")
      | some infos ↦ elim infos [
        | [] ↦ pure (terminated no_diff.session_id "No agents requested")
        | info ∷ rest ↦ do
          provided ← encode_agent_infos store host (info ∷ rest)
          pure (
              some
                (agents (record { session_id = no_diff.session_id; provided_agents = provided })))
      ]
    ]

  unfoldable pub respond_to_hashes :
      Url → K2GossipHashesMessage → Action store host (Option GossipMessage)
  respond_to_hashes from_peer hashes = do
    as_initiator ← state (end_initiated from_peer hashes.session_id)
    elim as_initiator [
      | true ↦ do call (host.request_ops hashes.missing_ids from_peer); pure none
      | false ↦ do
        as_acceptor ← state (end_accepted from_peer hashes.session_id)
        elim as_acceptor [
          | true ↦ do call (host.request_ops hashes.missing_ids from_peer); pure none
          | false ↦ lift (err (peer_behavior "Unsolicited Hashes message"))
        ]
    ]

  unfoldable pub respond_to_agents :
      Url → K2GossipAgentsMessage → Action store host (Option GossipMessage)
  respond_to_agents from_peer message = do
    reads (λ w. on_initiated (λ round. validate_agents round from_peer message) w.gossip)
    modify take_initiated
    receive_agent_infos store host message.provided_agents
    pure none

  unfoldable pub respond_to_terminate :
      Url → K2GossipTerminateMessage → Action store host (Option GossipMessage)
  respond_to_terminate from_peer terminate = do
    ended_initiated ← state (terminate_initiated from_peer terminate.session_id)
    ended ← elim ended_initiated [
      | true ↦ pure true
      | false ↦ state (terminate_accepted from_peer terminate.session_id)
    ]
    elim ended [
      | false ↦ lift (err (peer_behavior "Unsolicited termination message"))
      | true ↦ do call (host.incr_peer_terminated from_peer); pure none
    ]
