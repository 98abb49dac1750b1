-- ===== src/Gossip/Kept/Close.antt =====
-- The accepted rounds under the last messages of a round (crates/gossip/src/respond).
use kitsune.Prelude.{
  Bool, true, false, Option, none, some, List, [], ◌∷◌, if◌then◌else◌, Bool-cases, inl, inr,
}
use kitsune.Prelude.Outcome.{Outcome, ok}
use kitsune.Combine.{Bytes}
use kitsune.OpStore.{OpStore}
use kitsune.Snapshot.{same_bytes}
use kitsune.Gossip.{Url, K2GossipConfig, K2Gossip}
use kitsune.Gossip.Protocol
use kitsune.Gossip.Protocol.{
  GossipMessage, AcceptResponseMessage, K2GossipAcceptMessage, K2GossipNoDiffMessage,
  K2GossipDiscSectorsDiffMessage, K2GossipDiscSectorDetailsDiffMessage,
  K2GossipDiscSectorDetailsDiffResponseMessage, K2GossipRingSectorDetailsDiffMessage,
  K2GossipRingSectorDetailsDiffResponseMessage, K2GossipHashesMessage, K2GossipAgentsMessage,
  K2GossipBusyMessage, K2GossipTerminateMessage,
}
use kitsune.Gossip.Peers.{encode_agent_infos}
use kitsune.Gossip.Rounds.{take_initiated, remove_accepted, terminated}
use kitsune.Gossip.Close.{
  initiated_with, accepted_from, end_initiated, end_accepted, terminate_initiated,
  terminate_accepted, respond_to_busy, respond_to_no_diff, respond_to_hashes, respond_to_agents,
  respond_to_terminate,
}
use kitsune.Gossip.Limits.{IsGossip, take_initiated-IsGossip, remove_accepted-IsGossip}
use kitsune.Gossip.Quiet.{
  receive_agent_infos-Runs, encode_agent_infos-Runs, handle_accept_response-Runs,
}
use kitsune.Gossip.Host.{Host, Action, pure, state, ◌>>=◌}
use kitsune.Gossip.Runs.{
  Runs-pure, Runs-lift, Runs-reads, Runs-state, Runs-bind, Runs-then, Runs-option, Runs-bool,
  quiet_rules,
}
use kitsune.Gossip.Kept.{Keeps, removed, changes}

module _ (store : OpStore) (host : Host) (config : K2GossipConfig) where
  pub respond_to_busy-Keeps :
      (url : Url) (m : K2GossipBusyMessage) → Keeps config (respond_to_busy store host url m)
  unfolding respond_to_busy
  respond_to_busy-Keeps url m = search changes depth 12

  pub respond_to_agents-Keeps :
      (url : Url) (m : K2GossipAgentsMessage) → Keeps config (respond_to_agents store host url m)
  unfolding respond_to_agents
  respond_to_agents-Keeps url m = search (changes, receive_agent_infos-Runs) depth 12

  ended :
      (o : Option Bytes) (id : Bytes) (g g' : K2Gossip)
      → IsGossip config g
      → IsGossip config g'
      → IsGossip config
          (elim o as (λ x. Outcome Bool × K2Gossip) [
            | none ↦ (ok false, g)
            | some i ↦ if same_bytes i id then (ok true, g') else (ok false, g)
          ]).1
  ended none id g g' h h' = h
  ended (some i) id g g' h h' = elim (Bool-cases (same_bytes i id)) [
    | inl e ↦ rw e h'
    | inr e ↦ rw e h
  ]

  stopped :
      (o : Option Bytes) (r : Bytes → Outcome Bool) (g g' : K2Gossip)
      → IsGossip config g
      → IsGossip config g'
      → IsGossip config
          (elim o as (λ x. Outcome Bool × K2Gossip) [ none ↦ (ok false, g) | some i ↦ (r i, g') ]).1
  stopped none r g g' h h' = h
  stopped (some i) r g g' h h' = h'

  end_initiated-Keeps :
      (url : Url) (id : Bytes)
      → Keeps {store = store} {host = host} config (state (end_initiated url id))
  unfolding end_initiated
  end_initiated-Keeps url id = Runs-state _ λ g h.
      ended (initiated_with url g) id g (take_initiated g) h (take_initiated-IsGossip config g h)

  end_accepted-Keeps :
      (url : Url) (id : Bytes)
      → Keeps {store = store} {host = host} config (state (end_accepted url id))
  unfolding end_accepted
  end_accepted-Keeps url id = Runs-state _ λ g h.
      ended (accepted_from url g) id g (remove_accepted url g) h
        (remove_accepted-IsGossip config url g h)

  terminate_initiated-Keeps :
      (url : Url) (id : Bytes)
      → Keeps {store = store} {host = host} config (state (terminate_initiated url id))
  unfolding terminate_initiated
  terminate_initiated-Keeps url id = Runs-state _ λ g h.
      stopped (initiated_with url g) _ g (take_initiated g) h (take_initiated-IsGossip config g h)

  terminate_accepted-Keeps :
      (url : Url) (id : Bytes)
      → Keeps {store = store} {host = host} config (state (terminate_accepted url id))
  unfolding terminate_accepted
  terminate_accepted-Keeps url id = Runs-state _ λ g h.
      stopped (accepted_from url g) _ g (remove_accepted url g) h
        (remove_accepted-IsGossip config url g h)

  pub respond_to_hashes-Keeps :
      (url : Url) (m : K2GossipHashesMessage) → Keeps config (respond_to_hashes store host url m)
  unfolding respond_to_hashes
  respond_to_hashes-Keeps url m = Runs-bind _ _ (end_initiated-Keeps url m.session_id) λ b.
      Runs-bool b _ _ (search changes) (
        Runs-bind _ _ (end_accepted-Keeps url m.session_id)
          λ c. Runs-bool c _ _ (search changes) (Runs-lift _))

  pub respond_to_terminate-Keeps :
      (url : Url) (m : K2GossipTerminateMessage)
      → Keeps config (respond_to_terminate store host url m)
  unfolding respond_to_terminate
  respond_to_terminate-Keeps url m = Runs-bind _ _ (terminate_initiated-Keeps url m.session_id) λ b.
      Runs-bind _ _ (Runs-bool b _ _ (Runs-pure _) (terminate_accepted-Keeps url m.session_id))
        λ c. Runs-bool c _ _ (search changes) (Runs-lift _)

  told :
      (id : Bytes) (infos : List host.AgentInfo)
      → Keeps config (elim infos as (λ x. Action store host (Option GossipMessage)) [
        | [] ↦ pure (terminated id "No agents requested")
        | info ∷ rest ↦ do
          provided ← encode_agent_infos store host (info ∷ rest)
          pure (some (Protocol.agents (record { session_id = id; provided_agents = provided })))
      ])
  told id [] = Runs-pure _
  told id (info ∷ rest) = search (quiet_rules, encode_agent_infos-Runs)

  pub respond_to_no_diff-Keeps :
      (url : Url) (m : K2GossipNoDiffMessage) → Keeps config (respond_to_no_diff store host url m)
  unfolding respond_to_no_diff
  respond_to_no_diff-Keeps url m = Runs-then _ _ (Runs-reads _) (
      Runs-then _ _ (removed config url) (
        Runs-bind _ _ (Runs-lift _) λ response.
          Runs-bind _ _ (handle_accept_response-Runs store host url response)
            λ sent. Runs-option sent _ _ (Runs-pure _) (told m.session_id)))
