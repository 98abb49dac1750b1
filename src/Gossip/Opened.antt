-- ===== src/Gossip/Opened.antt =====
-- The accepted rounds when a round begins (crates/gossip/src/respond/initiate.rs, gossip.rs).
use kitsune.Prelude.{
  ℕ, Bool, true, false, Option, none, some, List, Bool-cases, ◌==◌, ltb, ◌≡◌, inl, inr, refl,
}
use kitsune.Prelude.Outcome.{ok}
use kitsune.Prelude.Maps.{get, is_some}
use kitsune.ArcSet.{ArcSet, covered_sector_count}
use kitsune.OpStore.{OpStore}
use kitsune.Gossip.{
  Url, AgentId, RoundStage, initiated, accepted, no_diff, disc_sectors_diff,
  disc_sector_details_diff, ring_sector_details_diff, GossipRoundState, K2GossipConfig, K2Gossip,
}
use kitsune.Gossip.Wire.{to_minimal, SnapshotMinimalMessage}
use kitsune.Dht.{snapshot_minimal}
use kitsune.Gossip.Protocol
use kitsune.Gossip.Protocol.{GossipMessage, K2GossipInitiateMessage}
use kitsune.Gossip.Initiate.{
  change_accepted, spend, is_busy, tie_at, tie_with, break_tie, insert_accepted, check_burst,
  check_peer_initiate_rate, create_accept_state, common_snapshot, accept_round, record_op_count,
  respond_to_initiate, open_round, initiate_gossip,
}
use kitsune.Gossip.Limits.{
  IsGossip, burst-IsGossip, initiated-IsGossip, change_accepted-IsGossip, accepted-IsGossip,
}
use kitsune.Gossip.Quiet.{
  filter_known_agents-Runs, local_agent_state-Runs, retrieve_new_op_ids-Runs,
  get_request_new_since-Runs, record_op_count-Runs,
}
use kitsune.Gossip.Host.{Host, Action, pure, lift, reads, modify, ◌>>=◌, ◌>>◌}
use kitsune.Gossip.Runs.{
  Runs, Runs-pure, Runs-lift, Runs-call, Runs-draw, Runs-reads, Runs-state, Runs-modify, Runs-bind,
  Runs-then, Runs-bind_weak, Runs-test, Runs-implied, Runs-option, Runs-bool, quiet_rules,
}

module _ (store : OpStore) (host : Host) (config : K2GossipConfig) where
  abbrev Valid : K2Gossip → Type 0
  Valid g = IsGossip config g

  -- There is room for one more round.
  abbrev HasRoom : K2Gossip → Type 0
  HasRoom g = IsGossip config g × (is_busy config g ≡ false)

  tie_at-IsGossip :
      (m : K2GossipInitiateMessage) (stage : RoundStage) (g : K2Gossip)
      → IsGossip config g
      → IsGossip config (tie_at m stage g).1
  unfolding tie_at
  tie_at-IsGossip m (initiated a s t) g h = elim (Bool-cases (ltb m.tie_breaker t)) [
    | inl e ↦ rw e h
    | inr e ↦ rw e (initiated-IsGossip config g none h)
  ]
  tie_at-IsGossip m (accepted a s) g h = h
  tie_at-IsGossip m no_diff g h = h
  tie_at-IsGossip m (disc_sectors_diff s) g h = h
  tie_at-IsGossip m (disc_sector_details_diff s x) g h = h
  tie_at-IsGossip m (ring_sector_details_diff s x) g h = h

  tie_with-IsGossip :
      (url : Url) (m : K2GossipInitiateMessage) (o : Option GossipRoundState) (g : K2Gossip)
      → IsGossip config g
      → IsGossip config (tie_with url m o g).1
  unfolding tie_with
  tie_with-IsGossip url m none g h = h
  tie_with-IsGossip url m (some round) g h = elim (Bool-cases (round.session_with_peer == url)) [
    | inl e ↦ rw e (tie_at-IsGossip m round.stage g h)
    | inr e ↦ rw e h
  ]

  check_peer_initiate_rate-Keeps :
      (url : Url) (m : K2GossipInitiateMessage)
      → Runs Valid Valid (check_peer_initiate_rate store host config url m)
  unfolding check_peer_initiate_rate check_burst break_tie
  check_peer_initiate_rate-Keeps url m =
      Runs-bind _ _ (Runs-state _ λ g h. tie_with-IsGossip url m g.initiated_round_state g h)
        λ decided.
          Runs-option decided _ _
            (Runs-then _ _
              (Runs-bind _ _ (Runs-draw _) λ t.
                Runs-bind _ _ (Runs-draw _) λ now. Runs-state _ λ g h. burst-IsGossip config g _ h)
              (Runs-pure _))
            λ b. Runs-pure _

  insert_accepted-Runs :
      (url : Url) (m : K2GossipInitiateMessage) (l : List AgentId) (arcs : ArcSet) (b : Bool)
      → Runs
          (λ g. HasRoom g × (is_some (get url g.accepted_round_states) ≡ b))
          Valid
          (insert_accepted store host config url m l arcs b)
  unfolding insert_accepted
  insert_accepted-Runs url m l arcs true = Runs-implied (λ g h. h.0.0) (Runs-lift _)
  insert_accepted-Runs url m l arcs false =
      Runs-bind_weak _ _ (Runs-draw _)
        (λ now. Runs-modify _ λ g h. accepted-IsGossip config url _ g refl h.0.1 h.1 h.0.0)
        (λ g h. h.0.0)

  -- Where there is room, an accepted round more is no round too many.
  create_accept_state-Runs :
      (url : Url) (m : K2GossipInitiateMessage) (l : List AgentId) (arcs : ArcSet)
      → Runs HasRoom Valid (create_accept_state store host config url m l arcs)
  unfolding create_accept_state
  create_accept_state-Runs url m l arcs =
      Runs-test (λ g. is_some (get url g.accepted_round_states)) _
        (insert_accepted-Runs url m l arcs)

  common_snapshot-Runs : (arcs : ArcSet) → Runs Valid Valid (common_snapshot store host config arcs)
  unfolding common_snapshot
  common_snapshot-Runs arcs = chosen (ltb 0 (covered_sector_count arcs))
    where
      chosen :
          (b : Bool)
          → Runs Valid Valid (elim b as (λ x. Action store host (Option SnapshotMinimalMessage)) [
            | false ↦ pure none
            | true ↦ do
              snapshot ← reads (λ w. snapshot_minimal store w.dht arcs w.ops)
              message ← lift (to_minimal snapshot)
              pure (some message)
          ])
      chosen false = search quiet_rules
      chosen true = search quiet_rules depth 12

  spent :
      (url : Url) (n : ℕ)
      → Runs {store = store} {host = host} Valid Valid (modify (change_accepted url (spend n)))
  spent url n = Runs-modify _ (λ g. change_accepted-IsGossip config url (spend n) g (λ r. refl))

  roomy :
      {A B : Type 0} (a : Action store host A) {f : A → Action store host B}
      → Runs HasRoom HasRoom a
      → ((x : A) → Runs HasRoom Valid (f x))
      → Runs HasRoom Valid (a >>= f)
  roomy a h k = Runs-bind_weak a _ h k (λ g p. p.0)

  accept_round-Runs :
      (url : Url) (m : K2GossipInitiateMessage)
      → Runs HasRoom Valid (accept_round store host config url m)
  unfolding accept_round ◌>>◌
  accept_round-Runs url m = roomy _ (Runs-draw _) λ now. roomy _ (Runs-call _) λ u.
      roomy _ (Runs-lift _) λ theirs. roomy _ (local_agent_state-Runs store host) λ ours.
        Runs-bind_weak _ _ (create_accept_state-Runs url m _ _)
          (λ x.
            search
              (
                quiet_rules, spent, common_snapshot-Runs, filter_known_agents-Runs,
                get_request_new_since-Runs, retrieve_new_op_ids-Runs,
              )
              depth 16)
          (λ g h. h)

  record_op_count-Keeps :
      (url : Url) (o : Option ℕ) → Runs Valid Valid (record_op_count store host config url o)
  record_op_count-Keeps url o = record_op_count-Runs store host config url o

  pub respond_to_initiate-Keeps :
      (url : Url) (m : K2GossipInitiateMessage)
      → Runs Valid Valid (respond_to_initiate store host config url m)
  unfolding respond_to_initiate ◌>>◌
  respond_to_initiate-Keeps url m = Runs-bind _ _ (check_peer_initiate_rate-Keeps url m) allowed
    where
      admitted :
          (b : Bool)
          → Runs
              (λ g. Valid g × (is_busy config g ≡ b))
              Valid
              (elim b as (λ x. Action store host (Option GossipMessage)) [
                | true ↦ pure (some (Protocol.busy (record { session_id = m.session_id })))
                | false ↦ accept_round store host config url m
              ])
      admitted true = Runs-implied (λ g h. h.0) (Runs-pure _)
      admitted false = accept_round-Runs url m

      allowed :
          (b : Bool)
          → Runs Valid Valid (elim b as (λ x. Action store host (Option GossipMessage)) [
            | false ↦ pure none
            | true ↦ do
              record_op_count store host config url m.dht_op_count
              is_full ← reads (λ w. ok (is_busy config w.gossip))
              elim is_full [
                | true ↦ pure (some (Protocol.busy (record { session_id = m.session_id })))
                | false ↦ accept_round store host config url m
              ]
          ])
      allowed false = Runs-pure _
      allowed true =
          Runs-bind _ _ (record_op_count-Keeps url m.dht_op_count)
            λ u. Runs-test (is_busy config) _ admitted

  opened :
      (o : GossipRoundState)
      → Runs {store = store} {host = host} Valid Valid
          (modify (λ g. record g { initiated_round_state = some o }))
  opened o = Runs-modify _ λ g h. initiated-IsGossip config g (some o) h

  open_round-Keeps : (url : Url) → Runs Valid Valid (open_round store host config url)
  unfolding open_round
  open_round-Keeps url = Runs-bind _ _ (local_agent_state-Runs store host) λ ours.
      Runs-bind _ _ (get_request_new_since-Runs store host url) λ since.
        Runs-bind _ _ (Runs-draw _) λ id. Runs-bind _ _ (Runs-draw _) λ started.
          Runs-bind _ _ (Runs-draw _) λ random. Runs-bind _ _ (Runs-reads _) λ count.
            Runs-bind _ _ (Runs-lift _) λ value. Runs-bind _ _ (Runs-reads _) λ taken.
              Runs-bool taken _ _ (Runs-pure _) (
                Runs-bind _ _ (Runs-draw _) λ now.
                  Runs-then _ _ (Runs-call _)
                    (Runs-then _ _ (Runs-call _) (Runs-then _ _ (opened _) (Runs-pure _))))

  pub initiate_gossip-Keeps : (url : Url) → Runs Valid Valid (initiate_gossip store host config url)
  unfolding initiate_gossip
  initiate_gossip-Keeps url =
      Runs-bind _ _ (Runs-reads _)
        λ underway. Runs-bool underway _ _ (Runs-pure _) (open_round-Keeps url)
