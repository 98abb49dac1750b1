-- ===== src/Gossip/Ties.antt =====
-- Two peers that initiate with each other at the same time
-- (`check_peer_initiate_rate` of crates/gossip/src/respond/initiate.rs).
use kitsune.Prelude.{
  ℕ, true, false, ltb, some, none, List, ◌==◌, ==_iff, Bool-cases, if◌then◌else◌, ◌≡◌, ◌≢◌, ◌⊎◌,
  inl, inr, refl, arith,
}
use kitsune.Prelude.Outcome.{ok}
use kitsune.ArcSet.{ArcSet}
use kitsune.Gossip.{Url, AgentId, initiated, GossipRoundState, K2Gossip}
use kitsune.Gossip.Protocol.{K2GossipInitiateMessage}
use kitsune.Gossip.Initiate.{tie_at, tie_with, break_tie}

-- A round with the peer that is at its first message, with the tie breaker.
pub record HasInitiated (peer : Url) (tie_breaker : ℕ) (g : K2Gossip) : Type 0 where
  pub round : GossipRoundState
  pub our_agents : List AgentId
  pub our_arc_set : ArcSet
  pub underway : g.initiated_round_state ≡ some round
  pub with_peer : round.session_with_peer ≡ peer
  pub at_first : round.stage ≡ initiated our_agents our_arc_set tie_breaker

-- The initiate message of the peer is dropped, and our round goes on.
abbrev pub Wins : Url → K2GossipInitiateMessage → K2Gossip → Type 0
Wins peer message g = break_tie peer message g ≡ (ok (some false), g)

-- Our round ends, and the initiate message of the peer is to be answered.
abbrev pub Yields : Url → K2GossipInitiateMessage → K2Gossip → Type 0
Yields peer message g =
    break_tie peer message g ≡ (ok (some true), record g { initiated_round_state = none })

decided :
    (peer : Url) (message : K2GossipInitiateMessage) (t : ℕ) (g : K2Gossip)
    → HasInitiated peer t g
    → break_tie peer message g ≡ (
        if ltb message.tie_breaker t
        then (ok (some false), g)
        else (ok (some true), record g { initiated_round_state = none }))
unfolding break_tie tie_with tie_at
decided peer message t g h =
    let e : (h.round.session_with_peer == peer) ≡ true = (==_iff _ _).1 h.with_peer in
    rw (h.underway, e, h.at_first) refl

-- Where two instances have initiated with each other and each receives the message of the other: if the
-- tie breakers differ, then exactly one of them drops the message and keeps its round as it was, and
-- the other ends its own round and goes on to answer.
pub tie_broken :
    (a b : Url) (from_a from_b : K2GossipInitiateMessage) (ga gb : K2Gossip)
    → HasInitiated b from_a.tie_breaker ga
    → HasInitiated a from_b.tie_breaker gb
    → from_a.tie_breaker ≢ from_b.tie_breaker
    → (Wins b from_b ga × Yields a from_a gb) ⊎ (Yields b from_b ga × Wins a from_a gb)
tie_broken a b from_a from_b ga gb ha hb d =
    let x = decided b from_b from_a.tie_breaker ga ha in
    let y = decided a from_a from_b.tie_breaker gb hb in
    elim (Bool-cases (ltb from_b.tie_breaker from_a.tie_breaker)) [
      | inl e ↦
          let f : ltb from_a.tie_breaker from_b.tie_breaker ≡ false = ground arith in
          inl (rw (e) at x, rw (f) at y)
      | inr e ↦
          let f : ltb from_a.tie_breaker from_b.tie_breaker ≡ true = ground arith in
          inr (rw (e) at x, rw (f) at y)
    ]
