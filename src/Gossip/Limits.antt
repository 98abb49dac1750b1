-- ===== src/Gossip/Limits.antt =====
-- The rounds that a gossip instance has accepted: whose they are, and how many.
use kitsune.Prelude.{
  ◌≤◌, false, Option, none, some, List, length, ◌==◌, ==_iff, Bool-cases, ◌≡◌, ◌≢◌, inl, inr, refl,
  ap, sym, ◌∙◌, arith,
}
use kitsune.Prelude.Maps.{Map, get, put, is_some, IsMap, get-put, put-IsMap}
use kitsune.Prelude.Maps.Sizes.{
  length-put_new, length-put_old, length-remove, get-remove, remove-IsMap,
}
use kitsune.Timestamp.{Timestamp}
use kitsune.Gossip.{Url, GossipRoundState, K2GossipConfig, K2Gossip}
use kitsune.Gossip.Initiate.{with_accepted, change_accepted, is_busy}
use kitsune.Gossip.Rounds.{take_initiated, remove_accepted, change_initiated}

-- No peer has two accepted rounds, there are no more than the configuration allows, and each is kept
-- under the peer that it is with.
pub record IsGossip (config : K2GossipConfig) (g : K2Gossip) : Type 0 where
  pub distinct : IsMap g.accepted_round_states
  pub limited :
      config.max_concurrent_accepted_rounds ≢ 0
      → length g.accepted_round_states ≤ config.max_concurrent_accepted_rounds
  pub routed :
      (url : Url) (round : GossipRoundState)
      → get url g.accepted_round_states ≡ some round
      → round.session_with_peer ≡ url

module _ (config : K2GossipConfig) where
  -- What does not change the accepted rounds.
  same_accepted :
      (g g' : K2Gossip)
      → g'.accepted_round_states ≡ g.accepted_round_states
      → IsGossip config g
      → IsGossip config g'
  same_accepted g g' e h = record {
    distinct = rw e h.distinct;
    limited = λ n. rw e (h.limited n);
    routed = λ url round q. h.routed url round (sym (ap (get url) e) ∙ q);
  }

  pub take_initiated-IsGossip :
      (g : K2Gossip) → IsGossip config g → IsGossip config (take_initiated g)
  take_initiated-IsGossip g = same_accepted g (take_initiated g) refl

  pub change_initiated-IsGossip :
      (f : GossipRoundState → GossipRoundState) (g : K2Gossip)
      → IsGossip config g
      → IsGossip config (change_initiated f g)
  change_initiated-IsGossip f g h =
      same_accepted g (change_initiated f g) (unchanged g.initiated_round_state) h
    where
      unchanged :
          (o : Option GossipRoundState)
          → (elim o as (λ x. K2Gossip) [
            | none ↦ g
            | some round ↦ record g { initiated_round_state = some (f round) }
          ]).accepted_round_states
            ≡ g.accepted_round_states
      unchanged none = refl
      unchanged (some round) = refl

  pub burst-IsGossip :
      (g : K2Gossip) (burst : Map (List Timestamp))
      → IsGossip config g
      → IsGossip config (record g { burst = burst })
  burst-IsGossip g burst = same_accepted g (record g { burst = burst }) refl

  pub initiated-IsGossip :
      (g : K2Gossip) (o : Option GossipRoundState)
      → IsGossip config g
      → IsGossip config (record g { initiated_round_state = o })
  initiated-IsGossip g o = same_accepted g (record g { initiated_round_state = o }) refl

  pub remove_accepted-IsGossip :
      (url : Url) (g : K2Gossip) → IsGossip config g → IsGossip config (remove_accepted url g)
  remove_accepted-IsGossip url g h = record {
    distinct = remove-IsMap url g.accepted_round_states h.distinct;
    limited = λ n.
        (let a = h.limited n in
          let b = length-remove url g.accepted_round_states in omega (arith, a, b));
    routed = λ u round q. elim (Bool-cases (url == u)) [
      | inl e ↦
          absurd (let p = get-remove u url g.accepted_round_states in let z = rw (e) at p in cc)
      | inr e ↦
          (let p = get-remove u url g.accepted_round_states in
            let z = rw (e) at p in h.routed u round (sym z ∙ q))
    ];
  }

  -- One round under the peer that it is with, where there is room for it.
  with_accepted-IsGossip :
      (url : Url) (round : GossipRoundState) (g : K2Gossip)
      → round.session_with_peer ≡ url
      → (config.max_concurrent_accepted_rounds ≢ 0
          → length (put url round g.accepted_round_states) ≤ config.max_concurrent_accepted_rounds)
      → IsGossip config g
      → IsGossip config (with_accepted url round g)
  with_accepted-IsGossip url round g s l h = record {
    distinct = put-IsMap url round g.accepted_round_states h.distinct;
    limited = l;
    routed = λ u round' q. elim (Bool-cases (url == u)) [
      | inl e ↦
          (let p = get-put u url round g.accepted_round_states in
            let z = rw (e) at p in
            let y : some round ≡ some round' = sym z ∙ q in
            let x : round ≡ round' = cc in
            sym (ap (λ r. r.session_with_peer) x) ∙ s ∙ (==_iff url u).0 e)
      | inr e ↦
          (let p = get-put u url round g.accepted_round_states in
            let z = rw (e) at p in h.routed u round' (sym z ∙ q))
    ];
  }

  pub change_accepted-IsGossip :
      (url : Url) (f : GossipRoundState → GossipRoundState) (g : K2Gossip)
      → ((round : GossipRoundState) → (f round).session_with_peer ≡ round.session_with_peer)
      → IsGossip config g
      → IsGossip config (change_accepted url f g)
  change_accepted-IsGossip url f g s h = changed (get url g.accepted_round_states) refl
    where
      changed :
          (o : Option GossipRoundState)
          → get url g.accepted_round_states ≡ o
          → IsGossip config
              (elim o as (λ x. K2Gossip) [ none ↦ g | some round ↦ with_accepted url (f round) g ])
      changed none e = h
      changed (some round) e =
          with_accepted-IsGossip url (f round) g (s round ∙ h.routed url round e)
            (λ n.
              (let a = h.limited n in
                let b = length-put_old url (f round) round g.accepted_round_states e in
                omega (arith, a, b)))
            h

  -- A new round, where no more are accepted than may be.
  pub accepted-IsGossip :
      (url : Url) (round : GossipRoundState) (g : K2Gossip)
      → round.session_with_peer ≡ url
      → is_busy config g ≡ false
      → is_some (get url g.accepted_round_states) ≡ false
      → IsGossip config g
      → IsGossip config (with_accepted url round g)
  unfolding is_busy
  accepted-IsGossip url round g s b n h =
      with_accepted-IsGossip url round g s
        (λ z. (let a = length-put_new url round g.accepted_round_states n in ground (arith, a))) h
