-- ===== src/Gossip/Host.antt =====
-- What a gossip instance calls: the peer stores, the fetch queue, the transport, the clock and the
-- random numbers that the host provides, and the op store query that the DHT model does not need. A
-- step of gossip works on the instance, the DHT model, the state of the op store and the state of all the rest.
use kitsune.Prelude.{ℕ, Option, List}
use kitsune.Prelude.Outcome.{Outcome, ok, err, panic}
use kitsune.Arc.{DhtArc}
use kitsune.Timestamp.{Timestamp}
use kitsune.Combine.{Bytes}
use kitsune.OpStore.{OpId, OpStore}
use kitsune.Dht.{Dht}
use kitsune.Gossip.{Url, AgentId, K2Gossip}
use kitsune.Gossip.Protocol.{GossipMessage}

pub record LocalAgent : Type 0 where
  pub agent : AgentId
  pub tgt_storage_arc : DhtArc
  pub cur_storage_arc : DhtArc

pub record Host : Type 1 where
  pub State : Type 0
  pub AgentInfo : Type 0
  pub encode_info : AgentInfo → Outcome Bytes
  -- decoding, with the check of the signature
  pub decode_info : Bytes → Outcome AgentInfo
  pub now : State → Timestamp × State
  -- milliseconds of a clock that never goes back
  pub instant : State → ℕ × State
  pub random_session_id : State → Bytes × State
  pub random_u32 : State → ℕ × State
  pub local_agents : State → Outcome (List LocalAgent)
  -- with the call of the agent's callback
  pub set_cur_storage_arc : AgentId → DhtArc → State → Outcome (Unit {0}) × State
  pub get_peer : State → AgentId → Outcome (Option AgentInfo)
  pub insert_peers : List AgentInfo → State → Outcome (Unit {0}) × State
  pub request_ops : List OpId → Url → State → Outcome (Unit {0}) × State
  pub retrieve_op_ids_bounded : State → DhtArc → Timestamp → ℕ → Outcome (List OpId × ℕ × Timestamp)
  pub new_ops_bookmark : State → Url → Outcome (Option Timestamp)
  pub set_new_ops_bookmark : Url → Timestamp → State → Outcome (Unit {0}) × State
  pub set_last_gossip_timestamp : Url → Timestamp → State → Outcome (Unit {0}) × State
  pub set_peer_dht_op_count : Url → ℕ → State → Outcome (Unit {0}) × State
  pub send_gossip_message : GossipMessage → Url → State → Outcome (Unit {0}) × State
  pub incr_peer_busy : Url → State → Outcome (Unit {0}) × State
  pub incr_completed_rounds : Url → State → Outcome (Unit {0}) × State
  pub incr_peer_terminated : Url → State → Outcome (Unit {0}) × State
  pub incr_peer_timeout : Url → State → Outcome (Unit {0}) × State

pub record World (store : OpStore) (host : Host) : Type 0 where
  pub gossip : K2Gossip
  pub dht : Dht
  pub ops : store.State
  pub outside : host.State

-- What a method does: it returns, fails or panics, and the world is what it has become by then.
abbrev pub Action : (store : OpStore) (host : Host) → Type 0 → Type 0
Action store host A = World store host → Outcome A × World store host

module _ {store : OpStore} {host : Host} {A : Type 0} where
  unfoldable pub pure : A → Action store host A
  pure a w = (ok a, w)

  unfoldable pub lift : Outcome A → Action store host A
  lift r w = (r, w)

  unfoldable pub call : (host.State → Outcome A × host.State) → Action store host A
  call f w = let (r, h) = f w.outside in (r, record w { outside = h })

  -- A call that cannot fail.
  unfoldable pub draw : (host.State → A × host.State) → Action store host A
  draw f w = let (a, h) = f w.outside in (ok a, record w { outside = h })

  unfoldable pub reads : (World store host → Outcome A) → Action store host A
  reads f w = (f w, w)

  -- An action that may change the rounds.
  unfoldable pub state : (K2Gossip → Outcome A × K2Gossip) → Action store host A
  state f w = let (r, g) = f w.gossip in (r, record w { gossip = g })

module _ {store : OpStore} {host : Host} where
  unfoldable pub modify : (K2Gossip → K2Gossip) → Action store host (Unit {0})
  unfolding state
  modify f = state (λ g. (ok tt, f g))

module _ {store : OpStore} {host : Host} {A B : Type 0} where
  -- `?`
  infixl 5 ◌>>=◌ ◌>>◌
  unfoldable pub ◌>>=◌ : Action store host A → (A → Action store host B) → Action store host B
  (m >>= f) w =
      let (r, w') = m w in elim r [ ok a ↦ f a w' | err e ↦ (err e, w') | panic ↦ (panic, w') ]

  unfoldable pub ◌>>◌ : Action store host A → Action store host B → Action store host B
  m >> n = m >>= λ _. n
