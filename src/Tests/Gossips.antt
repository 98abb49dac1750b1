-- ===== src/Tests/Gossips.antt =====
-- A gossip instance and its messages at concrete inputs (crates/gossip/src).
use kitsune.Prelude.{◌⊎◌, arith, ℕ, ◌+◌, true, none, some, List, [], ◌∷◌, ◌≡◌, refl, arith}
use kitsune.Prelude.Outcome.{ok}
use kitsune.Prelude.Maps.{Map, get, IsMap}
use kitsune.Combine.{Bytes}
use kitsune.OpStore.{OpStore}
use kitsune.Snapshot.{disc_sector_details}
use kitsune.Gossip.{GossipRoundState, K2GossipConfig, K2Gossip, accepted, initiated}
use kitsune.Gossip.Protocol
use kitsune.Gossip.Protocol.{GossipMessage, K2GossipInitiateMessage}
use kitsune.Gossip.Host.{Host, World}
use kitsune.Gossip.Initiate.{with_accepted, is_busy}
use kitsune.Gossip.Ties.{HasInitiated, Wins, Yields, tie_broken}
use kitsune.Gossip.Limits.{IsGossip, accepted-IsGossip}
use kitsune.Gossip.Bounded.{GossipEvent, initiates, receives, after, after-IsGossip}
use kitsune.Gossip.Wire.Codec.{delivered, delivered_lem}

abbrev first_sector : Map Bytes
first_sector = (0, 7 ∷ []) ∷ (2, 9 ∷ 1 ∷ []) ∷ []

abbrev details : Map (Map Bytes)
details = (3, first_sector) ∷ (5, []) ∷ []

details-IsMap : IsMap details
unfolding get
details-IsMap = (refl, (refl, tt))

first-IsMap : IsMap first_sector
unfolding get
first-IsMap = (refl, (refl, tt))

delivered_lem_example :
    delivered (disc_sector_details details 900) ≡ ok (disc_sector_details details 900)
delivered_lem_example =
    delivered_lem (disc_sector_details details 900) (details-IsMap, (first-IsMap, (tt, tt)))

-- A store without ops.
abbrev no_ops : OpStore
no_ops = record {
  State = Unit {0};
  retrieve_op_hashes_in_time_slice = λ s a start end. ok ([], 0);
  earliest_timestamp_in_arc = λ s a. ok none;
  store_slice_hash = λ s a index hash. (ok tt, s);
  slice_hash_count = λ s a. ok 0;
  retrieve_slice_hash = λ s a index. ok none;
  retrieve_slice_hashes = λ s a. ok [];
  query_total_op_count = λ s. ok 0;
}

-- A host that counts its clock up, knows no peers, and keeps the number of messages sent.
abbrev lonely : Host
lonely = record {
  State = ℕ × ℕ;
  AgentInfo = Bytes;
  encode_info = λ a. ok a;
  decode_info = λ b. ok b;
  now = λ s. (s.0, (s.0 + 1000000, s.1));
  instant = λ s. (s.0, s);
  random_session_id = λ s. (9 ∷ [], s);
  random_u32 = λ s. (40, s);
  local_agents = λ s. ok [];
  set_cur_storage_arc = λ agent a s. (ok tt, s);
  get_peer = λ s agent. ok none;
  insert_peers = λ infos s. (ok tt, s);
  request_ops = λ ids url s. (ok tt, s);
  retrieve_op_ids_bounded = λ s a t n. ok ([], 0, t);
  new_ops_bookmark = λ s url. ok none;
  set_new_ops_bookmark = λ url t s. (ok tt, s);
  set_last_gossip_timestamp = λ url t s. (ok tt, s);
  set_peer_dht_op_count = λ url n s. (ok tt, s);
  send_gossip_message = λ m url s. (ok tt, (s.0, s.1 + 1));
  incr_peer_busy = λ url s. (ok tt, s);
  incr_completed_rounds = λ url s. (ok tt, s);
  incr_peer_terminated = λ url s. (ok tt, s);
  incr_peer_timeout = λ url s. (ok tt, s);
}

abbrev one_round : K2GossipConfig
one_round = record {
  max_gossip_op_bytes = 1000;
  max_request_gossip_op_bytes = 1000;
  initiate_interval_ms = 1000;
  initiate_burst_factor = 3;
  initiate_burst_window_count = 1;
  round_timeout_ms = 1000;
  max_concurrent_accepted_rounds = 1;
}

abbrev round_with_five : GossipRoundState
round_with_five = record {
  session_with_peer = 5;
  started_at = 100;
  session_id = 1 ∷ [];
  peer_max_op_data_bytes = 1000;
  stage = accepted [] (record { inner = [] });
}

abbrev idle : K2Gossip
idle = record { initiated_round_state = none; accepted_round_states = []; burst = [] }

idle-IsGossip : IsGossip one_round idle
unfolding get
idle-IsGossip = record {
  distinct = tt;
  limited = λ n. omega (arith);
  routed = λ url round e. absurd cc;
}

abbrev one_accepted : World no_ops lonely
one_accepted = record {
  gossip = with_accepted 5 round_with_five idle;
  dht = record { partition = record { size = 8388608; sectors = [] }; op_count = 0 };
  ops = tt;
  outside = (7000000, 0);
}

abbrev begin_with : ℕ → GossipMessage
begin_with id = Protocol.initiate (record {
  session_id = id ∷ [];
  participating_agents = [];
  arc_set = some [];
  tie_breaker = 3;
  new_since = 0;
  max_op_data_bytes = 500;
  dht_op_count = some 12;
})

-- Two peers initiate, where there is room for one round; in between, the round there is ends.
abbrev busy_day : List GossipEvent
busy_day =
    receives 6 (begin_with 2)
    ∷ receives 5
        (Protocol.terminate (record { session_id = 1 ∷ []; reason = "Nothing to compare" }))
    ∷ receives 6 (begin_with 3)
    ∷ initiates 8
    ∷ receives 7 (begin_with 4)
    ∷ []

one_accepted-IsGossip : IsGossip one_round one_accepted.gossip
unfolding is_busy get
one_accepted-IsGossip =
    accepted-IsGossip one_round 5 round_with_five idle refl refl refl idle-IsGossip

after-IsGossip_example :
    IsGossip one_round (after no_ops lonely one_round true busy_day one_accepted).gossip
after-IsGossip_example =
    after-IsGossip no_ops lonely one_round true busy_day one_accepted one_accepted-IsGossip

-- Peers 5 and 6 initiate with each other, with the tie breakers 3 and 40.
abbrev begin_at : ℕ → ℕ → K2Gossip
begin_at peer tie_breaker = record {
  initiated_round_state = some (record {
    session_with_peer = peer;
    started_at = 100;
    session_id = 2 ∷ [];
    peer_max_op_data_bytes = 0;
    stage = initiated [] (record { inner = [] }) tie_breaker;
  });
  accepted_round_states = [];
  burst = [];
}

abbrev initiate_at : ℕ → K2GossipInitiateMessage
initiate_at tie_breaker = record {
  session_id = 2 ∷ [];
  participating_agents = [];
  arc_set = some [];
  tie_breaker = tie_breaker;
  new_since = 0;
  max_op_data_bytes = 500;
  dht_op_count = none;
}

begun : (peer tie_breaker : ℕ) → HasInitiated peer tie_breaker (begin_at peer tie_breaker)
begun peer tie_breaker = record {
  round = record {
    session_with_peer = peer;
    started_at = 100;
    session_id = 2 ∷ [];
    peer_max_op_data_bytes = 0;
    stage = initiated [] (record { inner = [] }) tie_breaker;
  };
  our_agents = [];
  our_arc_set = record { inner = [] };
  underway = refl;
  with_peer = refl;
  at_first = refl;
}

tie_broken_example :
    (Wins 6 (initiate_at 40) (begin_at 6 3) × Yields 5 (initiate_at 3) (begin_at 5 40))
    ⊎ (Yields 6 (initiate_at 40) (begin_at 6 3) × Wins 5 (initiate_at 3) (begin_at 5 40))
tie_broken_example =
    tie_broken 5 6 (initiate_at 3) (initiate_at 40) (begin_at 6 3) (begin_at 5 40) (begun 6 3)
      (begun 5 40) (omega arith)
