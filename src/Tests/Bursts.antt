-- ===== src/Tests/Bursts.antt =====
-- A burst of requests from one peer (crates/gossip/src/burst.rs).
use kitsune.Prelude.{◌+◌, ◌≤◌, List, [], ◌∷◌, ◌≡◌, refl, arith}
use kitsune.Prelude.Maps.{Map, get, select, IsMap}
use kitsune.Timestamp.{Timestamp, sub_duration}
use kitsune.Gossip.{K2GossipConfig}
use kitsune.Gossip.Burst.{max_burst, threshold, recent}
use kitsune.Gossip.Burst.Sweeps.{
  BurstEvent, asks, sweeps, answers, without_sweeps, InOrder, answers-without_sweeps,
}
use kitsune.Gossip.Burst.Limit.{accepted_times, Within, since, accepted-since}

-- Three requests a second.
abbrev three_a_second : K2GossipConfig
three_a_second = record {
  max_gossip_op_bytes = 1000;
  max_request_gossip_op_bytes = 1000;
  initiate_interval_ms = 1000;
  initiate_burst_factor = 3;
  initiate_burst_window_count = 1;
  round_timeout_ms = 1000;
  max_concurrent_accepted_rounds = 1;
}

-- Peer 7 has asked once in the window and once long ago.
abbrev tracker : Map (List Timestamp)
tracker = (7, 100 ∷ 4900000 ∷ []) ∷ (8, 200 ∷ []) ∷ []

abbrev requests : List BurstEvent
requests =
    asks 5000000 7 5000000
    ∷ sweeps 5000001
    ∷ asks 5000002 7 5000002
    ∷ asks 5000003 8 5000003
    ∷ asks 5000004 7 5000004
    ∷ []

tracker-IsMap : IsMap tracker
unfolding get
tracker-IsMap = (refl, (refl, tt))

requests-InOrder : InOrder three_a_second 0 requests
unfolding threshold sub_duration
requests-InOrder = (refl, (refl, (refl, (refl, (refl, tt)))))

requests-Within : Within three_a_second 4800000 requests
unfolding threshold sub_duration
requests-Within = (refl, refl, (refl, (refl, refl, (refl, refl, (refl, refl, tt)))))

one_since : since three_a_second 7 4800000 tracker ≤ max_burst three_a_second
unfolding recent select get max_burst
one_since = omega arith

answers-without_sweeps_example :
    answers three_a_second requests tracker
    ≡ answers three_a_second (without_sweeps requests) tracker
answers-without_sweeps_example =
    answers-without_sweeps three_a_second 0 requests tracker requests-InOrder tracker-IsMap

accepted-since_example :
    accepted_times three_a_second 7 requests tracker + since three_a_second 7 4800000 tracker
    ≤ max_burst three_a_second
accepted-since_example =
    accepted-since three_a_second 7 4800000 requests tracker requests-Within tracker-IsMap one_since
