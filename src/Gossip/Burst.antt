-- ===== src/Gossip/Burst.antt =====
-- `AcceptBurstTracker` of crates/gossip/src/burst.rs: how often a peer may initiate.
pub mod Window
pub mod Sweeps
pub mod Limit
use kitsune.Prelude.{
  ℕ, ◌*◌, ◌%◌, ◌^◌, Bool, true, false, none, some, List, [], ◌∷◌, ◌++◌, length, leb, ◌==◌,
  if◌then◌else◌,
}
use kitsune.Prelude.Maps.{Map, select, get, put}
use kitsune.Timestamp.{Timestamp, unix_timestamp, lt_i64, sub_duration}
use kitsune.Gossip.{Url, K2GossipConfig}

-- The times of a peer, none if it has no entry.
abbrev pub times_of : Url → Map (List Timestamp) → List Timestamp
times_of peer_url bursts = elim (get peer_url bursts) [ none ↦ [] | some ts ↦ ts ]

-- The product is taken on `u32`.
unfoldable pub max_burst : K2GossipConfig → ℕ
max_burst config = config.initiate_burst_factor * config.initiate_burst_window_count % 2 ^ 32

-- The start of the window that ends now.
unfoldable pub threshold : K2GossipConfig → Timestamp → Timestamp
threshold config now =
    let window = config.initiate_interval_ms * config.initiate_burst_window_count * 1000 in
    elim (sub_duration now window) [ none ↦ unix_timestamp | some t ↦ t ]

-- `retain(|t| *t > threshold)`
unfoldable pub recent : Timestamp → List Timestamp → List Timestamp
recent start ts = select (λ t. lt_i64 start t) ts

unfoldable pub check_accept :
    K2GossipConfig
    → Timestamp
    → Url
    → Timestamp
    → Map (List Timestamp)
    → Bool × Map (List Timestamp)
check_accept config now peer_url timestamp bursts =
    let kept = recent (threshold config now) (times_of peer_url bursts) in
    if leb (max_burst config) (length kept)
    then (false, put peer_url kept bursts)
    else (true, put peer_url (kept ++ timestamp ∷ []) bursts)

-- The sweep of all peers.
unfoldable pub cleanup : K2GossipConfig → Timestamp → Map (List Timestamp) → Map (List Timestamp)
cleanup config now [] = []
cleanup config now ((peer_url, ts) ∷ bursts) =
    let rest = cleanup config now bursts in
    let kept = recent (threshold config now) ts in
    if length kept == 0 then rest else (peer_url, kept) ∷ rest
