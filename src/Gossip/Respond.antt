-- ===== src/Gossip/Respond.antt =====
-- `respond_to_msg` of crates/gossip/src/respond.rs: the answer to any message.
use kitsune.Prelude.{Bool, true, false, Option, none, some}
use kitsune.OpStore.{OpStore}
use kitsune.Gossip.{Url, K2GossipConfig}
use kitsune.Gossip.Protocol
use kitsune.Gossip.Protocol.{GossipMessage}
use kitsune.Gossip.Initiate.{respond_to_initiate}
use kitsune.Gossip.Accept.{respond_to_accept}
use kitsune.Gossip.Close.{
  respond_to_busy, respond_to_no_diff, respond_to_hashes, respond_to_agents, respond_to_terminate,
}
use kitsune.Gossip.Discs.{
  respond_to_disc_sectors_diff, respond_to_disc_sector_details_diff,
  respond_to_disc_sector_details_diff_response,
}
use kitsune.Gossip.Rings.{
  respond_to_ring_sector_details_diff, respond_to_ring_sector_details_diff_response,
}
use kitsune.Gossip.Host.{Host, Action, pure, call, ◌>>=◌, ◌>>◌}

-- Whether the round ends with what is sent.
unfoldable pub is_final_message : Option GossipMessage → Bool
is_final_message none = true
is_final_message (some (Protocol.agents m)) = true
is_final_message (some (Protocol.hashes m)) = true
is_final_message (some (Protocol.terminate m)) = true
is_final_message (some m) = false

module _ (store : OpStore) (host : Host) (config : K2GossipConfig) (sharding : Bool) where
  unfoldable pub answer : Url → GossipMessage → Action store host (Option GossipMessage)
  answer from_peer (Protocol.initiate m) = respond_to_initiate store host config from_peer m
  answer from_peer (Protocol.accept m) = respond_to_accept store host config sharding from_peer m
  answer from_peer (Protocol.no_diff m) = respond_to_no_diff store host from_peer m
  answer from_peer (Protocol.disc_sectors_diff m) =
      respond_to_disc_sectors_diff store host from_peer m
  answer from_peer (Protocol.disc_sector_details_diff m) =
      respond_to_disc_sector_details_diff store host from_peer m
  answer from_peer (Protocol.disc_sector_details_diff_response m) =
      respond_to_disc_sector_details_diff_response store host from_peer m
  answer from_peer (Protocol.ring_sector_details_diff m) =
      respond_to_ring_sector_details_diff store host sharding from_peer m
  answer from_peer (Protocol.ring_sector_details_diff_response m) =
      respond_to_ring_sector_details_diff_response store host sharding from_peer m
  answer from_peer (Protocol.hashes m) = respond_to_hashes store host from_peer m
  answer from_peer (Protocol.agents m) = respond_to_agents store host from_peer m
  answer from_peer (Protocol.busy m) = respond_to_busy store host from_peer m
  answer from_peer (Protocol.terminate m) = respond_to_terminate store host from_peer m

  -- `if let Some(msg) = res`
  abbrev pub send_answer : Url → Option GossipMessage → Action store host (Unit {0})
  send_answer from_peer none = pure tt
  send_answer from_peer (some message) = call (host.send_gossip_message message from_peer)

  unfoldable pub respond_to_msg : Url → GossipMessage → Action store host (Unit {0})
  respond_to_msg from_peer message = do
    res ← answer from_peer message
    send_answer from_peer res
    elim (is_final_message res) [
      | true ↦ call (host.incr_completed_rounds from_peer)
      | false ↦ pure tt
    ]
