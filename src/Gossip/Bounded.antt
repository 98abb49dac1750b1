-- ===== src/Gossip/Bounded.antt =====
-- The accepted rounds through any events (crates/gossip/src/respond.rs, gossip.rs).
use kitsune.Prelude.{Bool, Option, none, some, List, [], ◌∷◌}
use kitsune.OpStore.{OpStore}
use kitsune.Gossip.{Url, K2GossipConfig}
use kitsune.Gossip.Protocol
use kitsune.Gossip.Protocol.{GossipMessage, K2GossipInitiateMessage}
use kitsune.Gossip.Initiate.{initiate_gossip}
use kitsune.Gossip.Respond.{is_final_message, answer, send_answer, respond_to_msg}
use kitsune.Gossip.Limits.{IsGossip}
use kitsune.Gossip.Kept.Accept.{respond_to_accept-Keeps}
use kitsune.Gossip.Kept.Close.{
  respond_to_busy-Keeps, respond_to_agents-Keeps, respond_to_hashes-Keeps,
  respond_to_terminate-Keeps, respond_to_no_diff-Keeps,
}
use kitsune.Gossip.Kept.Diffs.{
  respond_to_disc_sectors_diff-Keeps, respond_to_disc_sector_details_diff-Keeps,
  respond_to_disc_sector_details_diff_response-Keeps, respond_to_ring_sector_details_diff-Keeps,
  respond_to_ring_sector_details_diff_response-Keeps,
}
use kitsune.Gossip.Host.{Host, World}
use kitsune.Gossip.Runs.{Runs, Runs-pure, Runs-call, Runs-bind, Runs-then, Runs-bool}
use kitsune.Gossip.Opened.{respond_to_initiate-Keeps, initiate_gossip-Keeps}

module _ (store : OpStore) (host : Host) (config : K2GossipConfig) where
  answer-Keeps :
      (sharding : Bool) (url : Url) (m : GossipMessage)
      → Runs (IsGossip config) (IsGossip config) (answer store host config sharding url m)
  unfolding answer
  answer-Keeps sharding url (Protocol.initiate m) =
      respond_to_initiate-Keeps store host config url m
  answer-Keeps sharding url (Protocol.accept m) =
      respond_to_accept-Keeps store host config sharding url m
  answer-Keeps sharding url (Protocol.no_diff m) = respond_to_no_diff-Keeps store host config url m
  answer-Keeps sharding url (Protocol.disc_sectors_diff m) =
      respond_to_disc_sectors_diff-Keeps store host config url m
  answer-Keeps sharding url (Protocol.disc_sector_details_diff m) =
      respond_to_disc_sector_details_diff-Keeps store host config url m
  answer-Keeps sharding url (Protocol.disc_sector_details_diff_response m) =
      respond_to_disc_sector_details_diff_response-Keeps store host config url m
  answer-Keeps sharding url (Protocol.ring_sector_details_diff m) =
      respond_to_ring_sector_details_diff-Keeps store host config sharding url m
  answer-Keeps sharding url (Protocol.ring_sector_details_diff_response m) =
      respond_to_ring_sector_details_diff_response-Keeps store host config sharding url m
  answer-Keeps sharding url (Protocol.hashes m) = respond_to_hashes-Keeps store host config url m
  answer-Keeps sharding url (Protocol.agents m) = respond_to_agents-Keeps store host config url m
  answer-Keeps sharding url (Protocol.busy m) = respond_to_busy-Keeps store host config url m
  answer-Keeps sharding url (Protocol.terminate m) =
      respond_to_terminate-Keeps store host config url m

  send_answer-Keeps :
      (sharding : Bool) (url : Url) (o : Option GossipMessage)
      → Runs (IsGossip config) (IsGossip config) (send_answer store host config sharding url o)
  send_answer-Keeps sharding url none = Runs-pure _
  send_answer-Keeps sharding url (some m) = Runs-call _

  respond_to_msg-Keeps :
      (sharding : Bool) (url : Url) (m : GossipMessage)
      → Runs (IsGossip config) (IsGossip config) (respond_to_msg store host config sharding url m)
  unfolding respond_to_msg
  respond_to_msg-Keeps sharding url m = Runs-bind _ _ (answer-Keeps sharding url m) λ res.
      Runs-then _ _ (send_answer-Keeps sharding url res)
        (Runs-bool (is_final_message res) _ _ (Runs-call _) (Runs-pure _))

-- The events of a gossip instance: a round that it starts, and a message that comes in.
pub data GossipEvent : Type 0 where
  initiates : Url → GossipEvent
  receives : Url → GossipMessage → GossipEvent

module _ (store : OpStore) (host : Host) (config : K2GossipConfig) (sharding : Bool) where
  -- One event after the other, each of them whole.
  unfoldable pub after : List GossipEvent → World store host → World store host
  after [] w = w
  after (initiates url ∷ events) w = after events (initiate_gossip store host config url w).1
  after (receives url message ∷ events) w =
      after events (respond_to_msg store host config sharding url message w).1

  -- Whatever rounds a gossip instance starts and whatever messages its peers send it, one whole event
  -- after the other, and whatever the host answers: if its accepted rounds are in order, then so they
  -- are afterwards. No peer has two of them, each is kept under the peer that it is with, and there are
  -- no more of them than `max_concurrent_accepted_rounds` unless that is 0.
  pub after-IsGossip :
      (events : List GossipEvent) (w : World store host)
      → IsGossip config w.gossip
      → IsGossip config (after events w).gossip
  unfolding after
  after-IsGossip [] w h = h
  after-IsGossip (initiates url ∷ events) w h =
      after-IsGossip events _ ((initiate_gossip-Keeps store host config url).from w h)
  after-IsGossip (receives url message ∷ events) w h =
      after-IsGossip events _
        ((respond_to_msg-Keeps store host config sharding url message).from w h)
