-- ===== src/Gossip/Rounds.antt =====
-- Changes of the rounds that several answers of crates/gossip/src/respond share.
use kitsune.Prelude.{Option, none, some, String}
use kitsune.Prelude.Outcome.{Outcome, peer_behavior, err}
use kitsune.Prelude.Maps.{get, remove}
use kitsune.Combine.{Bytes}
use kitsune.Gossip.{Url, RoundStage, GossipRoundState, K2Gossip}
use kitsune.Gossip.Protocol.{GossipMessage, terminate}

-- `initiated_round_state.take()`
abbrev pub take_initiated : K2Gossip → K2Gossip
take_initiated g = record g { initiated_round_state = none }

abbrev pub remove_accepted : Url → K2Gossip → K2Gossip
remove_accepted url g = record g { accepted_round_states = remove url g.accepted_round_states }

-- `if let Some(state) = lock.as_mut()`
abbrev pub change_initiated : (GossipRoundState → GossipRoundState) → K2Gossip → K2Gossip
change_initiated f g = elim g.initiated_round_state [
  | none ↦ g
  | some round ↦ record g { initiated_round_state = some (f round) }
]

abbrev pub at_stage : RoundStage → GossipRoundState → GossipRoundState
at_stage stage round = record round { stage = stage }

-- A check of the initiated round, without which the message is unsolicited.
unfoldable pub on_initiated : {A : Type 0} → (GossipRoundState → Outcome A) → K2Gossip → Outcome A
on_initiated check g = elim g.initiated_round_state [
  | none ↦ err (peer_behavior "Unsolicited message")
  | some round ↦ check round
]

unfoldable pub on_accepted :
    {A : Type 0} → Url → (GossipRoundState → Outcome A) → K2Gossip → Outcome A
on_accepted from_peer check g = elim (get from_peer g.accepted_round_states) [
  | none ↦ err (peer_behavior "Unsolicited message")
  | some round ↦ check round
]

-- The end of a round that a peer is told of.
abbrev pub terminated : Bytes → String → Option GossipMessage
terminated session_id reason =
    some (terminate (record { session_id = session_id; reason = reason }))
