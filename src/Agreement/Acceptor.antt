-- ===== src/Agreement/Acceptor.antt =====
-- internal/latticeagreement/acceptor.go. The mutex is held for the whole handler, so a call is one
-- step on the state.
pub mod Handle
pub mod Chain
pub mod Cluster
use suffren.Base.{Bool, Option, none, some, List, [], ◌∷◌, if◌then◌else◌}
use suffren.Crdt.GCounter.{NodeId}
use suffren.Crdt.Lattice.{Lattice}
use suffren.Protocol.{Message, message, ack, nack}
use suffren.Agreement.Output.{Output, send}

pub record Acceptor (L : Type 0) : Type 0 where
  pub node_id : NodeId
  pub accepted_value : L

unfoldable pub new : {L : Type 0} → L → NodeId → Acceptor L
new bottom node_id = record { node_id = node_id; accepted_value = bottom }

module _ {L : Type 0} (lat : Lattice L) where
  -- The branches of `HandlePropose` once the value is known not to be nil.
  unfoldable pub accept : Acceptor L → NodeId → L → Acceptor L × List (Output L)
  accept a sender value =
      if lat.is_in a.accepted_value value
      then (
        record a { accepted_value = value },
        send sender (message a.node_id ack (some value)) ∷ [],
      )
      else let joined = lat.join a.accepted_value value in
        (
          record a { accepted_value = joined },
          send sender (message a.node_id nack (some joined)) ∷ [],
        )

  unfoldable pub handle_propose : Acceptor L → Message L → Acceptor L × List (Output L)
  unfolding accept
  handle_propose a msg = elim msg.payload.value [
    | none ↦ (a, [])
    | some value ↦ accept a msg.sender value
  ]
