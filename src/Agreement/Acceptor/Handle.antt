-- ===== src/Agreement/Acceptor/Handle.antt =====
-- What one PROPOSE does to an acceptor, on every branch.
use suffren.Base.{◌≡◌, Bool-cases, inl, inr, false≢true, some, [], ◌∷◌, arith}
use suffren.Crdt.Lattice.{Lattice, IsLattice}
use suffren.Protocol.{Message, message, CommandType, ack, nack}
use suffren.Agreement.Output.{send}
use suffren.Agreement.Acceptor.{Acceptor, accept, handle_propose}

module _ {L : Type 0} (lat : Lattice L) (Le : L → L → Type 0) where
  -- What a reply says of the acceptor's value before and of the proposed value.
  pub data Reply (a : Acceptor L) (value : L) : CommandType → L → Type 0 where
    accepted : Le a.accepted_value value → Reply a value ack value
    refused : ¬ Le a.accepted_value value → Reply a value nack (lat.join a.accepted_value value)

module _ {L : Type 0} (lat : Lattice L) (Valid : L → Type 0) (Le : L → L → Type 0)
    (laws : IsLattice lat Valid Le) where
  -- An acceptor answers a proposal by one message to its sender. It acknowledges the proposed value
  -- exactly when its own is below it; otherwise it refuses with the join. In both cases the value that it sends is
  -- its new one, is valid, and is above both the value that it had and the proposed one.
  pub handle_propose-replies :
      (a : Acceptor L) (msg : Message L) (value : L)
      → Valid a.accepted_value
      → Valid value
      → msg.payload.value ≡ some value
      → (kind : CommandType) × (sent : L) × Reply lat Le a value kind sent
        × (handle_propose lat a msg ≡ (
          record a { accepted_value = sent },
          send msg.sender (message a.node_id kind (some sent)) ∷ [],
        ))
        × Valid sent
        × Le a.accepted_value sent
        × Le value sent
  unfolding handle_propose accept
  handle_propose-replies a msg value u v e = elim (Bool-cases (lat.is_in a.accepted_value value)) [
    | inl below ↦
        let le = (laws.is_in_iff a.accepted_value value u v).0 below in
        (ack, value, accepted le, ground arith, v, le, laws.le_refl value)
    | inr not_below ↦
        let (left, right, _) = laws.join_least a.accepted_value value value u v in
        (
          nack,
          lat.join a.accepted_value value,
          refused
              (λ le. false≢true (ground (arith, (laws.is_in_iff a.accepted_value value u v).1 le))),
          ground arith,
          laws.join_valid a.accepted_value value u v,
          left,
          right,
        )
  ]

  -- A refusal carries a value strictly above the proposal: a proposer that adopts it climbs.
  pub nack-climbs :
      (a : Acceptor L) (value sent : L)
      → Valid a.accepted_value
      → Valid value
      → Reply lat Le a value nack sent
      → Le value sent × ¬ Le sent value
  nack-climbs a value sent u v (refused above) =
      let (left, right, _) = laws.join_least a.accepted_value value value u v in
      (right, λ le. above (laws.le_trans a.accepted_value _ value left le))
