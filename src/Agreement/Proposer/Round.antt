-- ===== src/Agreement/Proposer/Round.antt =====
-- The invariant of a proposer, and what an ACK, a NACK and a new proposal do in a round.
use suffren.Base.{
  ◌<◌, ◌≡◌, refl, inl, inr, Bool-cases, true, false, some, List, String, [], ◌∷◌, ◌++◌, arith,
  length,
}
use suffren.Base.Result.{ok}
use suffren.GoMap.{GoMap}
use suffren.Crdt.GCounter.{NodeId}
use suffren.Crdt.Lattice.{Lattice, IsLattice}
use suffren.Protocol.{Message, message, propose}
use suffren.Agreement.Output.{Output, broadcast}
use suffren.Agreement.Proposer.{
  Proposer, new, check_and_handle_quorum, propose_value, count_ack, count_nack, handle_ack,
  handle_nack,
}

module _ {L : Type 0} (Valid : L → Type 0) (Le : L → L → Type 0) where
  -- The buffered value is above the proposed one, and an open round has less than a quorum of
  -- replies.
  pub record IsValid (p : Proposer L) : Type 0 where
    pub proposed : Valid p.proposed_value
    pub buffered : Valid p.buffered_value
    pub ordered : Le p.proposed_value p.buffered_value
    pub positive : 0 < p.quorum_size
    pub open_round : p.quorum_reached ≡ false → length p.acks_received < p.quorum_size

  check-IsValid :
      (p : Proposer L)
      → ((x : L) → Le x x)
      → Valid p.proposed_value
      → Valid p.buffered_value
      → Le p.proposed_value p.buffered_value
      → 0 < p.quorum_size
      → IsValid (check_and_handle_quorum p).0
  unfolding check_and_handle_quorum
  check-IsValid p refl_le u v le pos = ground (arith, refl_le p.buffered_value)

  check-climbs :
      (p : Proposer L)
      → ((x : L) → Le x x)
      → Le p.proposed_value p.buffered_value
      → Le p.proposed_value (check_and_handle_quorum p).0.proposed_value
        × ((check_and_handle_quorum p).0.buffered_value ≡ p.buffered_value)
  unfolding check_and_handle_quorum
  check-climbs p refl_le le = ground (arith, refl_le p.proposed_value)

module _ {L : Type 0} (lat : Lattice L) (Valid : L → Type 0) (Le : L → L → Type 0)
    (laws : IsLattice lat Valid Le) where
  -- A step of a proposer: it keeps the invariant, and neither value ever falls.
  pub record Climbs (p p' : Proposer L) : Type 0 where
    pub valid : IsValid Valid Le p'
    pub proposed : Le p.proposed_value p'.proposed_value
    pub buffered : Le p.buffered_value p'.buffered_value

  pub Climbs-refl : (p : Proposer L) → IsValid Valid Le p → Climbs p p
  Climbs-refl p h = record {
    valid = h;
    proposed = laws.le_refl p.proposed_value;
    buffered = laws.le_refl p.buffered_value;
  }

  pub Climbs-trans : (p q r : Proposer L) → Climbs p q → Climbs q r → Climbs p r
  Climbs-trans p q r h k = record {
    valid = k.valid;
    proposed =
        laws.le_trans p.proposed_value q.proposed_value r.proposed_value h.proposed k.proposed;
    buffered =
        laws.le_trans p.buffered_value q.buffered_value r.buffered_value h.buffered k.buffered;
  }

  -- A new proposer is in order, at its initial value.
  pub new-IsValid :
      (n : NodeId) (x : L) (peers : GoMap NodeId String)
      → Valid x
      → IsValid Valid Le (new n x peers)
  unfolding new
  new-IsValid n x peers v = record {
    proposed = v;
    buffered = v;
    ordered = laws.le_refl x;
    positive = omega arith;
    open_round = λ _. omega arith;
  }

  -- A new proposal opens a round for the join of the buffered value and the given one, and
  -- broadcasts it; both values climb, and the proposed value is above the given one.
  pub propose_value-Climbs :
      (p : Proposer L) (x : L)
      → IsValid Valid Le p
      → Valid x
      → Climbs p (propose_value lat p x).0
        × Le x (propose_value lat p x).0.proposed_value
        × ((propose_value lat p x).0.acks_received ≡ [])
        × ((propose_value lat p x).1
            ≡ broadcast (message p.node_id propose (some (propose_value lat p x).0.proposed_value))
              ∷ [])
  unfolding propose_value
  propose_value-Climbs p x h v =
      let (left, right, _) = laws.join_least p.buffered_value x x h.buffered v in
      let joined = laws.join_valid p.buffered_value x h.buffered v in
      (
        record {
          valid = record {
            proposed = joined;
            buffered = joined;
            ordered = laws.le_refl _;
            positive = h.positive;
            open_round = λ _. h.positive;
          };
          proposed = laws.le_trans p.proposed_value p.buffered_value _ h.ordered left;
          buffered = left;
        },
        right,
        refl,
        refl,
      )

  count_ack-Climbs : (p : Proposer L) → IsValid Valid Le p → Climbs p (count_ack p).0
  unfolding count_ack
  count_ack-Climbs p h =
      let q = record p { acks_received = p.acks_received ++ true ∷ [] } in
      let (up, same) = check-climbs Valid Le q laws.le_refl h.ordered in
      record {
        valid = check-IsValid Valid Le q laws.le_refl h.proposed h.buffered h.ordered h.positive;
        proposed = up;
        buffered = rw same (laws.le_refl p.buffered_value);
      }

  pub count_nack-Climbs :
      (p : Proposer L) (x : L) → IsValid Valid Le p → Valid x → Climbs p (count_nack lat p x).0
  unfolding count_nack
  count_nack-Climbs p x h v =
      let q = record p {
        acks_received = p.acks_received ++ false ∷ [];
        buffered_value = lat.join p.buffered_value x;
      } in
      let (left, right, _) = laws.join_least p.buffered_value x x h.buffered v in
      let le = laws.le_trans p.proposed_value p.buffered_value _ h.ordered left in
      let (up, same) = check-climbs Valid Le q laws.le_refl le in
      record {
        valid =
            check-IsValid Valid Le q laws.le_refl h.proposed
              (laws.join_valid p.buffered_value x h.buffered v) le h.positive;
        proposed = up;
        buffered = rw same left;
      }

  -- An ACK with a value is handled without a panic, keeps the invariant, and lowers no value.
  pub handle_ack-Climbs :
      (p : Proposer L) (msg : Message L) (x : L)
      → IsValid Valid Le p
      → msg.payload.value ≡ some x
      → (p' : Proposer L) × (out : List (Output L)) × (handle_ack lat p msg ≡ ok (p', out))
        × Climbs p p'
  unfolding handle_ack
  handle_ack-Climbs p msg x h e = elim (Bool-cases (lat.equals x p.proposed_value)) [
    | inl t ↦ ((count_ack p).0, (count_ack p).1, rw (e, t), count_ack-Climbs p h)
    | inr t ↦ (p, [], rw (e, t), Climbs-refl p h)
  ]

  -- So is a NACK with a valid value.
  pub handle_nack-Climbs :
      (p : Proposer L) (msg : Message L) (x : L)
      → IsValid Valid Le p
      → Valid x
      → msg.payload.value ≡ some x
      → (p' : Proposer L) × (out : List (Output L)) × (handle_nack lat p msg ≡ ok (p', out))
        × Climbs p p'
  unfolding handle_nack
  handle_nack-Climbs p msg x h v e = elim (Bool-cases (lat.is_in p.proposed_value x)) [
    | inl t ↦ ((count_nack lat p x).0, (count_nack lat p x).1, rw (e, t), count_nack-Climbs p x h v)
    | inr t ↦ (p, [], rw (e, t), Climbs-refl p h)
  ]
