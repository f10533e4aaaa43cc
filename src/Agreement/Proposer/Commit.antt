-- ===== src/Agreement/Proposer/Commit.antt =====
-- When a proposer commits its value, that is, broadcasts a LEARN.
use suffren.Base.{
  ap, sym, ◌∙◌, false≢true, ℕ, ◌+◌, ◌<◌, ◌≤◌, ◌≡◌, refl, ◌↔◌, inl, inr, Bool, Bool-cases, true,
  false, some, List, [], ◌∷◌, ◌++◌, arith, length, length-append, if◌then◌else◌, All,
}
use suffren.Base.Result.{Result, ok, panic}
use suffren.Crdt.Lattice.{Lattice, IsLattice}
use suffren.Protocol.{Message, message, CommandType, learn}
use suffren.Agreement.Output.{Output, broadcast}
use suffren.Agreement.Proposer.{Proposer, no_nacks, count_ack, count_nack, handle_ack, handle_nack}

abbrev pub is_learn : CommandType → Bool
is_learn learn = true
is_learn _ = false

-- How many LEARNs are broadcast.
abbrev pub learns : {L : Type 0} → List (Output L) → ℕ
learns [] = 0
learns (broadcast msg ∷ out) = (if is_learn msg.payload.kind then 1 else 0) + learns out
learns (_ ∷ out) = learns out

pub no_nacks-append :
    (acks : List Bool) (b : Bool) → no_nacks (acks ++ b ∷ []) ≡ (if b then no_nacks acks else false)
unfolding no_nacks
no_nacks-append [] true = refl
no_nacks-append [] false = refl
no_nacks-append (a ∷ acks) true = ground (arith, no_nacks-append acks true)
no_nacks-append (a ∷ acks) false = ground (arith, no_nacks-append acks false)

pub no_nacks_iff : (acks : List Bool) → (no_nacks acks ≡ true) ↔ All (λ b. b ≡ true) acks
unfolding no_nacks
no_nacks_iff [] = (λ _. tt, λ _. refl)
no_nacks_iff (a ∷ acks) = (
  λ h. (ground arith, (no_nacks_iff acks).0 (ground arith)),
  λ h. ground (arith, (no_nacks_iff acks).1 h.1),
)

-- The state of a round in which one more ACK commits the proposed value.
pub record LastAck {L : Type 0} (p : Proposer L) : Type 0 where
  pub open_round : p.quorum_reached ≡ false
  pub all_acks : All (λ b. b ≡ true) p.acks_received
  pub enough : p.quorum_size ≤ length p.acks_received + 1

count_ack-commits :
    {L : Type 0} (p : Proposer L)
    → LastAck p
    → count_ack p ≡ (
      record p { quorum_reached = true; acks_received = p.acks_received ++ true ∷ [] },
      broadcast (message p.node_id learn (some p.proposed_value)) ∷ [],
    )
unfolding count_ack
count_ack-commits p h = ground (
  arith,
  no_nacks-append p.acks_received true,
  (no_nacks_iff p.acks_received).1 h.all_acks,
  length-append p.acks_received (true ∷ []),
)

count_ack-LastAck : {L : Type 0} (p : Proposer L) → 0 < learns (count_ack p).1 → LastAck p
unfolding count_ack
count_ack-LastAck p h = record {
  open_round = ground arith;
  all_acks =
      (no_nacks_iff p.acks_received).0 (ground (arith, no_nacks-append p.acks_received true));
  enough = ground (arith, length-append p.acks_received (true ∷ []));
}

-- The LEARNs among the outputs of a handler; a panic has none.
abbrev pub learns_of : {L : Type 0} → Result (Proposer L × List (Output L)) → ℕ
learns_of (ok (p, out)) = learns out
learns_of panic = 0

module _ {L : Type 0} (lat : Lattice L) (Valid : L → Type 0) (Le : L → L → Type 0)
    (laws : IsLattice lat Valid Le) where
  -- An ACK makes a proposer commit exactly when it carries the proposed value, up to the order both
  -- ways, the round is open, every reply so far is an ACK, and this one makes a quorum of replies.
  pub handle_ack-learns_iff :
      (p : Proposer L) (msg : Message L) (x : L)
      → Valid p.proposed_value
      → Valid x
      → msg.payload.value ≡ some x
      → (0 < learns_of (handle_ack lat p msg))
        ↔ (LastAck p × Le x p.proposed_value × Le p.proposed_value x)
  unfolding handle_ack
  handle_ack-learns_iff p msg x u v e = elim (Bool-cases (lat.equals x p.proposed_value)) [
    | inl t ↦
        let (below, above) = (laws.equals_iff x p.proposed_value v u).0 t in
        rw (e, t)
          (λ h. (count_ack-LastAck p h, below, above), λ h. ground (arith, count_ack-commits p h.0))
    | inr t ↦
        rw (e, t)
          (
            λ h. absurd (omega arith),
            λ h.
                absurd (false≢true (sym t ∙ (laws.equals_iff x p.proposed_value v u).1 (h.1, h.2))),
          )
  ]

  -- The ACK that commits closes the round and sets off one broadcast, a LEARN of the proposed value.
  pub handle_ack-commits :
      (p : Proposer L) (msg : Message L) (x : L)
      → Valid p.proposed_value
      → Valid x
      → msg.payload.value ≡ some x
      → LastAck p
      → Le x p.proposed_value
      → Le p.proposed_value x
      → handle_ack lat p msg
        ≡ ok (
          record p { quorum_reached = true; acks_received = p.acks_received ++ true ∷ [] },
          broadcast (message p.node_id learn (some p.proposed_value)) ∷ [],
        )
  unfolding handle_ack
  handle_ack-commits p msg x u v e h below above =
      rw (e, (laws.equals_iff x p.proposed_value v u).1 (below, above))
        (ap ok (count_ack-commits p h))

module _ {L : Type 0} (lat : Lattice L) where
  -- A NACK never makes a proposer commit.
  pub handle_nack-never-learns :
      (p : Proposer L) (msg : Message L) → learns_of (handle_nack lat p msg) ≡ 0
  unfolding handle_nack count_nack
  handle_nack-never-learns p msg = ground (arith, no_nacks-append p.acks_received false)
