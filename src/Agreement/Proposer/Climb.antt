-- ===== src/Agreement/Proposer/Climb.antt =====
-- What a NACK does: a round that it ends is followed by one for a higher value.
use suffren.Base.{
  sym, subst, ◌∙◌, ◌⊎◌, inl, inr, Bool-cases, leb, true, false≢true, List, ◌++◌, ◌<◌, ◌+◌, ◌≤◌, ◌≡◌,
  false, some, [], ◌∷◌, arith, length, length-append,
}
use suffren.Base.Result.{Result, ok}
use suffren.Crdt.Lattice.{Lattice, IsLattice}
use suffren.Protocol.{Message, message, propose}
use suffren.Agreement.Output.{Output, broadcast}
use suffren.Agreement.Proposer.{Proposer, count_nack, handle_nack}
use suffren.Agreement.Proposer.Round.{IsValid}
use suffren.Agreement.Proposer.Commit.{no_nacks-append}

module _ {L : Type 0} (lat : Lattice L) where
  count_nack-reproposes :
      (p : Proposer L) (x : L)
      → p.quorum_reached ≡ false
      → p.quorum_size ≤ length p.acks_received + 1
      → count_nack lat p x ≡ (
        record p {
          acks_received = [];
          quorum_reached = false;
          proposed_value = lat.join p.buffered_value x;
          buffered_value = lat.join p.buffered_value x;
        },
        broadcast (message p.node_id propose (some (lat.join p.buffered_value x))) ∷ [],
      )
  unfolding count_nack
  count_nack-reproposes p x h k =
      ground
        (arith, no_nacks-append p.acks_received false, length-append p.acks_received (false ∷ []))

  -- In a closed round, or without a quorum of replies, the NACK is counted and its value joined.
  count_nack-waits :
      (p : Proposer L) (x : L)
      → (p.quorum_reached ≡ true) ⊎ (length p.acks_received + 1 < p.quorum_size)
      → count_nack lat p x ≡ (
        record p {
          acks_received = p.acks_received ++ false ∷ [];
          buffered_value = lat.join p.buffered_value x;
        },
        [],
      )
  unfolding count_nack
  count_nack-waits p x (inl closed) = ground (arith, closed)
  count_nack-waits p x (inr few) = ground (arith, few, length-append p.acks_received (false ∷ []))

module _ {L : Type 0} (lat : Lattice L) (Valid : L → Type 0) (Le : L → L → Type 0)
    (laws : IsLattice lat Valid Le) where
  -- What a proposer makes of a NACK that carries `x`, on every path.
  pub data NackOutcome (p : Proposer L) (x : L)
      : Result (Proposer L × List (Output L)) → Type 0 where
    ignored : ¬ Le p.proposed_value x → NackOutcome p x (ok (p, []))
    counted :
        Le p.proposed_value x
        → (p.quorum_reached ≡ true) ⊎ (length p.acks_received + 1 < p.quorum_size)
        → NackOutcome p x (
            ok (
              record p {
                acks_received = p.acks_received ++ false ∷ [];
                buffered_value = lat.join p.buffered_value x;
              },
              [],
            ))
    reproposed :
        Le p.proposed_value x
        → p.quorum_reached ≡ false
        → p.quorum_size ≤ length p.acks_received + 1
        → Le p.buffered_value (lat.join p.buffered_value x)
        → Le x (lat.join p.buffered_value x)
        → (Le (lat.join p.buffered_value x) p.proposed_value → Le x p.proposed_value)
        → NackOutcome p x (
            ok (
              record p {
                acks_received = [];
                quorum_reached = false;
                proposed_value = lat.join p.buffered_value x;
                buffered_value = lat.join p.buffered_value x;
              },
              broadcast (message p.node_id propose (some (lat.join p.buffered_value x))) ∷ [],
            ))

  count_nack-NackOutcome :
      (p : Proposer L) (x : L)
      → IsValid Valid Le p
      → Valid x
      → Le p.proposed_value x
      → NackOutcome p x (ok (count_nack lat p x))
  count_nack-NackOutcome p x h v le = elim (Bool-cases p.quorum_reached) [
    | inl t ↦
        subst (λ r. NackOutcome p x (ok r)) (sym (count_nack-waits lat p x (inl t)))
          (counted le (inl t))
    | inr open_round ↦ elim (Bool-cases (leb p.quorum_size (length p.acks_received + 1))) [
      | inr t ↦
          let few : (p.quorum_reached ≡ true) ⊎ (length p.acks_received + 1 < p.quorum_size) =
            inr (ground (arith, t)) in
          subst (λ r. NackOutcome p x (ok r)) (sym (count_nack-waits lat p x few)) (counted le few)
      | inl t ↦
          let enough : p.quorum_size ≤ length p.acks_received + 1 = ground (arith, t) in
          let (left, right, _) = laws.join_least p.buffered_value x x h.buffered v in
          subst (λ r. NackOutcome p x (ok r))
            (sym (count_nack-reproposes lat p x open_round enough))
            (reproposed le open_round enough left right
              (λ back. laws.le_trans x (lat.join p.buffered_value x) p.proposed_value right back))
    ]
  ]

  -- Under the laws of a lattice, for valid values: a NACK whose value is not above the proposed one is
  -- ignored. One above it is counted and its value
  -- joined into the buffered one. If that makes a quorum in an open round, the proposer broadcasts, and
  -- takes as its proposed and its buffered value, the join, with no reply yet: it is above the old
  -- buffered value and the NACK's, and not below the old proposed value unless the NACK's was.
  pub handle_nack-reproposes :
      (p : Proposer L) (msg : Message L) (x : L)
      → IsValid Valid Le p
      → Valid x
      → msg.payload.value ≡ some x
      → NackOutcome p x (handle_nack lat p msg)
  unfolding handle_nack
  handle_nack-reproposes p msg x h v e = elim (Bool-cases (lat.is_in p.proposed_value x)) [
    | inl t ↦
        rw (e, t)
          (count_nack-NackOutcome p x h v ((laws.is_in_iff p.proposed_value x h.proposed v).0 t))
    | inr t ↦
        rw (e, t)
          (ignored
            (λ le. false≢true (sym t ∙ (laws.is_in_iff p.proposed_value x h.proposed v).1 le)))
  ]
