-- ===== src/Agreement/Proposer/Repeat.antt =====
-- Replies are counted, and not the peers that sent them.
use suffren.Base.{
  ℕ, zero, suc, ◌+◌, ◌<◌, ◌≡◌, refl, ap, true, false, some, [], ◌∷◌, ◌++◌, arith, length,
  length-append, All, All-append, replicate,
}
use suffren.Base.Result.{ok}
use suffren.Crdt.Lattice.{Lattice, IsLattice}
use suffren.Protocol.{Message, message, ack, learn}
use suffren.Agreement.Output.{broadcast}
use suffren.Agreement.Proposer.{Proposer, count_ack, handle_ack, handle_all}
use suffren.Agreement.Proposer.Commit.{handle_ack-commits}
use suffren.Agreement.Proposer.Once.{handle_as_ack}

count_ack-waits :
    {L : Type 0} (p : Proposer L)
    → length p.acks_received + 1 < p.quorum_size
    → p.quorum_reached ≡ false
    → count_ack p ≡ (record p { acks_received = p.acks_received ++ true ∷ [] }, [])
unfolding count_ack
count_ack-waits p h o = ground (arith, length-append p.acks_received (true ∷ []))

module _ {L : Type 0} (lat : Lattice L) (Valid : L → Type 0) (Le : L → L → Type 0)
    (laws : IsLattice lat Valid Le) (msg : Message L) (x : L) where
  handle_ack-waits :
      (p : Proposer L)
      → Valid p.proposed_value
      → Valid x
      → msg.payload.value ≡ some x
      → Le x p.proposed_value
      → Le p.proposed_value x
      → length p.acks_received + 1 < p.quorum_size
      → p.quorum_reached ≡ false
      → handle_ack lat p msg ≡ ok (record p { acks_received = p.acks_received ++ true ∷ [] }, [])
  unfolding handle_ack
  handle_ack-waits p u v e below above h o =
      rw (e, (laws.equals_iff x p.proposed_value v u).1 (below, above))
        (ap ok (count_ack-waits p h o))

  -- In an open round with no NACK, as many copies of one ACK for the proposed value as replies are
  -- missing make the proposer broadcast its LEARN, whoever sent them: one peer whose ACK arrives
  -- often enough stands for a quorum.
  pub repeated_ack-commits :
      (k : ℕ) (p : Proposer L)
      → Valid p.proposed_value
      → Valid x
      → msg.payload.kind ≡ ack
      → msg.payload.value ≡ some x
      → Le x p.proposed_value
      → Le p.proposed_value x
      → p.quorum_reached ≡ false
      → All (λ b. b ≡ true) p.acks_received
      → length p.acks_received + suc k ≡ p.quorum_size
      → (p' : Proposer L) × (handle_all lat p (replicate (suc k) msg)
          ≡ ok (p', broadcast (message p.node_id learn (some p.proposed_value)) ∷ []))
  unfolding handle_all
  repeated_ack-commits zero p u v a e below above o acks n = (
    record p { quorum_reached = true; acks_received = p.acks_received ++ true ∷ [] },
    rw
        (
          handle_as_ack lat p msg a,
          handle_ack-commits lat Valid Le laws p msg x u v e
              (record { open_round = o; all_acks = acks; enough = omega arith }) below above,
        )
        refl,
  )
  repeated_ack-commits (suc k) p u v a e below above o acks n =
      let q = record p { acks_received = p.acks_received ++ true ∷ [] } in
      let (p', eq) =
        repeated_ack-commits k q u v a e below above o
          (All-append (λ b. b ≡ true) p.acks_received (true ∷ []) acks (refl, tt))
          (omega (arith, length-append p.acks_received (true ∷ []))) in
      (
        p',
        rw (handle_as_ack lat p msg a, handle_ack-waits p u v e below above (omega arith) o)
            (rw eq refl),
      )
