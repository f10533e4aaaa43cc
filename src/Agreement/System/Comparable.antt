-- ===== src/Agreement/System/Comparable.antt =====
-- All values that are ever learned lie on one chain.
use suffren.Base.{inl, inr, ◌⊎◌, String, arith, string_key}
use suffren.GoMap.{GoMap, Distinct}
use suffren.GoMap.Overlap.{overlap}
use suffren.Crdt.GCounter.{NodeId}
use suffren.Crdt.Lattice.{Lattice, IsLattice}
use suffren.Agreement.Acceptor.Cluster.{Cluster, Inv}
use suffren.Agreement.System.{Learned, System, Steps}
use suffren.Agreement.System.Counted.{IsAgreed}
use suffren.Agreement.System.Heard.{All-Learned}
use suffren.Agreement.System.InOrder.{IsInOrder, steps-IsInOrder}

module _ {L : Type 0} (lat : Lattice L) (Valid : L → Type 0) (Le : L → L → Type 0)
    (laws : IsLattice lat Valid Le) (peers : GoMap NodeId String) where
  -- Two agreed values have an acceptor in common.
  agreed-comparable :
      (c : Cluster L) (v w : L)
      → Distinct peers
      → Inv Valid Le c
      → IsAgreed Le peers c.log v
      → IsAgreed Le peers c.log w
      → Le v w ⊎ Le w v
  agreed-comparable c v w d inv a b =
      let (n, first, second) =
        overlap a.voters b.voters peers a.backs.distinct b.backs.distinct d a.backs.among
          b.backs.among (omega (arith, a.enough, b.enough)) in
      let (v', l, vb, va) = a.backs.acked n first in
      let (w', m, wb, wa) = b.backs.acked n second in
      elim (inv.comparable n v' w' l m) [
        | inl le ↦ inl (laws.le_trans v v' w va (laws.le_trans v' w' w le wb))
        | inr le ↦ inr (laws.le_trans w w' v wa (laws.le_trans w' v' v le vb))
      ]

  pub in_order-comparable :
      (s : System L)
      → Distinct peers
      → IsInOrder lat Valid Le laws peers s
      → (v w : L) → Learned v s.learned
      → Learned w s.learned
      → Le v w ⊎ Le w v
  in_order-comparable s d h v w i j =
      agreed-comparable s.cluster v w d h.cluster
        (All-Learned (IsAgreed Le peers s.cluster.log) v s.learned i h.agreed)
        (All-Learned (IsAgreed Le peers s.cluster.log) w s.learned j h.agreed)

  -- In a cluster that is in order, whose peers are distinct, after any interleaving of new proposals,
  -- of proposals that reach acceptors, of NACKs and of ACKs, where a proposer counts an ACK of its
  -- value only of a peer that has sent one, and in an open round of no peer twice: any two of the
  -- values that proposers have broadcast in a LEARN are comparable.
  pub learned-comparable :
      (s s' : System L)
      → Distinct peers
      → IsInOrder lat Valid Le laws peers s
      → Steps lat Valid peers s s'
      → (v w : L) → Learned v s'.learned
      → Learned w s'.learned
      → Le v w ⊎ Le w v
  learned-comparable s s' d h steps v w i j =
      in_order-comparable s' d (steps-IsInOrder lat Valid Le laws peers s s' h steps) v w i j
