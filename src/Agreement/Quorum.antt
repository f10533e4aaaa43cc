-- ===== src/Agreement/Quorum.antt =====
-- Quorum intersection: two values, each acknowledged by a quorum of different acceptors, lie on one
-- chain.
use suffren.Base.{◌≤◌, ◌⊎◌, List, String, All, arith, length, string_key}
use suffren.GoMap.{GoMap, Distinct, Has}
use suffren.GoMap.Overlap.{overlap}
use suffren.Crdt.GCounter.{NodeId}
use suffren.Crdt.Lattice.{Lattice, IsLattice}
use suffren.Protocol.{Message}
use suffren.Agreement.Proposer.{quorum_of}
use suffren.Agreement.Acceptor.Chain.{ValidMessage}
use suffren.Agreement.Acceptor.Cluster.{Cluster, Inv, Logged, deliver_all, deliver_all-Inv}

-- A set of at least a quorum of peers, each of which has acknowledged `v`. A set is a map to units.
pub record Acked {L : Type 0} (peers : GoMap NodeId String) (c : Cluster L) (v : L) : Type 0 where
  pub voters : GoMap NodeId (Unit {0})
  pub distinct : Distinct voters
  pub among : (n : NodeId) → Has n voters → Has n peers
  pub enough : quorum_of peers ≤ length voters
  pub acked : (n : NodeId) → Has n voters → Logged n v c.log

module _ {L : Type 0} (lat : Lattice L) (Valid : L → Type 0) (Le : L → L → Type 0)
    (laws : IsLattice lat Valid Le) where
  -- From a cluster in order, after any deliveries of valid proposals, two values that are each
  -- acknowledged by a quorum of different peers are comparable.
  pub quorums-comparable :
      (peers : GoMap NodeId String) (c : Cluster L) (run : List (NodeId × Message L)) (v w : L)
      → Distinct peers
      → Inv Valid Le c
      → All (λ d. ValidMessage Valid d.1) run
      → Acked peers (deliver_all lat c run) v
      → Acked peers (deliver_all lat c run) w
      → Le v w ⊎ Le w v
  quorums-comparable peers c run v w d inv valid p q =
      let (n, first, second) =
        overlap p.voters q.voters peers p.distinct q.distinct d p.among q.among
          (omega (arith, p.enough, q.enough)) in
      (deliver_all-Inv lat Valid Le laws c run valid inv).comparable n v w (p.acked n first)
        (q.acked n second)
