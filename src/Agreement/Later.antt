-- ===== src/Agreement/Later.antt =====
-- Quorums in time: what a quorum acknowledges after another quorum has acknowledged a value contains
-- that value.
use suffren.Base.{
  subst, sym, inl, inr, Option-cases, List, [], ◌∷◌, some, String, All, arith, if_pos, if_neg,
  string_key,
}
use suffren.GoMap.{GoMap, Distinct}
use suffren.GoMap.Overlap.{overlap}
use suffren.Crdt.GCounter.{NodeId}
use suffren.Crdt.Lattice.{Lattice, IsLattice}
use suffren.Protocol.{Message, CommandType}
use suffren.Agreement.Acceptor.{Acceptor}
use suffren.Agreement.Acceptor.Handle.{Reply, accepted, refused, handle_propose-replies}
use suffren.Agreement.Acceptor.Chain.{ValidMessage, handle_propose-nil}
use suffren.Agreement.Acceptor.Cluster.{
  Cluster, Inv, Logged, note_ack, updated, deliver, deliver_all, deliver-Inv,
}
use suffren.Agreement.Quorum.{Acked}

-- The cluster with an empty log: what is logged from here on is what is acknowledged later.
abbrev pub from_now : {L : Type 0} → Cluster L → Cluster L
from_now c = record c { log = [] }

module _ {L : Type 0} (Le : L → L → Type 0) where
  -- The acceptor of `n` holds a value above `v`, and so is all that it has in the log.
  record IsAbove (v : L) (n : NodeId) (c : Cluster L) : Type 0 where
    holds : Le v (c.acceptors n).accepted_value
    logged : (w : L) → Logged n w c.log → Le v w

module _ {L : Type 0} (lat : Lattice L) (Valid : L → Type 0) (Le : L → L → Type 0)
    (laws : IsLattice lat Valid Le) where
  -- An acceptor may grow.
  holds-updated :
      (c : Cluster L) (v : L) (n k : NodeId) (a : Acceptor L)
      → Le (c.acceptors k).accepted_value a.accepted_value
      → Le v (c.acceptors n).accepted_value
      → Le v (updated lat Valid Le laws c k a n).accepted_value
  holds-updated c v n k a le h = elim (string_key.dec k n) [
    | yes p ↦
        rw (if_pos (string_key.dec k n) p a (c.acceptors n))
          (laws.le_trans v _ _ (subst (λ j. Le v (c.acceptors j).accepted_value) (sym p) h) le)
    | no p ↦ rw (if_neg (string_key.dec k n) p a (c.acceptors n)) h
  ]

  Reply-IsAbove :
      (c : Cluster L) (v : L) (n k : NodeId) (value : L) (kind : CommandType) (sent : L)
      → Le (c.acceptors k).accepted_value sent
      → Reply lat Le (c.acceptors k) value kind sent
      → IsAbove Le v n c
      → IsAbove Le v n (record {
        acceptors =
            updated lat Valid Le laws c k (record (c.acceptors k) { accepted_value = sent });
        log = note_ack k kind (some sent) c.log;
      })
  Reply-IsAbove c v n k value kind sent le (accepted below) h = record {
    holds = holds-updated c v n k _ le h.holds;
    logged = λ w i. elim i [
      | inl (p, q) ↦ subst (Le v) q (
          laws.le_trans v _ sent (subst (λ j. Le v (c.acceptors j).accepted_value) (sym p) h.holds)
            le)
      | inr l ↦ h.logged w l
    ];
  }
  Reply-IsAbove c v n k value kind sent le (refused above) h = record {
    holds = holds-updated c v n k _ le h.holds;
    logged = h.logged;
  }

  deliver-IsAbove :
      (c : Cluster L) (v : L) (n k : NodeId) (msg : Message L)
      → ValidMessage Valid msg
      → Inv Valid Le c
      → IsAbove Le v n c
      → IsAbove Le v n (deliver lat c k msg)
  unfolding deliver
  deliver-IsAbove c v n k msg valid inv h = elim (Option-cases msg.payload.value) [
    | inl e ↦ rw (handle_propose-nil lat Valid Le laws (c.acceptors k) msg e) (record {
      holds = holds-updated c v n k (c.acceptors k) (laws.le_refl _) h.holds;
      logged = h.logged;
    })
    | inr (value, e) ↦
        let (kind, sent, reply, eq, _, le, _) =
          handle_propose-replies lat Valid Le laws (c.acceptors k) msg value (inv.valid k)
            (valid value e) e in
        rw eq (Reply-IsAbove c v n k value kind sent le reply h)
  ]

  deliver_all-IsAbove :
      (c : Cluster L) (v : L) (n : NodeId) (run : List (NodeId × Message L))
      → All (λ d. ValidMessage Valid d.1) run
      → Inv Valid Le c
      → IsAbove Le v n c
      → IsAbove Le v n (deliver_all lat c run)
  unfolding deliver_all
  deliver_all-IsAbove c v n [] valid inv h = h
  deliver_all-IsAbove c v n ((k, msg) ∷ rest) valid inv h =
      deliver_all-IsAbove (deliver lat c k msg) v n rest valid.1
        (deliver-Inv lat Valid Le laws c k msg valid.0 inv)
        (deliver-IsAbove c v n k msg valid.0 inv h)

  -- When a quorum of different peers has acknowledged `v`, and then, over any deliveries of valid
  -- proposals, a quorum acknowledges `w`, each member of it after that moment, `w` contains `v`.
  pub quorums-ordered :
      (peers : GoMap NodeId String) (c : Cluster L) (run : List (NodeId × Message L)) (v w : L)
      → Distinct peers
      → Inv Valid Le c
      → All (λ d. ValidMessage Valid d.1) run
      → Acked peers c v
      → Acked peers (deliver_all lat (from_now c) run) w
      → Le v w
  quorums-ordered peers c run v w d inv valid p q =
      let (n, first, second) =
        overlap p.voters q.voters peers p.distinct q.distinct d p.among q.among
          (omega (arith, p.enough, q.enough)) in
      let now : Inv Valid Le (from_now c) = record {
        valid = inv.valid;
        below = λ _ _ h. absurd h;
        comparable = λ _ _ _ h _. absurd h;
      } in
      let above : IsAbove Le v n (from_now c) = record {
        holds = inv.below n v (p.acked n first);
        logged = λ w h. absurd h;
      } in
      (deliver_all-IsAbove (from_now c) v n run valid now above).logged w (q.acked n second)
