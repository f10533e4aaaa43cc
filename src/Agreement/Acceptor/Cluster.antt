-- ===== src/Agreement/Acceptor/Cluster.antt =====
-- The acceptors of a cluster, each fed with proposals in any interleaving, and what they have
-- acknowledged. The order of the deliveries is arbitrary: a message may be late, lost or repeated.
use suffren.Base.{
  ◌≡◌, refl, subst, sym, ◌⊎◌, inl, inr, Option-cases, List, [], ◌∷◌, some, All, Option, ite, if_pos,
  if_neg, string_key,
}
use suffren.Crdt.GCounter.{NodeId}
use suffren.Crdt.Lattice.{Lattice, IsLattice}
use suffren.Protocol.{Message, CommandType, ack}
use suffren.Agreement.Output.{Output, send}
use suffren.Agreement.Acceptor.{Acceptor, handle_propose}
use suffren.Agreement.Acceptor.Handle.{Reply, accepted, refused, handle_propose-replies}
use suffren.Agreement.Acceptor.Chain.{ValidMessage, handle_propose-nil}

-- `log` holds each acknowledgement with the acceptor that sent it, the latest first.
pub record Cluster (L : Type 0) : Type 0 where
  pub acceptors : NodeId → Acceptor L
  pub log : List (NodeId × L)

abbrev pub note_ack :
    {L : Type 0} → NodeId → CommandType → Option L → List (NodeId × L) → List (NodeId × L)
note_ack n ack (some v) log = (n, v) ∷ log
note_ack n _ _ log = log

-- The values that a handler acknowledges, put before a log.
abbrev pub note_acks :
    {L : Type 0} → NodeId → List (Output L) → List (NodeId × L) → List (NodeId × L)
note_acks n [] log = log
note_acks n (send to msg ∷ out) log =
    note_ack n msg.payload.kind msg.payload.value (note_acks n out log)
note_acks n (_ ∷ out) log = note_acks n out log

module _ {L : Type 0} (lat : Lattice L) where
  -- A proposal reaches the acceptor of node `n`.
  unfoldable pub deliver : Cluster L → NodeId → Message L → Cluster L
  unfolding handle_propose
  deliver c n msg =
      let (a, out) = handle_propose lat (c.acceptors n) msg in
      record {
        acceptors = λ k. ite (string_key.dec n k) a (c.acceptors k);
        log = note_acks n out c.log;
      }

  unfoldable pub deliver_all : Cluster L → List (NodeId × Message L) → Cluster L
  unfolding deliver
  deliver_all c [] = c
  deliver_all c ((n, msg) ∷ rest) = deliver_all (deliver c n msg) rest

-- The acceptor of `n` has acknowledged `v`.
abbrev pub Logged : {L : Type 0} → NodeId → L → List (NodeId × L) → Type 0
Logged n v [] = ⊥
Logged n v ((k, w) ∷ log) = ((k ≡ n) × (w ≡ v)) ⊎ Logged n v log

module _ {L : Type 0} (Valid : L → Type 0) (Le : L → L → Type 0) where
  -- Each acceptor has acknowledged an ascending sequence of values, all below the one it holds.
  pub record Inv (c : Cluster L) : Type 0 where
    pub valid : (n : NodeId) → Valid (c.acceptors n).accepted_value
    pub below : (n : NodeId) (v : L) → Logged n v c.log → Le v (c.acceptors n).accepted_value
    pub comparable : (n : NodeId) (v w : L) → Logged n v c.log → Logged n w c.log → Le v w ⊎ Le w v

module _ {L : Type 0} (lat : Lattice L) (Valid : L → Type 0) (Le : L → L → Type 0)
    (laws : IsLattice lat Valid Le) where
  -- The acceptors with a new state at `n`.
  abbrev pub updated : Cluster L → NodeId → Acceptor L → NodeId → Acceptor L
  updated c n a k = ite (string_key.dec n k) a (c.acceptors k)

  Inv-keep :
      (c : Cluster L) (n : NodeId) (a : Acceptor L)
      → Valid a.accepted_value
      → Le (c.acceptors n).accepted_value a.accepted_value
      → Inv Valid Le c
      → Inv Valid Le (record { acceptors = updated c n a; log = c.log })
  Inv-keep c n a v le inv = record {
    valid = λ k. elim (string_key.dec n k) [
      | yes p ↦ rw (if_pos (string_key.dec n k) p a (c.acceptors k)) v
      | no p ↦ rw (if_neg (string_key.dec n k) p a (c.acceptors k)) (inv.valid k)
    ];
    below = λ k w h. elim (string_key.dec n k) [
      | yes p ↦
          rw (if_pos (string_key.dec n k) p a (c.acceptors k))
            (laws.le_trans w _ _ (inv.below n w (subst (λ j. Logged j w c.log) (sym p) h)) le)
      | no p ↦ rw (if_neg (string_key.dec n k) p a (c.acceptors k)) (inv.below k w h)
    ];
    comparable = inv.comparable;
  }

  Inv-ack :
      (c : Cluster L) (n : NodeId) (v : L)
      → Le (c.acceptors n).accepted_value v
      → (accs : NodeId → Acceptor L) → Le v (accs n).accepted_value
      → Inv Valid Le c
      → Inv Valid Le (record { acceptors = accs; log = c.log })
      → Inv Valid Le (record { acceptors = accs; log = (n, v) ∷ c.log })
  Inv-ack c n v le accs le' old inv = record {
    valid = inv.valid;
    below = λ k w h. elim h [
      | inl (p, q) ↦
          subst (λ x. Le x (accs k).accepted_value) q
            (subst (λ j. Le v (accs j).accepted_value) p le')
      | inr l ↦ inv.below k w l
    ];
    comparable = λ k w x h i. order k w x h i;
  }
    where
      earlier : (k : NodeId) (w : L) → n ≡ k → Logged k w c.log → Le w v
      earlier k w p l =
          laws.le_trans w _ v (old.below n w (subst (λ j. Logged j w c.log) (sym p) l)) le

      order :
          (k : NodeId) (w x : L)
          → Logged k w ((n, v) ∷ c.log)
          → Logged k x ((n, v) ∷ c.log)
          → Le w x ⊎ Le x w
      order k w x (inl (p, q)) (inl (r, t)) =
          inl (subst (λ y. Le y x) q (subst (Le v) t (laws.le_refl v)))
      order k w x (inl (p, q)) (inr l) = inr (subst (Le x) q (earlier k x p l))
      order k w x (inr l) (inl (r, t)) = inl (subst (Le w) t (earlier k w r l))
      order k w x (inr l) (inr m) = inv.comparable k w x l m

  Reply-Inv :
      (c : Cluster L) (n : NodeId) (value : L) (kind : CommandType) (sent : L) (to : NodeId)
      → Valid sent
      → Le (c.acceptors n).accepted_value sent
      → Reply lat Le (c.acceptors n) value kind sent
      → Inv Valid Le c
      → Inv Valid Le (record {
        acceptors = updated c n (record (c.acceptors n) { accepted_value = sent });
        log = note_ack n kind (some sent) c.log;
      })
  Reply-Inv c n value kind sent to v le (accepted below) inv =
      let kept = Inv-keep c n (record (c.acceptors n) { accepted_value = sent }) v le inv in
      Inv-ack c n sent le (updated c n (record (c.acceptors n) { accepted_value = sent }))
        (rw
          (if_pos (string_key.dec n n) refl (record (c.acceptors n) { accepted_value = sent })
            (c.acceptors n))
          (laws.le_refl sent))
        inv kept
  Reply-Inv c n value kind sent to v le (refused above) inv =
      Inv-keep c n (record (c.acceptors n) { accepted_value = sent }) v le inv

  pub deliver-Inv :
      (c : Cluster L) (n : NodeId) (msg : Message L)
      → ValidMessage Valid msg
      → Inv Valid Le c
      → Inv Valid Le (deliver lat c n msg)
  unfolding deliver
  deliver-Inv c n msg valid inv = elim (Option-cases msg.payload.value) [
    | inl e ↦
        rw (handle_propose-nil lat Valid Le laws (c.acceptors n) msg e)
          (Inv-keep c n (c.acceptors n) (inv.valid n) (laws.le_refl _) inv)
    | inr (value, e) ↦
        let (kind, sent, reply, eq, v, le, _) =
          handle_propose-replies lat Valid Le laws (c.acceptors n) msg value (inv.valid n)
            (valid value e) e in
        rw eq (Reply-Inv c n value kind sent msg.sender v le reply inv)
  ]

  -- However the proposals are interleaved, the invariant holds.
  pub deliver_all-Inv :
      (c : Cluster L) (run : List (NodeId × Message L))
      → All (λ d. ValidMessage Valid d.1) run
      → Inv Valid Le c
      → Inv Valid Le (deliver_all lat c run)
  unfolding deliver_all
  deliver_all-Inv c [] h inv = inv
  deliver_all-Inv c ((n, msg) ∷ rest) h inv =
      deliver_all-Inv (deliver lat c n msg) rest h.1 (deliver-Inv c n msg h.0 inv)
