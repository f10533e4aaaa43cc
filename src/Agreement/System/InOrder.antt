-- ===== src/Agreement/System/InOrder.antt =====
-- Every step of the cluster keeps the acceptors, the proposers and their counts in order.
use suffren.Base.{
  ◌≡◌, refl, subst, true, false, Bool-cases, inl, inr, none, some, String, List, [], ◌∷◌, ◌++◌, All,
  All-append, All-map, ite, string_key,
}
use suffren.Base.Result.{ok}
use suffren.GoMap.{GoMap, lookup, put, Has}
use suffren.Crdt.GCounter.{NodeId}
use suffren.Crdt.Lattice.{Lattice, IsLattice}
use suffren.Protocol.{Message}
use suffren.Agreement.Output.{Output}
use suffren.Agreement.Acceptor.{handle_propose}
use suffren.Agreement.Acceptor.Chain.{ValidMessage}
use suffren.Agreement.Acceptor.Cluster.{Inv, Logged, deliver, deliver-Inv}
use suffren.Agreement.Proposer.{
  check_and_handle_quorum, Proposer, propose_value, count_ack, count_nack, handle_ack, handle_nack,
}
use suffren.Agreement.Proposer.Round.{
  IsValid, handle_ack-Climbs, handle_nack-Climbs, propose_value-Climbs,
}
use suffren.Agreement.Learner.{Learner, handle_learn}
use suffren.Agreement.System.{
  Learned, hears, at_node, System, learned_values, kept_voters, moved, Step, delivers, proposes,
  counts_ack, gets_nack, Steps, begin, then_step,
}
use suffren.Agreement.System.Counted.{IsAgreed, Counts, nobody-Backs, kept-Counts, check-Counts}
use suffren.Agreement.System.Voters.{
  Logged-note_acks, Counts-Grows, IsAgreed-Grows, ack-Counts, nack-Counts,
}
use suffren.Agreement.System.Heard.{ok_unique, IsKnown, IsKnown-append, handle_learn-takes}

module _ {L : Type 0} (lat : Lattice L) (Valid : L → Type 0) (Le : L → L → Type 0)
    (laws : IsLattice lat Valid Le) (peers : GoMap NodeId String) where
  -- The acceptors and the proposers are in order, the counts stand for acceptors, and what has been
  -- learned is agreed.
  pub record IsInOrder (s : System L) : Type 0 where
    pub cluster : Inv Valid Le s.cluster
    pub valid : (n : NodeId) → IsValid Valid Le (s.proposers n)
    pub counts : (n : NodeId) → Counts Le peers s.cluster.log (s.proposers n) (s.voters n)
    pub agreed : All (IsAgreed Le peers s.cluster.log) s.learned
    pub learners : (n : NodeId) → IsKnown Le s.learned (s.learners n).learned_value

  -- What a handler of one proposer has to keep.
  moved-IsInOrder :
      (s : System L) (n : NodeId) (p : Proposer L) (voters : GoMap NodeId (Unit {0}))
      (out : List (Output L))
      → IsInOrder s
      → IsValid Valid Le p
      → Counts Le peers s.cluster.log p (kept_voters p voters)
      → All (IsAgreed Le peers s.cluster.log) (learned_values out)
      → IsInOrder (moved s n p voters out)
  moved-IsInOrder s n p voters out h v c a = record {
    cluster = h.cluster;
    valid = λ k. valid_at k (string_key.dec n k);
    counts = λ k. counts_at k (string_key.dec n k);
    agreed = All-append _ (learned_values out) s.learned a h.agreed;
    learners = λ k. IsKnown-append Le (learned_values out) s.learned _ (h.learners k);
  }
    where
      valid_at : (k : NodeId) (d : Dec (n ≡ k)) → IsValid Valid Le (ite d p (s.proposers k))
      valid_at k (yes e) = v
      valid_at k (no ne) = h.valid k

      counts_at :
          (k : NodeId) (d : Dec (n ≡ k))
          → Counts Le peers s.cluster.log
              (ite d p (s.proposers k))
              (ite d (kept_voters p voters) (s.voters k))
      counts_at k (yes e) = c
      counts_at k (no ne) = h.counts k

  deliver-IsInOrder :
      (s : System L) (n : NodeId) (msg : Message L)
      → ValidMessage Valid msg
      → IsInOrder s
      → IsInOrder (record s { cluster = deliver lat s.cluster n msg })
  unfolding deliver
  deliver-IsInOrder s n msg valid h = record {
    cluster = deliver-Inv lat Valid Le laws s.cluster n msg valid h.cluster;
    valid = h.valid;
    counts = λ k. Counts-Grows Le peers _ _ (s.proposers k) (s.voters k) grows (h.counts k);
    agreed = All-map (λ x. IsAgreed-Grows Le peers _ _ grows x) s.learned h.agreed;
    learners = h.learners;
  }
    where
      grows :
          (k : NodeId) (v : L)
          → Logged k v s.cluster.log
          → Logged k v (deliver lat s.cluster n msg).log
      grows k v l =
          Logged-note_acks Le peers n k v (handle_propose lat (s.cluster.acceptors n) msg).1
            s.cluster.log l

  -- The counts and the values that a handler's end leaves, from the state that it reaches before.
  ended :
      (s : System L) (n : NodeId) (q : Proposer L) (voters : GoMap NodeId (Unit {0}))
      (r : Proposer L × List (Output L))
      → IsInOrder s
      → check_and_handle_quorum q ≡ r
      → IsValid Valid Le r.0
      → Counts Le peers s.cluster.log q voters
      → IsInOrder (moved s n r.0 voters r.1)
  ended s n q voters r h e v c =
      let (counts, agreed) =
        subst
          (λ r.
            Counts Le peers s.cluster.log r.0 (kept_voters r.0 voters)
            × All (IsAgreed Le peers s.cluster.log) (learned_values r.1))
          e (check-Counts Le peers s.cluster.log q voters c) in
      moved-IsInOrder s n r.0 voters r.1 h v counts agreed

  ack-IsInOrder :
      (s : System L) (n : NodeId) (msg : Message L) (x : L) (p : Proposer L) (out : List (Output L))
      → Valid x
      → msg.payload.value ≡ some x
      → Logged msg.sender x s.cluster.log
      → Has msg.sender peers
      → lat.equals x (s.proposers n).proposed_value ≡ true
      → ((s.proposers n).quorum_reached ≡ false → lookup msg.sender (s.voters n) ≡ none)
      → handle_ack lat (s.proposers n) msg ≡ ok (p, out)
      → IsInOrder s
      → IsInOrder (moved s n p (put msg.sender tt (s.voters n)) out)
  unfolding handle_ack count_ack
  ack-IsInOrder s n msg x p out v e l known t fresh run h =
      let q = s.proposers n in
      let counted = ok_unique (handle_ack lat q msg) (count_ack q) (p, out) (rw (e, t) refl) run in
      let (p', out', run', up) = handle_ack-Climbs lat Valid Le laws q msg x (h.valid n) e in
      let same = ok_unique (handle_ack lat q msg) (p', out') (p, out) run' run in
      let (below, above) = (laws.equals_iff x q.proposed_value v (h.valid n).proposed).0 t in
      ended s n (record q { acks_received = q.acks_received ++ true ∷ [] })
        (put msg.sender tt (s.voters n)) (p, out) h counted
        (subst (λ r. IsValid Valid Le r.0) same up.valid)
        (ack-Counts Le peers s.cluster.log q x (s.voters n) msg.sender known l below above fresh
          (h.counts n))

  nack-IsInOrder :
      (s : System L) (n : NodeId) (msg : Message L) (x : L) (p : Proposer L) (out : List (Output L))
      → Valid x
      → msg.payload.value ≡ some x
      → handle_nack lat (s.proposers n) msg ≡ ok (p, out)
      → IsInOrder s
      → IsInOrder (moved s n p (s.voters n) out)
  unfolding handle_nack count_nack
  nack-IsInOrder s n msg x p out v e run h =
      let q = s.proposers n in
      let (p', out', run', up) = handle_nack-Climbs lat Valid Le laws q msg x (h.valid n) v e in
      let same = ok_unique (handle_nack lat q msg) (p', out') (p, out) run' run in
      let valid : IsValid Valid Le p = subst (λ r. IsValid Valid Le r.0) same up.valid in
      elim (Bool-cases (lat.is_in q.proposed_value x)) [
        | inl t ↦
            ended s n
              (record q {
                acks_received = q.acks_received ++ false ∷ [];
                buffered_value = lat.join q.buffered_value x;
              })
              (s.voters n) (p, out) h
              (ok_unique (handle_nack lat q msg) (count_nack lat q x) (p, out) (rw (e, t) refl) run)
              valid
              (nack-Counts Le peers s.cluster.log q (lat.join q.buffered_value x) (s.voters n)
                (h.counts n).size)
        | inr t ↦
            subst (λ r. IsInOrder (moved s n r.0 (s.voters n) r.1))
              (ok_unique (handle_nack lat q msg) (q, []) (p, out) (rw (e, t) refl) run)
              (moved-IsInOrder s n q (s.voters n) [] h (h.valid n)
                (kept-Counts Le peers s.cluster.log q (s.voters n) (h.counts n)) tt)
      ]

  proposes-IsInOrder :
      (s : System L) (n : NodeId) (x : L)
      → Valid x
      → IsInOrder s
      → IsInOrder (
          moved s n
            (propose_value lat (s.proposers n) x).0
            (s.voters n)
            (propose_value lat (s.proposers n) x).1)
  unfolding propose_value
  proposes-IsInOrder s n x v h =
      let q = s.proposers n in
      moved-IsInOrder s n (propose_value lat q x).0 (s.voters n) (propose_value lat q x).1 h
        (propose_value-Climbs lat Valid Le laws q x (h.valid n) v).0.valid
        (record {
          size = (h.counts n).size;
          number = λ _ _. refl;
          backs = λ _ _. nobody-Backs Le peers s.cluster.log (lat.join q.buffered_value x);
        })
        tt

  hears-IsInOrder :
      (s : System L) (n : NodeId) (msg : Message L) (x : L) (l : Learner L) (out : List (Output L))
      → msg.payload.value ≡ some x
      → Learned x s.learned
      → handle_learn lat (s.learners n) msg ≡ ok (l, out)
      → IsInOrder s
      → IsInOrder (record s { learners = at_node n l s.learners })
  hears-IsInOrder s n msg x l out e i run h = record {
    cluster = h.cluster;
    valid = h.valid;
    counts = h.counts;
    agreed = h.agreed;
    learners = λ k. known k (string_key.dec n k);
  }
    where
      known :
          (k : NodeId) (d : Dec (n ≡ k))
          → IsKnown Le s.learned (ite d l (s.learners k)).learned_value
      known k (yes p) = elim (handle_learn-takes lat (s.learners n) msg x l out e run) [
        | inl t ↦ subst (IsKnown Le s.learned) t (h.learners n)
        | inr t ↦ inl (subst (λ v. Learned v s.learned) t i)
      ]
      known k (no p) = h.learners k

  pub Step-IsInOrder : (s s' : System L) → Step lat Valid peers s s' → IsInOrder s → IsInOrder s'
  Step-IsInOrder s s' (delivers n msg valid) h = deliver-IsInOrder s n msg valid h
  Step-IsInOrder s s' (proposes n x v) h = proposes-IsInOrder s n x v h
  Step-IsInOrder s s' (counts_ack n msg x p out v e l known t fresh run) h =
      ack-IsInOrder s n msg x p out v e l known t fresh run h
  Step-IsInOrder s s' (gets_nack n msg x p out v e run) h = nack-IsInOrder s n msg x p out v e run h
  Step-IsInOrder s s' (hears n msg x l out e i run) h = hears-IsInOrder s n msg x l out e i run h

  pub steps-IsInOrder : (s s' : System L) → IsInOrder s → Steps lat Valid peers s s' → IsInOrder s'
  steps-IsInOrder s s' h begin = h
  steps-IsInOrder s s'' h (then_step {s' = s'} steps step) =
      Step-IsInOrder s' s'' step (steps-IsInOrder s s' h steps)
