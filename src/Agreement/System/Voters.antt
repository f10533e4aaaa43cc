-- ===== src/Agreement/System/Voters.antt =====
-- The voters of a round as the log of the acceptors and the round grow.
use suffren.Base.{
  false≢true, ◌+◌, ◌≡◌, sym, ◌∙◌, subst, true, false, inr, Option, none, some, String, List, [],
  ◌∷◌, ◌++◌, length, length-append, arith, string_key,
}
use suffren.GoMap.{GoMap, lookup, put, Has}
use suffren.GoMap.Laws.{put-Distinct, lookup-put_ne}
use suffren.GoMap.Size.{length-put}
use suffren.Crdt.GCounter.{NodeId}
use suffren.Protocol.{CommandType, propose, ack, nack, learn, unknown}
use suffren.Agreement.Output.{Output, send, broadcast, broadcast_to_others, on_learn}
use suffren.Agreement.Acceptor.Cluster.{Logged, note_ack, note_acks}
use suffren.Agreement.Proposer.{Proposer, no_nacks, quorum_of}
use suffren.Agreement.Proposer.Commit.{no_nacks-append}
use suffren.Agreement.System.Counted.{Backs, IsAgreed, Counts}

module _ {L : Type 0} (Le : L → L → Type 0) (peers : GoMap NodeId String) where
  Logged-note_ack :
      (n k : NodeId) (v : L) (kind : CommandType) (x : Option L) (log : List (NodeId × L))
      → Logged k v log
      → Logged k v (note_ack n kind x log)
  Logged-note_ack n k v ack (some x) log h = inr h
  Logged-note_ack n k v ack none log h = h
  Logged-note_ack n k v propose x log h = h
  Logged-note_ack n k v nack x log h = h
  Logged-note_ack n k v learn x log h = h
  Logged-note_ack n k v (unknown b) x log h = h

  -- What has been acknowledged stays so.
  pub Logged-note_acks :
      (n k : NodeId) (v : L) (out : List (Output L)) (log : List (NodeId × L))
      → Logged k v log
      → Logged k v (note_acks n out log)
  Logged-note_acks n k v [] log h = h
  Logged-note_acks n k v (send to msg ∷ out) log h =
      Logged-note_ack n k v msg.payload.kind msg.payload.value _ (Logged-note_acks n k v out log h)
  Logged-note_acks n k v (broadcast msg ∷ out) log h = Logged-note_acks n k v out log h
  Logged-note_acks n k v (broadcast_to_others msg m ∷ out) log h = Logged-note_acks n k v out log h
  Logged-note_acks n k v (on_learn x ∷ out) log h = Logged-note_acks n k v out log h

  -- The log has grown.
  abbrev pub Grows : List (NodeId × L) → List (NodeId × L) → Type 0
  Grows log log' = (k : NodeId) (v : L) → Logged k v log → Logged k v log'

  Backs-Grows :
      (log log' : List (NodeId × L)) (x : L) (voters : GoMap NodeId (Unit {0}))
      → Grows log log'
      → Backs Le peers log x voters
      → Backs Le peers log' x voters
  Backs-Grows log log' x voters g h = record {
    distinct = h.distinct;
    among = h.among;
    acked = λ k v. let (w, l, below, above) = h.acked k v in (w, g k w l, below, above);
  }

  pub Counts-Grows :
      (log log' : List (NodeId × L)) (p : Proposer L) (voters : GoMap NodeId (Unit {0}))
      → Grows log log'
      → Counts Le peers log p voters
      → Counts Le peers log' p voters
  Counts-Grows log log' p voters g h = record {
    size = h.size;
    number = h.number;
    backs = λ q n. Backs-Grows log log' p.proposed_value voters g (h.backs q n);
  }

  pub IsAgreed-Grows :
      (log log' : List (NodeId × L))
      → Grows log log'
      → (x : L) → IsAgreed Le peers log x
      → IsAgreed Le peers log' x
  IsAgreed-Grows log log' g x h = record {
    voters = h.voters;
    backs = Backs-Grows log log' x h.voters g h.backs;
    enough = h.enough;
  }

  -- One more voter.
  Backs-put :
      (log : List (NodeId × L)) (x w : L) (voters : GoMap NodeId (Unit {0})) (n : NodeId)
      → Has n peers
      → Logged n w log
      → Le w x
      → Le x w
      → Backs Le peers log x voters
      → Backs Le peers log x (put n tt voters)
  Backs-put log x w voters n known l below above h = record {
    distinct = put-Distinct n tt voters h.distinct;
    among = λ k v. elim (string_key.dec n k) [
      | yes e ↦ subst (λ j. Has j peers) e known
      | no ne ↦ h.among k (older k ne v)
    ];
    acked = λ k v. elim (string_key.dec n k) [
      | yes e ↦ (w, subst (λ j. Logged j w log) e l, below, above)
      | no ne ↦ h.acked k (older k ne v)
    ];
  }
    where
      older : (k : NodeId) → ¬ (n ≡ k) → Has k (put n tt voters) → Has k voters
      older k ne (u, e) = (u, sym (lookup-put_ne n k tt voters ne) ∙ e)

  length-put_new :
      (n : NodeId) (voters : GoMap NodeId (Unit {0}))
      → lookup n voters ≡ none
      → length (put n tt voters) ≡ length voters + 1
  length-put_new n voters e = ground (arith, length-put n tt voters)

  -- An ACK of a new voter keeps the count.
  pub ack-Counts :
      (log : List (NodeId × L)) (p : Proposer L) (w : L) (voters : GoMap NodeId (Unit {0}))
      (n : NodeId)
      → Has n peers
      → Logged n w log
      → Le w p.proposed_value
      → Le p.proposed_value w
      → (p.quorum_reached ≡ false → lookup n voters ≡ none)
      → Counts Le peers log p voters
      → Counts Le peers log
          (record p { acks_received = p.acks_received ++ true ∷ [] })
          (put n tt voters)
  ack-Counts log p w voters n known l below above fresh h = record {
    size = h.size;
    number = λ q c. omega (
      arith,
      length-append p.acks_received (true ∷ []),
      h.number q (clean c),
      length-put_new n voters (fresh q),
    );
    backs =
        λ q c. Backs-put log p.proposed_value w voters n known l below above (h.backs q (clean c));
  }
    where
      clean : no_nacks (p.acks_received ++ true ∷ []) ≡ true → no_nacks p.acks_received ≡ true
      clean c = sym (no_nacks-append p.acks_received true) ∙ c

  -- A NACK leaves nothing to count.
  pub nack-Counts :
      (log : List (NodeId × L)) (p : Proposer L) (x : L) (voters : GoMap NodeId (Unit {0}))
      → p.quorum_size ≡ quorum_of peers
      → Counts Le peers log
          (record p { acks_received = p.acks_received ++ false ∷ []; buffered_value = x })
          voters
  nack-Counts log p x voters size = record {
    size = size;
    number = λ q c. absurd (false≢true (sym (no_nacks-append p.acks_received false) ∙ c));
    backs = λ q c. absurd (false≢true (sym (no_nacks-append p.acks_received false) ∙ c));
  }
