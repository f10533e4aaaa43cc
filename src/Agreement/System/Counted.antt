-- ===== src/Agreement/System/Counted.antt =====
-- What the replies that a proposer has counted stand for.
use suffren.Base.{
  ℕ, ◌≤◌, ◌==◌, ◌≡◌, refl, sym, ◌∙◌, subst, true, false, Bool-cases, inl, inr, Option, none, some,
  String, List, [], ◌∷◌, length, false≢true, All, arith, string_key, leb,
}
use suffren.GoMap.{GoMap, lookup, Has, Distinct}
use suffren.Crdt.GCounter.{NodeId}
use suffren.Protocol.{message, propose, learn}
use suffren.Agreement.Output.{Output, broadcast}
use suffren.Agreement.Proposer.{Proposer, no_nacks, quorum_of, check_and_handle_quorum}
use suffren.Agreement.Acceptor.Cluster.{Logged}
use suffren.Agreement.System.{learned_values, kept_voters}

eq_of_test : (a b : ℕ) → (a == b) ≡ true → a ≡ b
eq_of_test a b h = ground arith

enough :
    (size quorum acks voters : ℕ)
    → size ≡ quorum
    → acks ≡ voters
    → leb size acks ≡ true
    → quorum ≤ voters
enough size quorum acks voters p q t = ground (arith, p, q, t)

-- The four ends of a handler.
module _ {L : Type 0} (p : Proposer L) where
  check-spent : p.quorum_reached ≡ true → check_and_handle_quorum p ≡ (p, [])
  unfolding check_and_handle_quorum
  check-spent q = ground arith

  check-waits :
      p.quorum_reached ≡ false
      → leb p.quorum_size (length p.acks_received) ≡ false
      → check_and_handle_quorum p ≡ (p, [])
  unfolding check_and_handle_quorum
  check-waits q t = ground arith

  check-commits :
      p.quorum_reached ≡ false
      → leb p.quorum_size (length p.acks_received) ≡ true
      → no_nacks p.acks_received ≡ true
      → check_and_handle_quorum p ≡ (
        record p { quorum_reached = true },
        broadcast (message p.node_id learn (some p.proposed_value)) ∷ [],
      )
  unfolding check_and_handle_quorum
  check-commits q t n = ground arith

  check-reproposes :
      p.quorum_reached ≡ false
      → leb p.quorum_size (length p.acks_received) ≡ true
      → no_nacks p.acks_received ≡ false
      → check_and_handle_quorum p ≡ (
        record p { proposed_value = p.buffered_value; acks_received = []; quorum_reached = false },
        broadcast (message p.node_id propose (some p.buffered_value)) ∷ [],
      )
  unfolding check_and_handle_quorum
  check-reproposes q t n = ground arith

module _ {L : Type 0} (Le : L → L → Type 0) (peers : GoMap NodeId String) where
  -- Different peers, each of which has acknowledged this value, up to the order both ways.
  pub record Backs (log : List (NodeId × L)) (x : L) (voters : GoMap NodeId (Unit {0}))
      : Type 0 where
    pub distinct : Distinct voters
    pub among : (k : NodeId) → Has k voters → Has k peers
    pub acked : (k : NodeId) → Has k voters → (w : L) × Logged k w log × Le w x × Le x w

  -- A quorum of them.
  pub record IsAgreed (log : List (NodeId × L)) (x : L) : Type 0 where
    pub voters : GoMap NodeId (Unit {0})
    pub backs : Backs log x voters
    pub enough : quorum_of peers ≤ length voters

  -- The count of an open round without NACKs is that of its voters, which back its value.
  pub record Counts (log : List (NodeId × L)) (p : Proposer L) (voters : GoMap NodeId (Unit {0}))
      : Type 0 where
    pub size : p.quorum_size ≡ quorum_of peers
    pub number :
        p.quorum_reached ≡ false
        → no_nacks p.acks_received ≡ true
        → length p.acks_received ≡ length voters
    pub backs :
        p.quorum_reached ≡ false
        → no_nacks p.acks_received ≡ true
        → Backs log p.proposed_value voters

  pub nobody-Backs : (log : List (NodeId × L)) (x : L) → Backs log x []
  unfolding lookup
  nobody-Backs log x = record {
    distinct = tt;
    among = λ k (u, e). absurd (nothing u e);
    acked = λ k (u, e). absurd (nothing u e);
  }
    where
      nothing : (u : Unit {0}) → Path (Option (Unit {0})) none (some u) → ⊥
      nothing u e = cc

  pub kept-Counts :
      (log : List (NodeId × L)) (p : Proposer L) (voters : GoMap NodeId (Unit {0}))
      → Counts log p voters
      → Counts log p (kept_voters p voters)
  kept-Counts log p voters h = elim (Bool-cases (length p.acks_received == 0)) [
    | inl t ↦ rw (t) (record {
      size = h.size;
      number = λ q n. eq_of_test (length p.acks_received) 0 t;
      backs = λ q n. nobody-Backs log p.proposed_value;
    })
    | inr t ↦ rw (t) h
  ]

  -- Where no round is open there is nothing to count.
  spent-Counts :
      (log : List (NodeId × L)) (p : Proposer L) (voters : GoMap NodeId (Unit {0}))
      → p.quorum_size ≡ quorum_of peers
      → p.quorum_reached ≡ true
      → Counts log p voters
  spent-Counts log p voters size q = record {
    size = size;
    number = λ r n. absurd (false≢true (sym r ∙ q));
    backs = λ r n. absurd (false≢true (sym r ∙ q));
  }

  -- At the end of a handler the counts are in order, and a LEARN is for an agreed value.
  abbrev Checked :
      List (NodeId × L) → GoMap NodeId (Unit {0}) → Proposer L × List (Output L) → Type 0
  Checked log voters r =
      Counts log r.0 (kept_voters r.0 voters) × All (IsAgreed log) (learned_values r.1)

  pub check-Counts :
      (log : List (NodeId × L)) (p : Proposer L) (voters : GoMap NodeId (Unit {0}))
      → Counts log p voters
      → Counts log (check_and_handle_quorum p).0 (kept_voters (check_and_handle_quorum p).0 voters)
        × All (IsAgreed log) (learned_values (check_and_handle_quorum p).1)
  check-Counts log p voters h = elim (Bool-cases p.quorum_reached) [
    | inl q ↦ subst (Checked log voters) (sym (check-spent p q)) (kept-Counts log p voters h, tt)
    | inr q ↦ elim (Bool-cases (leb p.quorum_size (length p.acks_received))) [
      | inr t ↦
          subst (Checked log voters) (sym (check-waits p q t)) (kept-Counts log p voters h, tt)
      | inl t ↦ elim (Bool-cases (no_nacks p.acks_received)) [
        | inl n ↦ subst (Checked log voters) (sym (check-commits p q t n)) (
          spent-Counts log (record p { quorum_reached = true }) _ h.size refl,
          (
            record {
              voters = voters;
              backs = h.backs q n;
              enough = enough _ _ _ _ h.size (h.number q n) t;
            },
            tt,
          ),
        )
        | inr n ↦ subst (Checked log voters) (sym (check-reproposes p q t n)) (
          record {
            size = h.size;
            number = λ _ _. refl;
            backs = λ _ _. nobody-Backs log p.buffered_value;
          },
          tt,
        )
      ]
    ]
  ]
