-- ===== src/Agreement/Router/Mailboxes.antt =====
-- What the mailboxes hold.
use suffren.Base.{
  ℕ, ◌≤◌, ◌≡◌, refl, ap, subst, ◌⊎◌, inl, inr, List, [], ◌∷◌, All, All-append, length,
  length-append, arith, ltb, Bool-cases,
}
use suffren.Base.Result.{Result, ok, panic}
use suffren.Crdt.Lattice.{Lattice}
use suffren.Protocol.{CommandType, Message, propose, ack, nack, learn, unknown}
use suffren.Agreement.Output.{Output}
use suffren.Agreement.Proposer
use suffren.Agreement.Acceptor.{handle_propose}
use suffren.Agreement.Learner.{handle_learn}
use suffren.Agreement.Router.{
  MessageRouter, offer, handle_incoming_message, run_proposer, run_acceptor, run_learner, Step,
  arrives, proposer_runs, acceptor_runs, learner_runs, Steps, start, then_step,
}

-- A mailbox holds at most `size` messages, each for the role that it feeds.
pub record IsFor {L : Type 0} (Kind : CommandType → Type 0) (size : ℕ) (mailbox : List (Message L))
    : Type 0 where
  pub kinds : All (λ msg. Kind msg.payload.kind) mailbox
  pub bounded : length mailbox ≤ size

abbrev pub Answer : CommandType → Type 0
Answer kind = (kind ≡ ack) ⊎ (kind ≡ nack)

pub record IsSorted {L : Type 0} (r : MessageRouter L) : Type 0 where
  pub for_proposer : IsFor Answer r.msg_chan_size r.proposer_mailbox
  pub for_acceptor : IsFor (λ kind. kind ≡ propose) r.msg_chan_size r.acceptor_mailbox
  pub for_learner : IsFor (λ kind. kind ≡ learn) r.msg_chan_size r.learner_mailbox

module _ {L : Type 0} (Kind : CommandType → Type 0) where
  offer-IsFor :
      (size : ℕ) (mailbox : List (Message L)) (msg : Message L)
      → IsFor Kind size mailbox
      → Kind msg.payload.kind
      → IsFor Kind size (offer size mailbox msg)
  unfolding offer
  offer-IsFor size mailbox msg h k = elim (Bool-cases (ltb (length mailbox) size)) [
    | inl t ↦ rw (t) (record {
      kinds = All-append (λ m. Kind m.payload.kind) mailbox (msg ∷ []) h.kinds (k, tt);
      bounded = grind (arith, length-append mailbox (msg ∷ []), t);
    })
    | inr t ↦ rw (t) h
  ]

  rest-IsFor :
      (size : ℕ) (msg : Message L) (rest : List (Message L))
      → IsFor Kind size (msg ∷ rest)
      → IsFor Kind size rest
  rest-IsFor size msg rest h = record { kinds = h.kinds.1; bounded = omega (arith, h.bounded) }

List-cases {ℓ} :
    {A : Type ℓ} (xs : List A) → (xs ≡ []) ⊎ ((x : A) × (rest : List A) × (xs ≡ x ∷ rest))
List-cases [] = inl refl
List-cases (x ∷ xs) = inr (x, xs, refl)

Result-cases {ℓ} : {A : Type ℓ} (x : Result A) → (x ≡ panic) ⊎ ((a : A) × (x ≡ ok a))
Result-cases panic = inl refl
Result-cases (ok a) = inr (a, refl)

ok_unique {ℓ} : {A : Type ℓ} (x : Result A) (a b : A) → x ≡ ok a → x ≡ ok b → a ≡ b
ok_unique x a b p q = cc

not_both {ℓ} : {A : Type ℓ} (x : Result A) (a : A) → x ≡ panic → x ≡ ok a → ⊥
not_both x a p q = cc

module _ {L : Type 0} where
  incoming-by_kind :
      (r : MessageRouter L) (msg : Message L) (kind : CommandType)
      → msg.payload.kind ≡ kind
      → IsSorted r
      → IsSorted (handle_incoming_message r msg)
  unfolding handle_incoming_message
  incoming-by_kind r msg propose e h = rw (e) (record {
    for_proposer = h.for_proposer;
    for_acceptor =
        offer-IsFor (λ kind. kind ≡ propose) r.msg_chan_size r.acceptor_mailbox
          (record msg { payload = record msg.payload { kind = propose } }) h.for_acceptor refl;
    for_learner = h.for_learner;
  })
  incoming-by_kind r msg ack e h = rw (e) (record {
    for_proposer =
        offer-IsFor (Answer) r.msg_chan_size r.proposer_mailbox
          (record msg { payload = record msg.payload { kind = ack } }) h.for_proposer (inl refl);
    for_acceptor = h.for_acceptor;
    for_learner = h.for_learner;
  })
  incoming-by_kind r msg nack e h = rw (e) (record {
    for_proposer =
        offer-IsFor (Answer) r.msg_chan_size r.proposer_mailbox
          (record msg { payload = record msg.payload { kind = nack } }) h.for_proposer (inr refl);
    for_acceptor = h.for_acceptor;
    for_learner = h.for_learner;
  })
  incoming-by_kind r msg learn e h = rw (e) (record {
    for_proposer = h.for_proposer;
    for_acceptor = h.for_acceptor;
    for_learner =
        offer-IsFor (λ kind. kind ≡ learn) r.msg_chan_size r.learner_mailbox
          (record msg { payload = record msg.payload { kind = learn } }) h.for_learner refl;
  })
  incoming-by_kind r msg (unknown byte) e h = rw (e) h

module _ {L : Type 0} (lat : Lattice L) where
  by_result :
      (x : Result (MessageRouter L × List (Output L))) (r1 r' : MessageRouter L)
      (out1 out : List (Output L))
      → x ≡ ok (r1, out1)
      → x ≡ ok (r', out)
      → IsSorted r1
      → IsSorted r'
  by_result x r1 r' out1 out e e' h =
      subst (λ s. IsSorted s) (ap (λ q. q.0) (ok_unique x (r1, out1) (r', out) e e')) h

  proposer-IsSorted :
      (r r' : MessageRouter L) (out : List (Output L))
      → run_proposer lat r ≡ ok (r', out)
      → IsSorted r
      → IsSorted r'
  unfolding run_proposer
  proposer-IsSorted r r' out run h = elim (List-cases r.proposer_mailbox) [
    | inl e ↦ by_result (run_proposer lat r) r r' [] out (rw (e) refl) run h
    | inr (msg, rest, e) ↦ elim (Result-cases (Proposer.handle lat r.proposer msg)) [
      | inl p ↦ absurd (not_both (run_proposer lat r) (r', out) (rw (e, p) refl) run)
      | inr ((proposer, out1), p) ↦
          by_result (run_proposer lat r) (record r { proposer_mailbox = rest; proposer = proposer })
            r' out1 out (rw (e, p) refl) run
            (record {
              for_proposer =
                  rest-IsFor (Answer) r.msg_chan_size msg rest
                    (subst (IsFor (Answer) r.msg_chan_size) e h.for_proposer);
              for_acceptor = h.for_acceptor;
              for_learner = h.for_learner;
            })
    ]
  ]

  learner-IsSorted :
      (r r' : MessageRouter L) (out : List (Output L))
      → run_learner lat r ≡ ok (r', out)
      → IsSorted r
      → IsSorted r'
  unfolding run_learner
  learner-IsSorted r r' out run h = elim (List-cases r.learner_mailbox) [
    | inl e ↦ by_result (run_learner lat r) r r' [] out (rw (e) refl) run h
    | inr (msg, rest, e) ↦ elim (Result-cases (handle_learn lat r.learner msg)) [
      | inl p ↦ absurd (not_both (run_learner lat r) (r', out) (rw (e, p) refl) run)
      | inr ((learner, out1), p) ↦
          by_result (run_learner lat r) (record r { learner_mailbox = rest; learner = learner }) r'
            out1 out (rw (e, p) refl) run
            (record {
              for_proposer = h.for_proposer;
              for_acceptor = h.for_acceptor;
              for_learner =
                  rest-IsFor (λ kind. kind ≡ learn) r.msg_chan_size msg rest
                    (subst (IsFor (λ kind. kind ≡ learn) r.msg_chan_size) e h.for_learner);
            })
    ]
  ]

  acceptor-IsSorted :
      (r r' : MessageRouter L) (out : List (Output L))
      → run_acceptor lat r ≡ ok (r', out)
      → IsSorted r
      → IsSorted r'
  unfolding run_acceptor
  acceptor-IsSorted r r' out run h = elim (List-cases r.acceptor_mailbox) [
    | inl e ↦ by_result (run_acceptor lat r) r r' [] out (rw (e) refl) run h
    | inr (msg, rest, e) ↦
        let done = handle_propose lat r.acceptor msg in
        by_result (run_acceptor lat r) (record r { acceptor_mailbox = rest; acceptor = done.0 }) r'
          done.1 out (rw (e) refl) run
          (record {
            for_proposer = h.for_proposer;
            for_acceptor =
                rest-IsFor (λ kind. kind ≡ propose) r.msg_chan_size msg rest
                  (subst (IsFor (λ kind. kind ≡ propose) r.msg_chan_size) e h.for_acceptor);
            for_learner = h.for_learner;
          })
  ]

  Step-IsSorted : (r r' : MessageRouter L) → Step lat r r' → IsSorted r → IsSorted r'
  Step-IsSorted r r' (arrives msg) h = incoming-by_kind r msg msg.payload.kind refl h
  Step-IsSorted r r' (proposer_runs out run) h = proposer-IsSorted r r' out run h
  Step-IsSorted r r' (acceptor_runs out run) h = acceptor-IsSorted r r' out run h
  Step-IsSorted r r' (learner_runs out run) h = learner-IsSorted r r' out run h

  -- Whatever arrives at a router, and in whatever order its loops go round: each mailbox holds
  -- messages of the kinds of its role only, and at most as many as its channel has places.
  pub steps-IsSorted : (r r' : MessageRouter L) → IsSorted r → Steps lat r r' → IsSorted r'
  steps-IsSorted r r' h start = h
  steps-IsSorted r r'' h (then_step {r' = r'} steps step) =
      Step-IsSorted r' r'' step (steps-IsSorted r r' h steps)
