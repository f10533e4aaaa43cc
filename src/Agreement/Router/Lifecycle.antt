-- ===== src/Agreement/Router/Lifecycle.antt =====
-- `Start` and `Stop` of internal/latticeagreement/router.go, and the loops between them.
use suffren.Base.{◌≡◌, refl, sym, ◌∙◌, Bool, true, false, false≢true, List, arith}
use suffren.Base.Result.{ok}
use suffren.Crdt.Lattice.{Lattice}
use suffren.Protocol.{Message}
use suffren.Agreement.Output.{Output}
use suffren.Agreement.Router.{
  MessageRouter, handle_incoming_message, run_proposer, run_acceptor, run_learner,
}

-- `proposing`, `accepting` and `learning` say which of the three goroutines run.
pub record Loops (L : Type 0) : Type 0 where
  pub router : MessageRouter L
  pub proposing : Bool
  pub accepting : Bool
  pub learning : Bool
  pub done : Bool

-- `Start` of a router.
abbrev pub start : {L : Type 0} → MessageRouter L → Loops L
start r = record { router = r; proposing = true; accepting = true; learning = true; done = false }

-- What may happen next. A loop that runs goes round, also when `done` is closed, since a select
-- takes any case that is ready, or returns once `done` is closed. A panic of a role ends the process.
pub data Step {L : Type 0} (lat : Lattice L) : Loops L → Loops L → Type 0 where
  arrives :
      {q : Loops L} (msg : Message L)
      → Step lat q (record q { router = handle_incoming_message q.router msg })
  proposer_runs :
      {q : Loops L} (r : MessageRouter L) (out : List (Output L))
      → q.proposing ≡ true
      → run_proposer lat q.router ≡ ok (r, out)
      → Step lat q (record q { router = r })
  acceptor_runs :
      {q : Loops L} (r : MessageRouter L) (out : List (Output L))
      → q.accepting ≡ true
      → run_acceptor lat q.router ≡ ok (r, out)
      → Step lat q (record q { router = r })
  learner_runs :
      {q : Loops L} (r : MessageRouter L) (out : List (Output L))
      → q.learning ≡ true
      → run_learner lat q.router ≡ ok (r, out)
      → Step lat q (record q { router = r })
  proposer_returns :
      {q : Loops L}
      → q.proposing ≡ true
      → q.done ≡ true
      → Step lat q (record q { proposing = false })
  acceptor_returns :
      {q : Loops L}
      → q.accepting ≡ true
      → q.done ≡ true
      → Step lat q (record q { accepting = false })
  learner_returns :
      {q : Loops L} → q.learning ≡ true → q.done ≡ true → Step lat q (record q { learning = false })
  stops : {q : Loops L} → Step lat q (record q { done = true })

pub data Steps {L : Type 0} (lat : Lattice L) (q : Loops L) : Loops L → Type 0 where
  begin : Steps lat q q
  then_step : {q' q'' : Loops L} → Steps lat q q' → Step lat q' q'' → Steps lat q q''

module _ {L : Type 0} (lat : Lattice L) where
  -- What `Stop` has when its `Wait` returns.
  pub record IsStopped (q : Loops L) : Type 0 where
    pub done : q.done ≡ true
    pub proposing : q.proposing ≡ false
    pub accepting : q.accepting ≡ false
    pub learning : q.learning ≡ false

  -- The states of the roles are the same.
  pub record SameRoles (r r' : MessageRouter L) : Type 0 where
    pub proposer : r'.proposer ≡ r.proposer
    pub acceptor : r'.acceptor ≡ r.acceptor
    pub learner : r'.learner ≡ r.learner

  handle_incoming-proposer :
      (r : MessageRouter L) (msg : Message L)
      → (handle_incoming_message r msg).proposer ≡ r.proposer
  unfolding handle_incoming_message
  handle_incoming-proposer r msg = ground arith

  handle_incoming-acceptor :
      (r : MessageRouter L) (msg : Message L)
      → (handle_incoming_message r msg).acceptor ≡ r.acceptor
  unfolding handle_incoming_message
  handle_incoming-acceptor r msg = ground arith

  handle_incoming-learner :
      (r : MessageRouter L) (msg : Message L) → (handle_incoming_message r msg).learner ≡ r.learner
  unfolding handle_incoming_message
  handle_incoming-learner r msg = ground arith

  running_no : {A : Type 0} (b : Bool) → b ≡ false → b ≡ true → A
  running_no b f t = absurd (false≢true (sym f ∙ t))

  -- A step that touches neither the roles nor the loops.
  pub record Rests (q q' : Loops L) : Type 0 where
    pub stopped : IsStopped q'
    pub roles : SameRoles q.router q'.router

  Step-Rests : (q q' q'' : Loops L) → Rests q q' → Step lat q' q'' → Rests q q''
  Step-Rests q q' q'' h (arrives msg) = record {
    stopped = record {
      done = h.stopped.done;
      proposing = h.stopped.proposing;
      accepting = h.stopped.accepting;
      learning = h.stopped.learning;
    };
    roles = record {
      proposer = handle_incoming-proposer q'.router msg ∙ h.roles.proposer;
      acceptor = handle_incoming-acceptor q'.router msg ∙ h.roles.acceptor;
      learner = handle_incoming-learner q'.router msg ∙ h.roles.learner;
    };
  }
  Step-Rests q q' q'' h (proposer_runs r out on _) = running_no q'.proposing h.stopped.proposing on
  Step-Rests q q' q'' h (acceptor_runs r out on _) = running_no q'.accepting h.stopped.accepting on
  Step-Rests q q' q'' h (learner_runs r out on _) = running_no q'.learning h.stopped.learning on
  Step-Rests q q' q'' h (proposer_returns on _) = running_no q'.proposing h.stopped.proposing on
  Step-Rests q q' q'' h (acceptor_returns on _) = running_no q'.accepting h.stopped.accepting on
  Step-Rests q q' q'' h (learner_returns on _) = running_no q'.learning h.stopped.learning on
  Step-Rests q q' q'' h stops = record {
    stopped = record {
      done = refl;
      proposing = h.stopped.proposing;
      accepting = h.stopped.accepting;
      learning = h.stopped.learning;
    };
    roles = h.roles;
  }

  -- Once `Stop` has returned, no loop runs again and no role changes, whatever messages still arrive
  -- and however often `Stop` is called.
  pub steps-Rests : (q q' : Loops L) → IsStopped q → Steps lat q q' → Rests q q'
  steps-Rests q q' stopped begin = record {
    stopped = stopped;
    roles = record { proposer = refl; acceptor = refl; learner = refl };
  }
  steps-Rests q q'' stopped (then_step {q' = q'} steps step) =
      Step-Rests q q' q'' (steps-Rests q q' stopped steps) step
