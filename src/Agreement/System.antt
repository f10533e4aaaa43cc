-- ===== src/Agreement/System.antt =====
-- internal/latticeagreement as a whole: the acceptors, proposers and learners of a cluster, with the
-- messages between them, which may be late, lost, repeated or reordered. `lattice_agreement.go`
-- forwards each message to the role that it is for.
pub mod Counted
pub mod Voters
pub mod Heard
pub mod InOrder
pub mod Comparable
pub mod Learners
use suffren.Base.{
  ◌⊎◌, ℕ, ◌==◌, ◌≡◌, Bool, true, false, Option, none, some, String, List, [], ◌∷◌, ◌++◌, length,
  if◌then◌else◌, ite, string_key,
}
use suffren.Base.Result.{ok}
use suffren.GoMap.{GoMap, lookup, put, Has}
use suffren.Crdt.GCounter.{NodeId}
use suffren.Crdt.Lattice.{Lattice}
use suffren.Protocol.{CommandType, Message, learn}
use suffren.Agreement.Output.{Output, broadcast}
use suffren.Agreement.Proposer.{Proposer, propose_value, handle_ack, handle_nack}
use suffren.Agreement.Learner.{Learner, handle_learn}
use suffren.Agreement.Acceptor.Chain.{ValidMessage}
use suffren.Agreement.Acceptor.Cluster.{Cluster, Logged, deliver}

-- The values of the LEARNs among the outputs of a handler.
abbrev pub learned_value : {L : Type 0} → CommandType → Option L → List L → List L
learned_value learn (some x) rest = x ∷ rest
learned_value _ _ rest = rest

abbrev pub learned_values : {L : Type 0} → List (Output L) → List L
learned_values [] = []
learned_values (broadcast msg ∷ out) =
    learned_value msg.payload.kind msg.payload.value (learned_values out)
learned_values (_ ∷ out) = learned_values out

-- `voters` are the acceptors whose ACKs the round of each proposer has counted: the code keeps their
-- number only. `learned` are the values of the LEARNs that were broadcast.
pub record System (L : Type 0) : Type 0 where
  pub cluster : Cluster L
  pub proposers : NodeId → Proposer L
  pub voters : NodeId → GoMap NodeId (Unit {0})
  pub learners : NodeId → Learner L
  pub learned : List L

-- The value is among these.
abbrev pub Learned : {L : Type 0} → L → List L → Type 0
Learned v [] = ⊥
Learned v (x ∷ xs) = (x ≡ v) ⊎ Learned v xs

-- A function of the nodes with a new value at one.
abbrev pub at_node : {A : Type 0} → NodeId → A → (NodeId → A) → NodeId → A
at_node n a f k = ite (string_key.dec n k) a (f k)

-- The voters after a reply: none, if a new round has begun.
abbrev pub kept_voters :
    {L : Type 0} → Proposer L → GoMap NodeId (Unit {0}) → GoMap NodeId (Unit {0})
kept_voters p voters = if length p.acks_received == 0 then [] else voters

-- The system after a handler of the proposer of `n`.
abbrev pub moved :
    {L : Type 0}
    → System L
    → NodeId
    → Proposer L
    → GoMap NodeId (Unit {0})
    → List (Output L)
    → System L
moved s n p voters out = record s {
  proposers = at_node n p s.proposers;
  voters = at_node n (kept_voters p voters) s.voters;
  learned = learned_values out ++ s.learned;
}

module _ {L : Type 0} (lat : Lattice L) (Valid : L → Type 0) (peers : GoMap NodeId String) where
  -- What may happen next. An ACK that is counted comes from a peer that has acknowledged its value,
  -- and in an open round no peer's ACK is counted twice; one that is not counted changes nothing.
  pub data Step (s : System L) : System L → Type 0 where
    delivers :
        (n : NodeId) (msg : Message L)
        → ValidMessage Valid msg
        → Step s (record s { cluster = deliver lat s.cluster n msg })
    proposes :
        (n : NodeId) (x : L)
        → Valid x
        → Step s (
            moved s n
              (propose_value lat (s.proposers n) x).0
              (s.voters n)
              (propose_value lat (s.proposers n) x).1)
    counts_ack :
        (n : NodeId) (msg : Message L) (x : L) (p : Proposer L) (out : List (Output L))
        → Valid x
        → msg.payload.value ≡ some x
        → Logged msg.sender x s.cluster.log
        → Has msg.sender peers
        → lat.equals x (s.proposers n).proposed_value ≡ true
        → ((s.proposers n).quorum_reached ≡ false → lookup msg.sender (s.voters n) ≡ none)
        → handle_ack lat (s.proposers n) msg ≡ ok (p, out)
        → Step s (moved s n p (put msg.sender tt (s.voters n)) out)
    gets_nack :
        (n : NodeId) (msg : Message L) (x : L) (p : Proposer L) (out : List (Output L))
        → Valid x
        → msg.payload.value ≡ some x
        → handle_nack lat (s.proposers n) msg ≡ ok (p, out)
        → Step s (moved s n p (s.voters n) out)
    hears :
        (n : NodeId) (msg : Message L) (x : L) (l : Learner L) (out : List (Output L))
        → msg.payload.value ≡ some x
        → Learned x s.learned
        → handle_learn lat (s.learners n) msg ≡ ok (l, out)
        → Step s (record s { learners = at_node n l s.learners })

  pub data Steps (s : System L) : System L → Type 0 where
    begin : Steps s s
    then_step : {s' s'' : System L} → Steps s s' → Step s' s'' → Steps s s''

  pub Steps-trans : (s s' s'' : System L) → Steps s s' → Steps s' s'' → Steps s s''
  Steps-trans s s' s'' steps begin = steps
  Steps-trans s s' t steps (then_step {s' = s''} more step) =
      then_step (Steps-trans s s' s'' steps more) step
