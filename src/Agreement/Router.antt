-- ===== src/Agreement/Router.antt =====
-- internal/latticeagreement/router.go, and the composition of lattice_agreement.go: three goroutines
-- that each empty a mailbox into a role. A mailbox is a channel of `msg_chan_size` places, which is
-- the list of the messages that it holds, the oldest first.
pub mod Mailboxes
pub mod Lifecycle
use suffren.Base.{ℕ, ◌≡◌, Bool, Option, List, [], ◌∷◌, ◌++◌, String, ltb, length, if◌then◌else◌}
use suffren.Base.Result.{Result, ok, ◌>>=◌}
use suffren.GoMap.{GoMap}
use suffren.Crdt.GCounter.{NodeId}
use suffren.Crdt.Lattice.{Lattice}
use suffren.Protocol.{Message, propose, ack, nack, learn, unknown}
use suffren.Agreement.Output.{Output}
use suffren.Agreement.Acceptor
use suffren.Agreement.Acceptor.{Acceptor, handle_propose}
use suffren.Agreement.Proposer
use suffren.Agreement.Proposer.{Proposer}
use suffren.Agreement.Learner
use suffren.Agreement.Learner.{Learner, handle_learn}

pub record MessageRouter (L : Type 0) : Type 0 where
  pub proposer_mailbox : List (Message L)
  pub acceptor_mailbox : List (Message L)
  pub learner_mailbox : List (Message L)
  pub proposer : Proposer L
  pub acceptor : Acceptor L
  pub learner : Learner L
  pub msg_chan_size : ℕ

unfoldable pub new : {L : Type 0} → Proposer L → Acceptor L → Learner L → ℕ → MessageRouter L
new proposer acceptor learner msg_chan_size = record {
  proposer_mailbox = [];
  acceptor_mailbox = [];
  learner_mailbox = [];
  proposer = proposer;
  acceptor = acceptor;
  learner = learner;
  msg_chan_size = msg_chan_size;
}

-- `NewLatticeAgreement`: each role starts at bottom.
unfoldable pub new_lattice_agreement :
    {L : Type 0} → NodeId → GoMap NodeId String → L → Bool → ℕ → MessageRouter L
unfolding new Proposer.new Acceptor.new Learner.new
new_lattice_agreement node_id peers bottom has_callback msg_chan_size =
    new (Proposer.new node_id bottom peers) (Acceptor.new bottom node_id)
      (Learner.new node_id bottom has_callback) msg_chan_size

-- A send that does not block: a full mailbox drops the message.
unfoldable pub offer : {L : Type 0} → ℕ → List (Message L) → Message L → List (Message L)
offer size mailbox msg = if ltb (length mailbox) size then mailbox ++ msg ∷ [] else mailbox

unfoldable pub handle_incoming_message :
    {L : Type 0} → MessageRouter L → Message L → MessageRouter L
unfolding offer
handle_incoming_message r msg = elim msg.payload.kind [
  | propose ↦ record r { acceptor_mailbox = offer r.msg_chan_size r.acceptor_mailbox msg }
  | ack ↦ record r { proposer_mailbox = offer r.msg_chan_size r.proposer_mailbox msg }
  | nack ↦ record r { proposer_mailbox = offer r.msg_chan_size r.proposer_mailbox msg }
  | learn ↦ record r { learner_mailbox = offer r.msg_chan_size r.learner_mailbox msg }
  | unknown byte ↦ r
]

module _ {L : Type 0} (lat : Lattice L) where
  -- One round of each loop; an empty mailbox blocks it.
  unfoldable pub run_proposer : MessageRouter L → Result (MessageRouter L × List (Output L))
  unfolding Proposer.handle
  run_proposer r = elim r.proposer_mailbox [
    | [] ↦ ok (r, [])
    | msg ∷ rest ↦ do
      (proposer, out) ← Proposer.handle lat r.proposer msg
      ok (record r { proposer_mailbox = rest; proposer = proposer }, out)
  ]

  unfoldable pub run_acceptor : MessageRouter L → Result (MessageRouter L × List (Output L))
  unfolding handle_propose
  run_acceptor r = elim r.acceptor_mailbox [
    | [] ↦ ok (r, [])
    | msg ∷ rest ↦
        let (acceptor, out) = handle_propose lat r.acceptor msg in
        ok (record r { acceptor_mailbox = rest; acceptor = acceptor }, out)
  ]

  unfoldable pub run_learner : MessageRouter L → Result (MessageRouter L × List (Output L))
  unfolding handle_learn
  run_learner r = elim r.learner_mailbox [
    | [] ↦ ok (r, [])
    | msg ∷ rest ↦ do
      (learner, out) ← handle_learn lat r.learner msg
      ok (record r { learner_mailbox = rest; learner = learner }, out)
  ]

-- What may happen to a router: a message arrives, or one of the loops goes round.
pub data Step {L : Type 0} (lat : Lattice L) : MessageRouter L → MessageRouter L → Type 0 where
  arrives : {r : MessageRouter L} (msg : Message L) → Step lat r (handle_incoming_message r msg)
  proposer_runs :
      {r r' : MessageRouter L} (out : List (Output L))
      → run_proposer lat r ≡ ok (r', out)
      → Step lat r r'
  acceptor_runs :
      {r r' : MessageRouter L} (out : List (Output L))
      → run_acceptor lat r ≡ ok (r', out)
      → Step lat r r'
  learner_runs :
      {r r' : MessageRouter L} (out : List (Output L))
      → run_learner lat r ≡ ok (r', out)
      → Step lat r r'

pub data Steps {L : Type 0} (lat : Lattice L) (r : MessageRouter L) : MessageRouter L → Type 0 where
  start : Steps lat r r
  then_step : {r' r'' : MessageRouter L} → Steps lat r r' → Step lat r' r'' → Steps lat r r''
