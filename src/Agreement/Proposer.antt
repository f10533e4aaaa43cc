-- ===== src/Agreement/Proposer.antt =====
-- internal/latticeagreement/proposer.go. The mutex is held for each whole method, so a call is one
-- step on the state. A method called on a nil interface value panics.
pub mod Round
pub mod Commit
pub mod Climb
pub mod Once
pub mod Repeat
use suffren.Base.{
  ℕ, ◌+◌, ◌/◌, Bool, true, false, Option, none, some, List, [], ◌∷◌, ◌++◌, String, length, leb,
  if◌then◌else◌,
}
use suffren.Base.Result.{Result, ok, panic, ◌>>=◌}
use suffren.GoMap.{GoMap}
use suffren.Crdt.GCounter.{NodeId}
use suffren.Crdt.Lattice.{Lattice}
use suffren.Protocol.{Message, message, propose, ack, nack, learn}
use suffren.Agreement.Output.{Output, broadcast}

pub record Proposer (L : Type 0) : Type 0 where
  pub node_id : NodeId
  pub peers : GoMap NodeId String
  pub quorum_size : ℕ
  pub quorum_reached : Bool
  pub acks_received : List Bool
  pub proposed_value : L
  pub buffered_value : L

-- `len(peers)/2 + 1`
abbrev pub quorum_of : GoMap NodeId String → ℕ
quorum_of peers = length peers / 2 + 1

unfoldable pub new : {L : Type 0} → NodeId → L → GoMap NodeId String → Proposer L
new node_id initial_value peers = record {
  node_id = node_id;
  peers = peers;
  quorum_size = quorum_of peers;
  quorum_reached = false;
  acks_received = [];
  proposed_value = initial_value;
  buffered_value = initial_value;
}

unfoldable pub no_nacks : List Bool → Bool
no_nacks [] = true
no_nacks (acked ∷ acks) = if acked then no_nacks acks else false

-- A clean quorum: the value is committed.
unfoldable pub commit : {L : Type 0} → Proposer L → Proposer L × List (Output L)
commit p = (
  record p { quorum_reached = true },
  broadcast (message p.node_id learn (some p.proposed_value)) ∷ [],
)

-- A quorum with a NACK: the next round begins, with the buffered value.
unfoldable pub repropose : {L : Type 0} → Proposer L → Proposer L × List (Output L)
repropose p = (
  record p { proposed_value = p.buffered_value; acks_received = []; quorum_reached = false },
  broadcast (message p.node_id propose (some p.buffered_value)) ∷ [],
)

unfoldable pub check_and_handle_quorum : {L : Type 0} → Proposer L → Proposer L × List (Output L)
unfolding no_nacks commit repropose
check_and_handle_quorum p =
    if p.quorum_reached
    then (p, [])
    else if leb p.quorum_size (length p.acks_received)
    then (if no_nacks p.acks_received then commit p else repropose p)
    else (p, [])

-- An ACK that carries the value of the current round.
unfoldable pub count_ack : {L : Type 0} → Proposer L → Proposer L × List (Output L)
unfolding check_and_handle_quorum
count_ack p = check_and_handle_quorum (record p { acks_received = p.acks_received ++ true ∷ [] })

module _ {L : Type 0} (lat : Lattice L) where
  unfoldable pub propose_value : Proposer L → L → Proposer L × List (Output L)
  propose_value p value =
      let joined = lat.join p.buffered_value value in
      (
        record p {
          quorum_reached = false;
          acks_received = [];
          proposed_value = joined;
          buffered_value = joined;
        },
        broadcast (message p.node_id propose (some joined)) ∷ [],
      )

  unfoldable pub handle_ack : Proposer L → Message L → Result (Proposer L × List (Output L))
  unfolding count_ack
  handle_ack p msg = elim msg.payload.value [
    | none ↦ panic
    | some value ↦ ok (if lat.equals value p.proposed_value then count_ack p else (p, []))
  ]

  -- A NACK whose value is above that of the current round.
  unfoldable pub count_nack : Proposer L → L → Proposer L × List (Output L)
  unfolding check_and_handle_quorum
  count_nack p value = check_and_handle_quorum (record p {
    acks_received = p.acks_received ++ false ∷ [];
    buffered_value = lat.join p.buffered_value value;
  })

  unfoldable pub handle_nack : Proposer L → Message L → Result (Proposer L × List (Output L))
  unfolding count_nack
  handle_nack p msg = elim msg.payload.value [
    | none ↦ panic
    | some value ↦ ok (if lat.is_in p.proposed_value value then count_nack p value else (p, []))
  ]

  -- The body of the loop of `runProposer`; it logs a message of any other kind.
  unfoldable pub handle : Proposer L → Message L → Result (Proposer L × List (Output L))
  unfolding handle_ack handle_nack
  handle p msg = elim msg.payload.kind [
    | ack ↦ handle_ack p msg
    | nack ↦ handle_nack p msg
    | _ ↦ ok (p, [])
  ]

  -- The messages of the mailbox, handled in turn; a panic ends the process.
  unfoldable pub handle_all : Proposer L → List (Message L) → Result (Proposer L × List (Output L))
  unfolding handle
  handle_all p [] = ok (p, [])
  handle_all p (msg ∷ msgs) = do
    (p', out) ← handle p msg
    (last, outs) ← handle_all p' msgs
    ok (last, out ++ outs)
