-- ===== src/Tests/Proposals.antt =====
-- The results about proposer and learner, at a cluster of three nodes.
use suffren.Base.{
  ◌<◌, ◌≡◌, refl, ◌↔◌, true, false, false≢true, some, List, [], ◌∷◌, arith, replicate,
}
use suffren.Base.Result.{ok}
use suffren.Crdt.CounterMap.{CounterMap}
use suffren.Crdt.CounterMap.Order.{Below, is_in_iff}
use suffren.Crdt.CounterMap.Bound.{join-IsLeast}
use suffren.Crdt.CounterMap.Lawful.{counter_map_lattice}
use suffren.Protocol.{Message, message, ack, nack, learn}
use suffren.Agreement.Output.{Output, broadcast}
use suffren.Agreement.Proposer
use suffren.Agreement.Proposer.{Proposer, handle_ack, handle_nack, propose_value}
use suffren.Agreement.Proposer.Round.{IsValid}
use suffren.Agreement.Proposer.Commit.{LastAck, learns_of, handle_ack-learns_iff}
use suffren.Agreement.Proposer.Climb.{NackOutcome, handle_nack-reproposes}
use suffren.Agreement.Proposer.Once.{Served, handle_all-once}
use suffren.Agreement.Proposer.Repeat.{repeated_ack-commits}
use suffren.Agreement.Learner
use suffren.Agreement.Learner.{Learner}
use suffren.Agreement.Learner.Chain.{Learns, handle_all-Learns}
use suffren.Tests.Data.{
  peers, five, three, both, five-IsUniform, three-IsUniform, both-IsUniform, Valid, laws, crdt,
}

-- N1 has proposed `five` and has no reply yet; its quorum is two.
abbrev proposer : Proposer CounterMap
proposer = record {
  node_id = "N1";
  peers = peers;
  quorum_size = 2;
  quorum_reached = false;
  acks_received = [];
  proposed_value = five;
  buffered_value = five;
}

-- The same with one ACK.
abbrev waiting : Proposer CounterMap
waiting = record proposer { acks_received = true ∷ [] }

proposer-IsValid : IsValid Valid Below proposer
proposer-IsValid = record {
  proposed = five-IsUniform;
  buffered = five-IsUniform;
  ordered = laws.le_refl five;
  positive = omega arith;
  open_round = λ _. omega arith;
}

waiting-IsValid : IsValid Valid Below waiting
waiting-IsValid = record {
  proposed = five-IsUniform;
  buffered = five-IsUniform;
  ordered = laws.le_refl five;
  positive = omega arith;
  open_round = λ _. omega arith;
}

five-Below_both : Below five both
five-Below_both = (join-IsLeast five three both five-IsUniform.is_map three-IsUniform.is_map).0

both_above_five : ¬ Below both five
unfolding crdt
both_above_five h =
    false≢true ((is_in_iff both five both-IsUniform.is_map five-IsUniform.is_map).1 h)

handle_ack-learns_iff_example :
    (0 < learns_of (handle_ack counter_map_lattice waiting (message "N2" ack (some five))))
    ↔ (LastAck waiting × Below five five × Below five five)
handle_ack-learns_iff_example =
    handle_ack-learns_iff counter_map_lattice Valid Below laws waiting
      (message "N2" ack (some five)) five five-IsUniform five-IsUniform refl

handle_nack-reproposes_example :
    NackOutcome counter_map_lattice Valid Below laws waiting both
      (handle_nack counter_map_lattice waiting (message "N2" nack (some both)))
handle_nack-reproposes_example =
    handle_nack-reproposes counter_map_lattice Valid Below laws waiting
      (message "N2" nack (some both)) both waiting-IsValid both-IsUniform refl

abbrev replies : List (Message CounterMap)
replies =
    message "N1" ack (some five) ∷ message "N2" ack (some five) ∷ message "N3" nack (some both) ∷ []

handle_all-once_example :
    (p' : Proposer CounterMap) × (out : List (Output CounterMap)) × (Proposer.handle_all
        counter_map_lattice proposer replies
      ≡ ok (p', out))
    × Served counter_map_lattice Valid Below laws proposer p' out
handle_all-once_example =
    handle_all-once counter_map_lattice Valid Below laws proposer replies proposer-IsValid (
      (five, refl, five-IsUniform),
      ((five, refl, five-IsUniform), ((both, refl, both-IsUniform), tt)),
    )

-- Two copies of one ACK of N3 make N1 commit.
repeated_ack-commits_example :
    (p' : Proposer CounterMap) × (Proposer.handle_all counter_map_lattice proposer
        (replicate 2 (message "N3" ack (some five)))
      ≡ ok (p', broadcast (message "N1" learn (some five)) ∷ []))
repeated_ack-commits_example =
    repeated_ack-commits counter_map_lattice Valid Below laws (message "N3" ack (some five)) five 1
      proposer five-IsUniform five-IsUniform refl refl (laws.le_refl five) (laws.le_refl five) refl
      tt refl

abbrev learner : Learner CounterMap
learner = record { node_id = "N1"; has_callback = true; learned_value = five }

abbrev news : List (Message CounterMap)
news = message "N2" learn (some three) ∷ message "N2" learn (some both) ∷ []

handle_all-Learns_example :
    (l' : Learner CounterMap) × (out : List (Output CounterMap)) × (Learner.handle_all
        counter_map_lattice learner news
      ≡ ok (l', out))
    × Learns counter_map_lattice Valid Below laws learner l' out
handle_all-Learns_example =
    handle_all-Learns counter_map_lattice Valid Below laws learner news five-IsUniform
      ((three, refl, three-IsUniform), ((both, refl, both-IsUniform), tt))
