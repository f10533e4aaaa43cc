-- ===== src/Tests/Agreed.antt =====
-- The result about a whole cluster, at a run in which two nodes propose and both values are learned.
use suffren.Base.{subst, some_unique, ◌≡◌, refl, ◌⊎◌, inl, inr, some, [], ◌∷◌, string_key}
use suffren.GoMap.{put, lookup, Has, Distinct}
use suffren.Crdt.GCounter.{NodeId}
use suffren.Crdt.CounterMap.{CounterMap}
use suffren.Crdt.CounterMap.Order.{Below}
use suffren.Crdt.CounterMap.Lawful.{counter_map_lattice}
use suffren.Protocol.{Message, message, propose, ack}
use suffren.Agreement.Acceptor
use suffren.Agreement.Acceptor.{handle_propose}
use suffren.Agreement.Acceptor.Chain.{ValidMessage}
use suffren.Agreement.Acceptor.Cluster.{deliver}
use suffren.Agreement.Learner
use suffren.Agreement.System.Learners.{learners-comparable}
use suffren.Crdt.GCounter.{GCounter}
use suffren.Protocol.{learn}
use suffren.Agreement.System.{Learned, hears, at_node}
use suffren.Base.{Option, none, true}
use suffren.Agreement.Proposer
use suffren.Agreement.Proposer.{Proposer, count_ack, handle_ack, propose_value}
use suffren.Agreement.Proposer.Round.{new-IsValid}
use suffren.Agreement.System.{
  System, moved, delivers, proposes, counts_ack, Steps, begin, then_step, Steps-trans,
}
use suffren.Agreement.System.Counted.{nobody-Backs}
use suffren.Agreement.System.InOrder.{IsInOrder}
use suffren.Agreement.System.Comparable.{learned-comparable}
use suffren.Tests.Data.{
  peers, empty, five, both, empty-IsUniform, five-IsUniform, both-IsUniform, Valid, laws, crdt,
}

abbrev pub start : System CounterMap
start = record {
  cluster = record { acceptors = λ n. Acceptor.new empty n; log = [] };
  proposers = λ n. Proposer.new n empty peers;
  voters = λ n. [];
  learners = λ n. Learner.new n empty true;
  learned = [];
}

-- A map with no key is below every other.
empty-Below : (x : CounterMap) → Below empty x
unfolding lookup
empty-Below x key g e = absurd (nothing g e)
  where
    nothing : (g : GCounter) → Path (Option GCounter) none (some g) → ⊥
    nothing g e = cc

pub start-IsInOrder : IsInOrder counter_map_lattice Valid Below laws peers start
unfolding Acceptor.new Proposer.new Learner.new
start-IsInOrder = record {
  cluster = record {
    valid = λ _. empty-IsUniform;
    below = λ n v h. absurd h;
    comparable = λ n v w h k. absurd h;
  };
  valid = λ n. new-IsValid counter_map_lattice Valid Below laws n empty peers empty-IsUniform;
  counts = λ n. record {
    size = refl;
    number = λ _ _. refl;
    backs = λ _ _. nobody-Backs Below peers [] empty;
  };
  agreed = tt;
  learners = λ n. inr empty-Below;
}

pub valid_message :
    (n : NodeId) (x : CounterMap) → Valid x → ValidMessage Valid (message n propose (some x))
valid_message n x v y e = subst Valid (some_unique (some x) x y refl e) v

-- The next states, by the handlers.
abbrev pub proposed : System CounterMap → NodeId → CounterMap → System CounterMap
proposed s n x =
    moved s n (propose_value counter_map_lattice (s.proposers n) x).0 (s.voters n)
      (propose_value counter_map_lattice (s.proposers n) x).1

abbrev pub delivered : System CounterMap → NodeId → Message CounterMap → System CounterMap
delivered s n msg = record s { cluster = deliver counter_map_lattice s.cluster n msg }

abbrev pub acknowledged : System CounterMap → NodeId → NodeId → System CounterMap
acknowledged s n k =
    moved s n (count_ack (s.proposers n)).0 (put k tt (s.voters n)) (count_ack (s.proposers n)).1

-- N1 proposes, and the acceptors of N1 and N2 accept.
abbrev first_open : System CounterMap
first_open =
    delivered (delivered (proposed start "N1" five) "N1" (message "N1" propose (some five))) "N2"
      (message "N1" propose (some five))

abbrev first_done : System CounterMap
first_done = acknowledged (acknowledged first_open "N1" "N1") "N1" "N2"

-- N2 proposes a value above it, and the acceptors of N2 and N3 accept.
abbrev second_open : System CounterMap
second_open =
    delivered (delivered (proposed first_done "N2" both) "N2" (message "N2" propose (some both)))
      "N3" (message "N2" propose (some both))

abbrev second_done : System CounterMap
second_done = acknowledged (acknowledged second_open "N2" "N3") "N2" "N2"

pub n1_peer : Has "N1" peers
unfolding lookup crdt
n1_peer = ("a:1", refl)

pub n2_peer : Has "N2" peers
unfolding lookup crdt
n2_peer = ("b:1", refl)

n3_peer : Has "N3" peers
unfolding lookup crdt
n3_peer = ("c:1", refl)

pub peers-Distinct : Distinct peers
unfolding lookup crdt
peers-Distinct = (refl, (refl, (refl, tt)))

first_opens : Steps counter_map_lattice Valid peers start first_open
first_opens =
    then_step
      (then_step (then_step begin (proposes "N1" five five-IsUniform))
        (delivers "N1" (message "N1" propose (some five)) (valid_message "N1" five five-IsUniform)))
      (delivers "N2" (message "N1" propose (some five)) (valid_message "N1" five five-IsUniform))

first_ends : Steps counter_map_lattice Valid peers first_open first_done
unfolding crdt put lookup deliver propose_value handle_ack count_ack Acceptor.new Proposer.new
first_ends =
    then_step
      (then_step begin (
        counts_ack "N1" (message "N1" ack (some five)) five _ _ five-IsUniform refl
          (inr (inl (refl, refl))) n1_peer refl (λ _. refl) refl))
      (counts_ack "N1" (message "N2" ack (some five)) five _ _ five-IsUniform refl
        (inl (refl, refl)) n2_peer refl (λ _. refl) refl)

second_opens : Steps counter_map_lattice Valid peers first_done second_open
second_opens =
    then_step
      (then_step (then_step begin (proposes "N2" both both-IsUniform))
        (delivers "N2" (message "N2" propose (some both)) (valid_message "N2" both both-IsUniform)))
      (delivers "N3" (message "N2" propose (some both)) (valid_message "N2" both both-IsUniform))

second_ends : Steps counter_map_lattice Valid peers second_open second_done
unfolding crdt put lookup deliver propose_value handle_ack count_ack Acceptor.new Proposer.new
second_ends =
    then_step
      (then_step begin (
        counts_ack "N2" (message "N3" ack (some both)) both _ _ both-IsUniform refl
          (inl (refl, refl)) n3_peer refl (λ _. refl) refl))
      (counts_ack "N2" (message "N2" ack (some both)) both _ _ both-IsUniform refl
        (inr (inl (refl, refl))) n2_peer refl (λ _. refl) refl)

both_learned : second_done.learned ≡ both ∷ five ∷ []
unfolding crdt put lookup deliver propose_value count_ack Acceptor.new Proposer.new
both_learned = refl

run : Steps counter_map_lattice Valid peers start second_done
run =
    Steps-trans counter_map_lattice Valid peers start first_done second_done
      (Steps-trans counter_map_lattice Valid peers start first_open first_done first_opens
        first_ends)
      (Steps-trans counter_map_lattice Valid peers first_done second_open second_done second_opens
        second_ends)

five_is_learned : Learned five second_done.learned
five_is_learned = rw (both_learned) (inr (inl refl))

both_is_learned : Learned both second_done.learned
both_is_learned = rw (both_learned) (inl refl)

learned-comparable_example : Below five both ⊎ Below both five
learned-comparable_example =
    learned-comparable counter_map_lattice Valid Below laws peers start second_done peers-Distinct
      start-IsInOrder run five both five_is_learned both_is_learned

-- N1 hears the second value, and N3 the first.
abbrev pub heard : System CounterMap → NodeId → CounterMap → System CounterMap
heard s n x = record s {
  learners = at_node n (Learner.adopt counter_map_lattice (s.learners n) x).0 s.learners;
}

abbrev all_done : System CounterMap
all_done = heard (heard second_done "N1" both) "N3" five

hearings : Steps counter_map_lattice Valid peers second_done all_done
unfolding crdt lookup Learner.handle_learn Learner.adopt Learner.notify Learner.new
hearings =
    then_step
      (then_step begin
        (hears "N1" (message "N1" learn (some both)) both _ _ refl both_is_learned refl))
      (hears "N3" (message "N1" learn (some five)) five _ _ refl five_is_learned refl)

learners-comparable_example :
    Below (all_done.learners "N1").learned_value (all_done.learners "N3").learned_value
    ⊎ Below (all_done.learners "N3").learned_value (all_done.learners "N1").learned_value
learners-comparable_example =
    learners-comparable counter_map_lattice Valid Below laws peers start all_done peers-Distinct
      start-IsInOrder
      (Steps-trans counter_map_lattice Valid peers start second_done all_done run hearings) "N1"
      "N3"

-- Run: what they hold.
held :
    ((all_done.learners "N1").learned_value ≡ both)
    × ((all_done.learners "N3").learned_value ≡ five)
unfolding crdt lookup Learner.adopt Learner.notify Learner.new
held = (refl, refl)
