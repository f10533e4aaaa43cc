-- ===== src/Tests/Admitted.antt =====
-- The result about a whole deployment, at a run in which one request of five is asked, agreed on by
-- two nodes, learned and allowed.
use suffren.Base.{
  subst, some_unique, ℕ, ◌*◌, ◌≤◌, ◌≡◌, refl, inl, inr, true, false, none, some, [], ◌∷◌, arith,
  write, ℕ_discrete, string_key,
}
use suffren.GoMap.{lookup, put}
use suffren.Crdt.GCounter.Value.{sum_counts, Fits}
use suffren.Crdt.CounterMap.{CounterMap, value_for_key, counter_or_new}
use suffren.Protocol.{message, propose, ack, learn}
use suffren.Agreement.Acceptor
use suffren.Agreement.Acceptor.{handle_propose}
use suffren.Agreement.Acceptor.Cluster.{deliver}
use suffren.Agreement.Proposer
use suffren.Agreement.Proposer.{count_ack, handle_ack, propose_value}
use suffren.Agreement.Learner
use suffren.Agreement.System.{System, at_node, delivers, proposes, counts_ack, hears}
use suffren.Engine.{increment_begins, call_ends, on_learn}
use suffren.Engine.Flusher.{learns}
use suffren.Engine.Answers.{incremented}
use suffren.Limiter.Estimate.{IsFloat64}
use suffren.Limiter.{estimate}
use suffren.Deployment.{
  Deployment, Steps, begin, then_step, agrees, runs, requests, decides, granted_by,
}
use suffren.Deployment.Shares.{sum_all}
use suffren.Deployment.Limit.{IsFresh, granted-le-limit}
use suffren.Tests.Data.{nodes, peers, five, empty-IsUniform, five-IsUniform, crdt}
use suffren.Tests.Agreed.{
  start, start-IsInOrder, proposed, delivered, acknowledged, heard, valid_message, n1_peer, n2_peer,
  peers-Distinct,
}
use suffren.Tests.Increments.{engine}
use suffren.Tests.Limits.{go}

-- A time lies in its window; a weight is 0 or 1 here, since whole numbers stand in for floats.
abbrev Within : ℕ × ℕ → ℕ × ℕ → Type 0
Within spent window = Unit

times-le : (n w : ℕ) → w ≤ 1 → n * w ≤ n
times-le n w h = grind arith

floats : IsFloat64 go Within
floats = record {
  IsWeight = λ w. w ≤ 1;
  IsCount = λ n x. x ≤ n;
  weight = λ spent window _. omega arith;
  product = λ n w h. times-le n w h;
  sum = λ n current x h fits. omega arith;
}

-- The engines start at the empty map.
abbrev fresh : Deployment
fresh = record {
  system = start;
  told = [];
  engines = λ n. record { engine = record engine { node_id = n }; awake = false };
  requests = [];
  outcomes = λ n c. none;
}

fresh-IsFresh : IsFresh nodes peers "k" 10 go Within (10, 0) floats (omega arith) fresh
fresh-IsFresh = record {
  system = start-IsInOrder;
  is_map = λ n. empty-IsUniform.is_map;
  named = λ n. tt;
  node = λ n. refl;
  told = refl;
  requests = refl;
  outcomes = λ n c. refl;
}

-- N1 is asked for 5.
abbrev asked : Deployment
asked = record fresh {
  engines =
      at_node "N1"
        (record (fresh.engines "N1") {
          engine = (increment_begins (fresh.engines "N1").engine "k" 5).0;
        })
        fresh.engines;
  requests =
      record {
        node = "N1";
        done = (increment_begins (fresh.engines "N1").engine "k" 5).2;
        value = 5;
        added = incremented (fresh.engines "N1").engine "k" 5;
      }
      ∷ [];
}

-- N1 proposes its map, N1 and N2 acknowledge it, and the learner of N1 hears of it.
abbrev open_round : System CounterMap
open_round =
    delivered (delivered (proposed start "N1" five) "N1" (message "N1" propose (some five))) "N2"
      (message "N1" propose (some five))

abbrev agreed : System CounterMap
agreed = acknowledged (acknowledged open_round "N1" "N1") "N1" "N2"

abbrev told : Deployment
told = record asked { system = heard agreed "N1" five; told = five ∷ [] }

-- The learn callback of N1 runs, and then its limiter decides.
abbrev answered : Deployment
answered = record told {
  engines =
      at_node "N1"
        (record (told.engines "N1") { engine = on_learn (told.engines "N1").engine five })
        told.engines;
}

abbrev decided : Deployment
decided = record answered {
  engines =
      at_node "N1"
        (record (answered.engines "N1") {
          engine = (call_ends (answered.engines "N1").engine 0 1 true "k").0;
        })
        answered.engines;
  outcomes =
      at_node "N1"
        (write (answered.outcomes "N1") 1 (some (record { answer = five; allowed = true })))
        answered.outcomes;
}

opens : Steps nodes peers go Within (10, 0) "k" 10 fresh (record asked { system = open_round })
unfolding crdt
opens =
    then_step
      (then_step
        (then_step (then_step begin (requests "N1" 5 (omega arith)))
          (agrees _ (proposes "N1" five five-IsUniform)))
        (agrees _ (
          delivers "N1" (message "N1" propose (some five))
            (valid_message "N1" five five-IsUniform))))
      (agrees _
        (delivers "N2" (message "N1" propose (some five)) (valid_message "N1" five five-IsUniform)))

acknowledges : Steps nodes peers go Within (10, 0) "k" 10 fresh (record asked { system = agreed })
unfolding crdt put lookup deliver propose_value handle_ack count_ack Acceptor.new Proposer.new
acknowledges =
    then_step
      (then_step opens (
        agrees _ (
          counts_ack "N1" (message "N1" ack (some five)) five _ _ five-IsUniform refl
            (inr (inl (refl, refl))) n1_peer refl (λ _. refl) refl)))
      (agrees _ (
        counts_ack "N1" (message "N2" ack (some five)) five _ _ five-IsUniform refl
          (inl (refl, refl)) n2_peer refl (λ _. refl) refl))

agreed_five : agreed.learned ≡ five ∷ []
unfolding crdt put lookup deliver propose_value count_ack Acceptor.new Proposer.new
agreed_five = refl

hears_five : Steps nodes peers go Within (10, 0) "k" 10 fresh told
unfolding crdt put lookup deliver propose_value count_ack Acceptor.new Proposer.new
    Learner.handle_learn Learner.adopt Learner.notify Learner.new
hears_five =
    then_step acknowledges
      (agrees _ (hears "N1" (message "N1" learn (some five)) five _ _ refl (inl refl) refl))

runs_callback : Steps nodes peers go Within (10, 0) "k" 10 fresh answered
runs_callback = then_step hears_five (runs "N1" _ (learns five) (inl refl) five-IsUniform.is_map)

full : (answered.engines "N1").engine.channels 1 ≡ some five
unfolding crdt increment_begins on_learn ℕ_discrete write
full = refl

allows : estimate go (2, 0) 0 (value_for_key five "k") (10, 0) ≡ 5
unfolding crdt estimate
allows = refl

five-Fits : Fits (counter_or_new five "k")
unfolding crdt counter_or_new sum_counts
five-Fits = omega arith

decides_five : Steps nodes peers go Within (10, 0) "k" 10 fresh decided
unfolding crdt counter_or_new lookup increment_begins estimate
decides_five = then_step runs_callback (
    decides "N1" 0 1 five (2, 0) 0 (inl (refl, refl)) full tt
      (λ g e. subst Fits (some_unique _ _ g refl e) five-Fits) (omega arith))

granted-le-limit_example : sum_all (λ q. q.node) (granted_by decided) decided.requests ≤ 10
granted-le-limit_example =
    granted-le-limit nodes peers "k" 10 go Within (10, 0) floats (omega arith) fresh decided
      peers-Distinct fresh-IsFresh decides_five

-- Run: the request is granted in full.
granted : sum_all (λ q. q.node) (granted_by decided) decided.requests ≡ 5
unfolding increment_begins ℕ_discrete write crdt
granted = refl
