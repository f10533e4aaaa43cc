-- ===== src/Tests/Roles.antt =====
-- The results about acceptor, proposer and learner, at a cluster of three nodes.
use suffren.Base.{
  subst, some_unique, ◌≡◌, refl, ◌⊎◌, inl, inr, some, List, [], ◌∷◌, All, Chain, arith, string_key,
}
use suffren.GoMap.{GoMap, lookup, Has, Distinct}
use suffren.Crdt.GCounter.{NodeId}
use suffren.Crdt.CounterMap.{CounterMap}
use suffren.Crdt.CounterMap.Order.{Below}
use suffren.Crdt.CounterMap.Lawful.{counter_map_lattice}
use suffren.Protocol.{Message, message, CommandType, propose}
use suffren.Agreement.Output.{Output, send}
use suffren.Agreement.Acceptor
use suffren.Agreement.Acceptor.{Acceptor, handle_propose}
use suffren.Agreement.Acceptor.Handle.{Reply, handle_propose-replies}
use suffren.Agreement.Acceptor.Chain as AcceptorChain
use suffren.Agreement.Acceptor.Cluster.{Cluster, Inv, deliver_all, deliver_all-Inv}
use suffren.Agreement.Later.{from_now, quorums-ordered}
use suffren.Agreement.Quorum.{Acked, quorums-comparable}
use suffren.Tests.Data.{
  peers, empty, five, three, both, empty-IsUniform, five-IsUniform, three-IsUniform, both-IsUniform,
  Valid, laws, crdt,
}

-- The acceptors start at the empty map.
abbrev start : Cluster CounterMap
start = record { acceptors = λ n. Acceptor.new empty n; log = [] }

start-Inv : Inv Valid Below start
unfolding Acceptor.new
start-Inv = record {
  valid = λ _. empty-IsUniform;
  below = λ n v h. absurd h;
  comparable = λ n v w h k. absurd h;
}

-- N1 and N2 accept the first value, N2 and N3 the second.
abbrev deliveries : List (NodeId × Message CounterMap)
deliveries =
    ("N1", message "N1" propose (some five))
    ∷ ("N2", message "N1" propose (some five))
    ∷ ("N2", message "N2" propose (some both))
    ∷ ("N3", message "N2" propose (some both))
    ∷ []

valid_message :
    (n : NodeId) (x : CounterMap)
    → Valid x
    → AcceptorChain.ValidMessage Valid (message n propose (some x))
valid_message n x v y e = subst Valid (some_unique (some x) x y refl e) v

deliveries_valid : All (λ d. AcceptorChain.ValidMessage Valid d.1) deliveries
deliveries_valid = (
  valid_message "N1" five five-IsUniform,
  (
    valid_message "N1" five five-IsUniform,
    (valid_message "N2" both both-IsUniform, (valid_message "N2" both both-IsUniform, tt)),
  ),
)

abbrev after : Cluster CounterMap
after = deliver_all counter_map_lattice start deliveries

abbrev pair : NodeId → NodeId → GoMap NodeId (Unit {0})
pair a b = (a, tt) ∷ (b, tt) ∷ []

pair_members : (a b n : NodeId) → Has n (pair a b) → (a ≡ n) ⊎ (b ≡ n)
unfolding lookup
pair_members a b n h = elim (string_key.dec a n) [
  | yes p ↦ inl p
  | no p ↦ elim (string_key.dec b n) [ yes q ↦ inr q | no q ↦ absurd (ground (arith, h.1)) ]
]

n1_peer : Has "N1" peers
unfolding lookup crdt
n1_peer = ("a:1", refl)

n2_peer : Has "N2" peers
unfolding lookup crdt
n2_peer = ("b:1", refl)

n3_peer : Has "N3" peers
unfolding lookup crdt
n3_peer = ("c:1", refl)

pair_peers :
    (a b : NodeId) → Has a peers → Has b peers → (n : NodeId) → Has n (pair a b) → Has n peers
pair_peers a b p q n h = elim (pair_members a b n h) [
  | inl e ↦ subst (λ j. Has j peers) e p
  | inr e ↦ subst (λ j. Has j peers) e q
]

first_quorum : Acked peers after five
unfolding deliver_all crdt lookup Acceptor.new
first_quorum = record {
  voters = pair "N1" "N2";
  distinct = (refl, (refl, tt));
  among = pair_peers "N1" "N2" n1_peer n2_peer;
  enough = omega arith;
  acked = λ n h. elim (pair_members "N1" "N2" n h) [
    | inl p ↦ inr (inr (inr (inl (p, refl))))
    | inr p ↦ inr (inr (inl (p, refl)))
  ];
}

second_quorum : Acked peers after both
unfolding deliver_all crdt lookup Acceptor.new
second_quorum = record {
  voters = pair "N2" "N3";
  distinct = (refl, (refl, tt));
  among = pair_peers "N2" "N3" n2_peer n3_peer;
  enough = omega arith;
  acked = λ n h. elim (pair_members "N2" "N3" n h) [
    | inl p ↦ inr (inl (p, refl))
    | inr p ↦ inl (p, refl)
  ];
}

peers-Distinct : Distinct peers
unfolding lookup crdt
peers-Distinct = (refl, (refl, (refl, tt)))

quorums-comparable_example : Below five both ⊎ Below both five
quorums-comparable_example =
    quorums-comparable counter_map_lattice Valid Below laws peers start deliveries five both
      peers-Distinct start-Inv deliveries_valid first_quorum second_quorum

-- The same deliveries in two parts: the first quorum is there before the second part begins.
abbrev before : List (NodeId × Message CounterMap)
before = ("N1", message "N1" propose (some five)) ∷ ("N2", message "N1" propose (some five)) ∷ []

abbrev later : List (NodeId × Message CounterMap)
later = ("N2", message "N2" propose (some both)) ∷ ("N3", message "N2" propose (some both)) ∷ []

abbrev middle : Cluster CounterMap
middle = deliver_all counter_map_lattice start before

middle-Inv : Inv Valid Below middle
middle-Inv =
    deliver_all-Inv counter_map_lattice Valid Below laws start before
      (valid_message "N1" five five-IsUniform, (valid_message "N1" five five-IsUniform, tt))
      start-Inv

earlier_quorum : Acked peers middle five
unfolding deliver_all crdt lookup Acceptor.new
earlier_quorum = record {
  voters = pair "N1" "N2";
  distinct = (refl, (refl, tt));
  among = pair_peers "N1" "N2" n1_peer n2_peer;
  enough = omega arith;
  acked = λ n h. elim (pair_members "N1" "N2" n h) [
    | inl p ↦ inr (inl (p, refl))
    | inr p ↦ inl (p, refl)
  ];
}

later_quorum : Acked peers (deliver_all counter_map_lattice (from_now middle) later) both
unfolding deliver_all crdt lookup Acceptor.new
later_quorum = record {
  voters = pair "N2" "N3";
  distinct = (refl, (refl, tt));
  among = pair_peers "N2" "N3" n2_peer n3_peer;
  enough = omega arith;
  acked = λ n h. elim (pair_members "N2" "N3" n h) [
    | inl p ↦ inr (inl (p, refl))
    | inr p ↦ inl (p, refl)
  ];
}

quorums-ordered_example : Below five both
quorums-ordered_example =
    quorums-ordered counter_map_lattice Valid Below laws peers middle later five both peers-Distinct
      middle-Inv
      (valid_message "N2" both both-IsUniform, (valid_message "N2" both both-IsUniform, tt))
      earlier_quorum later_quorum

abbrev acceptor : Acceptor CounterMap
acceptor = record { node_id = "N1"; accepted_value = five }

-- An acceptor that holds `five` refuses `three`.
handle_propose-replies_example :
    (kind : CommandType) × (sent : CounterMap) × Reply counter_map_lattice Below acceptor three kind
      sent
    × (handle_propose counter_map_lattice acceptor (message "N2" propose (some three)) ≡ (
      record acceptor { accepted_value = sent },
      send "N2" (message "N1" kind (some sent)) ∷ [],
    ))
    × Valid sent
    × Below five sent
    × Below three sent
handle_propose-replies_example =
    handle_propose-replies counter_map_lattice Valid Below laws acceptor
      (message "N2" propose (some three)) three five-IsUniform three-IsUniform refl

abbrev proposals : List (Message CounterMap)
proposals = message "N2" propose (some three) ∷ message "N3" propose (some both) ∷ []

abbrev served : Acceptor CounterMap × List (Output CounterMap)
served = AcceptorChain.handle_all counter_map_lattice acceptor proposals

handle_all-Chain_example :
    Chain Below five (AcceptorChain.sent_values served.1)
    × Valid served.0.accepted_value
    × Below five served.0.accepted_value
handle_all-Chain_example =
    AcceptorChain.handle_all-Chain counter_map_lattice Valid Below laws acceptor proposals
      five-IsUniform
      (valid_message "N2" three three-IsUniform, (valid_message "N3" both both-IsUniform, tt))

-- Run: the refusal of `three` carries both increments.
refusal :
    AcceptorChain.sent_values
      (AcceptorChain.handle_all counter_map_lattice acceptor
        (message "N2" propose (some three) ∷ [])).1
    ≡ both ∷ []
unfolding AcceptorChain.handle_all crdt
refusal = refl
