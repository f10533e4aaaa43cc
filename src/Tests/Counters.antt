-- ===== src/Tests/Counters.antt =====
-- The results about counters and counter maps, at the counters of a cluster of three nodes.
use suffren.Base.{
  subst, some_unique, ne_of_test, ◌+◌, ◌%◌, ◌<◌, ◌≡◌, refl, ◌≢◌, ◌↔◌, ite, true, none, some, String,
  List, [], ◌∷◌, arith, string_key,
}
use suffren.GoMap.{lookup}
use suffren.Crdt.GCounter
use suffren.Crdt.GCounter.{GCounter, NodeId, count, uint64_mod}
use suffren.Crdt.GCounter.Value.{Fits, value-increment, sum_counts}
use suffren.Crdt.Lattice.{IsLattice}
use suffren.Crdt.CounterMap
use suffren.Crdt.CounterMap.{CounterMap, counter_or_new}
use suffren.Crdt.CounterMap.Order.{Below, is_in_iff}
use suffren.Crdt.CounterMap.Equality.{equals_iff}
use suffren.Crdt.CounterMap.Bound.{join-IsLeast}
use suffren.Crdt.CounterMap.Keys.{value-increment_key}
use suffren.Crdt.CounterMap.Uniform.{SameNodes-uniform}
use suffren.Crdt.CounterMap.Lawful.{counter_map_lattice, counter_map-IsLattice}
use suffren.Crdt.CounterMap.Zero.{single, with_zero}
use suffren.Agreement.Output.{Output}
use suffren.Agreement.Learner.{Learner, handle_all}
use suffren.Agreement.Learner.Chain.{passed_on}
use suffren.Agreement.Learner.Alternates.{in_turn, values_in_turn, handle_all-alternates}
use suffren.Base.Result.{ok}
use suffren.Tests.Data.{
  nodes, five, three, both, five-IsUniform, three-IsUniform, both-IsUniform, Valid, crdt,
}

abbrev one_node : GCounter
one_node = record { counts = ("N1", 5) ∷ [] }

abbrev two_nodes : GCounter
two_nodes = record { counts = ("N1", 4) ∷ ("N2", 3) ∷ [] }

two_nodes-IsMap : GCounter.IsMap two_nodes
unfolding lookup crdt
two_nodes-IsMap = (refl, (refl, tt))

one_node-IsMap : GCounter.IsMap one_node
unfolding lookup
one_node-IsMap = (refl, tt)

counter_map-IsLattice_example : IsLattice counter_map_lattice Valid Below
counter_map-IsLattice_example = counter_map-IsLattice nodes

is_in_iff_example : (CounterMap.is_in five both ≡ true) ↔ Below five both
is_in_iff_example = is_in_iff five both five-IsUniform.is_map both-IsUniform.is_map

equals_iff_example : (CounterMap.equals five both ≡ true) ↔ (Below five both × Below both five)
equals_iff_example =
    equals_iff five both five-IsUniform.is_map both-IsUniform.is_map
      (SameNodes-uniform nodes five both five-IsUniform both-IsUniform)

join-IsLeast_example :
    Below five (CounterMap.join five three)
    × Below three (CounterMap.join five three)
    × (Below five both → Below three both → Below (CounterMap.join five three) both)
join-IsLeast_example = join-IsLeast five three both five-IsUniform.is_map three-IsUniform.is_map

n2_absent : lookup "N2" one_node.counts ≡ none
unfolding lookup crdt
n2_absent = refl

abbrev learner : Learner CounterMap
learner = record { node_id = "N1"; has_callback = true; learned_value = single "k" one_node }

handle_all-alternates_example :
    (out : List (Output CounterMap)) × (handle_all counter_map_lattice learner
        (in_turn "N2" "N3" (single "k" one_node) (single "k" (with_zero "N2" one_node)) 3)
      ≡ ok (learner, out))
    × (passed_on out
        ≡ values_in_turn "N2" "N3" (single "k" one_node) (single "k" (with_zero "N2" one_node)) 3)
handle_all-alternates_example =
    handle_all-alternates learner "N2" "N3" 3 "k" "N2" one_node one_node-IsMap n2_absent refl

value-increment_key_example :
    CounterMap.value_for_key (CounterMap.increment_key five "k" "N2" 3) "k"
    ≡ ite
        (string_key.dec "k" "k")
        ((CounterMap.value_for_key five "k" + 3) % uint64_mod)
        (CounterMap.value_for_key five "k")
value-increment_key_example = value-increment_key five "k" "k" "N2" 3

five_fits : count "N1" (counter_or_new five "k").counts + 3 < uint64_mod
unfolding crdt counter_or_new count lookup
five_fits = omega arith

five_made : five.node_ids ≡ nodes
unfolding crdt
five_made = refl

abbrev both_counter : GCounter
both_counter = record { counts = ("N1", 5) ∷ ("N2", 3) ∷ ("N3", 0) ∷ [] }

both-Fits : (h : GCounter) → lookup "k" both.counters ≡ some h → Fits h
unfolding crdt sum_counts lookup
both-Fits h e = subst Fits (some_unique (some both_counter) both_counter h refl e) (omega arith)

n1_ne_n2 : ◌≢◌ {A = String} "N1" "N2"
n1_ne_n2 = ne_of_test "N1" "N2" refl

value-increment_example :
    GCounter.value (GCounter.increment two_nodes "N2" 9)
    ≡ (GCounter.value two_nodes + 9) % uint64_mod
value-increment_example = value-increment two_nodes "N2" 9

n1_count : count "N1" one_node.counts ≡ 5
unfolding count crdt
n1_count = refl
