-- ===== src/Tests/Data.antt =====
-- The inputs that the tests share: a cluster of three nodes and a few counter maps.
use suffren.Base.{Bool, ◌≡◌, refl, List, String, [], ◌∷◌, inl, inr, string_discrete}
use suffren.GoMap.{GoMap}
use suffren.Crdt.GCounter
use suffren.Crdt.GCounter.{GCounter, NodeId, count}
use suffren.Crdt.Lattice.{IsLattice}
use suffren.Crdt.CounterMap
use suffren.Crdt.CounterMap.{CounterMap}
use suffren.Crdt.CounterMap.Order.{Below}
use suffren.Crdt.CounterMap.Uniform.{
  IsUniform, new-IsUniform, increment_key-IsUniform, join-IsUniform,
}
use suffren.Crdt.CounterMap.Lawful.{counter_map_lattice, counter_map-IsLattice}

abbrev pub nodes : List NodeId
nodes = "N1" ∷ "N2" ∷ "N3" ∷ []

abbrev pub peers : GoMap NodeId String
peers = ("N1", "a:1") ∷ ("N2", "b:1") ∷ ("N3", "c:1") ∷ []

-- A map for the three nodes with no key.
abbrev pub empty : CounterMap
empty = record { counters = []; node_ids = nodes }

-- Node N1 has added 5 to the key, node N2 has added 3, and both.
abbrev pub five : CounterMap
five = CounterMap.increment_key empty "k" "N1" 5

abbrev pub three : CounterMap
three = CounterMap.increment_key empty "k" "N2" 3

abbrev pub both : CounterMap
both = CounterMap.join five three

pub empty-IsUniform : IsUniform nodes empty
unfolding CounterMap.new
empty-IsUniform = new-IsUniform nodes

pub five-IsUniform : IsUniform nodes five
five-IsUniform = increment_key-IsUniform nodes empty "k" "N1" 5 refl (inl refl) empty-IsUniform

pub three-IsUniform : IsUniform nodes three
three-IsUniform =
    increment_key-IsUniform nodes empty "k" "N2" 3 refl (inr (inl refl)) empty-IsUniform

pub both-IsUniform : IsUniform nodes both
both-IsUniform = join-IsUniform nodes five three five-IsUniform three-IsUniform

abbrev pub Valid : CounterMap → Type 0
Valid = IsUniform nodes

abbrev pub laws : IsLattice counter_map_lattice Valid Below
laws = counter_map-IsLattice nodes

-- All that a run of the counters computes with.
unfoldable pub crdt : Unit {0}
unfolding string_discrete CounterMap.new CounterMap.increment_key CounterMap.join
    CounterMap.merge_in_place CounterMap.is_in CounterMap.equals CounterMap.strictly_is_in
    CounterMap.value_for_key CounterMap.copy GCounter.join GCounter.copy GCounter.merge_in_place
    GCounter.is_in GCounter.strictly_is_in GCounter.equals GCounter.increment GCounter.value
    GCounter.new
crdt = tt

five_then_three :
    (CounterMap.value_for_key both "k" ≡ 8)
    × (CounterMap.is_in five both ≡ CounterMap.is_in three both)
unfolding crdt
five_then_three = (refl, refl)

five_in_both : CounterMap.is_in five both ≡ Bool.true
unfolding crdt
five_in_both = refl
