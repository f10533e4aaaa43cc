-- ===== src/Crdt/CounterMap/Lawful.antt =====
-- `CounterMap` as a `Lattice`: the methods of the interface, and its laws on uniform maps.
use suffren.Base.{List, arith}
use suffren.GoMap.{lookup}
use suffren.Crdt.GCounter.{NodeId}
use suffren.Crdt.Lattice.{Lattice, IsLattice}
use suffren.Crdt.CounterMap
use suffren.Crdt.CounterMap.{CounterMap, bottom}
use suffren.Crdt.CounterMap.Order.{Below, Below-refl, Below-trans, is_in_iff}
use suffren.Crdt.CounterMap.Equality.{equals_iff, strictly_is_in_iff}
use suffren.Crdt.CounterMap.Bound.{join-IsLeast, merge_in_place-IsLeast}
use suffren.Crdt.CounterMap.Uniform.{
  IsUniform, SameNodes-uniform, join-IsUniform, merge_in_place-IsUniform, bottom-IsUniform,
}

abbrev pub counter_map_lattice : Lattice CounterMap
counter_map_lattice = record {
  join = CounterMap.join;
  is_in = CounterMap.is_in;
  strictly_is_in = CounterMap.strictly_is_in;
  bottom = CounterMap.bottom;
  merge_in_place = CounterMap.merge_in_place;
  equals = CounterMap.equals;
}

bottom-Below : (x y : CounterMap) → Below (bottom x) y
unfolding bottom lookup
bottom-Below x y key g e = absurd (ground arith)

-- Over maps whose counters name the same nodes, the methods of `CounterMap` are those of a
-- join-semilattice with a bottom, and its tests decide the order.
pub counter_map-IsLattice : (ns : List NodeId) → IsLattice counter_map_lattice (IsUniform ns) Below
counter_map-IsLattice ns = record {
  le_refl = Below-refl;
  le_trans = Below-trans;
  is_in_iff = λ x y u v. is_in_iff x y u.is_map v.is_map;
  equals_iff = λ x y u v. equals_iff x y u.is_map v.is_map (SameNodes-uniform ns x y u v);
  strictly_iff = λ x y u v. strictly_is_in_iff x y u.is_map v.is_map (SameNodes-uniform ns x y u v);
  join_valid = join-IsUniform ns;
  join_least = λ x y z u v. join-IsLeast x y z u.is_map v.is_map;
  merge_valid = merge_in_place-IsUniform ns;
  merge_least = λ x y z u v. merge_in_place-IsLeast x y z v.is_map;
  bottom_valid = bottom-IsUniform ns;
  bottom_le = bottom-Below;
}
