-- ===== src/Crdt/CounterMap/Uniform.antt =====
-- Maps whose every counter names exactly the nodes of one list, as in a cluster whose engines were
-- given that list. On them the tests of the interface `Lattice` are the tests of a partial order.
use suffren.Base.{
  ℕ, sym, subst, ◌≡◌, refl, inl, inr, String, List, Option, none, some, arith, Option-cases,
  string_key,
}
use mathlib.Core.Option
use suffren.GoMap.{lookup}
use suffren.Crdt.GCounter
use suffren.Crdt.GCounter.{GCounter, NodeId}
use suffren.Crdt.GCounter.Nodes.{
  Listed, Names, new-Names, copy-Names, merge_in_place-Names, increment-Names,
}
use suffren.Crdt.CounterMap.{
  CounterMap, IsMap, new, join, merge_in_place, copy, bottom, increment_key, counter_or_new,
}
use suffren.Crdt.CounterMap.Merge.{merged, lookup-join, lookup-merge_in_place, lookup-copy_lem}
use suffren.Crdt.CounterMap.Equality.{SameNodes}
use suffren.Crdt.CounterMap.Keys.{lookup-increment_key, increment_key-IsMap}
use suffren.Crdt.CounterMap.Bound.{join-IsMap, merge_in_place-IsMap, copy-IsMap_lem}

pub record IsUniform (ns : List NodeId) (cm : CounterMap) : Type 0 where
  pub is_map : IsMap cm
  pub names : (key : String) (g : GCounter) → lookup key cm.counters ≡ some g → Names ns g

module _ (ns : List NodeId) where
  AllNames : Option GCounter → Type 0
  AllNames a = (g : GCounter) → a ≡ some g → Names ns g

  AllNames-copy : (a : Option GCounter) → AllNames a → AllNames (Option.map GCounter.copy a)
  unfolding AllNames
  AllNames-copy none h g e = absurd (ground arith)
  AllNames-copy (some f) h g e =
      let same : GCounter.copy f ≡ g = ground arith in
      subst (Names ns) same (copy-Names ns f (h f refl))

  AllNames-merged : (a b : Option GCounter) → AllNames a → AllNames b → AllNames (merged a b)
  unfolding AllNames
  AllNames-merged none none p q g e = p g e
  AllNames-merged (some f) none p q g e = p g e
  AllNames-merged none (some h) p q g e =
      let same : GCounter.copy h ≡ g = ground arith in
      subst (Names ns) same (copy-Names ns h (q h refl))
  AllNames-merged (some f) (some h) p q g e =
      let same : GCounter.merge_in_place f h ≡ g = ground arith in
      subst (Names ns) same (merge_in_place-Names ns f h (p f refl) (q h refl))

  pub SameNodes-uniform : (a b : CounterMap) → IsUniform ns a → IsUniform ns b → SameNodes a b
  SameNodes-uniform a b u w key g h p q = record {
    forth = λ n has. (w.names key h q).every n ((u.names key g p).only n has);
    back = λ n has. (u.names key g p).every n ((w.names key h q).only n has);
  }

  -- `Join` of two uniform maps is uniform.
  pub join-IsUniform :
      (a b : CounterMap) → IsUniform ns a → IsUniform ns b → IsUniform ns (join a b)
  unfolding AllNames
  join-IsUniform a b u w = record {
    is_map = join-IsMap a b u.is_map w.is_map;
    names = λ key.
        rw (lookup-join key a b u.is_map w.is_map)
          (AllNames-merged _ _ (AllNames-copy _ (u.names key)) (w.names key));
  }

  pub merge_in_place-IsUniform :
      (a b : CounterMap) → IsUniform ns a → IsUniform ns b → IsUniform ns (merge_in_place a b)
  unfolding AllNames
  merge_in_place-IsUniform a b u w = record {
    is_map = merge_in_place-IsMap a b u.is_map w.is_map;
    names = λ key.
        rw (lookup-merge_in_place key a b w.is_map)
          (AllNames-merged _ _ (u.names key) (w.names key));
  }

  pub copy-IsUniform : (a : CounterMap) → IsUniform ns a → IsUniform ns (copy a)
  unfolding AllNames
  copy-IsUniform a u = record {
    is_map = copy-IsMap_lem a u.is_map;
    names = λ key. rw (lookup-copy_lem key a u.is_map) (AllNames-copy _ (u.names key));
  }

  pub bottom-IsUniform : (a : CounterMap) → IsUniform ns (bottom a)
  unfolding bottom lookup
  bottom-IsUniform a = record {
    is_map = record { distinct = tt; counter = λ key g e. absurd (ground arith) };
    names = λ key g e. absurd (ground arith);
  }

  pub new-IsUniform : IsUniform ns (new ns)
  unfolding new lookup
  new-IsUniform = record {
    is_map = record { distinct = tt; counter = λ key g e. absurd (ground arith) };
    names = λ key g e. absurd (ground arith);
  }

  counter_or_new-Names :
      (a : CounterMap) (key : String)
      → a.node_ids ≡ ns
      → IsUniform ns a
      → Names ns (counter_or_new a key)
  unfolding counter_or_new
  counter_or_new-Names a key made u = elim (Option-cases (lookup key a.counters)) [
    | inl e ↦
        rw (e, counter_or_new) (subst (λ l. Names ns (GCounter.new l)) (sym made) (new-Names ns))
    | inr (g, e) ↦ rw (e, counter_or_new) (u.names key g e)
  ]

  -- An increment by a listed node keeps the map uniform, if the map was made for the list.
  pub increment_key-IsUniform :
      (a : CounterMap) (key : String) (n : NodeId) (v : ℕ)
      → a.node_ids ≡ ns
      → Listed n ns
      → IsUniform ns a
      → IsUniform ns (increment_key a key n v)
  increment_key-IsUniform a key n v made l u = record {
    is_map = increment_key-IsMap a key n v u.is_map;
    names = λ k g e. elim (string_key.dec key k) [
      | yes p ↦
          let same : GCounter.increment (counter_or_new a key) n v ≡ g =
            ground (arith, lookup-increment_key a key k n v) in
          subst (Names ns) same
            (increment-Names ns (counter_or_new a key) n v l (counter_or_new-Names a key made u))
      | no p ↦ u.names k g (ground (arith, lookup-increment_key a key k n v))
    ];
  }
