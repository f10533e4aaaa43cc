-- ===== src/Crdt/CounterMap/Zero.antt =====
-- Maps whose counters name different nodes, such as those that a node makes after it has loaded its
-- state from disk: `nodeIds` is not stored, so a new counter names only the nodes that increment it.
use suffren.Base.{
  subst, some, ◌≢◌, ◌≡◌, refl, String, true, false, none, [], ◌∷◌, arith, length, string_key,
}
use suffren.GoMap.{lookup}
use suffren.Crdt.GCounter
use suffren.Crdt.GCounter.{GCounter, NodeId, count}
use suffren.Crdt.GCounter.Order as Counter
use suffren.Crdt.GCounter.Order.{count_absent}
use suffren.Crdt.GCounter.Merge.{count-cons}
use suffren.Crdt.CounterMap.{CounterMap, IsMap, equals, strictly_is_in}
use suffren.Crdt.CounterMap.Order.{Below, is_in_iff}

-- A map with one counter.
abbrev pub single : String → GCounter → CounterMap
single key g = record { counters = (key, g) ∷ []; node_ids = [] }

-- The counter with one more node, at 0.
abbrev pub with_zero : NodeId → GCounter → GCounter
with_zero n g = record { counts = (n, 0) ∷ g.counts }

single-lookup :
    (key k : String) (g h : GCounter)
    → lookup k (single key g).counters ≡ some h
    → (key ≡ k) × (g ≡ h)
unfolding lookup
single-lookup key k g h e = elim (string_key.dec key k) [
  | yes p ↦ (p, ground arith)
  | no p ↦ absurd (ground arith)
]

lookup-single : (key : String) (g : GCounter) → lookup key (single key g).counters ≡ some g
unfolding lookup
lookup-single key g = ground arith

single-IsMap : (key : String) (g : GCounter) → GCounter.IsMap g → IsMap (single key g)
unfolding lookup
single-IsMap key g d = record {
  distinct = (refl, tt);
  counter = λ k h e. subst GCounter.IsMap (single-lookup key k g h e).1 d;
}

single-Below :
    (key : String) (g h : GCounter) → Counter.Below g h → Below (single key g) (single key h)
single-Below key g h le k f e =
    let (same_key, same) = single-lookup key k g f e in
    (
      h,
      subst (λ j. lookup j (single key h).counters ≡ some h) same_key (lookup-single key h),
      subst (λ x. Counter.Below x h) same le,
    )

counter_equals-length :
    (g h : GCounter) → length g.counts ≢ length h.counts → GCounter.equals g h ≡ false
unfolding GCounter.equals
counter_equals-length g h ne = ground arith

single-equals :
    (key : String) (g h : GCounter)
    → length g.counts ≢ length h.counts
    → equals (single key g) (single key h) ≡ false
unfolding equals
single-equals key g h ne = ground (arith, lookup-single key h, counter_equals-length g h ne)

single-strictly :
    (key : String) (g h : GCounter)
    → GCounter.IsMap g
    → GCounter.IsMap h
    → Counter.Below g h
    → length g.counts ≢ length h.counts
    → strictly_is_in (single key g) (single key h) ≡ true
unfolding strictly_is_in
single-strictly key g h d e le ne =
    let below =
      (is_in_iff (single key g) (single key h) (single-IsMap key g d) (single-IsMap key h e)).1
        (single-Below key g h le) in
    ground (arith, single-equals key g h ne, below)

-- A counter and the same counter with a node more at 0 are each strictly in the other, as maps of
-- one key: `StrictlyIsIn` is then no strict order.
pub strictly_is_in-loop :
    (key : String) (n : NodeId) (g : GCounter)
    → GCounter.IsMap g
    → lookup n g.counts ≡ none
    → (strictly_is_in (single key g) (single key (with_zero n g)) ≡ true)
      × (strictly_is_in (single key (with_zero n g)) (single key g) ≡ true)
strictly_is_in-loop key n g d absent = (
  single-strictly key g (with_zero n g) d (absent, d)
      (λ k. ground (arith, count-cons k n 0 g.counts, zero k)) (omega arith),
  single-strictly key (with_zero n g) g (absent, d) d
      (λ k. ground (arith, count-cons k n 0 g.counts)) (omega arith),
)
  where
    zero : (k : NodeId) → n ≡ k → count k g.counts ≡ 0
    zero k p = subst (λ j. count j g.counts ≡ 0) p (count_absent n g.counts absent)
