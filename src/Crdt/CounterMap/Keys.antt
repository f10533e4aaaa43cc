-- ===== src/Crdt/CounterMap/Keys.antt =====
-- `IncrementKey`, `ValueForKey` and `Keys`.
use suffren.Base.{
  ℕ, ap, subst, ◌∙◌, ◌+◌, ◌%◌, ◌<◌, ◌≤◌, ◌≡◌, sym, ◌++◌, List, String, map, Option-cases, inl, inr,
  some, [], ◌∷◌, arith, ite, string_key,
}
use mathlib.Core.List.{append_assoc, append-nil}
use suffren.GoMap.{GoMap, lookup}
use suffren.GoMap.Laws.{lookup-put, put-Distinct}
use suffren.Crdt.GCounter
use suffren.Crdt.GCounter.{GCounter, NodeId, count, uint64_mod}
use suffren.Crdt.GCounter.Order as Counter
use suffren.Crdt.GCounter.Value.{
  Fits, value-increment, value_mono, increment-grows, increment-IsMap,
}
use suffren.Crdt.GCounter.Nodes.{value-new, new-Names}
use suffren.Crdt.CounterMap.{
  CounterMap, IsMap, counter_or_new, increment_key, value_for_key, keys_from, keys,
}
use suffren.Crdt.CounterMap.Order.{Below}

value-counter_or_new :
    (cm : CounterMap) (key : String) → GCounter.value (counter_or_new cm key) ≡ value_for_key cm key
unfolding counter_or_new value_for_key
value-counter_or_new cm key = ground (arith, value-new cm.node_ids)

pub lookup-increment_key :
    (cm : CounterMap) (key k : String) (n : NodeId) (v : ℕ)
    → lookup k (increment_key cm key n v).counters
      ≡ ite
          (string_key.dec key k)
          (some (GCounter.increment (counter_or_new cm key) n v))
          (lookup k cm.counters)
unfolding increment_key
lookup-increment_key cm key k n v =
    lookup-put key k (GCounter.increment (counter_or_new cm key) n v) cm.counters

-- `IncrementKey` adds to the value of its key, modulo 2^64, and leaves every other key alone; a key
-- that is new starts at 0.
pub value-increment_key :
    (cm : CounterMap) (key k : String) (n : NodeId) (v : ℕ)
    → value_for_key (increment_key cm key n v) k
      ≡ ite (string_key.dec key k) ((value_for_key cm key + v) % uint64_mod) (value_for_key cm k)
unfolding value_for_key
value-increment_key cm key k n v = ground (
  arith,
  lookup-increment_key cm key k n v,
  value-increment (counter_or_new cm key) n v,
  value-counter_or_new cm key,
)

pub counter_or_new-some :
    (cm : CounterMap) (key : String) (g : GCounter)
    → lookup key cm.counters ≡ some g
    → counter_or_new cm key ≡ g
unfolding counter_or_new
counter_or_new-some cm key g e = ground arith

-- Where the node's count does not overflow, `IncrementKey` moves the map up the order.
pub increment_key-Below :
    (cm : CounterMap) (key : String) (n : NodeId) (v : ℕ)
    → count n (counter_or_new cm key).counts + v < uint64_mod
    → Below cm (increment_key cm key n v)
increment_key-Below cm key n v fits k g e = elim (string_key.dec key k) [
  | yes p ↦
      let found = counter_or_new-some cm key g (ap (λ j. lookup j cm.counters) p ∙ e) in
      (
        GCounter.increment (counter_or_new cm key) n v,
        ground (arith, lookup-increment_key cm key k n v),
        subst (λ h. Counter.Below h (GCounter.increment (counter_or_new cm key) n v)) found
            (increment-grows (counter_or_new cm key) n v fits),
      )
  | no p ↦ (g, ground (arith, lookup-increment_key cm key k n v), Counter.Below-refl g)
]

pub counter_or_new-IsMap :
    (cm : CounterMap) (key : String) → IsMap cm → GCounter.IsMap (counter_or_new cm key)
unfolding counter_or_new
counter_or_new-IsMap cm key d = elim (Option-cases (lookup key cm.counters)) [
  | inl e ↦ rw (e, counter_or_new) (new-Names cm.node_ids).is_map
  | inr (g, e) ↦ rw (e, counter_or_new) (d.counter key g e)
]

pub increment_key-IsMap :
    (cm : CounterMap) (key : String) (n : NodeId) (v : ℕ)
    → IsMap cm
    → IsMap (increment_key cm key n v)
unfolding increment_key
increment_key-IsMap cm key n v d = record {
  distinct =
      put-Distinct key (GCounter.increment (counter_or_new cm key) n v) cm.counters d.distinct;
  counter = λ k g e. elim (string_key.dec key k) [
    | yes p ↦
        let same : GCounter.increment (counter_or_new cm key) n v ≡ g =
          ground (arith, lookup-increment_key cm key k n v) in
        subst GCounter.IsMap same
          (increment-IsMap (counter_or_new cm key) n v (counter_or_new-IsMap cm key d))
    | no p ↦ d.counter k g (ground (arith, lookup-increment_key cm key k n v))
  ];
}

-- `ValueForKey` is monotone in the order of maps, while the larger counter's sum fits 64 bits.
pub value_for_key_mono :
    (cm o : CounterMap) (key : String)
    → IsMap cm
    → IsMap o
    → ((h : GCounter) → lookup key o.counters ≡ some h → Fits h)
    → Below cm o
    → value_for_key cm key ≤ value_for_key o key
unfolding value_for_key
value_for_key_mono cm o key d e fits le = elim (Option-cases (lookup key cm.counters)) [
  | inl p ↦ ground arith
  | inr (g, p) ↦
      let (h, q, below) = le key g p in
      ground (arith, value_mono g h (d.counter key g p) (e.counter key h q) (fits h q) below)
]

keys_from-eq :
    (ks : List String) (m : GoMap String GCounter) → keys_from ks m ≡ ks ++ map (λ e. e.0) m
unfolding keys_from
keys_from-eq ks [] = sym (append-nil ks)
keys_from-eq ks ((key, g) ∷ m) =
    keys_from-eq (ks ++ key ∷ []) m ∙ append_assoc ks (key ∷ []) (map (λ e. e.0) m)

-- `Keys` is the list of the map's keys.
pub keys-eq-map : (cm : CounterMap) → keys cm ≡ map (λ e. e.0) cm.counters
unfolding keys
keys-eq-map cm = keys_from-eq [] cm.counters
