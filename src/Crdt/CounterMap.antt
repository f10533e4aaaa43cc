-- ===== src/Crdt/CounterMap.antt =====
-- internal/crdt/counter_map.go: one counter for each key. Every method of the source copies the
-- counters that it takes from another map, so no two maps share a counter and a map is a value.
pub mod Order
pub mod Merge
pub mod Equality
pub mod Keys
pub mod Bound
pub mod Uniform
pub mod Lawful
pub mod Zero
use suffren.Base.{
  ℕ, Bool, true, false, not, ◌&&◌, Option, none, some, List, [], ◌∷◌, ◌++◌, String, ltb, ◌==◌,
  if◌then◌else◌, length, string_key, ◌≡◌,
}
use suffren.GoMap.{GoMap, lookup, put, copy_into, Distinct}
use suffren.Crdt.GCounter
use suffren.Crdt.GCounter.{NodeId, GCounter}

pub record CounterMap : Type 0 where
  pub counters : GoMap String GCounter
  pub node_ids : List NodeId

unfoldable pub new : List NodeId → CounterMap
new node_ids = record { counters = []; node_ids = node_ids }

-- One round of the loops of `Join` and `MergeInPlace`.
unfoldable pub merge_key : String → GCounter → GoMap String GCounter → GoMap String GCounter
unfolding lookup put
merge_key key counter result = elim (lookup key result) [
  | some existing ↦ put key (GCounter.merge_in_place existing counter) result
  | none ↦ put key (GCounter.copy counter) result
]

unfoldable pub merge_counters :
    GoMap String GCounter → GoMap String GCounter → GoMap String GCounter
unfolding merge_key
merge_counters result [] = result
merge_counters result ((key, counter) ∷ o) = merge_counters (merge_key key counter result) o

unfoldable pub join : CounterMap → CounterMap → CounterMap
unfolding merge_counters copy_into
join cm o = record {
  counters = merge_counters (copy_into GCounter.copy [] cm.counters) o.counters;
  node_ids = cm.node_ids;
}

unfoldable pub merge_in_place : CounterMap → CounterMap → CounterMap
unfolding merge_counters
merge_in_place cm o = record cm { counters = merge_counters cm.counters o.counters }

unfoldable pub counters_in : GoMap String GCounter → GoMap String GCounter → Bool
unfolding lookup
counters_in [] o = true
counters_in ((key, counter) ∷ m) o =
    let rest = counters_in m o in
    elim (lookup key o) [
      | none ↦ false
      | some other_counter ↦ if GCounter.is_in counter other_counter then rest else false
    ]

unfoldable pub is_in : CounterMap → CounterMap → Bool
unfolding counters_in
is_in cm o =
    if ltb (length o.counters) (length cm.counters)
    then false
    else counters_in cm.counters o.counters

unfoldable pub counters_same : GoMap String GCounter → GoMap String GCounter → Bool
unfolding lookup
counters_same [] o = true
counters_same ((key, counter) ∷ m) o =
    let rest = counters_same m o in
    elim (lookup key o) [
      | none ↦ false
      | some other_counter ↦ if GCounter.equals counter other_counter then rest else false
    ]

unfoldable pub equals : CounterMap → CounterMap → Bool
unfolding counters_same
equals cm o =
    if length cm.counters == length o.counters then counters_same cm.counters o.counters else false

unfoldable pub strictly_is_in : CounterMap → CounterMap → Bool
unfolding is_in equals
strictly_is_in cm o = is_in cm o && not (equals cm o)

unfoldable pub bottom : CounterMap → CounterMap
bottom cm = record { counters = []; node_ids = cm.node_ids }

-- The map after the first `if` of `IncrementKey`, and the counter that it then increments.
unfoldable pub counter_or_new : CounterMap → String → GCounter
unfolding lookup
counter_or_new cm key = elim (lookup key cm.counters) [
  | some counter ↦ counter
  | none ↦ GCounter.new cm.node_ids
]

unfoldable pub increment_key : CounterMap → String → NodeId → ℕ → CounterMap
unfolding counter_or_new put
increment_key cm key node_id value = record cm {
  counters = put key (GCounter.increment (counter_or_new cm key) node_id value) cm.counters;
}

unfoldable pub value_for_key : CounterMap → String → ℕ
unfolding lookup
value_for_key cm key = elim (lookup key cm.counters) [
  | some counter ↦ GCounter.value counter
  | none ↦ 0
]

unfoldable pub keys_from : List String → GoMap String GCounter → List String
keys_from keys [] = keys
keys_from keys ((key, counter) ∷ m) = keys_from (keys ++ key ∷ []) m

unfoldable pub keys : CounterMap → List String
unfolding keys_from
keys cm = keys_from [] cm.counters

unfoldable pub copy : CounterMap → CounterMap
unfolding copy_into
copy cm = record cm { counters = copy_into GCounter.copy [] cm.counters }

-- Go's maps hold a key once, and so do the counters' own maps.
pub record IsMap (cm : CounterMap) : Type 0 where
  pub distinct : Distinct cm.counters
  pub counter : (key : String) (g : GCounter) → lookup key cm.counters ≡ some g → GCounter.IsMap g
