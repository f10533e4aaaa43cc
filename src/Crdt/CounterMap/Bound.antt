-- ===== src/Crdt/CounterMap/Bound.antt =====
-- `Join` and `MergeInPlace` give the least upper bound, shown key by key on optional counters.
use suffren.Base.{
  subst, ◌≡◌, refl, String, Option-cases, inl, inr, Option, none, some, arith, string_key,
}
use mathlib.Core.Option
use suffren.GoMap.{lookup}
use suffren.Crdt.GCounter
use suffren.Crdt.GCounter.{GCounter, NodeId, count}
use suffren.Crdt.GCounter.Order as Counter
use suffren.Crdt.GCounter.Merge.{
  count-merge_in_place, count-copy_lem, merge_in_place-IsMap as counter_merge-IsMap, copy-IsMap,
}
use suffren.Crdt.CounterMap.{CounterMap, IsMap, join, merge_in_place, copy}
use suffren.Crdt.CounterMap.Order.{Below, Below-refl}
use suffren.Crdt.CounterMap.Merge.{
  merged, merged-none, lookup-join, lookup-merge_in_place, lookup-copy_lem, join-Distinct,
  copy-Distinct, merge_in_place-Distinct,
}

-- The order of counter maps at one key.
abbrev pub AtMost : Option GCounter → Option GCounter → Type 0
AtMost none b = Unit
AtMost (some g) none = ⊥
AtMost (some g) (some h) = Counter.Below g h

abbrev Good : Option GCounter → Type 0
Good none = Unit
Good (some g) = GCounter.IsMap g

AtMost-some :
    (g : GCounter) (b : Option GCounter)
    → AtMost (some g) b
    → (h : GCounter) × (b ≡ some h) × Counter.Below g h
AtMost-some g none r = absurd r
AtMost-some g (some h) r = (h, refl, r)

Good-some : (g : GCounter) (a : Option GCounter) → Good a → a ≡ some g → GCounter.IsMap g
Good-some g a r e = subst Good e r

pub Below_of_AtMost :
    (cm o : CounterMap)
    → ((k : String) → AtMost (lookup k cm.counters) (lookup k o.counters))
    → Below cm o
Below_of_AtMost cm o h key g e =
    AtMost-some g (lookup key o.counters) (subst (λ a. AtMost a (lookup key o.counters)) e (h key))

pub AtMost-of_Below :
    (cm o : CounterMap) (k : String)
    → Below cm o
    → AtMost (lookup k cm.counters) (lookup k o.counters)
AtMost-of_Below cm o k h = elim (Option-cases (lookup k cm.counters)) [
  | inl e ↦ rw e tt
  | inr (g, e) ↦ let (x, f, le) = h k g e in rw (e, f) le
]

Good-at : (cm : CounterMap) (k : String) → IsMap cm → Good (lookup k cm.counters)
Good-at cm k d = elim (Option-cases (lookup k cm.counters)) [
  | inl e ↦ rw e tt
  | inr (g, e) ↦ rw e (d.counter k g e)
]

IsMap-of_Good :
    (cm : CounterMap)
    → ((k : String) → Good (lookup k cm.counters))
    → (key : String) (g : GCounter) → lookup key cm.counters ≡ some g
    → GCounter.IsMap g
IsMap-of_Good cm h key g e = Good-some g (lookup key cm.counters) (h key) e

AtMost-merged_left : (a b : Option GCounter) → Good b → AtMost a (merged a b)
AtMost-merged_left none b r = tt
AtMost-merged_left (some g) none r = Counter.Below-refl g
AtMost-merged_left (some g) (some h) r = λ n. omega (arith, count-merge_in_place n g h r)

AtMost-merged_right : (a b : Option GCounter) → Good b → AtMost b (merged a b)
AtMost-merged_right a none r = tt
AtMost-merged_right none (some h) r = λ n. omega (arith, count-copy_lem n h r)
AtMost-merged_right (some g) (some h) r = λ n. omega (arith, count-merge_in_place n g h r)

merged-AtMost : (a b u : Option GCounter) → Good b → AtMost a u → AtMost b u → AtMost (merged a b) u
merged-AtMost a none u r p q = rw (merged-none a) p
merged-AtMost none (some h) none r p q = q
merged-AtMost none (some h) (some v) r p q = λ n. omega (arith, count-copy_lem n h r, q n)
merged-AtMost (some g) (some h) none r p q = q
merged-AtMost (some g) (some h) (some v) r p q =
    λ n. omega (arith, count-merge_in_place n g h r, p n, q n)

Good-merged : (a b : Option GCounter) → Good a → Good b → Good (merged a b)
Good-merged none none p q = tt
Good-merged (some g) none p q = p
Good-merged none (some h) p q = copy-IsMap h
Good-merged (some g) (some h) p q = counter_merge-IsMap g h p

Good-copy : (a : Option GCounter) → Good (Option.map GCounter.copy a)
Good-copy none = tt
Good-copy (some g) = copy-IsMap g

AtMost-copy : (a u : Option GCounter) → Good a → AtMost (Option.map GCounter.copy a) u → AtMost a u
AtMost-copy none u r p = tt
AtMost-copy (some g) none r p = p
AtMost-copy (some g) (some h) r p = λ n. omega (arith, count-copy_lem n g r, p n)

copy-AtMost : (a u : Option GCounter) → Good a → AtMost a u → AtMost (Option.map GCounter.copy a) u
copy-AtMost none u r p = tt
copy-AtMost (some g) none r p = p
copy-AtMost (some g) (some h) r p = λ n. omega (arith, count-copy_lem n g r, p n)

-- `Join` is the least upper bound: above both maps, and below every map that is above both.
pub join-IsLeast :
    (cm o u : CounterMap)
    → IsMap cm
    → IsMap o
    → Below cm (join cm o) × Below o (join cm o) × (Below cm u → Below o u → Below (join cm o) u)
join-IsLeast cm o u d e = (
  Below_of_AtMost cm (join cm o) λ k.
      rw (lookup-join k cm o d e)
        (AtMost-copy _ _ (Good-at cm k d) (AtMost-merged_left _ _ (Good-at o k e))),
  Below_of_AtMost o (join cm o)
      λ k. rw (lookup-join k cm o d e) (AtMost-merged_right _ _ (Good-at o k e)),
  λ p q. Below_of_AtMost (join cm o) u λ k. rw (lookup-join k cm o d e) (
      merged-AtMost _ _ _ (Good-at o k e)
        (copy-AtMost _ _ (Good-at cm k d) (AtMost-of_Below cm u k p)) (AtMost-of_Below o u k q)),
)

-- `MergeInPlace` leaves the least upper bound of the two maps in the receiver.
pub merge_in_place-IsLeast :
    (cm o u : CounterMap)
    → IsMap o
    → Below cm (merge_in_place cm o)
      × Below o (merge_in_place cm o)
      × (Below cm u → Below o u → Below (merge_in_place cm o) u)
merge_in_place-IsLeast cm o u e = (
  Below_of_AtMost cm (merge_in_place cm o)
      λ k. rw (lookup-merge_in_place k cm o e) (AtMost-merged_left _ _ (Good-at o k e)),
  Below_of_AtMost o (merge_in_place cm o)
      λ k. rw (lookup-merge_in_place k cm o e) (AtMost-merged_right _ _ (Good-at o k e)),
  λ p q. Below_of_AtMost (merge_in_place cm o) u λ k.
      rw (lookup-merge_in_place k cm o e)
        (merged-AtMost _ _ _ (Good-at o k e) (AtMost-of_Below cm u k p) (AtMost-of_Below o u k q)),
)

pub join-IsMap : (cm o : CounterMap) → IsMap cm → IsMap o → IsMap (join cm o)
join-IsMap cm o d e = record {
  distinct = join-Distinct cm o;
  counter =
      IsMap-of_Good (join cm o)
        λ k. rw (lookup-join k cm o d e) (Good-merged _ _ (Good-copy _) (Good-at o k e));
}

pub merge_in_place-IsMap : (cm o : CounterMap) → IsMap cm → IsMap o → IsMap (merge_in_place cm o)
merge_in_place-IsMap cm o d e = record {
  distinct = merge_in_place-Distinct cm o d;
  counter =
      IsMap-of_Good (merge_in_place cm o)
        λ k. rw (lookup-merge_in_place k cm o e) (Good-merged _ _ (Good-at cm k d) (Good-at o k e));
}

-- `Copy` is a map of the same counts under the same keys.
pub copy-Below : (cm : CounterMap) → IsMap cm → Below (copy cm) cm × Below cm (copy cm)
copy-Below cm d = (
  Below_of_AtMost (copy cm) cm λ k.
      rw (lookup-copy_lem k cm d)
        (copy-AtMost _ _ (Good-at cm k d) (AtMost-of_Below cm cm k (Below-refl cm))),
  Below_of_AtMost cm (copy cm) λ k. rw (lookup-copy_lem k cm d) (
      AtMost-copy _ _ (Good-at cm k d) (
        rw (← lookup-copy_lem k cm d)
          (AtMost-of_Below (copy cm) (copy cm) k (Below-refl (copy cm))))),
)

pub copy-IsMap_lem : (cm : CounterMap) → IsMap cm → IsMap (copy cm)
copy-IsMap_lem cm d = record {
  distinct = copy-Distinct cm;
  counter = IsMap-of_Good (copy cm) λ k. rw (lookup-copy_lem k cm d) (Good-copy _);
}
