-- ===== src/Crdt/CounterMap/Merge.antt =====
-- `Join` and `MergeInPlace` compute the least upper bound of two counter maps.
use suffren.Base.{
  ap, subst, ◌≡◌, refl, sym, String, Option-cases, inl, inr, Option, none, some, [], ◌∷◌, arith,
  string_key, ite,
}
use mathlib.Core.Option
use suffren.GoMap.{GoMap, lookup, copy_into, Distinct}
use suffren.GoMap.Laws.{lookup-put, put-Distinct}
use suffren.GoMap.Copy.{lookup-copy, copy_into-Distinct}
use suffren.Crdt.GCounter
use suffren.Crdt.GCounter.{GCounter, NodeId, count}
use suffren.Crdt.CounterMap.{
  CounterMap, IsMap, merge_key, merge_counters, join, merge_in_place, copy,
}

-- What the merged map holds under a key at which the two maps hold `a` and `b`.
abbrev pub merged : Option GCounter → Option GCounter → Option GCounter
merged a none = a
merged none (some h) = some (GCounter.copy h)
merged (some g) (some h) = some (GCounter.merge_in_place g h)

pub merged-none : (a : Option GCounter) → merged a none ≡ a
merged-none none = refl
merged-none (some a) = refl

lookup-merge_key :
    (key k : String) (h : GCounter) (m : GoMap String GCounter)
    → lookup k (merge_key key h m)
      ≡ ite (string_key.dec key k) (merged (lookup k m) (some h)) (lookup k m)
unfolding merge_key
lookup-merge_key key k h m = elim (Option-cases (lookup key m)) [
  | inl p ↦
      ground (arith, lookup-put key k (GCounter.copy h) m, λ (e : key ≡ k). ap (λ j. lookup j m) e)
  | inr (g, p) ↦ ground (
    arith,
    lookup-put key k (GCounter.merge_in_place g h) m,
    λ (e : key ≡ k). ap (λ j. lookup j m) e,
  )
]

merge_key-Distinct :
    (key : String) (h : GCounter) (m : GoMap String GCounter)
    → Distinct m
    → Distinct (merge_key key h m)
unfolding merge_key
merge_key-Distinct key h m d = elim (Option-cases (lookup key m)) [
  | inl p ↦ rw (p, merge_key) (put-Distinct key (GCounter.copy h) m d)
  | inr (g, p) ↦ rw (p, merge_key) (put-Distinct key (GCounter.merge_in_place g h) m d)
]

merge_counters-Distinct : (m o : GoMap String GCounter) → Distinct m → Distinct (merge_counters m o)
unfolding merge_counters
merge_counters-Distinct m [] d = d
merge_counters-Distinct m ((key, h) ∷ o) d =
    merge_counters-Distinct (merge_key key h m) o (merge_key-Distinct key h m d)

-- The merged map holds the merged counters, key by key.
lookup-merge_counters :
    (k : String) (m o : GoMap String GCounter)
    → Distinct o
    → lookup k (merge_counters m o) ≡ merged (lookup k m) (lookup k o)
unfolding merge_counters lookup
lookup-merge_counters k m [] d = sym (merged-none (lookup k m))
lookup-merge_counters k m ((key, h) ∷ o) d = elim (string_key.dec key k) [
  | yes p ↦ ground (
    arith,
    lookup-merge_counters k (merge_key key h m) o d.1,
    lookup-merge_key key k h m,
    subst (λ j. lookup j o ≡ none) p d.0,
    merged-none (merged (lookup k m) (some h)),
  )
  | no p ↦
      ground (arith, lookup-merge_counters k (merge_key key h m) o d.1, lookup-merge_key key k h m)
]

-- Under each key `MergeInPlace` leaves the merge of the two counters there.
pub lookup-merge_in_place :
    (k : String) (cm o : CounterMap)
    → IsMap o
    → lookup k (merge_in_place cm o).counters ≡ merged (lookup k cm.counters) (lookup k o.counters)
unfolding merge_in_place
lookup-merge_in_place k cm o e = lookup-merge_counters k cm.counters o.counters e.distinct

-- `Join` does the same on a copy of the receiver.
pub lookup-join :
    (k : String) (cm o : CounterMap)
    → IsMap cm
    → IsMap o
    → lookup k (join cm o).counters
      ≡ merged (Option.map GCounter.copy (lookup k cm.counters)) (lookup k o.counters)
unfolding join
lookup-join k cm o d e =
    rw (← lookup-copy GCounter.copy cm.counters k d.distinct)
      (lookup-merge_counters k (copy_into GCounter.copy [] cm.counters) o.counters e.distinct)

-- `Copy` copies each counter.
pub lookup-copy_lem :
    (k : String) (cm : CounterMap)
    → IsMap cm
    → lookup k (copy cm).counters ≡ Option.map GCounter.copy (lookup k cm.counters)
unfolding copy
lookup-copy_lem k cm d = lookup-copy GCounter.copy cm.counters k d.distinct

pub merge_in_place-Distinct :
    (cm o : CounterMap) → IsMap cm → Distinct (merge_in_place cm o).counters
unfolding merge_in_place
merge_in_place-Distinct cm o d = merge_counters-Distinct cm.counters o.counters d.distinct

pub join-Distinct : (cm o : CounterMap) → Distinct (join cm o).counters
unfolding join
join-Distinct cm o =
    merge_counters-Distinct (copy_into GCounter.copy [] cm.counters) o.counters
      (copy_into-Distinct GCounter.copy [] cm.counters tt)

pub copy-Distinct : (cm : CounterMap) → Distinct (copy cm).counters
unfolding copy
copy-Distinct cm = copy_into-Distinct GCounter.copy [] cm.counters tt
