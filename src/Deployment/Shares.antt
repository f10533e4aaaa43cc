-- ===== src/Deployment/Shares.antt =====
-- What a counter map counts for one node under one key, and sums over the requests of a node.
use suffren.Base.{
  ℕ, ◌+◌, ◌-◌, ◌≤◌, ◌<◌, ◌≡◌, ap, inl, inr, Option-cases, some, none, String, List, [], ◌∷◌, arith,
  ite, string_key,
}
use suffren.GoMap.{GoMap, lookup, put}
use suffren.Crdt.GCounter.{NodeId, count, increment, uint64_mod}
use suffren.Crdt.GCounter.Merge.{count-put}
use suffren.Crdt.GCounter.Value.{sum_counts, sum-put, count-increment}
use suffren.Crdt.GCounter.Nodes.{count-new}
use suffren.Crdt.CounterMap.{CounterMap, counter_or_new, increment_key}
use suffren.Crdt.CounterMap.Order.{Below}
use suffren.Crdt.CounterMap.Keys.{lookup-increment_key, counter_or_new-some}

-- The count of a node under a key.
abbrev pub share : CounterMap → String → NodeId → ℕ
share m key n = count n (counter_or_new m key).counts

pub counter_or_new-none :
    (m : CounterMap) (key : String)
    → lookup key m.counters ≡ none
    → (n : NodeId) → share m key n ≡ 0
unfolding counter_or_new
counter_or_new-none m key e n = ground (arith, count-new n m.node_ids)

pub share_mono :
    (m o : CounterMap) (key : String) (n : NodeId) → Below m o → share m key n ≤ share o key n
share_mono m o key n le = elim (Option-cases (lookup key m.counters)) [
  | inl e ↦ omega (arith, counter_or_new-none m key e n)
  | inr (g, e) ↦
      let (h, found, below) = le key g e in
      omega (
        arith,
        below n,
        ap (λ x. count n x.counts) (counter_or_new-some m key g e),
        ap (λ x. count n x.counts) (counter_or_new-some o key h found),
      )
]

-- An increment that does not overflow adds to the count of its node.
pub share-increment_key :
    (m : CounterMap) (key : String) (n : NodeId) (v : ℕ)
    → share m key n + v < uint64_mod
    → share (increment_key m key n v) key n ≡ share m key n + v
share-increment_key m key n v fits =
    let g = increment (counter_or_new m key) n v in
    let found : lookup key (increment_key m key n v).counters ≡ some g =
      ground (arith, lookup-increment_key m key key n v) in
    ground (
      arith,
      ap (λ x. count n x.counts) (counter_or_new-some (increment_key m key n v) key g found),
      count-increment (counter_or_new m key) n n v,
    )

module _ {A : Type 0} (node : A → NodeId) (weight : A → ℕ) where
  abbrev pub sum_at : NodeId → List A → ℕ
  sum_at n [] = 0
  sum_at n (q ∷ qs) = ite (string_key.dec (node q) n) (weight q) 0 + sum_at n qs

  abbrev pub sum_all : List A → ℕ
  sum_all [] = 0
  sum_all (q ∷ qs) = weight q + sum_all qs

  -- Where the sum of each node is within its count, the sum of all is within the sum of the counts.
  pub sum_all-le :
      (qs : List A) (m : GoMap NodeId ℕ)
      → ((n : NodeId) → sum_at n qs ≤ count n m)
      → sum_all qs ≤ sum_counts m
  sum_all-le [] m h = omega arith
  sum_all-le (q ∷ qs) m h =
      let k = node q in
      let m' = put k (count k m - weight q) m in
      let rest =
        sum_all-le qs m' (λ n. ground (arith, h n, h k, count-put k n (count k m - weight q) m)) in
      ground (arith, rest, sum-put k (count k m - weight q) m, h k)
