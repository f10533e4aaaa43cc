-- ===== src/Crdt/GCounter/Merge.antt =====
-- `Join` and `MergeInPlace` compute the pointwise maximum, the least upper bound of two counters.
use suffren.Base.{ℕ, max, ap, ◌≡◌, refl, inl, inr, Bool-cases, [], ◌∷◌, arith, ltb, ite, string_key}
use suffren.GoMap.{GoMap, lookup, put, copy_into, Distinct}
use suffren.GoMap.Laws.{lookup-put, put-Distinct}
use suffren.GoMap.Copy.{lookup-copy, copy_into-Distinct}
use suffren.Crdt.GCounter.{
  NodeId, GCounter, count, raise_count, merge_counts, copy, new, join, merge_in_place, IsMap,
}
use suffren.Crdt.GCounter.Order.{Below, count_absent}

pub count-put :
    (n k : NodeId) (c : ℕ) (m : GoMap NodeId ℕ)
    → count k (put n c m) ≡ ite (string_key.dec n k) c (count k m)
unfolding count
count-put n k c m = ground (arith, lookup-put n k c m)

raise_count-Distinct :
    (n : NodeId) (c : ℕ) (m : GoMap NodeId ℕ) → Distinct m → Distinct (raise_count n c m)
unfolding raise_count
raise_count-Distinct n c m h = elim (Bool-cases (ltb (count n m) c)) [
  | inl e ↦ rw e (put-Distinct n c m h)
  | inr e ↦ rw e h
]

count-raise_count :
    (n k : NodeId) (c : ℕ) (m : GoMap NodeId ℕ)
    → count k (raise_count n c m) ≡ ite (string_key.dec n k) (max (count k m) c) (count k m)
unfolding raise_count
count-raise_count n k c m = ground (arith, count-put n k c m, λ (p : n ≡ k). ap (λ j. count j m) p)

pub merge_counts-Distinct :
    (result o : GoMap NodeId ℕ) → Distinct result → Distinct (merge_counts result o)
unfolding merge_counts
merge_counts-Distinct result [] h = h
merge_counts-Distinct result ((n, c) ∷ o) h =
    merge_counts-Distinct (raise_count n c result) o (raise_count-Distinct n c result h)

pub count-nil : (n : NodeId) → count n [] ≡ 0
unfolding count lookup
count-nil n = refl

pub count-cons :
    (n k : NodeId) (c : ℕ) (m : GoMap NodeId ℕ)
    → count n ((k, c) ∷ m) ≡ ite (string_key.dec k n) c (count n m)
unfolding count lookup
count-cons n k c m = ground arith

-- Each count of the merged map is the larger of the two.
pub count-merge_counts :
    (n : NodeId) (result o : GoMap NodeId ℕ)
    → Distinct o
    → count n (merge_counts result o) ≡ max (count n result) (count n o)
unfolding merge_counts
count-merge_counts n result [] d = omega (arith, count-nil n)
count-merge_counts n result ((k, c) ∷ o) d = ground (
  arith,
  count-merge_counts n (raise_count k c result) o d.1,
  count-raise_count k n c result,
  count-cons n k c o,
  count_absent k o d.0,
  λ (p : k ≡ n). ap (λ j. count j o) p,
)

count-copy :
    (n : NodeId) (m : GoMap NodeId ℕ) → Distinct m → count n (copy_into (λ c. c) [] m) ≡ count n m
unfolding count
count-copy n m d = ground (arith, lookup-copy (λ c. c) m n d)

-- `Copy` is a counter with the same counts.
pub count-copy_lem :
    (n : NodeId) (g : GCounter) → IsMap g → count n (copy g).counts ≡ count n g.counts
unfolding copy
count-copy_lem n g d = count-copy n g.counts d

pub copy-IsMap : (g : GCounter) → IsMap (copy g)
unfolding copy
copy-IsMap g = copy_into-Distinct (λ c. c) [] g.counts tt

-- `MergeInPlace` leaves the pointwise maximum in the receiver.
pub count-merge_in_place :
    (n : NodeId) (g o : GCounter)
    → IsMap o
    → count n (merge_in_place g o).counts ≡ max (count n g.counts) (count n o.counts)
unfolding merge_in_place
count-merge_in_place n g o d = count-merge_counts n g.counts o.counts d

pub merge_in_place-IsMap : (g o : GCounter) → IsMap g → IsMap (merge_in_place g o)
unfolding merge_in_place
merge_in_place-IsMap g o d = merge_counts-Distinct g.counts o.counts d

-- `Join` is the pointwise maximum, and leaves its arguments alone.
pub count-join :
    (n : NodeId) (g o : GCounter)
    → IsMap g
    → IsMap o
    → count n (join g o).counts ≡ max (count n g.counts) (count n o.counts)
unfolding join new
count-join n g o d e = omega (
  arith,
  count-merge_counts n (copy_into (λ c. c) [] g.counts) o.counts e,
  count-copy n g.counts d,
)

pub join-IsMap : (g o : GCounter) → IsMap (join g o)
unfolding join new
join-IsMap g o =
    merge_counts-Distinct (copy_into (λ c. c) [] g.counts) o.counts
      (copy_into-Distinct (λ c. c) [] g.counts tt)

-- `Join` is the least upper bound: it is above both, and below whatever is above both.
pub join-IsLeast :
    (g o u : GCounter)
    → IsMap g
    → IsMap o
    → Below g (join g o) × Below o (join g o) × (Below g u → Below o u → Below (join g o) u)
join-IsLeast g o u d e = (
  λ n. omega (arith, count-join n g o d e),
  λ n. omega (arith, count-join n g o d e),
  λ p q n. omega (arith, count-join n g o d e, p n, q n),
)
