-- ===== src/Crdt/GCounter/Value.antt =====
-- `Increment` and `Value`, in 64-bit arithmetic.
use suffren.Base.{ℕ, ◌+◌, ◌%◌, ap, ◌≤◌, ◌<◌, ◌≡◌, [], ◌∷◌, arith, ite, string_key}
use suffren.GoMap.{GoMap, put, remove, Distinct}
use suffren.GoMap.Laws.{lookup-remove, put-Distinct, remove-Distinct}
use suffren.Crdt.GCounter.{NodeId, GCounter, uint64_mod, count, increment, total_from, value, IsMap}
use suffren.Crdt.GCounter.Order.{Below, count_absent}
use suffren.Crdt.GCounter.Merge.{count-put, count-cons, count-nil}

-- The sum of all counts, before any wrap.
unfoldable pub sum_counts : GoMap NodeId ℕ → ℕ
sum_counts [] = 0
sum_counts ((n, c) ∷ m) = c + sum_counts m

-- No count or sum of counts reaches 2^64.
abbrev pub Fits : GCounter → Type 0
Fits g = sum_counts g.counts < uint64_mod

total_from-eq-sum :
    (total : ℕ) (m : GoMap NodeId ℕ)
    → total < uint64_mod
    → total_from total m ≡ (total + sum_counts m) % uint64_mod
unfolding total_from sum_counts
total_from-eq-sum total [] h = omega arith
total_from-eq-sum total ((n, c) ∷ m) h =
    omega (arith, total_from-eq-sum ((total + c) % uint64_mod) m (omega arith))

-- `Value` is the sum of the counts modulo 2^64, whatever the order of the iteration.
pub value-eq-sum : (g : GCounter) → value g ≡ sum_counts g.counts % uint64_mod
unfolding value
value-eq-sum g = omega (arith, total_from-eq-sum 0 g.counts (omega arith))

pub sum-put :
    (n : NodeId) (c : ℕ) (m : GoMap NodeId ℕ)
    → sum_counts (put n c m) + count n m ≡ sum_counts m + c
unfolding sum_counts put
sum-put n c [] = omega (arith, count-nil n)
sum-put n c ((k, b) ∷ m) = ground (arith, sum-put n c m, count-cons n k b m)

-- `Increment` adds to `Value`, modulo 2^64.
pub value-increment :
    (g : GCounter) (n : NodeId) (v : ℕ) → value (increment g n v) ≡ (value g + v) % uint64_mod
unfolding increment
value-increment g n v =
    let new = (count n g.counts + v) % uint64_mod in
    omega (
      arith,
      value-eq-sum g,
      value-eq-sum (record { counts = put n new g.counts }),
      sum-put n new g.counts,
    )

-- `Increment` adds to the count of its node and leaves every other count alone.
pub count-increment :
    (g : GCounter) (n k : NodeId) (v : ℕ)
    → count k (increment g n v).counts
      ≡ ite (string_key.dec n k) ((count n g.counts + v) % uint64_mod) (count k g.counts)
unfolding increment
count-increment g n k v = count-put n k ((count n g.counts + v) % uint64_mod) g.counts

pub increment-IsMap : (g : GCounter) (n : NodeId) (v : ℕ) → IsMap g → IsMap (increment g n v)
unfolding increment
increment-IsMap g n v d = put-Distinct n ((count n g.counts + v) % uint64_mod) g.counts d

-- Where the sum does not overflow, `Increment` moves the counter up the order.
pub increment-grows :
    (g : GCounter) (n : NodeId) (v : ℕ)
    → count n g.counts + v < uint64_mod
    → Below g (increment g n v)
increment-grows g n v h k =
    ground (arith, count-increment g n k v, λ (p : n ≡ k). ap (λ j. count j g.counts) p)

-- Where it overflows, the counter falls below what it was: the order is lost.
pub increment-wraps :
    (g : GCounter) (n : NodeId) (v : ℕ)
    → count n g.counts < uint64_mod
    → v < uint64_mod
    → uint64_mod ≤ count n g.counts + v
    → ¬ Below g (increment g n v)
increment-wraps g n v h k over below = ground (arith, count-increment g n n v, below n)

sum-remove :
    (n : NodeId) (m : GoMap NodeId ℕ)
    → Distinct m
    → sum_counts (remove n m) + count n m ≡ sum_counts m
unfolding sum_counts remove
sum-remove n [] d = omega (arith, count-nil n)
sum-remove n ((k, b) ∷ m) d = ground (
  arith,
  sum-remove n m d.1,
  count-cons n k b m,
  count_absent k m d.0,
  λ (p : k ≡ n). ap (λ j. count j m) p,
)

count-remove :
    (n k : NodeId) (m : GoMap NodeId ℕ)
    → count k (remove n m) ≡ ite (string_key.dec n k) 0 (count k m)
unfolding count
count-remove n k m = ground (arith, lookup-remove n k m)

sum-le_of_counts :
    (m o : GoMap NodeId ℕ)
    → Distinct m
    → Distinct o
    → ((n : NodeId) → count n m ≤ count n o)
    → sum_counts m ≤ sum_counts o
unfolding sum_counts
sum-le_of_counts [] o d e h = omega arith
sum-le_of_counts ((k, c) ∷ m) o d e h = ground (
  arith,
  sum-remove k o e,
  h k,
  count-cons k k c m,
  sum-le_of_counts m (remove k o) d.1 (remove-Distinct k o e) rest,
)
  where
    rest : (n : NodeId) → count n m ≤ count n (remove k o)
    rest n = ground (
      arith,
      h n,
      count-cons n k c m,
      count-remove k n o,
      count_absent k m d.0,
      λ (p : k ≡ n). ap (λ j. count j m) p,
    )

-- `Value` is monotone in the order while the larger counter's sum fits.
pub value_mono : (g o : GCounter) → IsMap g → IsMap o → Fits o → Below g o → value g ≤ value o
value_mono g o d e f h =
    omega (arith, value-eq-sum g, value-eq-sum o, sum-le_of_counts g.counts o.counts d e h)
