-- ===== src/Crdt/GCounter/Nodes.antt =====
-- Which nodes a counter names: a new one its list of nodes, a merged one those of its parts.
use suffren.Crdt.GCounter.Merge.{count-nil, count-cons}
use suffren.Base.{
  ◌≤◌, ℕ, subst, ◌≤◌, ◌≡◌, ◌⊎◌, inl, inr, Option-cases, Bool-cases, List, [], ◌∷◌, arith, ltb,
  string_key,
}
use suffren.GoMap.{GoMap, lookup, put, copy_into, Distinct, Has}
use suffren.GoMap.Laws.{lookup-put, put-Distinct}
use suffren.GoMap.Copy.{lookup-copy}
use suffren.Crdt.GCounter.{
  NodeId, GCounter, count, raise_count, merge_counts, zero_counts, new, copy, increment,
  merge_in_place, value, IsMap,
}
use suffren.Crdt.GCounter.Merge.{copy-IsMap, merge_in_place-IsMap}
use suffren.Crdt.GCounter.Value.{sum_counts, value-eq-sum, sum-put, increment-IsMap}

abbrev pub Listed : NodeId → List NodeId → Type 0
Listed n [] = ⊥
Listed n (m ∷ ns) = (m ≡ n) ⊎ Listed n ns

-- The counter names exactly the listed nodes.
pub record Names (ns : List NodeId) (g : GCounter) : Type 0 where
  pub is_map : IsMap g
  pub only : (n : NodeId) → Has n g.counts → Listed n ns
  pub every : (n : NodeId) → Listed n ns → Has n g.counts

module _ {V : Type 0} where
  pub Has-put : (n k : NodeId) (v : V) (m : GoMap NodeId V) → Has n m → Has n (put k v m)
  Has-put n k v m (x, h) = elim (string_key.dec k n) [
    | yes p ↦ (v, ground (arith, lookup-put k n v m))
    | no p ↦ (x, ground (arith, lookup-put k n v m))
  ]

  pub Has-put_self : (k : NodeId) (v : V) (m : GoMap NodeId V) → Has k (put k v m)
  Has-put_self k v m = (v, ground (arith, lookup-put k k v m))

  pub Has-put_back :
      (n k : NodeId) (v : V) (m : GoMap NodeId V) → Has n (put k v m) → (k ≡ n) ⊎ Has n m
  Has-put_back n k v m (x, h) = elim (string_key.dec k n) [
    | yes p ↦ inl p
    | no p ↦ inr (x, ground (arith, lookup-put k n v m))
  ]

Has-raise_count : (n k : NodeId) (c : ℕ) (m : GoMap NodeId ℕ) → Has n m → Has n (raise_count k c m)
unfolding raise_count
Has-raise_count n k c m h = elim (Bool-cases (ltb (count k m) c)) [
  | inl e ↦ rw (e, raise_count) (Has-put n k c m h)
  | inr e ↦ rw (e, raise_count) h
]

Has-raise_count_back :
    (n k : NodeId) (c : ℕ) (m : GoMap NodeId ℕ) → Has n (raise_count k c m) → (k ≡ n) ⊎ Has n m
unfolding raise_count
Has-raise_count_back n k c m h = elim (Bool-cases (ltb (count k m) c)) [
  | inl e ↦ Has-put_back n k c m (rw (e, raise_count) at h)
  | inr e ↦ inr (rw (e, raise_count) at h)
]

Has-merge_counts : (n : NodeId) (m o : GoMap NodeId ℕ) → Has n m → Has n (merge_counts m o)
unfolding merge_counts
Has-merge_counts n m [] h = h
Has-merge_counts n m ((k, c) ∷ o) h =
    Has-merge_counts n (raise_count k c m) o (Has-raise_count n k c m h)

Has-merge_counts_back :
    (n : NodeId) (m o : GoMap NodeId ℕ) → Has n (merge_counts m o) → Has n m ⊎ Has n o
unfolding merge_counts lookup
Has-merge_counts_back n m [] h = inl h
Has-merge_counts_back n m ((k, c) ∷ o) h = elim (Has-merge_counts_back n (raise_count k c m) o h) [
  | inr (x, p) ↦ elim (string_key.dec k n) [
    | yes e ↦ inr (c, ground arith)
    | no e ↦ inr (x, ground arith)
  ]
  | inl p ↦ elim (Has-raise_count_back n k c m p) [ inl e ↦ inr (c, ground arith) | inr q ↦ inl q ]
]

zero_counts-Distinct :
    (m : GoMap NodeId ℕ) (ns : List NodeId) → Distinct m → Distinct (zero_counts m ns)
unfolding zero_counts
zero_counts-Distinct m [] d = d
zero_counts-Distinct m (n ∷ ns) d = zero_counts-Distinct (put n 0 m) ns (put-Distinct n 0 m d)

Has-zero_counts :
    (n : NodeId) (m : GoMap NodeId ℕ) (ns : List NodeId)
    → Has n m ⊎ Listed n ns
    → Has n (zero_counts m ns)
unfolding zero_counts
Has-zero_counts n m [] (inl h) = h
Has-zero_counts n m [] (inr h) = absurd h
Has-zero_counts n m (k ∷ ns) (inl h) = Has-zero_counts n (put k 0 m) ns (inl (Has-put n k 0 m h))
Has-zero_counts n m (k ∷ ns) (inr (inl e)) =
    Has-zero_counts n (put k 0 m) ns (inl (subst (λ j. Has j (put k 0 m)) e (Has-put_self k 0 m)))
Has-zero_counts n m (k ∷ ns) (inr (inr h)) = Has-zero_counts n (put k 0 m) ns (inr h)

Has-zero_counts_back :
    (n : NodeId) (m : GoMap NodeId ℕ) (ns : List NodeId)
    → Has n (zero_counts m ns)
    → Has n m ⊎ Listed n ns
unfolding zero_counts
Has-zero_counts_back n m [] h = inl h
Has-zero_counts_back n m (k ∷ ns) h = elim (Has-zero_counts_back n (put k 0 m) ns h) [
  | inr l ↦ inr (inr l)
  | inl p ↦ elim (Has-put_back n k 0 m p) [ inl e ↦ inr (inl e) | inr q ↦ inl q ]
]

-- A new counter names the nodes that it is made for.
pub new-Names : (ns : List NodeId) → Names ns (new ns)
unfolding new lookup
new-Names ns = record {
  is_map = zero_counts-Distinct [] ns tt;
  only = λ n h. elim (Has-zero_counts_back n [] ns h) [ inl p ↦ absurd (ground arith) | inr l ↦ l ];
  every = λ n l. Has-zero_counts n [] ns (inr l);
}

Has-copy_back :
    (n : NodeId) (m : GoMap NodeId ℕ) → Distinct m → Has n (copy_into (λ c. c) [] m) → Has n m
Has-copy_back n m d (x, h) = elim (Option-cases (lookup n m)) [
  | inr (c, p) ↦ (c, p)
  | inl p ↦ absurd (ground (arith, lookup-copy (λ c. c) m n d))
]

pub copy-Names : (ns : List NodeId) (g : GCounter) → Names ns g → Names ns (copy g)
unfolding copy
copy-Names ns g h = record {
  is_map = copy-IsMap g;
  only = λ n p. h.only n (Has-copy_back n g.counts h.is_map p);
  every = λ n l.
      let (x, e) = h.every n l in (x, ground (arith, lookup-copy (λ c. c) g.counts n h.is_map));
}

pub merge_in_place-Names :
    (ns : List NodeId) (g o : GCounter) → Names ns g → Names ns o → Names ns (merge_in_place g o)
unfolding merge_in_place
merge_in_place-Names ns g o h k = record {
  is_map = merge_in_place-IsMap g o h.is_map;
  only = λ n p. elim (Has-merge_counts_back n g.counts o.counts p) [
    | inl q ↦ h.only n q
    | inr q ↦ k.only n q
  ];
  every = λ n l. Has-merge_counts n g.counts o.counts (h.every n l);
}

-- An increment by a listed node names no further node.
pub increment-Names :
    (ns : List NodeId) (g : GCounter) (n : NodeId) (v : ℕ)
    → Listed n ns
    → Names ns g
    → Names ns (increment g n v)
unfolding increment
increment-Names ns g n v l h = record {
  is_map = increment-IsMap g n v h.is_map;
  only = λ k p. elim (Has-put_back k n _ g.counts p) [
    | inl e ↦ subst (λ j. Listed j ns) e l
    | inr q ↦ h.only k q
  ];
  every = λ k q. Has-put k n _ g.counts (h.every k q);
}

sum-zero_counts :
    (m : GoMap NodeId ℕ) (ns : List NodeId) → sum_counts (zero_counts m ns) ≤ sum_counts m
unfolding zero_counts
sum-zero_counts m [] = omega arith
sum-zero_counts m (n ∷ ns) = omega (arith, sum-zero_counts (put n 0 m) ns, sum-put n 0 m)

-- A new counter stands at 0.
pub value-new : (ns : List NodeId) → value (new ns) ≡ 0
unfolding new sum_counts
value-new ns = omega (arith, value-eq-sum (new ns), sum-zero_counts [] ns)

count-le-sum : (n : NodeId) (m : GoMap NodeId ℕ) → count n m ≤ sum_counts m
unfolding sum_counts
count-le-sum n [] = omega (arith, count-nil n)
count-le-sum n ((k, c) ∷ m) = ground (arith, count-cons n k c m, count-le-sum n m)

pub count-new : (n : NodeId) (ns : List NodeId) → count n (new ns).counts ≡ 0
unfolding new sum_counts
count-new n ns = omega (arith, count-le-sum n (new ns).counts, sum-zero_counts [] ns)
