-- ===== src/Deployment/Granted.antt =====
-- What is granted, against the counts of a map that has the requests.
use suffren.Base.{
  ℕ, ◌+◌, ◌≤◌, ◌≡◌, refl, subst, ◌⊎◌, inl, inr, true, Bool-cases, Option, none, some, Option-cases,
  String, List, [], ◌∷◌, All, arith, if_neg, string_key,
}
use suffren.GoMap.{lookup}
use suffren.Crdt.GCounter as GCounters
use suffren.Crdt.GCounter.{NodeId, GCounter, count, uint64_mod}
use suffren.Crdt.GCounter.Merge.{count-nil}
use suffren.Crdt.GCounter.Value.{Fits, sum_counts, value-eq-sum}
use suffren.Crdt.CounterMap.{CounterMap, value_for_key}
use suffren.Crdt.CounterMap.Order.{Below}
use suffren.Crdt.CounterMap.Keys.{counter_or_new-some}
use suffren.Deployment.{Request, Outcome, Deployment, granted_by, granted_value}
use suffren.Deployment.Shares.{share, share_mono, counter_or_new-none, sum_at, sum_all, sum_all-le}
use suffren.Deployment.Bounded.{Covers}

pub granted-cases :
    (outcome : Option Outcome) (value : ℕ)
    → (granted_value outcome value ≡ 0)
      ⊎ ((o : Outcome) × (outcome ≡ some o)
          × (o.allowed ≡ true)
          × (granted_value outcome value ≡ value))
granted-cases none value = inl refl
granted-cases (some o) value = elim (Bool-cases o.allowed) [
  | inl t ↦ inr (o, refl, t, rw (t) refl)
  | inr t ↦ inl (rw (t) refl)
]

granted-le : (outcome : Option Outcome) (value : ℕ) → granted_value outcome value ≤ value
granted-le outcome value = elim (granted-cases outcome value) [
  | inl e ↦ omega (arith, e)
  | inr (o, _, _, e) ↦ omega (arith, e)
]

module _ {A : Type 0} (node : A → NodeId) (w v : A → ℕ) (le : (q : A) → w q ≤ v q) where
  sum_at_mono : (n : NodeId) (qs : List A) → sum_at node w n qs ≤ sum_at node v n qs
  sum_at_mono n [] = omega arith
  sum_at_mono n (q ∷ qs) = ground (arith, le q, sum_at_mono n qs)

le_via3 : {a b c e : ℕ} → a ≤ b → b ≤ c → c ≤ e → a ≤ e
le_via3 p q r = omega (arith, p, q, r)

le_via2 : {a b c : ℕ} → a ≤ b → c ≡ b → a ≤ c
le_via2 p q = omega (arith, p, q)

le_of_zero : {a b : ℕ} → a ≤ sum_counts [] → a ≤ b
unfolding sum_counts
le_of_zero p = omega (arith, p)

value-is : (g : GCounter) → Fits g → GCounters.value g ≡ sum_counts g.counts
value-is g fits = omega (arith, value-eq-sum g, fits)

module _ (key : String) (d : Deployment) where
  -- Nothing is granted, or the map has all requests of its node up to that one.
  abbrev pub IsCounted : CounterMap → Request → Type 0
  IsCounted x q = (granted_by d q ≡ 0) ⊎ Below q.added x

  -- What is granted to one node is in its count.
  granted_at-le :
      (x : CounterMap) (n : NodeId) (qs : List Request)
      → Covers key qs
      → All (IsCounted x) qs
      → sum_at (λ q. q.node) (granted_by d) n qs ≤ share x key n
  granted_at-le x n [] c h = omega arith
  granted_at-le x n (q ∷ qs) c h = elim h.0 [
    | inl e ↦ ground (arith, e, granted_at-le x n qs c.1 h.1)
    | inr below ↦ elim (string_key.dec q.node n) [
      | no ne ↦
          rw (if_neg (string_key.dec q.node n) ne (granted_by d q) 0)
            (zero_add_le _ _ (granted_at-le x n qs c.1 h.1))
      | yes at ↦
          subst (λ k. sum_at (λ q. q.node) (granted_by d) k (q ∷ qs) ≤ share x key k) at
            (within q qs c.0 (share_mono q.added x key q.node below))
    ]
  ]
    where
      zero_add_le : (a b : ℕ) → a ≤ b → 0 + a ≤ b
      zero_add_le a b p = omega (arith, p)

      within :
          (q : Request) (qs : List Request)
          → sum_at (λ q. q.node) (λ q. q.value) q.node (q ∷ qs) ≤ share q.added key q.node
          → share q.added key q.node ≤ share x key q.node
          → sum_at (λ q. q.node) (granted_by d) q.node (q ∷ qs) ≤ share x key q.node
      within q qs a b =
          le_via3
            (sum_at_mono (λ q. q.node) (granted_by d) (λ q. q.value)
              (λ q. granted-le (d.outcomes q.node q.done) q.value) q.node (q ∷ qs))
            a b

  -- All that is granted is in the value of the map.
  pub granted-le-value :
      (x : CounterMap) (qs : List Request)
      → Covers key qs
      → All (IsCounted x) qs
      → ((g : GCounter) → lookup key x.counters ≡ some g → Fits g)
      → sum_all (λ q. q.node) (granted_by d) qs ≤ value_for_key x key
  unfolding value_for_key
  granted-le-value x qs c h fits = elim (Option-cases (lookup key x.counters)) [
    | inl e ↦ le_of_zero (
        sum_all-le (λ q. q.node) (granted_by d) qs []
          (λ n.
            omega (arith, granted_at-le x n qs c h, counter_or_new-none x key e n, count-nil n)))
    | inr (g, e) ↦
        rw (e, value_for_key)
          (le_via2
            (sum_all-le (λ q. q.node) (granted_by d) qs g.counts
              (λ n.
                subst (λ y. sum_at (λ q. q.node) (granted_by d) n qs ≤ count n y.counts)
                  (counter_or_new-some x key g e) (granted_at-le x n qs c h)))
            (value-is g (fits g e)))
  ]
