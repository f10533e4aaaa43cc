-- ===== src/Crdt/GCounter/Order.antt =====
-- `IsIn` decides the pointwise order of the counts; `StrictlyIsIn` against the strict order.
use suffren.Base.{
  ap, sym, false_of_ne_true, ℕ, ◌≤◌, ◌<◌, ◌≡◌, refl, ◌↔◌, inl, inr, Option-cases, Bool, Bool-cases,
  false≢true, true, false, none, some, [], ◌∷◌, arith, All, ltb, string_key,
}
use suffren.GoMap.{GoMap, lookup, Distinct}
use suffren.GoMap.Laws.{lookup_of_All, All-of_lookup}
use suffren.Crdt.GCounter.{
  NodeId, GCounter, count, all_below, below_from, is_in, strictly_is_in, IsMap,
}

-- g ⊑ o: no node's count is larger in `g`.
abbrev pub Below : GCounter → GCounter → Type 0
Below g o = (n : NodeId) → count n g.counts ≤ count n o.counts

pub count_of_lookup :
    (n : NodeId) (m : GoMap NodeId ℕ) (c : ℕ) → lookup n m ≡ some c → count n m ≡ c
unfolding count
count_of_lookup n m c h = ground arith

pub count_absent : (n : NodeId) (m : GoMap NodeId ℕ) → lookup n m ≡ none → count n m ≡ 0
unfolding count
count_absent n m h = ground arith

-- A bound on the entries bounds every count, since a missing node counts 0.
pub count-le_of_lookup :
    (n : NodeId) (m : GoMap NodeId ℕ) (b : ℕ)
    → ((c : ℕ) → lookup n m ≡ some c → c ≤ b)
    → count n m ≤ b
count-le_of_lookup n m b h = elim (Option-cases (lookup n m)) [
  | inl e ↦ omega (arith, count_absent n m e)
  | inr (c, e) ↦ omega (arith, count_of_lookup n m c e, h c e)
]

all_below_iff : (m o : GoMap NodeId ℕ) → (all_below m o ≡ true) ↔ All (λ e. e.1 ≤ count e.0 o) m
unfolding all_below
all_below_iff [] o = (λ _. tt, λ _. refl)
all_below_iff ((n, c) ∷ m) o = (
  λ h. (ground arith, (all_below_iff m o).0 (ground arith)),
  λ h. ground (arith, (all_below_iff m o).1 h.1),
)

pub Below-refl : (g : GCounter) → Below g g
Below-refl g n = omega arith

pub Below-trans : (f g h : GCounter) → Below f g → Below g h → Below f h
Below-trans f g h p q n = omega (arith, p n, q n)

-- `IsIn` holds exactly when each node's count in `g` is at most that in `o`.
pub is_in_iff : (g o : GCounter) → IsMap g → (is_in g o ≡ true) ↔ Below g o
unfolding is_in count
is_in_iff g o d = (sound, complete)
  where
    sound : all_below g.counts o.counts ≡ true → Below g o
    sound h n = count-le_of_lookup n g.counts (count n o.counts) (
        lookup_of_All (λ k c. c ≤ count k o.counts) g.counts ((all_below_iff g.counts o.counts).0 h)
          n)

    complete : Below g o → all_below g.counts o.counts ≡ true
    complete h = (all_below_iff g.counts o.counts).1 (
        All-of_lookup (λ k c. c ≤ count k o.counts) g.counts d
          λ k v e. omega (arith, h k, count_of_lookup k g.counts v e))

pub all_below-false :
    (m o : GoMap NodeId ℕ)
    → Distinct m
    → all_below m o ≡ false
    → (n : NodeId) × (c : ℕ) × (lookup n m ≡ some c) × (count n o < c)
unfolding all_below lookup
all_below-false [] o d h = absurd (false≢true (sym h))
all_below-false ((n, c) ∷ m) o d h = elim (Bool-cases (ltb (count n o) c)) [
  | inl more ↦ (n, c, ground arith, ground arith)
  | inr same ↦
      let (k, x, e, lt) = all_below-false m o d.1 (ground arith) in (k, x, ground arith, lt)
]

-- A counter that is not below another has a larger count for some node.
pub not-Below :
    (g o : GCounter)
    → IsMap g
    → ¬ Below g o
    → (n : NodeId) × (c : ℕ) × (lookup n g.counts ≡ some c) × (count n o.counts < c)
unfolding is_in
not-Below g o d h =
    all_below-false g.counts o.counts d
      (false_of_ne_true (is_in g o) (λ t. h ((is_in_iff g o d).0 t)))

-- Some node that `m` names has a larger count in `o`.
abbrev pub Grew : GoMap NodeId ℕ → GoMap NodeId ℕ → Type 0
Grew m o = (n : NodeId) × (c : ℕ) × (lookup n m ≡ some c) × (c < count n o)

below_from-true : (m o : GoMap NodeId ℕ) → below_from true m o ≡ all_below m o
unfolding below_from all_below
below_from-true [] o = refl
below_from-true ((n, c) ∷ m) o = ground (arith, below_from-true m o)

below_from-all_below :
    (b : Bool) (m o : GoMap NodeId ℕ) → below_from b m o ≡ true → all_below m o ≡ true
unfolding below_from all_below
below_from-all_below b [] o h = refl
below_from-all_below b ((n, c) ∷ m) o h =
    ground (arith, below_from-all_below b m o, below_from-all_below true m o)

below_from-Grew : (m o : GoMap NodeId ℕ) → Distinct m → below_from false m o ≡ true → Grew m o
unfolding below_from lookup
below_from-Grew [] o d h = absurd (false≢true h)
below_from-Grew ((n, c) ∷ m) o d h = elim (Bool-cases (ltb c (count n o))) [
  | inl more ↦ (n, c, ground arith, ground arith)
  | inr same ↦
      let (k, x, e, lt) = below_from-Grew m o d.1 (ground arith) in (k, x, ground arith, lt)
]

below_from_of_Grew :
    (m o : GoMap NodeId ℕ) → all_below m o ≡ true → Grew m o → below_from false m o ≡ true
unfolding below_from all_below lookup
below_from_of_Grew [] o h (k, x, e, lt) = ground arith
below_from_of_Grew ((n, c) ∷ m) o h (k, x, e, lt) = elim (Bool-cases (ltb c (count n o))) [
  | inl more ↦ ground (arith, below_from-true m o)
  | inr same ↦ elim (string_key.dec n k) [
    | yes p ↦ ground (arith, ap (λ j. count j o) p)
    | no p ↦ ground (arith, below_from_of_Grew m o (ground arith) (k, x, ground arith, lt))
  ]
]

-- `StrictlyIsIn` holds exactly when `IsIn` does and a node that has an entry in `g` grew: a node
-- without one is not looked at, whatever its count in `o`.
pub strictly_is_in_iff :
    (g o : GCounter) → IsMap g → (strictly_is_in g o ≡ true) ↔ (Below g o × Grew g.counts o.counts)
unfolding strictly_is_in is_in
strictly_is_in_iff g o d = (
  λ h. (
    (is_in_iff g o d).0 (below_from-all_below false g.counts o.counts h),
    below_from-Grew g.counts o.counts d h,
  ),
  λ h. below_from_of_Grew g.counts o.counts ((is_in_iff g o d).1 h.0) h.1,
)
