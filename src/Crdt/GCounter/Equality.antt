-- ===== src/Crdt/GCounter/Equality.antt =====
-- `Equals`, which compares the sizes and then the entries of one side.
use suffren.Base.{
  ℕ, ◌<◌, ◌≡◌, refl, ◌≢◌, ◌↔◌, true, false, Option-cases, inl, inr, [], ◌∷◌, arith, All, string_key,
  length,
}
use suffren.GoMap.{GoMap, lookup, Has}
use suffren.GoMap.Laws.{lookup_of_All, All-of_lookup}
use suffren.GoMap.Size.{length-le_of_Has}
use suffren.Crdt.GCounter.{NodeId, GCounter, count, all_same, equals, strictly_is_in, IsMap}
use suffren.Crdt.GCounter.Order.{
  Below, count_absent, count_of_lookup, count-le_of_lookup, strictly_is_in_iff, not-Below,
}
use suffren.Crdt.GCounter.Merge.{count-cons, count-nil}

-- Two counters name the same nodes, as those do that are made for one list of peers.
pub record SameNodes (g o : GCounter) : Type 0 where
  pub forth : (n : NodeId) → Has n g.counts → Has n o.counts
  pub back : (n : NodeId) → Has n o.counts → Has n g.counts

-- The same count for every node.
abbrev pub SameCounts : GCounter → GCounter → Type 0
SameCounts g o = (n : NodeId) → count n g.counts ≡ count n o.counts

all_same_iff : (m o : GoMap NodeId ℕ) → (all_same m o ≡ true) ↔ All (λ e. e.1 ≡ count e.0 o) m
unfolding all_same
all_same_iff [] o = (λ _. tt, λ _. refl)
all_same_iff ((n, c) ∷ m) o = (
  λ h. (ground arith, (all_same_iff m o).0 (ground arith)),
  λ h. ground (arith, (all_same_iff m o).1 h.1),
)

-- Whenever `Equals` answers true, the receiver is below the argument.
pub equals-Below : (g o : GCounter) → IsMap g → equals g o ≡ true → Below g o
unfolding equals
equals-Below g o d h n = count-le_of_lookup n g.counts (count n o.counts) λ c e. omega (
  arith,
  lookup_of_All (λ k x. x ≡ count k o.counts) g.counts
      ((all_same_iff g.counts o.counts).0 (ground arith)) n c e,
)

length-SameNodes :
    (g o : GCounter) → IsMap g → IsMap o → SameNodes g o → length g.counts ≡ length o.counts
length-SameNodes g o d e s = omega (
  arith,
  length-le_of_Has g.counts o.counts d e s.forth,
  length-le_of_Has o.counts g.counts e d s.back,
)

-- Between counters for the same nodes, `Equals` holds exactly when all counts agree.
pub equals_iff :
    (g o : GCounter) → IsMap g → IsMap o → SameNodes g o → (equals g o ≡ true) ↔ SameCounts g o
unfolding equals
equals_iff g o d e s = (agree, complete)
  where
    agree : equals g o ≡ true → SameCounts g o
    agree h n = elim (Option-cases (lookup n g.counts)) [
      | inr (c, p) ↦ omega (
        arith,
        count_of_lookup n g.counts c p,
        lookup_of_All (λ k x. x ≡ count k o.counts) g.counts
            ((all_same_iff g.counts o.counts).0 (ground arith)) n c p,
      )
      | inl p ↦ elim (Option-cases (lookup n o.counts)) [
        | inl q ↦ omega (arith, count_absent n g.counts p, count_absent n o.counts q)
        | inr (c, q) ↦ let (x, r) = s.back n (c, q) in absurd (ground arith)
      ]
    ]

    complete : SameCounts g o → equals g o ≡ true
    complete h = ground (
      arith,
      length-SameNodes g o d e s,
      (all_same_iff g.counts o.counts).1 (
          All-of_lookup (λ k x. x ≡ count k o.counts) g.counts d
            λ k v q. omega (arith, h k, count_of_lookup k g.counts v q)),
    )

-- A counter that gives one node 0 equals any counter of one other node, and not the other way
-- round.
pub equals_one_sided :
    (n k : NodeId) (c : ℕ)
    → n ≢ k
    → 0 < c
    → (equals (record { counts = (n, 0) ∷ [] }) (record { counts = (k, c) ∷ [] }) ≡ true)
      × (equals (record { counts = (k, c) ∷ [] }) (record { counts = (n, 0) ∷ [] }) ≡ false)
unfolding equals all_same
equals_one_sided n k c h p = (
  ground (arith, count-cons n k c [], count-nil n),
  ground (arith, count-cons k n 0 [], count-nil k),
)

-- Between counters for the same nodes, `StrictlyIsIn` is `IsIn` one way and not the other.
pub strictly_is_in_iff_not_back :
    (g o : GCounter)
    → IsMap g
    → IsMap o
    → SameNodes g o
    → (strictly_is_in g o ≡ true) ↔ (Below g o × ¬ Below o g)
strictly_is_in_iff_not_back g o d e s = (
  λ h.
      let (below, (n, c, p, lt)) = (strictly_is_in_iff g o d).0 h in
      (below, λ back. omega (arith, count_of_lookup n g.counts c p, back n)),
  λ h.
      let (n, c, p, lt) = not-Below o g e h.1 in
      let (x, q) = s.back n (c, p) in
      (strictly_is_in_iff g o d).1 (
        h.0,
        (n, x, q, omega (arith, count_of_lookup n g.counts x q, count_of_lookup n o.counts c p)),
      ),
)
