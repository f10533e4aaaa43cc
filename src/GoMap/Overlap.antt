-- ===== src/GoMap/Overlap.antt =====
-- Two sets of keys that together are larger than a set that holds both have a key in common.
use suffren.Base.{
  ◌+◌, ◌<◌, ◌≤◌, ◌≡◌, ap, ◌≢◌, ◌⊎◌, inl, inr, Option-cases, none, [], ◌∷◌, Key, arith, length,
}
use suffren.GoMap.{GoMap, lookup, remove, Distinct, Has}
use suffren.GoMap.Laws.{lookup-remove, remove-Distinct}
use suffren.GoMap.Size.{length-remove, length-le_of_Has}

module _ {K V : Type 0} ⦃key : Key K⦄ where
  common_or_disjoint :
      (p q : GoMap K V)
      → Distinct p
      → ((k : K) × Has k p × Has k q) ⊎ ((k : K) → Has k p → lookup k q ≡ none)
  unfolding lookup
  common_or_disjoint [] q d = inr (λ k h. absurd (ground (arith, h.1)))
  common_or_disjoint ((i, w) ∷ p) q (absent, d) = elim (Option-cases (lookup i q)) [
    | inr (v, e) ↦ inl (i, (w, ground arith), (v, e))
    | inl missing ↦ elim (common_or_disjoint p q d) [
      | inl (k, (x, h), both) ↦ inl (k, (x, ground arith), both)
      | inr apart ↦ inr λ k h. elim (key.dec i k) [
        | yes e ↦ rw (← e) missing
        | no e ↦ apart k (h.0, ground (arith, h.1))
      ]
    ]
  ]

module _ {K V W : Type 0} ⦃key : Key K⦄ where
  length-add-le :
      (p q : GoMap K V) (o : GoMap K W)
      → Distinct p
      → Distinct q
      → Distinct o
      → ((k : K) → Has k p → Has k o)
      → ((k : K) → Has k q → Has k o)
      → ((k : K) → Has k p → lookup k q ≡ none)
      → length p + length q ≤ length o
  unfolding lookup
  length-add-le [] q o d e f sp sq apart = omega (arith, length-le_of_Has q o e f sq)
  length-add-le ((i, w) ∷ p) q o (absent, d) e f sp sq apart = omega (
    arith,
    length-remove i o f (sp i (w, ground arith)),
    length-add-le p q (remove i o) d e (remove-Distinct i o f)
        (λ k h. kept k (sp k (h.0, ground (arith, h.1))) (ground (arith, h.1)))
        (λ k h.
          kept k (sq k h)
            λ r. ground (arith, h.1, ap (λ j. lookup j q) r, apart i (w, ground arith)))
        (λ k h. apart k (h.0, ground (arith, h.1))),
  )
    where
      kept : (k : K) → Has k o → i ≢ k → Has k (remove i o)
      kept k (v, h) n = (v, ground (arith, lookup-remove i k o))

  -- Two such sets have a key in common.
  pub overlap :
      (p q : GoMap K V) (o : GoMap K W)
      → Distinct p
      → Distinct q
      → Distinct o
      → ((k : K) → Has k p → Has k o)
      → ((k : K) → Has k q → Has k o)
      → length o < length p + length q
      → (k : K) × Has k p × Has k q
  overlap p q o d e f sp sq more = elim (common_or_disjoint p q d) [
    | inl both ↦ both
    | inr apart ↦ absurd (omega (arith, length-add-le p q o d e f sp sq apart))
  ]
