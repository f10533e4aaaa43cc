-- ===== src/Cmd/Bench/Ranks.antt =====
-- The percentiles of a sorted list.
use suffren.Base.{
  ℕ, zero, suc, ◌+◌, ◌-◌, ◌≤◌, ◌<◌, min, ◌≡◌, refl, subst, inl, inr, none, some, List, [], ◌∷◌, All,
  length, leb, Bool-cases, if◌then◌else◌, arith,
}
use suffren.Cmd.Bench.{Float64, get_elem?, rank, get_percentile}

abbrev pub IsAscending : List ℕ → Type 0
IsAscending [] = Unit
IsAscending (x ∷ xs) = All (λ y. x ≤ y) xs × IsAscending xs

-- How many entries are at most, and at least, `d`.
unfoldable pub count_le : ℕ → List ℕ → ℕ
count_le d [] = 0
count_le d (x ∷ xs) = let rest = count_le d xs in if leb x d then suc rest else rest

unfoldable pub count_ge : ℕ → List ℕ → ℕ
count_ge d [] = 0
count_ge d (x ∷ xs) = let rest = count_ge d xs in if leb d x then suc rest else rest

count_ge-All : (d : ℕ) (xs : List ℕ) → All (λ y. d ≤ y) xs → count_ge d xs ≡ length xs
unfolding count_ge
count_ge-All d [] h = refl
count_ge-All d (x ∷ xs) h = ground (arith, h.0, count_ge-All d xs h.1)

get_elem?-All : (P : ℕ → Type 0) (xs : List ℕ) (i d : ℕ) → All P xs → get_elem? xs i ≡ some d → P d
unfolding get_elem?
get_elem?-All P [] i d h e = absurd (none_some e)
  where
    none_some : none ≡ some d → ⊥
    none_some e = cc
get_elem?-All P (x ∷ xs) zero d h e = subst P (some_eq x d e) h.0
  where
    some_eq : (x d : ℕ) → some x ≡ some d → x ≡ d
    some_eq x d e = cc
get_elem?-All P (x ∷ xs) (suc i) d h e = get_elem?-All P xs i d h.1 e

-- `d` stands at the place `i` of `xs` when sorted.
pub record Ranks (d i : ℕ) (xs : List ℕ) : Type 0 where
  pub below : i < count_le d xs
  pub above : length xs ≤ count_ge d xs + i

get_elem?-Ranks :
    (xs : List ℕ) (i : ℕ)
    → IsAscending xs
    → i < length xs
    → (d : ℕ) × (get_elem? xs i ≡ some d) × Ranks d i xs
unfolding get_elem? count_le count_ge
get_elem?-Ranks [] i h lt = absurd (omega (arith, lt))
get_elem?-Ranks (x ∷ xs) zero h lt =
    (x, refl, record { below = ground arith; above = ground (arith, count_ge-All x xs h.0) })
get_elem?-Ranks (x ∷ xs) (suc i) h lt =
    let (d, at, r) = get_elem?-Ranks xs i h.1 (omega (arith, lt)) in
    (
      d,
      at,
      record {
        below = ground (arith, r.below, get_elem?-All (λ y. x ≤ y) xs i d h.0 at);
        above = ground (arith, r.above);
      },
    )

-- For any number of durations but 0, sorted in ascending order, and any `p`, `get_percentile` does not
-- panic, and it gives a duration that at least as many are at or below as the rank of `p` says, all of them
-- for a larger rank, while fewer than the rank are below it, none for a rank of 0.
pub get_percentile-ranks :
    (go : Float64) (sorted : List ℕ) (p : go.Float)
    → IsAscending sorted
    → 0 < length sorted
    → (d : ℕ) × (get_percentile go sorted p ≡ some d)
      × (min (rank go (length sorted) p) (length sorted) ≤ count_le d sorted)
      × (length sorted ≤ count_ge d sorted + (rank go (length sorted) p - 1))
unfolding get_percentile
get_percentile-ranks go sorted p h lt =
    elim (Bool-cases (leb (length sorted) (rank go (length sorted) p - 1))) [
      | inl t ↦
          let (d, at, r) = get_elem?-Ranks sorted (length sorted - 1) h (omega (arith, lt)) in
          (d, rw (t) at, omega (arith, r.below), ground (arith, r.above, t))
      | inr t ↦
          let (d, at, r) =
            get_elem?-Ranks sorted (rank go (length sorted) p - 1) h (ground (arith, t)) in
          (d, rw (t) at, omega (arith, r.below), omega (arith, r.above))
    ]
