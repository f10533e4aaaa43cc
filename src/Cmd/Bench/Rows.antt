-- ===== src/Cmd/Bench/Rows.antt =====
-- The rows of the histogram.
use suffren.Base.{
  ℕ, zero, suc, ◌+◌, ◌≤◌, ◌<◌, ◌≡◌, refl, ◌∙◌, inl, inr, some, List, [], ◌∷◌, All, length,
  replicate, ltb, Bool-cases, if◌then◌else◌, arith,
}
use suffren.Cmd.Bench.{
  Float64, bump, max_count, last, bins, bin_index, fill, bar_len, print_rows, step_of,
  print_histogram,
}
use suffren.Cmd.Bench.Ranks.{IsAscending}

unfoldable pub sum : List ℕ → ℕ
sum [] = 0
sum (c ∷ counts) = c + sum counts

bump_fits :
    (i : ℕ) (counts : List ℕ)
    → i < length counts
    → (counts' : List ℕ) × (bump i counts ≡ some counts')
      × (length counts' ≡ length counts)
      × (sum counts' ≡ suc (sum counts))
unfolding bump sum
bump_fits i [] lt = absurd (omega (arith, lt))
bump_fits zero (c ∷ counts) lt = ((c + 1) ∷ counts, refl, refl, omega arith)
bump_fits (suc i) (c ∷ counts) lt =
    let (rest, e, size, total) = bump_fits i counts (omega (arith, lt)) in
    (c ∷ rest, rw (e) refl, omega (arith, size), omega (arith, total))

le-max_count : (top : ℕ) (counts : List ℕ) → top ≤ max_count top counts
unfolding max_count
le-max_count top [] = omega arith
le-max_count top (c ∷ counts) = ground (arith, le-max_count (if ltb top c then c else top) counts)

max_count_above : (top : ℕ) (counts : List ℕ) → All (λ c. c ≤ max_count top counts) counts
unfolding max_count
max_count_above top [] = tt
max_count_above top (c ∷ counts) = (
  ground (arith, le-max_count (if ltb top c then c else top) counts),
  max_count_above (if ltb top c then c else top) counts,
)

last_above : (x : ℕ) (xs : List ℕ) → IsAscending (x ∷ xs) → All (λ y. y ≤ last x xs) (x ∷ xs)
last_above x [] h = (omega arith, tt)
last_above x (y ∷ xs) h = let rest = last_above y xs h.1 in (omega (arith, h.0.0, rest.0), rest)

-- What IEEE 754 gives: a duration from the smallest to the largest one lies at most ten steps above the
-- smallest, and a bar of a count that is not above the largest one has at most 40 characters.
pub record IsFloat64 (go : Float64) (first top : ℕ) : Type 0 where
  pub within :
      (d : ℕ)
      → first ≤ d
      → d ≤ top
      → go.to_int (
          go.over
            (go.minus (go.seconds d) (go.seconds first))
            (step_of go (go.seconds first) (go.seconds top)))
        ≤ bins
  pub share :
      (c m : ℕ)
      → c ≤ m
      → 0 < m
      → go.to_int (go.round (go.times (go.over (go.of_int c) (go.of_int m)) (go.of_int 40))) ≤ 40

module _ (go : Float64) where
  fill_on :
      (low step : go.Float) (counts one ds : List ℕ) (d : ℕ)
      → bump (bin_index go low step d) counts ≡ some one
      → fill go low step counts (d ∷ ds) ≡ fill go low step one ds
  unfolding fill
  fill_on low step counts one ds d e = rw (e, fill) refl

  print_histogram_filled :
      (first : ℕ) (rest counts : List ℕ)
      → fill go
          (go.seconds first)
          (step_of go (go.seconds first) (go.seconds (last first rest)))
          (replicate bins 0)
          (first ∷ rest)
        ≡ some counts
      → print_histogram go (first ∷ rest)
        ≡ some (
            print_rows go
              (go.seconds first)
              (step_of go (go.seconds first) (go.seconds (last first rest)))
              (max_count 0 counts)
              0
              counts)
  unfolding print_histogram
  print_histogram_filled first rest counts e = rw (e, print_histogram) refl

  fill_fits :
      (low step : go.Float) (counts ds : List ℕ)
      → length counts ≡ bins
      → All (λ d. go.to_int (go.over (go.minus (go.seconds d) low) step) ≤ bins) ds
      → (counts' : List ℕ) × (fill go low step counts ds ≡ some counts')
        × (length counts' ≡ bins)
        × (sum counts' ≡ sum counts + length ds)
  unfolding fill
  fill_fits low step counts [] size h = (counts, refl, size, omega arith)
  fill_fits low step counts (d ∷ ds) size h =
      let (one, e, same, grown) =
        bump_fits (bin_index go low step d) counts (ground (arith, size, h.0)) in
      let (all, e', size', total) = fill_fits low step one ds (omega (arith, same, size)) h.1 in
      (all, fill_on low step counts one ds d e ∙ e', size', omega (arith, total, grown))

  bar_len_fits :
      (first largest top count : ℕ)
      → IsFloat64 go first largest
      → count ≤ top
      → bar_len go top count ≤ 40
  unfolding bar_len
  bar_len_fits first largest top count laws le = elim (Bool-cases (ltb 0 top)) [
    | inl t ↦ rw (t) (laws.share count top le (ground (arith, t)))
    | inr t ↦ rw (t) (omega arith)
  ]

  -- Each row has the count of its bin and a bar that fits.
  abbrev pub Fit : List ℕ → List (go.Float × ℕ × ℕ) → Type 0
  Fit [] [] = Unit
  Fit [] (_ ∷ _) = ⊥
  Fit (_ ∷ _) [] = ⊥
  Fit (c ∷ counts) ((_, count, bar) ∷ rows) = (count ≡ c) × (bar ≤ 40) × Fit counts rows

  print_rows-Fit :
      (first largest : ℕ) (low step : go.Float) (top i : ℕ) (counts : List ℕ)
      → IsFloat64 go first largest
      → All (λ c. c ≤ top) counts
      → Fit counts (print_rows go low step top i counts)
  unfolding print_rows
  print_rows-Fit first largest low step top i [] laws h = tt
  print_rows-Fit first largest low step top i (c ∷ counts) laws h = (
    refl,
    bar_len_fits first largest top c laws h.0,
    print_rows-Fit first largest low step top (i + 1) counts laws h.1,
  )

  -- For durations sorted in ascending order, and at least one, the histogram does not panic: it
  -- has a row for each of ten counts, whose sum is the number of durations, and no bar is longer than 40.
  pub print_histogram-counts :
      (first : ℕ) (rest : List ℕ)
      → IsAscending (first ∷ rest)
      → IsFloat64 go first (last first rest)
      → (rows : List (go.Float × ℕ × ℕ)) × (counts : List ℕ) × (print_histogram go (first ∷ rest)
          ≡ some rows)
        × Fit counts rows
        × (length counts ≡ bins)
        × (sum counts ≡ length (first ∷ rest))
  unfolding print_histogram sum
  print_histogram-counts first rest h laws =
      let low = go.seconds first in
      let step = step_of go low (go.seconds (last first rest)) in
      let (counts, e, size, total) =
        fill_fits low step (replicate bins 0) (first ∷ rest) refl
          (between (first ∷ rest) (omega arith, h.0) (last_above first rest h)) in
      (
        print_rows go low step (max_count 0 counts) 0 counts,
        counts,
        print_histogram_filled first rest counts e,
        print_rows-Fit first (last first rest) low step (max_count 0 counts) 0 counts laws
            (max_count_above 0 counts),
        size,
        omega (arith, total),
      )
    where
      between :
          (ds : List ℕ)
          → All (λ d. first ≤ d) ds
          → All (λ d. d ≤ last first rest) ds
          → All
              (λ d.
                go.to_int (
                  go.over
                    (go.minus (go.seconds d) (go.seconds first))
                    (step_of go (go.seconds first) (go.seconds (last first rest))))
                ≤ bins)
              ds
      between [] lo hi = tt
      between (d ∷ ds) lo hi = (laws.within d lo.0 hi.0, between ds lo.1 hi.1)
