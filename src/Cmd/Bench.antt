-- ===== src/Cmd/Bench.antt =====
-- cmd/bench/main.go: what the load generator makes of the results of its requests. Durations are
-- nanoseconds; float64 and the conversions to and from it are a parameter, whose `to_int` gives no
-- negative number here, since no operand is negative. `none` is a panic for an index out of range.
pub mod Ranks
pub mod Tallies
pub mod Rows
use suffren.Base.{
  ℕ, zero, suc, ◌+◌, ◌-◌, ◌%◌, ◌^◌, Bool, Option, none, some, String, List, [], ◌∷◌, ◌++◌, length,
  replicate, ltb, leb, ◌==◌, if◌then◌else◌, Key, nat_key, string_key,
}
use suffren.GoMap.{GoMap, lookup, put}

pub record Result : Type 0 where
  pub duration : ℕ
  pub status_code : ℕ
  pub err : Option String

-- `total_req_duration` is the sum as its 64 bits read.
pub record Tally : Type 0 where
  pub all_durations : List ℕ
  pub status_counts : GoMap ℕ ℕ
  pub err_counts : GoMap String ℕ
  pub total_req_duration : ℕ

-- `counts[k]++`
unfoldable pub add_one : {K : Type 0} → ⦃key : Key K⦄ → K → GoMap K ℕ → GoMap K ℕ
unfolding lookup put
add_one k counts = elim (lookup k counts) [ none ↦ put k 1 counts | some n ↦ put k (n + 1) counts ]

unfoldable pub tally_one : Tally → Result → Tally
unfolding add_one
tally_one t res =
    let timed = record t {
      all_durations = t.all_durations ++ res.duration ∷ [];
      total_req_duration = (t.total_req_duration + res.duration) % 2 ^ 64;
    } in
    elim res.err [
      | some err ↦ record timed { err_counts = add_one err t.err_counts }
      | none ↦ record timed { status_counts = add_one res.status_code t.status_counts }
    ]

-- The loop over the results.
unfoldable pub tally : Tally → List Result → Tally
unfolding tally_one
tally t [] = t
tally t (res ∷ results) = tally (tally_one t res) results

abbrev pub no_results : Tally
no_results = record {
  all_durations = [];
  status_counts = [];
  err_counts = [];
  total_req_duration = 0;
}

-- `xs[i]`
unfoldable pub get_elem? {ℓ} : {A : Type ℓ} → List A → ℕ → Option A
get_elem? [] i = none
get_elem? (x ∷ xs) zero = some x
get_elem? (x ∷ xs) (suc i) = get_elem? xs i

pub record Float64 : Type 1 where
  pub Float : Type 0
  pub of_int : ℕ → Float
  pub to_int : Float → ℕ
  pub seconds : ℕ → Float
  pub equal : Float → Float → Bool
  pub plus : Float → Float → Float
  pub minus : Float → Float → Float
  pub times : Float → Float → Float
  pub over : Float → Float → Float
  pub ceil : Float → Float
  pub round : Float → Float
  pub thousandth : Float

-- `counts[idx]++`
unfoldable pub bump : ℕ → List ℕ → Option (List ℕ)
bump i [] = none
bump zero (c ∷ counts) = some ((c + 1) ∷ counts)
bump (suc i) (c ∷ counts) = elim (bump i counts) [ none ↦ none | some rest ↦ some (c ∷ rest) ]

-- The largest of the counts, from 0.
unfoldable pub max_count : ℕ → List ℕ → ℕ
max_count top [] = top
max_count top (c ∷ counts) = max_count (if ltb top c then c else top) counts

abbrev pub last : ℕ → List ℕ → ℕ
last d [] = d
last d (e ∷ ds) = last e ds

abbrev pub bins : ℕ
bins = 10

module _ (go : Float64) where
  abbrev pub rank : ℕ → go.Float → ℕ
  rank n p = go.to_int (go.ceil (go.times (go.of_int n) p))

  -- The index is raised to 0, which the difference on ℕ does, and lowered to the last one.
  unfoldable pub get_percentile : List ℕ → go.Float → Option ℕ
  unfolding get_elem?
  get_percentile sorted p =
      let index = rank (length sorted) p - 1 in
      get_elem? sorted (if leb (length sorted) index then length sorted - 1 else index)

  abbrev pub bin_index : go.Float → go.Float → ℕ → ℕ
  bin_index low step d =
      let idx = go.to_int (go.over (go.minus (go.seconds d) low) step) in
      if idx == bins then idx - 1 else idx

  -- The loop that counts the durations of each bin.
  unfoldable pub fill : go.Float → go.Float → List ℕ → List ℕ → Option (List ℕ)
  unfolding bump
  fill low step counts [] = some counts
  fill low step counts (d ∷ ds) = elim (bump (bin_index low step d) counts) [
    | none ↦ none
    | some counts' ↦ fill low step counts' ds
  ]

  unfoldable pub bar_len : ℕ → ℕ → ℕ
  bar_len top count =
      if ltb 0 top
      then go.to_int
          (go.round (go.times (go.over (go.of_int count) (go.of_int top)) (go.of_int 40)))
      else 0

  -- The rows from the bin `i` on: where the bin ends, its count, and the length of its bar.
  unfoldable pub print_rows : go.Float → go.Float → ℕ → ℕ → List ℕ → List (go.Float × ℕ × ℕ)
  unfolding bar_len
  print_rows low step top i [] = []
  print_rows low step top i (count ∷ counts) =
      (go.plus low (go.times (go.of_int (i + 1)) step), count, bar_len top count)
      ∷ print_rows low step top (i + 1) counts

  abbrev pub upper : go.Float → go.Float → go.Float
  upper low high = if go.equal low high then go.plus low go.thousandth else high

  abbrev pub step_of : go.Float → go.Float → go.Float
  step_of low high = go.over (go.minus (upper low high) low) (go.of_int bins)

  -- No duration, no rows.
  unfoldable pub print_histogram : List ℕ → Option (List (go.Float × ℕ × ℕ))
  unfolding fill max_count print_rows
  print_histogram [] = some []
  print_histogram (first ∷ rest) =
      let low = go.seconds first in
      let step = step_of low (go.seconds (last first rest)) in
      elim (fill low step (replicate bins 0) (first ∷ rest)) [
        | none ↦ none
        | some counts ↦ some (print_rows low step (max_count 0 counts) 0 counts)
      ]
