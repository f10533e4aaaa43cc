-- ===== src/Tests/Loads.antt =====
-- The results about the load generator, with thousandths in the place of float64.
use suffren.Base.{
  ℕ, ◌+◌, ◌-◌, ◌*◌, ◌/◌, ◌≤◌, min, ◌≡◌, refl, none, some, List, [], ◌∷◌, length, nat_key,
  string_key, ℕ_discrete, ◌==◌, arith,
}
use suffren.Cmd.Bench.{Float64, Result, rank, get_percentile, print_histogram}
use suffren.Cmd.Bench.Ranks.{IsAscending, count_le, count_ge, get_percentile-ranks}
use suffren.Cmd.Bench.Tallies.{responses}

abbrev thousandths : Float64
thousandths = record {
  Float = ℕ;
  of_int = λ n. n * 1000;
  to_int = λ x. x / 1000;
  seconds = λ d. d * 1000;
  equal = λ x y. x == y;
  plus = λ x y. x + y;
  minus = λ x y. x - y;
  times = λ x y. x * y / 1000;
  over = λ x y. x * 1000 / y;
  ceil = λ x. (x + 999) / 1000 * 1000;
  round = λ x. (x + 500) / 1000 * 1000;
  thousandth = 1;
}

abbrev durations : List ℕ
durations = 2 ∷ 3 ∷ 3 ∷ 5 ∷ 22 ∷ []

durations-IsAscending : IsAscending durations
durations-IsAscending = ground arith

median_is_3 : get_percentile thousandths durations 500 ≡ some 3
unfolding get_percentile
median_is_3 = refl

no_percentile : get_percentile thousandths [] 500 ≡ none
unfolding get_percentile
no_percentile = refl

get_percentile-ranks_example :
    (d : ℕ) × (get_percentile thousandths durations 950 ≡ some d)
    × (min (rank thousandths (length durations) 950) (length durations) ≤ count_le d durations)
    × (length durations ≤ count_ge d durations + (rank thousandths (length durations) 950 - 1))
get_percentile-ranks_example =
    get_percentile-ranks thousandths durations 950 durations-IsAscending (omega arith)

ten_bars :
    print_histogram thousandths durations
    ≡ some (
        (4000, 3, 40)
        ∷ (6000, 1, 13)
        ∷ (8000, 0, 0)
        ∷ (10000, 0, 0)
        ∷ (12000, 0, 0)
        ∷ (14000, 0, 0)
        ∷ (16000, 0, 0)
        ∷ (18000, 0, 0)
        ∷ (20000, 0, 0)
        ∷ (22000, 1, 13)
        ∷ [])
unfolding print_histogram
ten_bars = refl

-- Two answers, an error, and another answer.
abbrev results : List Result
results =
    record { duration = 5; status_code = 200; err = none }
    ∷ record { duration = 3; status_code = 429; err = none }
    ∷ record { duration = 22; status_code = 0; err = some "timeout" }
    ∷ record { duration = 2; status_code = 200; err = none }
    ∷ []

two_are_200 : responses 200 results ≡ 2
unfolding responses ℕ_discrete
two_are_200 = refl
