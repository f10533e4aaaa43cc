-- ===== src/Limiter/Estimate.antt =====
-- The estimate of the sliding window, in float64.
use suffren.Base.{ℕ, ◌+◌, ◌≤◌, ◌<◌, ◌^◌, min, ◌≡◌, true, leb, arith}
use suffren.Limiter.{estimate}
use suffren.Limiter.Environment.{Platform}

-- What IEEE 754 and Go say of the operations: `Within` is that a time lies in its window, `IsWeight`
-- that a number is from 0 to 1, and `IsCount n` that one is from 0 to the float64 of `n`. The
-- conversion of a number up to 2^53 is exact and that of a larger one is no less than 2^53.
pub record IsFloat64 (go : Platform) (Within : go.Duration → go.Duration → Type 0) : Type 1 where
  pub IsWeight : go.Float → Type 0
  pub IsCount : ℕ → go.Float → Type 0
  pub weight :
      (spent window : go.Duration)
      → Within spent window
      → IsWeight (go.minus go.one (go.over (go.of_duration spent) (go.of_duration window)))
  pub product : (n : ℕ) (w : go.Float) → IsWeight w → IsCount n (go.times (go.of_uint64 n) w)
  pub sum :
      (n current : ℕ) (x : go.Float)
      → IsCount n x
      → n + current < 2 ^ 63
      → min current (2 ^ 53) ≤ go.to_uint64 (go.plus x (go.of_uint64 current))

module _ (go : Platform) (Within : go.Duration → go.Duration → Type 0)
    (laws : IsFloat64 go Within) where
  -- The estimate is never below the count of the current window, up to 2^53.
  pub min-le-estimate :
      (spent window : go.Duration) (prev_count current_count : ℕ)
      → Within spent window
      → prev_count + current_count < 2 ^ 63
      → min current_count (2 ^ 53) ≤ estimate go spent prev_count current_count window
  unfolding estimate
  min-le-estimate spent window prev_count current_count w fits =
      laws.sum prev_count current_count _ (laws.product prev_count _ (laws.weight spent window w))
        fits

  -- A limit below 2^53 that the estimate does not exceed is not exceeded by the count either.
  pub count-le-limit :
      (spent window : go.Duration) (prev_count current_count limit : ℕ)
      → Within spent window
      → prev_count + current_count < 2 ^ 63
      → limit < 2 ^ 53
      → leb (estimate go spent prev_count current_count window) limit ≡ true
      → current_count ≤ limit
  count-le-limit spent window prev_count current_count limit w fits small allowed =
      ground (arith, min-le-estimate spent window prev_count current_count w fits)
