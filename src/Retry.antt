-- ===== src/Retry.antt =====
-- internal/retry/retry.go. The function that is tried and the sleep act on a state; a delay grows by
-- the product with `Backoff` in float64, which is a parameter. `MaxAttempts` counts the rounds of the
-- loop: a negative number reads as 0.
pub mod Attempts
use suffren.Base.{ℕ, zero, suc, ◌==◌, Option, none, some, if◌then◌else◌}

pub record RetryConfig (Duration : Type 0) : Type 0 where
  pub max_attempts : ℕ
  pub delay : Duration
  pub backoff : Duration → Duration

module _ {S Err Duration : Type 0} (sleep : S → Duration → S) (call : S → S × Option Err) where
  -- The loop with the attempts that are left, the delay and `lastErr`.
  unfoldable pub attempt : (Duration → Duration) → ℕ → Duration → S → Option Err → S × Option Err
  attempt backoff zero delay s last_err = (s, last_err)
  attempt backoff (suc left) delay s last_err = elim (call s).1 [
    | none ↦ ((call s).0, none)
    | some err ↦
        attempt backoff left (backoff delay)
          (if left == 0 then (call s).0 else sleep (call s).0 delay) (some err)
  ]

  unfoldable pub retry : RetryConfig Duration → S → S × Option Err
  unfolding attempt
  retry config s = attempt config.backoff config.max_attempts config.delay s none
