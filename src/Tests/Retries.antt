-- ===== src/Tests/Retries.antt =====
-- The result about retries, at a call that succeeds the third time.
use suffren.Base.{ℕ, ◌+◌, ◌*◌, ◌==◌, ◌≡◌, refl, Option, none, some, String, if◌then◌else◌}
use suffren.Retry.{RetryConfig, retry}

-- The state counts the calls and the time slept.
abbrev call : ℕ × ℕ → (ℕ × ℕ) × Option String
call (calls, slept) = ((calls + 1, slept), if calls == 2 then none else some "refused")

abbrev sleep : ℕ × ℕ → ℕ → ℕ × ℕ
sleep (calls, slept) delay = (calls, slept + delay)

abbrev config : RetryConfig ℕ
config = record { max_attempts = 5; delay = 10; backoff = λ d. d * 2 }

third_time : retry sleep call config (0, 0) ≡ ((3, 30), none)
unfolding retry
third_time = refl
