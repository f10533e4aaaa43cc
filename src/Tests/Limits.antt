-- ===== src/Tests/Limits.antt =====
-- The results about the limiter, over a clock that counts seconds and an engine on one node.
use text.Mathlib.Text.{◌==◌ as str_eq}
use suffren.Base.{
  ℕ, ◌+◌, ◌-◌, ◌*◌, ◌/◌, ◌<◌, ◌≤◌, ◌≡◌, refl, ◌↔◌, true, none, some, String, arith, ◌==◌,
  if◌then◌else◌, string_key,
}
use suffren.Crdt.GCounter.{uint64_mod}
use suffren.Limiter.{Rule, check, status, total_count}
use suffren.Limiter.Environment.{Platform, Engine}
use suffren.Limiter.Decide.{
  Accounts, check-Accounts, check-allowed_iff, check-skips_increment, status-overdraft,
  counted_before, counted_after,
}

-- A duration is the difference of two numbers of seconds, and whole numbers stand in for floats.
abbrev seconds_of : ℕ × ℕ → ℕ
seconds_of (a, b) = a - b

abbrev window_text : ℕ → String
window_text t = if t == 20 then "20" else "10"

abbrev pub go : Platform
go = record {
  Time = ℕ;
  Duration = ℕ × ℕ;
  Float = ℕ;
  truncate = λ t d. t / seconds_of d * seconds_of d;
  add = λ t d. t + d.0 - d.1;
  neg = λ d. (d.1, d.0);
  sub = λ t u. (t, u);
  format_utc = window_text;
  seconds = λ d. window_text (seconds_of d);
  of_uint64 = λ n. n;
  of_duration = seconds_of;
  to_uint64 = λ n. n;
  one = 1;
  times = λ a b. a * b;
  plus = λ a b. a + b;
  minus = λ a b. a - b;
  over = λ a b. a / b;
}

-- The state is the time and the count of the only key that was ever incremented.
abbrev pub engine : Engine (ℕ × ℕ) ℕ
engine = record {
  now = λ (t, n). ((t + 1, n), t);
  increment_key = λ (t, n) key value. ((t, n + value), some (n + value));
  value_for_key = λ (t, n) key. ((t, n), some n);
  value_for_key_local = λ (t, n) key. if str_eq key "user:api:10s:20" then n else 0;
}

abbrev ten_seconds : Rule (ℕ × ℕ)
ten_seconds = record { limit = 5; window = (10, 0) }

-- At second 22 the count is 3, and one more is asked for.
check-Accounts_example : Accounts 5 (check go engine (22, 3) "user" "api" 1 ten_seconds).1
check-Accounts_example = check-Accounts go engine (22, 3) "user" "api" 1 ten_seconds (omega arith)

check-allowed_iff_example :
    ((check go engine (22, 3) "user" "api" 1 ten_seconds).1.allowed ≡ true) ↔ (
      (counted_before go engine (22, 3) "user" "api" ten_seconds < 5)
      × (n : ℕ) × (counted_after go engine (22, 3) "user" "api" 1 ten_seconds ≡ some n)
      × (n ≤ 5))
check-allowed_iff_example = check-allowed_iff go engine (22, 3) "user" "api" 1 ten_seconds

allowed_at_22 : (check go engine (22, 3) "user" "api" 1 ten_seconds).1.allowed ≡ true
unfolding check
allowed_at_22 = refl

-- With a count of 5 nothing is incremented.
full : 5 ≤ counted_before go engine (22, 5) "user" "api" ten_seconds
unfolding check
full = omega arith

check-skips_increment_example :
    check go
      (record engine { increment_key = λ s key value. (s, none) })
      (22, 5)
      "user"
      "api"
      1
      ten_seconds
    ≡ check go engine (22, 5) "user" "api" 1 ten_seconds
check-skips_increment_example =
    check-skips_increment go engine (λ s key value. (s, none)) (22, 5) "user" "api" 1 ten_seconds
      full

counts_three : (total_count go engine (22, 3) "user" "api" ten_seconds).1 ≡ some 3
unfolding total_count
counts_three = refl

counts_seven : (total_count go engine (22, 7) "user" "api" ten_seconds).1 ≡ some 7
unfolding total_count
counts_seven = refl

-- A count of 7 under a limit of 5.
status-overdraft_example :
    let d = (status go engine (22, 7) "user" "api" ten_seconds).1 in
    (d.current ≡ 5) × (d.remaining ≡ uint64_mod - (7 - 5)) × (5 < d.remaining)
status-overdraft_example =
    status-overdraft go engine (22, 7) "user" "api" ten_seconds 7 (omega arith) counts_seven
      (omega arith)
