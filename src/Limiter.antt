-- ===== src/Limiter.antt =====
-- internal/limiter/limiter.go: the sliding-window limiter, over an engine and the packages that it
-- calls (`time`, `fmt` for a number, the conversions of `float64`), which are parameters.
pub mod Environment
pub mod Key
pub mod Decide
pub mod Estimate
use Prim.Native.String.{◌++◌}
use suffren.Base.{
  ℕ, ◌+◌, ◌-◌, ◌%◌, ◌^◌, min, Bool, true, false, Option, none, some, String, leb, if◌then◌else◌,
}
use suffren.Crdt.GCounter.{uint64_mod}
use suffren.Limiter.Environment.{Platform, Engine}

-- `error` is the text of the error, `none` for nil; `reset_at` is `none` for the zero time.
pub record Decision (Time : Type 0) : Type 0 where
  pub allowed : Bool
  pub current : ℕ
  pub limit : ℕ
  pub remaining : ℕ
  pub reset_at : Option Time
  pub error : Option String

pub record Rule (Duration : Type 0) : Type 0 where
  pub limit : ℕ
  pub window : Duration

-- `allowed := consumed <= rule.Limit`
abbrev pub is_allowed : ℕ → ℕ → Bool
is_allowed consumed limit = leb consumed limit

module _ (go : Platform) where
  open go use {
    Time, Duration, Float, truncate, add, neg, sub, format_utc, seconds, of_uint64, of_duration,
    to_uint64, one, times, plus, minus, over,
  }

  unfoldable pub build_key : String → String → Rule Duration → Time → String
  build_key identifier resource rule window_start =
      identifier
      ++ (":" ++ (resource ++ (":" ++ (seconds rule.window ++ ("s:" ++ format_utc window_start)))))

  -- The estimate at the end of the three functions that count a sliding window.
  unfoldable pub estimate : Duration → ℕ → ℕ → Duration → ℕ
  estimate spent prev_count current_count window = to_uint64 (
      plus
        (times (of_uint64 prev_count) (minus one (over (of_duration spent) (of_duration window))))
        (of_uint64 current_count))

  module _ {S : Type 0} (engine : Engine S Time) where
    open engine use {now, increment_key, value_for_key, value_for_key_local}

    -- The start of the current window, and the keys of this window and of the one before.
    abbrev pub window_start : Rule Duration → Time → Time
    window_start rule t = truncate t rule.window

    abbrev pub current_key : String → String → Rule Duration → Time → String
    current_key identifier resource rule t =
        build_key identifier resource rule (window_start rule t)

    abbrev pub previous_key : String → String → Rule Duration → Time → String
    previous_key identifier resource rule t =
        build_key identifier resource rule (add (window_start rule t) (neg rule.window))

    abbrev pub spent_time : Rule Duration → Time → Duration
    spent_time rule t = sub t (window_start rule t)

    unfoldable pub total_count_local : S → String → String → Rule Duration → S × ℕ
    unfolding build_key estimate
    total_count_local s identifier resource rule =
        let (s1, t) = now s in
        (
          s1,
          estimate (spent_time rule t)
              (value_for_key_local s1 (previous_key identifier resource rule t))
              (value_for_key_local s1 (current_key identifier resource rule t)) rule.window,
        )

    -- What both counting functions do once the engine has answered.
    unfoldable pub count_after :
        String → String → Rule Duration → Time → S × Option ℕ → S × Option ℕ
    unfolding build_key estimate
    count_after identifier resource rule t (s, none) = (s, none)
    count_after identifier resource rule t (s, some current_count) = (
      s,
      some (
          estimate (spent_time rule t)
            (value_for_key_local s (previous_key identifier resource rule t)) current_count
            rule.window),
    )

    unfoldable pub increment_and_total_count :
        S → String → String → ℕ → Rule Duration → S × Option ℕ
    unfolding build_key count_after
    increment_and_total_count s identifier resource value rule =
        let (s1, t) = now s in
        count_after identifier resource rule t
          (increment_key s1 (current_key identifier resource rule t) value)

    unfoldable pub total_count : S → String → String → Rule Duration → S × Option ℕ
    unfolding build_key count_after
    total_count s identifier resource rule =
        let (s1, t) = now s in
        count_after identifier resource rule t
          (value_for_key s1 (current_key identifier resource rule t))

    -- The end of the current window, by one more reading of the clock.
    unfoldable pub reset_time : S → Rule Duration → S × Time
    reset_time s rule = let (s1, t) = now s in (s1, add (truncate t rule.window) rule.window)

    unfoldable pub denied : S → Rule Duration → S × Decision Time
    unfolding reset_time
    denied s rule =
        let (s1, reset) = reset_time s rule in
        (
          s1,
          record {
            allowed = false;
            current = rule.limit;
            limit = rule.limit;
            remaining = 0;
            reset_at = some reset;
            error = none;
          },
        )

    unfoldable pub decide : String → String → Rule Duration → S × Option ℕ → S × Decision Time
    unfolding reset_time
    decide identifier resource rule (s, none) = (
      s,
      record {
        allowed = false;
        current = 0;
        limit = 0;
        remaining = 0;
        reset_at = none;
        error = some ("failed to check key: " ++ (identifier ++ (", resource: " ++ resource)));
      },
    )
    decide identifier resource rule (s, some consumed) =
        let (s1, reset) = reset_time s rule in
        let allowed = is_allowed consumed rule.limit in
        (
          s1,
          record {
            allowed = allowed;
            current = min consumed rule.limit;
            limit = rule.limit;
            remaining = if allowed then (rule.limit + uint64_mod - consumed) % uint64_mod else 0;
            reset_at = some reset;
            error = none;
          },
        )

    unfoldable pub check : S → String → String → ℕ → Rule Duration → S × Decision Time
    unfolding total_count_local denied decide increment_and_total_count
    check s identifier resource value rule =
        let (s1, consumed_local) = total_count_local s identifier resource rule in
        if leb rule.limit consumed_local
        then denied s1 rule
        else decide identifier resource rule
            (increment_and_total_count s1 identifier resource value rule)

    unfoldable pub report : String → String → Rule Duration → S × Option ℕ → S × Decision Time
    unfolding reset_time
    report identifier resource rule (s, none) = (
      s,
      record {
        allowed = false;
        current = 0;
        limit = 0;
        remaining = 0;
        reset_at = none;
        error =
            some ("failed to get status for key: " ++ (identifier ++ (", resource: " ++ resource)));
      },
    )
    report identifier resource rule (s, some consumed) =
        let (s1, reset) = reset_time s rule in
        (
          s1,
          record {
            allowed = false;
            current = min consumed rule.limit;
            limit = rule.limit;
            remaining = (rule.limit + uint64_mod - consumed) % uint64_mod;
            reset_at = some reset;
            error = none;
          },
        )

    unfoldable pub status : S → String → String → Rule Duration → S × Decision Time
    unfolding total_count report
    status s identifier resource rule =
        report identifier resource rule (total_count s identifier resource rule)
