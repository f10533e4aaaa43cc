-- ===== src/Limiter/Environment.antt =====
-- What the limiter takes from elsewhere: Go's packages, and the engine.
use suffren.Base.{ℕ, Option, String}

-- `time`, the printing of `int(window.Seconds())` and of a time in UTC as RFC 3339, and `float64`.
pub record Platform : Type 1 where
  pub Time : Type 0
  pub Duration : Type 0
  pub Float : Type 0
  pub truncate : Time → Duration → Time
  pub add : Time → Duration → Time
  pub neg : Duration → Duration
  pub sub : Time → Time → Duration
  pub format_utc : Time → String
  pub seconds : Duration → String
  pub of_uint64 : ℕ → Float
  pub of_duration : Duration → Float
  pub to_uint64 : Float → ℕ
  pub one : Float
  pub times : Float → Float → Float
  pub plus : Float → Float → Float
  pub minus : Float → Float → Float
  pub over : Float → Float → Float

-- The clock and the three calls of the engine. A call may take long, and other requests run in the
-- meantime: the state that it leaves is the one in which the limiter goes on. Two local reads in a
-- row read one state, as if nothing came between them.
pub record Engine (S Time : Type 0) : Type 0 where
  pub now : S → S × Time
  pub increment_key : S → String → ℕ → S × Option ℕ
  pub value_for_key : S → String → S × Option ℕ
  pub value_for_key_local : S → String → ℕ
