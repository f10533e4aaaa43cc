-- ===== src/Retry/Attempts.antt =====
-- When a retried call succeeds.
use suffren.Base.{
  ℕ, zero, suc, ◌<◌, ◌==◌, ◌≡◌, refl, sym, ap, subst, false, ◌∙◌, ◌↔◌, ◌⊎◌, inl, inr, Option, none,
  some, Option-cases, if◌then◌else◌, arith,
}
use suffren.Retry.{RetryConfig, attempt, retry}

module _ {S Err Duration : Type 0} (sleep : S → Duration → S) (call : S → S × Option Err)
    (backoff : Duration → Duration) where
  -- The state before the attempt of the number `k`, from 0, if all before it fail: each is followed
  -- by a sleep, and the delay grows.
  abbrev pub before : ℕ → Duration → S → S
  before zero delay s = s
  before (suc k) delay s = before k (backoff delay) (sleep (call s).0 delay)

  unfoldable pub Succeeds : ℕ → Duration → S → Type 0
  Succeeds n delay s = (k : ℕ) × (k < n) × ((call (before k delay s)).1 ≡ none)

  attempt-stops :
      (left : ℕ) (delay : Duration) (s : S) (last_err : Option Err)
      → (call s).1 ≡ none
      → (attempt sleep call backoff (suc left) delay s last_err).1 ≡ none
  unfolding attempt
  attempt-stops left delay s last_err e = rw (e, attempt) refl

  attempt-goes_on :
      (left : ℕ) (delay : Duration) (s : S) (last_err : Option Err) (err : Err)
      → (call s).1 ≡ some err
      → attempt sleep call backoff (suc left) delay s last_err
        ≡ attempt sleep call backoff left
            (backoff delay)
            (if left == 0 then (call s).0 else sleep (call s).0 delay)
            (some err)
  unfolding attempt
  attempt-goes_on left delay s last_err err e = rw (e, attempt) refl

  nonzero : (n : ℕ) → (suc n == 0) ≡ false
  nonzero n = ground arith

  attempt-sleeps :
      (left : ℕ) (delay : Duration) (s : S) (last_err : Option Err) (err : Err)
      → (call s).1 ≡ some err
      → attempt sleep call backoff (suc (suc left)) delay s last_err
        ≡ attempt sleep call backoff (suc left) (backoff delay) (sleep (call s).0 delay) (some err)
  attempt-sleeps left delay s last_err err e =
      subst
        (λ b.
          attempt sleep call backoff (suc (suc left)) delay s last_err
          ≡ attempt sleep call backoff (suc left) (backoff delay)
              (if b then (call s).0 else sleep (call s).0 delay) (some err))
        (nonzero left) (attempt-goes_on (suc left) delay s last_err err e)

  not_both : (o : Option Err) (err : Err) → o ≡ none → o ≡ some err → ⊥
  not_both o err p q = cc

  Succeeds-later :
      (n : ℕ) (delay : Duration) (s : S) (err : Err)
      → (call s).1 ≡ some err
      → Succeeds (suc n) delay s ↔ Succeeds n (backoff delay) (sleep (call s).0 delay)
  unfolding Succeeds
  Succeeds-later n delay s err e = (later, λ (k, lt, h). (suc k, omega (arith, lt), h))
    where
      later : Succeeds (suc n) delay s → Succeeds n (backoff delay) (sleep (call s).0 delay)
      later (zero, lt, h) = absurd (not_both (call s).1 err h e)
      later (suc k, lt, h) = (k, omega (arith, lt), h)

  no_attempt : (delay : Duration) (s : S) → ¬ Succeeds 0 delay s
  unfolding Succeeds
  no_attempt delay s (k, lt, h) = omega (arith, lt)

  -- With at least one attempt left the loop returns no error exactly if an attempt succeeds.
  attempt-none_iff :
      (left : ℕ) (delay : Duration) (s : S) (last_err : Option Err)
      → ((attempt sleep call backoff (suc left) delay s last_err).1 ≡ none)
        ↔ Succeeds (suc left) delay s
  unfolding Succeeds attempt
  attempt-none_iff zero delay s last_err = elim (Option-cases (call s).1) [
    | inl e ↦ (λ h. (0, omega arith, e), λ h. attempt-stops zero delay s last_err e)
    | inr (err, e) ↦
        let fails = attempt-goes_on zero delay s last_err err e in
        (
          λ h. absurd (not_both _ err (sym (ap (λ q. q.1) fails) ∙ h) refl),
          λ h. absurd (no_attempt _ _ ((Succeeds-later zero delay s err e).0 h)),
        )
  ]
  attempt-none_iff (suc left) delay s last_err = elim (Option-cases (call s).1) [
    | inl e ↦ (λ h. (0, omega arith, e), λ h. attempt-stops (suc left) delay s last_err e)
    | inr (err, e) ↦
        let step = ap (λ q. q.1) (attempt-sleeps left delay s last_err err e) in
        let rest = attempt-none_iff left (backoff delay) (sleep (call s).0 delay) (some err) in
        let later = Succeeds-later (suc left) delay s err e in
        (λ h. later.1 (rest.0 (sym step ∙ h)), λ h. step ∙ rest.1 (later.0 h))
  ]

-- `Retry` returns no error exactly if it makes no attempt at all, or if one of its attempts, each
-- made after a sleep that follows the failure before it, succeeds.
pub retry-none_iff :
    {S Err Duration : Type 0} (sleep : S → Duration → S) (call : S → S × Option Err)
    (config : RetryConfig Duration) (s : S)
    → ((retry sleep call config s).1 ≡ none) ↔ (
        (config.max_attempts ≡ 0)
        ⊎ Succeeds sleep call config.backoff config.max_attempts config.delay s)
unfolding retry attempt
retry-none_iff sleep call config s = by_attempts config.max_attempts
  where
    by_attempts :
        (n : ℕ)
        → ((attempt sleep call config.backoff n config.delay s none).1 ≡ none)
          ↔ ((n ≡ 0) ⊎ Succeeds sleep call config.backoff n config.delay s)
    by_attempts zero = (λ h. inl refl, λ h. refl)
    by_attempts (suc left) =
        let h = attempt-none_iff sleep call config.backoff left config.delay s none in
        (λ e. inr (h.0 e), λ e. h.1 (elim e [ inl z ↦ absurd (omega (arith, z)) | inr r ↦ r ]))
