-- ===== src/Limiter/Decide.antt =====
-- What the decisions of `Check` and `Status` say.
use suffren.Base.{
  ℕ, ◌+◌, ◌-◌, ◌<◌, ◌≤◌, ◌≡◌, refl, sym, subst, some_unique, ◌↔◌, inl, inr, true, false, Bool-cases,
  Option, none, some, String, leb, arith, false≢true,
}
use suffren.Crdt.GCounter.{uint64_mod}
use suffren.Limiter.{
  Decision, Rule, total_count_local, increment_and_total_count, total_count, reset_time, denied,
  decide, check, report, status,
}
use suffren.Limiter.Environment.{Platform, Engine}

-- A decision without an error splits its limit in what is used up and what is left: an allowed
-- request fits, and a denied one leaves nothing. A decision with an error allows nothing.
pub record Accounts {Time : Type 0} (limit : ℕ) (d : Decision Time) : Type 0 where
  pub failed : (e : String) → d.error ≡ some e → d.allowed ≡ false
  pub of_rule : d.error ≡ none → d.limit ≡ limit
  pub splits : d.error ≡ none → d.current + d.remaining ≡ limit
  pub spent : d.error ≡ none → d.allowed ≡ false → d.remaining ≡ 0

leb-true : (a b : ℕ) → a ≤ b → leb a b ≡ true
leb-true a b h = ground arith

not_both : (a b : ℕ) → a < b → leb b a ≡ true → ⊥
not_both a b h k = ground (arith, h, k)

lt_of_leb : (a b : ℕ) → leb a b ≡ false → b < a
lt_of_leb a b h = ground arith

module _ (go : Platform) {S : Type 0} (engine : Engine S go.Time) where
  denied-Accounts :
      (s : S) (rule : Rule go.Duration) → Accounts rule.limit (denied go engine s rule).1
  unfolding denied
  denied-Accounts s rule = record {
    failed = λ e h. refl;
    of_rule = λ h. refl;
    splits = λ h. omega arith;
    spent = λ h k. refl;
  }

  decide-Accounts :
      (identifier resource : String) (rule : Rule go.Duration) (answer : S × Option ℕ)
      → rule.limit < uint64_mod
      → Accounts rule.limit (decide go engine identifier resource rule answer).1
  unfolding decide
  decide-Accounts identifier resource rule (s, none) b = record {
    failed = λ e h. refl;
    of_rule = λ h. cc;
    splits = λ h. cc;
    spent = λ h k. refl;
  }
  decide-Accounts identifier resource rule (s, some consumed) b = record {
    failed = λ e h. cc;
    of_rule = λ h. refl;
    splits = λ h. ground arith;
    spent = λ h k. ground arith;
  }

  -- A decision of `Check` under a limit of 64 bits: without an error it repeats the rule's limit,
  -- the used and the remaining part add up to it, and nothing remains to a denied request; with
  -- an error it denies.
  pub check-Accounts :
      (s : S) (identifier resource : String) (value : ℕ) (rule : Rule go.Duration)
      → rule.limit < uint64_mod
      → Accounts rule.limit (check go engine s identifier resource value rule).1
  unfolding check
  check-Accounts s identifier resource value rule b =
      let (s1, consumed_local) = total_count_local go engine s identifier resource rule in
      elim (Bool-cases (leb rule.limit consumed_local)) [
        | inl t ↦ rw (t) (denied-Accounts s1 rule)
        | inr t ↦ rw (t) (
            decide-Accounts identifier resource rule
              (increment_and_total_count go engine s1 identifier resource value rule) b)
      ]

  -- What the node counts before and after it has incremented the key.
  abbrev pub counted_before : S → String → String → Rule go.Duration → ℕ
  unfolding total_count_local
  counted_before s identifier resource rule =
      (total_count_local go engine s identifier resource rule).1

  abbrev pub counted_after : S → String → String → ℕ → Rule go.Duration → Option ℕ
  unfolding total_count_local increment_and_total_count
  counted_after s identifier resource value rule =
      (increment_and_total_count go engine
        (total_count_local go engine s identifier resource rule).0 identifier resource value rule).1

  decide-allowed_iff :
      (identifier resource : String) (rule : Rule go.Duration) (answer : S × Option ℕ)
      → ((decide go engine identifier resource rule answer).1.allowed ≡ true)
        ↔ ((n : ℕ) × (answer.1 ≡ some n) × (n ≤ rule.limit))
  unfolding decide
  decide-allowed_iff identifier resource rule (s, none) = (λ h. cc, λ (n, e, le). cc)
  decide-allowed_iff identifier resource rule (s, some consumed) = (
    λ h. (consumed, refl, ground (arith, h)),
    λ (n, e, le).
        subst (λ m. leb m rule.limit ≡ true) (sym (some_unique (some consumed) consumed n refl e))
          (ground (arith, le)),
  )

  -- `Check` allows a request exactly when the node's own count is below the limit, the cluster
  -- confirms the increment, and the count after it does not exceed the limit.
  pub check-allowed_iff :
      (s : S) (identifier resource : String) (value : ℕ) (rule : Rule go.Duration)
      → ((check go engine s identifier resource value rule).1.allowed ≡ true) ↔ (
          (counted_before s identifier resource rule < rule.limit)
          × (n : ℕ) × (counted_after s identifier resource value rule ≡ some n)
          × (n ≤ rule.limit))
  unfolding check
  check-allowed_iff s identifier resource value rule =
      let (s1, consumed_local) = total_count_local go engine s identifier resource rule in
      let answer = increment_and_total_count go engine s1 identifier resource value rule in
      let after = decide-allowed_iff identifier resource rule answer in
      elim (Bool-cases (leb rule.limit consumed_local)) [
        | inl t ↦ rw (t) (λ h. absurd (false≢true h), λ h. absurd (not_both _ _ h.0 t))
        | inr t ↦ rw (t) (
          λ h. let (n, e, le) = after.0 h in (lt_of_leb _ _ t, n, e, le),
          λ (lt, n, e, le). after.1 (n, e, le),
        )
      ]

  -- A request that the node's own count already denies is never counted: `Check` gives the same
  -- state and decision whatever the engine's `IncrementKey` would do.
  pub check-skips_increment :
      (increment : S → String → ℕ → S × Option ℕ) (s : S) (identifier resource : String) (value : ℕ)
      (rule : Rule go.Duration)
      → rule.limit ≤ counted_before s identifier resource rule
      → check go (record engine { increment_key = increment }) s identifier resource value rule
        ≡ check go engine s identifier resource value rule
  unfolding check total_count_local denied reset_time
  check-skips_increment increment s identifier resource value rule le = rw (leb-true _ _ le)

  report-splits :
      (identifier resource : String) (rule : Rule go.Duration) (answer : S × Option ℕ) (n : ℕ)
      → rule.limit < uint64_mod
      → answer.1 ≡ some n
      → n ≤ rule.limit
      → let d = (report go engine identifier resource rule answer).1 in
        (d.error ≡ none) × (d.current ≡ n) × (d.current + d.remaining ≡ rule.limit)
  unfolding report
  report-splits identifier resource rule (s, none) n b e le = cc
  report-splits identifier resource rule (s, some consumed) n b e le =
      let same = some_unique (some consumed) consumed n refl e in
      (refl, ground (arith, same), ground (arith, same))

  -- `Status` accounts for the limit as `Check` does while the count does not exceed it.
  pub status-splits :
      (s : S) (identifier resource : String) (rule : Rule go.Duration) (n : ℕ)
      → rule.limit < uint64_mod
      → (total_count go engine s identifier resource rule).1 ≡ some n
      → n ≤ rule.limit
      → let d = (status go engine s identifier resource rule).1 in
        (d.error ≡ none) × (d.current ≡ n) × (d.current + d.remaining ≡ rule.limit)
  unfolding status
  status-splits s identifier resource rule n b e le =
      report-splits identifier resource rule (total_count go engine s identifier resource rule) n b
        e le

  report-overdraft :
      (identifier resource : String) (rule : Rule go.Duration) (answer : S × Option ℕ) (n : ℕ)
      → n < uint64_mod
      → answer.1 ≡ some n
      → rule.limit < n
      → let d = (report go engine identifier resource rule answer).1 in
        (d.current ≡ rule.limit)
        × (d.remaining ≡ uint64_mod - (n - rule.limit))
        × (rule.limit < d.remaining)
  unfolding report
  report-overdraft identifier resource rule (s, none) n b e le = cc
  report-overdraft identifier resource rule (s, some consumed) n b e le =
      let same = some_unique (some consumed) consumed n refl e in
      (ground (arith, same), ground (arith, same), ground (arith, same))

  -- `Status` of a key that is over its limit reports more remaining than the limit: the
  -- subtraction wraps.
  pub status-overdraft :
      (s : S) (identifier resource : String) (rule : Rule go.Duration) (n : ℕ)
      → n < uint64_mod
      → (total_count go engine s identifier resource rule).1 ≡ some n
      → rule.limit < n
      → let d = (status go engine s identifier resource rule).1 in
        (d.current ≡ rule.limit)
        × (d.remaining ≡ uint64_mod - (n - rule.limit))
        × (rule.limit < d.remaining)
  unfolding status
  status-overdraft s identifier resource rule n b e le =
      report-overdraft identifier resource rule (total_count go engine s identifier resource rule) n
        b e le
