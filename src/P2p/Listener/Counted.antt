-- ===== src/P2p/Listener/Counted.antt =====
-- The wait group of the server: it counts the loop of `Listen` and the goroutines that have not returned.
use suffren.Base.{
  ℕ, zero, suc, ◌+◌, ◌-◌, ◌<◌, ◌≤◌, ◌≡◌, ◌≢◌, refl, ap, subst, ◌∙◌, false, ltb, Bool-cases, inl,
  inr, write, arith,
}
use suffren.P2p.Listener.{
  Stage, spawned, registered, unregistered, returned, Loop, accepting, handing_on, left, listen,
  Server, Step, accepts, hands_on, leaves, registers, returns, unregisters, begins_close,
  closes_listener, locks, fails_listener, closes_connection, fails_connection, unlocks, waits,
  Steps, begin, then_step,
}

abbrev pub weight : Stage → ℕ
weight returned = 0
weight _ = 1

abbrev pub loops : Loop → ℕ
loops left = 0
loops _ = 1

-- How many of the first `n` goroutines have not returned.
unfoldable pub running : ℕ → (ℕ → Stage) → ℕ
running zero stages = 0
running (suc n) stages = weight (stages n) + running n stages

pub record IsCounted (s : Server) : Type 0 where
  pub counted : s.wg ≡ loops s.loop + running s.next s.stages
  pub unborn : (i : ℕ) → s.next ≤ i → s.stages i ≡ returned

write-else : (f : ℕ → Stage) (i : ℕ) (v : Stage) (j : ℕ) → i ≢ j → write f i v j ≡ f j
unfolding write
write-else f i v j ne = ground (arith, ne)

write-there : (f : ℕ → Stage) (i : ℕ) (v : Stage) → write f i v i ≡ v
unfolding write
write-there f i v = ground arith

running-above :
    (n i : ℕ) (f : ℕ → Stage) (v : Stage) → n ≤ i → running n (write f i v) ≡ running n f
unfolding running
running-above zero i f v le = refl
running-above (suc n) i f v le =
    rw (write-else f i v n (λ e. omega (arith, e, le)), running-above n i f v (omega (arith, le)))
      refl

running-write :
    (n i : ℕ) (f : ℕ → Stage) (v : Stage)
    → i < n
    → running n (write f i v) + weight (f i) ≡ running n f + weight v
unfolding running
running-write zero i f v lt = absurd (omega (arith, lt))
running-write (suc n) i f v lt = elim (Bool-cases (ltb i n)) [
  | inl t ↦
      let before : i < n = ground (arith, t) in
      rw (write-else f i v n (λ e. omega (arith, e, before)))
        (omega (arith, running-write n i f v before))
  | inr t ↦
      let same : n ≡ i = ground (arith, t, lt) in
      subst
        (λ k.
          weight (write f k v n) + running n (write f k v) + weight (f k)
          ≡ weight (f n) + running n f + weight v)
        same (rw (write-there f n v, running-above n n f v (omega arith)) (omega arith))
]

unborn_kept :
    (f : ℕ → Stage) (i n : ℕ) (v : Stage)
    → i < n
    → ((j : ℕ) → n ≤ j → f j ≡ returned)
    → (j : ℕ) → n ≤ j
    → write f i v j ≡ returned
unborn_kept f i n v lt h j le = write-else f i v j (λ e. omega (arith, e, lt, le)) ∙ h j le

-- A goroutine that goes on without returning is counted as before.
goes_on :
    (s : Server) (i : ℕ) (x v : Stage)
    → i < s.next
    → s.stages i ≡ x
    → weight x ≡ weight v
    → IsCounted s
    → s.wg ≡ loops s.loop + running s.next (write s.stages i v)
goes_on s i x v lt at same h =
    let moved = running-write s.next i s.stages v lt in
    let was = subst (λ y. weight (s.stages i) ≡ weight y) at refl in
    omega (arith, moved, was, same, h.counted)

running-spawned : (n : ℕ) (f : ℕ → Stage) → running (n + 1) (write f n spawned) ≡ 1 + running n f
unfolding running
running-spawned n f =
    subst (λ m. running m (write f n spawned) ≡ 1 + running n f) (next n)
      (rw (write-there f n spawned, running-above n n f spawned (omega arith)) refl)
  where
    next : (n : ℕ) → suc n ≡ n + 1
    next n = omega arith

one_less : (w l r r' x : ℕ) → w ≡ l + r → x ≡ 1 → r' + x ≡ r + 0 → w - 1 ≡ l + r'
one_less w l r r' x e one moved = omega (arith, e, one, moved)

Step-IsCounted : (s s' : Server) → Step s s' → IsCounted s → IsCounted s'
Step-IsCounted s s' (accepts at _) h = record {
  counted = omega (arith, h.counted, ap loops at);
  unborn = h.unborn;
}
Step-IsCounted s s' (hands_on at) h = record {
  counted = omega (arith, h.counted, ap loops at, running-spawned s.next s.stages);
  unborn = λ j le.
      write-else s.stages s.next spawned j (λ e. omega (arith, e, le))
      ∙ h.unborn j (omega (arith, le));
}
Step-IsCounted s s' (leaves at _) h = record {
  counted = omega (arith, h.counted, ap loops at);
  unborn = h.unborn;
}
Step-IsCounted s s' (registers i lt at _) h = record {
  counted = goes_on s i spawned registered lt at refl h;
  unborn = unborn_kept s.stages i s.next registered lt h.unborn;
}
Step-IsCounted s s' (unregisters i lt at _) h = record {
  counted = goes_on s i registered unregistered lt at refl h;
  unborn = unborn_kept s.stages i s.next unregistered lt h.unborn;
}
Step-IsCounted s s' (returns i lt at) h = record {
  counted =
      one_less s.wg (loops s.loop) _ _ _ h.counted (ap weight at)
        (running-write s.next i s.stages returned lt);
  unborn = unborn_kept s.stages i s.next returned lt h.unborn;
}
Step-IsCounted s s' (begins_close _) h = record { counted = h.counted; unborn = h.unborn }
Step-IsCounted s s' (closes_listener _) h = record { counted = h.counted; unborn = h.unborn }
Step-IsCounted s s' (locks _ _) h = record { counted = h.counted; unborn = h.unborn }
Step-IsCounted s s' (fails_listener _) h = record { counted = h.counted; unborn = h.unborn }
Step-IsCounted s s' (closes_connection _ _ _ _) h = record {
  counted = h.counted;
  unborn = h.unborn;
}
Step-IsCounted s s' (fails_connection _ _ _ _) h = record { counted = h.counted; unborn = h.unborn }
Step-IsCounted s s' (unlocks _) h = record { counted = h.counted; unborn = h.unborn }
Step-IsCounted s s' (waits _ _) h = record { counted = h.counted; unborn = h.unborn }

pub steps-IsCounted : (s : Server) → Steps listen s → IsCounted s
unfolding running
steps-IsCounted s begin = record { counted = refl; unborn = λ i le. refl }
steps-IsCounted s (then_step {s' = s'} steps step) =
    Step-IsCounted s' s step (steps-IsCounted s' steps)

none_running : (n : ℕ) (f : ℕ → Stage) → running n f ≡ 0 → (i : ℕ) → i < n → f i ≡ returned
unfolding running
none_running zero f e i lt = absurd (omega (arith, lt))
none_running (suc n) f e i lt = elim (Bool-cases (ltb i n)) [
  | inl t ↦ none_running n f (omega (arith, e)) i (ground (arith, t))
  | inr t ↦ subst (λ j. f j ≡ returned) (last n i lt t) (weightless (f n) (omega (arith, e)))
]
  where
    last : (n i : ℕ) → i < suc n → ltb i n ≡ false → n ≡ i
    last n i lt t = ground (arith, t, lt)

    weightless : (x : Stage) → weight x ≡ 0 → x ≡ returned
    weightless spawned e = absurd (omega (arith, e))
    weightless registered e = absurd (omega (arith, e))
    weightless unregistered e = absurd (omega (arith, e))
    weightless returned e = refl

-- At 0 the loop of `Listen` and every goroutine have returned.
pub all_returned :
    (s : Server) → IsCounted s → s.wg ≡ 0 → (s.loop ≡ left) × ((i : ℕ) → s.stages i ≡ returned)
all_returned s h e = (
  loopless s.loop (omega (arith, e, h.counted)),
  λ i. elim (Bool-cases (ltb i s.next)) [
    | inl t ↦ none_running s.next s.stages (omega (arith, e, h.counted)) i (ground (arith, t))
    | inr t ↦ h.unborn i (ground (arith, t))
  ],
)
  where
    loopless : (l : Loop) → loops l ≡ 0 → l ≡ left
    loopless accepting e = absurd (omega (arith, e))
    loopless handing_on e = absurd (omega (arith, e))
    loopless left e = refl

-- A goroutine that has not returned has a number that is taken.
pub taken : (s : Server) (i : ℕ) → IsCounted s → s.stages i ≢ returned → i < s.next
taken s i h ne = elim (Bool-cases (ltb i s.next)) [
  | inl t ↦ ground (arith, t)
  | inr t ↦ absurd (ne (h.unborn i (ground (arith, t))))
]
