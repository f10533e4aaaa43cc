-- ===== src/Engine/Startup/Terminates.antt =====
-- `Start` returns.
use suffren.Base.{
  ℕ, zero, suc, ◌+◌, ◌*◌, ◌/◌, ◌≤◌, ◌<◌, ◌≡◌, refl, sym, Bool, true, false, Bool-cases, inl, inr,
  ◌⊎◌, false≢true, Option, some, ltb, arith,
}
use suffren.Engine.Startup.{World, sync_until, start}

-- What is relied on: the clock does not go back, and a sleep lasts as long as it says.
pub record IsWorld {W : Type 0} (world : World W) : Type 0 where
  pub sync_later : (w : W) → world.now w ≤ world.now (world.sync w).0
  pub sleep_later : (w : W) (ms : ℕ) → world.now w + ms ≤ world.now (world.sleep w ms)

late : (a b : ℕ) → ltb a b ≡ false → b ≤ a
late a b h = ground (arith, h)

early : (a b : ℕ) → ltb a b ≡ true → b ≤ a → ⊥
early a b h k = ground (arith, h, k)

rounds : (timeout n : ℕ) → timeout / 500 + 1 < suc n → timeout ≤ 500 * n
rounds timeout n h = omega (arith, h)

module _ {W : Type 0} (world : World W) (laws : IsWorld world) where
  -- The result, and that a failure comes at the deadline or later.
  abbrev Ends : ℕ → Option (W × Bool) → Type 0
  Ends deadline r =
      (w : W) × (synced : Bool) × (r ≡ some (w, synced)) × (synced ≡ false → deadline ≤ world.now w)

  -- One round, given what the rest of the loop does if there is one.
  round-Ends :
      (n deadline : ℕ) (w : W)
      → (ltb (world.now w) deadline ≡ true
          → Ends deadline (sync_until world n deadline (world.sleep (world.sync w).0 500)))
      → Ends deadline (sync_until world (suc n) deadline w)
  unfolding sync_until
  round-Ends n deadline w rest = elim (Bool-cases (ltb (world.now w) deadline)) [
    | inr t ↦ (w, false, rw (t) refl, λ h. late (world.now w) deadline t)
    | inl t ↦ elim (Bool-cases (world.sync w).1) [
      | inl s ↦
          (world.run_loops (world.sync w).0, true, rw (t, s) refl, λ h. absurd (false≢true (sym h)))
      | inr s ↦ rw (t, s) (rest t)
    ]
  ]

  sync_until-Ends :
      (n deadline : ℕ) (w : W)
      → deadline ≤ world.now w + 500 * n
      → Ends deadline (sync_until world (suc n) deadline w)
  sync_until-Ends zero deadline w b =
      round-Ends zero deadline w (λ t. absurd (early (world.now w) deadline t (omega (arith, b))))
  sync_until-Ends (suc m) deadline w b = round-Ends (suc m) deadline w (λ t.
      sync_until-Ends m deadline (world.sleep (world.sync w).0 500)
        (omega (arith, b, laws.sync_later w, laws.sleep_later (world.sync w).0 500)))

  -- `Start` returns, within as many rounds of its loop as sleeps of 500 ms fit into the timeout, and
  -- one more: either the node does not start, or a sync succeeds, or the deadline has passed.
  pub start-ends :
      (fuel timeout : ℕ) (w : W)
      → timeout / 500 + 1 < fuel
      → (w' : W) × (started : Bool) × (start world fuel timeout w ≡ some (w', started))
        × (started ≡ false
            → ((world.start_node w).1 ≡ false)
              ⊎ (world.now (world.start_node w).0 + timeout ≤ world.now w'))
  unfolding start
  start-ends zero timeout w room = absurd (omega (arith, room))
  start-ends (suc n) timeout w room = elim (Bool-cases (world.start_node w).1) [
    | inr t ↦ ((world.start_node w).0, false, rw (t) refl, λ h. inl t)
    | inl t ↦
        let w1 = (world.start_node w).0 in
        let (w', synced, e, late) =
          sync_until-Ends n (world.now w1 + timeout) w1 (omega (arith, rounds timeout n room)) in
        (w', synced, rw (t) e, λ h. inr (late h))
  ]
