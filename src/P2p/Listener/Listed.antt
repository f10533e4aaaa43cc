-- ===== src/P2p/Listener/Listed.antt =====
-- `activeConnections`: the connections that are in it, and the goroutines that have returned.
use suffren.Base.{
  ℕ, ◌<◌, ◌≡◌, ◌≢◌, refl, sym, ◌∙◌, true, false, Bool, ◌==◌, Bool-cases, inl, inr, write, arith,
  All, All-map,
}
use suffren.P2p.Listener.Slots.{
  delete-All, delete-registered, other_kept, All-both, still_closed, now_set, was,
}
use suffren.P2p.Listener.{
  Stage, spawned, registered, unregistered, returned, listen, Server, Step, accepts, hands_on,
  leaves, registers, returns, unregisters, begins_close, closes_listener, locks, fails_listener,
  closes_connection, fails_connection, unlocks, waits, Steps, begin, then_step,
}

-- `activeConnections` holds connections of goroutines that have registered, and the connection of a
-- goroutine that has returned is closed.
pub record IsListed (s : Server) : Type 0 where
  pub known : All (λ i. i < s.next) s.active_connections
  pub listed : All (λ i. s.stages i ≡ registered) s.active_connections
  pub resting : (i : ℕ) → s.stages i ≡ returned → s.is_open i ≡ false

other_slot :
    (f : ℕ → Bool) (n : ℕ) (v : Bool) (i : ℕ)
    → (i == n) ≡ false
    → f i ≡ false
    → write f n v i ≡ false
unfolding write
other_slot f n v i t e = ground (arith, t, e)

spawned_rests :
    (stages : ℕ → Stage) (is_open : ℕ → Bool) (n : ℕ)
    → ((i : ℕ) → stages i ≡ returned → is_open i ≡ false)
    → (i : ℕ) → write stages n spawned i ≡ returned
    → write is_open n true i ≡ false
unfolding write
spawned_rests stages is_open n h i e = elim (Bool-cases (i == n)) [
  | inl t ↦ absurd (apart (ground (arith, e, t)))
  | inr t ↦ other_slot is_open n true i t (h i (ground (arith, e, t)))
]
  where
    apart : spawned ≡ returned → ⊥
    apart e = cc

-- A goroutine that has not come to its last `Close` rests with the others.
rest_kept :
    (stages : ℕ → Stage) (is_open : ℕ → Bool) (n : ℕ) (v : Stage)
    → v ≢ returned
    → ((i : ℕ) → stages i ≡ returned → is_open i ≡ false)
    → (i : ℕ) → write stages n v i ≡ returned
    → is_open i ≡ false
rest_kept stages is_open n v ne h i e = h i (was stages n v returned i ne e)

closed_rests :
    (stages : ℕ → Stage) (is_open : ℕ → Bool) (n : ℕ)
    → ((i : ℕ) → stages i ≡ returned → is_open i ≡ false)
    → (i : ℕ) → write stages n returned i ≡ returned
    → write is_open n false i ≡ false
unfolding write
closed_rests stages is_open n h i e = elim (Bool-cases (i == n)) [
  | inl t ↦ ground (arith, t)
  | inr t ↦ other_slot is_open n false i t (h i (ground (arith, e, t)))
]

-- An entry of another stage is not the one written.
other_listed :
    (stages : ℕ → Stage) (n : ℕ) (v : Stage)
    → stages n ≢ registered
    → (i : ℕ) → stages i ≡ registered
    → write stages n v i ≡ registered
unfolding write
other_listed stages n v ne i e = ground (arith, ne, e)

is_not : {x y : Stage} (f : ℕ → Stage) (i : ℕ) → f i ≡ x → x ≢ y → f i ≢ y
is_not f i e ne d = ne (sym e ∙ d)

Step-IsListed : (s s' : Server) → Step s s' → IsListed s → IsListed s'
unfolding write
Step-IsListed s s' (accepts _ _) h = record {
  known = h.known;
  listed = h.listed;
  resting = h.resting;
}
Step-IsListed s s' (hands_on _) h = record {
  known = All-map (λ i lt. omega (arith, lt)) s.active_connections h.known;
  listed =
      All-map (λ i c. other_kept s.stages s.next spawned registered i c.0 c.1) s.active_connections
        (All-both _ _ s.active_connections h.known h.listed);
  resting = spawned_rests s.stages s.is_open s.next h.resting;
}
Step-IsListed s s' (leaves _ _) h = record {
  known = h.known;
  listed = h.listed;
  resting = h.resting;
}
Step-IsListed s s' (registers i lt at _) h = record {
  known = (lt, h.known);
  listed = (
    now_there s.stages i,
    All-map (λ j e. now_set s.stages i registered j e) s.active_connections h.listed,
  );
  resting = rest_kept s.stages s.is_open i registered (λ p. cc) h.resting;
}
  where
    now_there : (f : ℕ → Stage) (i : ℕ) → write f i registered i ≡ registered
    now_there f i = ground (arith)
Step-IsListed s s' (unregisters i _ _ _) h = record {
  known = delete-All (λ j. j < s.next) i s.active_connections h.known;
  listed = delete-registered s.stages i unregistered s.active_connections h.listed;
  resting = rest_kept s.stages s.is_open i unregistered (λ p. cc) h.resting;
}
Step-IsListed s s' (returns i _ at) h = record {
  known = h.known;
  listed =
      All-map (other_listed s.stages i returned (is_not s.stages i at (λ p. cc)))
        s.active_connections h.listed;
  resting = closed_rests s.stages s.is_open i h.resting;
}
Step-IsListed s s' (begins_close _) h = record {
  known = h.known;
  listed = h.listed;
  resting = h.resting;
}
Step-IsListed s s' (closes_listener _) h = record {
  known = h.known;
  listed = h.listed;
  resting = h.resting;
}
Step-IsListed s s' (locks _ _) h = record {
  known = h.known;
  listed = h.listed;
  resting = h.resting;
}
Step-IsListed s s' (fails_listener _) h = record {
  known = h.known;
  listed = h.listed;
  resting = h.resting;
}
Step-IsListed s s' (closes_connection _ i _ _) h = record {
  known = h.known;
  listed = h.listed;
  resting = λ j e. still_closed s.is_open i j (h.resting j e);
}
Step-IsListed s s' (fails_connection _ _ _ _) h = record {
  known = h.known;
  listed = h.listed;
  resting = h.resting;
}
Step-IsListed s s' (unlocks _) h = record {
  known = h.known;
  listed = h.listed;
  resting = h.resting;
}
Step-IsListed s s' (waits _ _) h = record {
  known = h.known;
  listed = h.listed;
  resting = h.resting;
}

pub steps-IsListed : (s : Server) → Steps listen s → IsListed s
steps-IsListed s begin = record { known = tt; listed = tt; resting = λ i e. refl }
steps-IsListed s (then_step {s' = s'} steps step) =
    Step-IsListed s' s step (steps-IsListed s' steps)
