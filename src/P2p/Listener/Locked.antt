-- ===== src/P2p/Listener/Locked.antt =====
-- `Close` after an error of a connection.
use suffren.Base.{
  ℕ, ◌<◌, ◌≡◌, ◌≢◌, refl, sym, ◌∙◌, true, false, false≢true, ◌==◌, Bool-cases, inl, inr, write,
  arith, List, [], ◌∷◌, ◌++◌,
}
use suffren.P2p.Listener.Slots.{other_kept}
use suffren.P2p.Listener.Counted.{steps-IsCounted, taken}
use suffren.P2p.Listener.Shut.{steps-IsShut}
use suffren.P2p.Listener.{
  Stage, spawned, registered, returned, Closing, failed, not_called, at_listener, at_lock,
  at_connections, at_wait, listen, Server, Step, accepts, hands_on, leaves, registers, returns,
  unregisters, unregistered, begins_close, closes_listener, locks, fails_listener,
  closes_connection, fails_connection, unlocks, waits, Steps, begin, then_step,
}

-- `Close` has returned an error with the mutex locked, while the goroutine `i` serves its connection.
pub record IsLocked (i : ℕ) (s : Server) : Type 0 where
  pub locked : s.locked ≡ true
  pub stopped : s.closing ≡ failed
  pub serving : s.stages i ≡ registered
  pub old : i < s.next

unlocked_no : {A : Type 0} (s : Server) → s.locked ≡ true → s.locked ≡ false → A
unlocked_no s t f = absurd (false≢true (sym f ∙ t))

elsewhere : {A : Type 0} (c d : Closing) → c ≡ failed → c ≡ d → d ≢ failed → A
elsewhere c d e f ne = absurd (ne (sym f ∙ e))

not_that :
    (f : ℕ → Stage) (i j : ℕ)
    → f i ≡ registered
    → f j ≡ unregistered
    → write f j returned i ≡ registered
unfolding write
not_that f i j e d = elim (Bool-cases (i == j)) [
  | inl t ↦ ground (arith, e, d, t)
  | inr t ↦ ground (arith, t, e)
]

Step-IsLocked : (i : ℕ) (s s' : Server) → Step s s' → IsLocked i s → IsLocked i s'
Step-IsLocked i s s' (accepts _ _) h = record {
  locked = h.locked;
  stopped = h.stopped;
  serving = h.serving;
  old = h.old;
}
Step-IsLocked i s s' (hands_on _) h = record {
  locked = h.locked;
  stopped = h.stopped;
  serving = other_kept s.stages s.next spawned registered i h.old h.serving;
  old = omega (arith, h.old);
}
Step-IsLocked i s s' (leaves _ _) h = record {
  locked = h.locked;
  stopped = h.stopped;
  serving = h.serving;
  old = h.old;
}
Step-IsLocked i s s' (registers j _ _ free) h = unlocked_no s h.locked free
Step-IsLocked i s s' (unregisters j _ _ free) h = unlocked_no s h.locked free
Step-IsLocked i s s' (returns j _ at) h = record {
  locked = h.locked;
  stopped = h.stopped;
  serving = not_that s.stages i j h.serving at;
  old = h.old;
}
Step-IsLocked i s s' (begins_close e) h = elsewhere s.closing not_called h.stopped e (λ p. cc)
Step-IsLocked i s s' (closes_listener e) h = elsewhere s.closing at_listener h.stopped e (λ p. cc)
Step-IsLocked i s s' (locks e _) h = elsewhere s.closing at_lock h.stopped e (λ p. cc)
Step-IsLocked i s s' (fails_listener e) h = elsewhere s.closing at_listener h.stopped e (λ p. cc)
Step-IsLocked i s s' (closes_connection before j after e) h =
    elsewhere s.closing (at_connections (before ++ j ∷ after)) h.stopped e (λ p. cc)
Step-IsLocked i s s' (fails_connection before j after e) h =
    elsewhere s.closing (at_connections (before ++ j ∷ after)) h.stopped e (λ p. cc)
Step-IsLocked i s s' (unlocks e) h = elsewhere s.closing (at_connections []) h.stopped e (λ p. cc)
Step-IsLocked i s s' (waits e _) h = elsewhere s.closing at_wait h.stopped e (λ p. cc)

steps-IsLocked : (i : ℕ) (s s' : Server) → IsLocked i s → Steps s s' → IsLocked i s'
steps-IsLocked i s s' h begin = h
steps-IsLocked i s s'' h (then_step {s' = s'} steps step) =
    Step-IsLocked i s' s'' step (steps-IsLocked i s s' h steps)

-- A step of `Close` that stops in its loop.
data Stops (s : Server) : Server → Type 0 where
  stops : Stops s (record s { closing = failed })

not_stopped : {A : Type 0} (c : Closing) (ids : List ℕ) → c ≡ at_connections ids → c ≡ failed → A
not_stopped c ids e f = absurd (apart (sym e ∙ f))
  where
    apart : at_connections ids ≡ failed → ⊥
    apart p = cc

Step-Stops :
    (ids : List ℕ) (s s' : Server)
    → s.closing ≡ at_connections ids
    → Step s s'
    → s'.closing ≡ failed
    → Stops s s'
Step-Stops ids s s' at (accepts _ _) f = not_stopped s.closing ids at f
Step-Stops ids s s' at (hands_on _) f = not_stopped s.closing ids at f
Step-Stops ids s s' at (leaves _ _) f = not_stopped s.closing ids at f
Step-Stops ids s s' at (registers _ _ _ _) f = not_stopped s.closing ids at f
Step-Stops ids s s' at (unregisters _ _ _ _) f = not_stopped s.closing ids at f
Step-Stops ids s s' at (returns _ _ _) f = not_stopped s.closing ids at f
Step-Stops ids s s' at (begins_close _) f = cc
Step-Stops ids s s' at (closes_listener _) f = cc
Step-Stops ids s s' at (locks _ _) f = cc
Step-Stops ids s s' at (fails_listener e) f = cc
Step-Stops ids s s' at (closes_connection _ _ _ _) f = cc
Step-Stops ids s s' at (fails_connection _ _ _ _) f = stops
Step-Stops ids s s' at (unlocks _) f = cc
Step-Stops ids s s' at (waits _ _) f = cc

Stops-IsLocked :
    (i : ℕ) (s s' : Server)
    → Stops s s'
    → s.locked ≡ true
    → s.stages i ≡ registered
    → i < s.next
    → IsLocked i s'
Stops-IsLocked i s s' stops locked serving old = record {
  locked = locked;
  stopped = refl;
  serving = serving;
  old = old;
}

-- Let `Close` be in its loop over the connections, after any steps of the server, and stop there with an
-- error. Then the mutex stays locked and `Close` stays where it stopped, and a goroutine that serves
-- a registered connection at that moment never returns, whatever happens afterwards.
pub fails_connection-stays :
    (i : ℕ) (ids : List ℕ) (s s' s'' : Server)
    → Steps listen s
    → s.closing ≡ at_connections ids
    → s.stages i ≡ registered
    → Step s s'
    → s'.closing ≡ failed
    → Steps s' s''
    → (s''.locked ≡ true) × (s''.closing ≡ failed) × (s''.stages i ≡ registered)
fails_connection-stays i ids s s' s'' before at serving step failing steps =
    let locked = ((steps-IsShut s before).sweeping ids at).0 in
    let old = taken s i (steps-IsCounted s before) (λ e. apart (sym serving ∙ e)) in
    let h =
      steps-IsLocked i s' s''
        (Stops-IsLocked i s s' (Step-Stops ids s s' at step failing) locked serving old) steps in
    (h.locked, h.stopped, h.serving)
  where
    apart : registered ≡ returned → ⊥
    apart p = cc
