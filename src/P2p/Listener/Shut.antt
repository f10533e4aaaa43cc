-- ===== src/P2p/Listener/Shut.antt =====
-- What `Close` has done when it is through its loop, and when it returns.
use suffren.Base.{
  ℕ, ◌<◌, ◌≡◌, ◌≢◌, refl, sym, subst, ◌∙◌, true, false, Bool, false≢true, ◌⊎◌, inl, inr, write,
  List, [], ◌∷◌, ◌++◌, All, All-map,
}
use suffren.P2p.Listener.Slots.{Among, other_kept, All-both, each_in, close_one, still_closed}
use suffren.P2p.Listener.Counted.{IsCounted, steps-IsCounted, all_returned}
use suffren.P2p.Listener.Listed.{IsListed, steps-IsListed}
use suffren.P2p.Listener.{
  Stage, spawned, registered, unregistered, returned, Closing, at_lock, at_connections, at_wait,
  closed, Loop, accepting, handing_on, left, listen, Server, Step, accepts, hands_on, leaves,
  registers, returns, unregisters, begins_close, closes_listener, locks, fails_listener,
  closes_connection, fails_connection, unlocks, waits, Steps, begin, then_step,
}

-- Where the listener is closed.
abbrev IsPast : Closing → Type 0
IsPast at_lock = Unit
IsPast (at_connections _) = Unit
IsPast at_wait = Unit
IsPast closed = Unit
IsPast _ = ⊥

-- In its loop `Close` holds the mutex, and each registered connection is closed or still to come;
-- once it has returned without an error, all goroutines have.
pub record IsShut (s : Server) : Type 0 where
  pub shut : IsPast s.closing → s.listening ≡ false
  pub sweeping :
      (ids : List ℕ)
      → s.closing ≡ at_connections ids
      → (s.locked ≡ true) × All (λ i. (s.is_open i ≡ false) ⊎ Among i ids) s.active_connections
  pub over : s.closing ≡ closed → (s.loop ≡ left) × ((i : ℕ) → s.stages i ≡ returned)

ids_eq : (a b : List ℕ) → at_connections a ≡ at_connections b → a ≡ b
ids_eq a b e = cc

busy : {A : Type 0} (l m : Loop) → l ≡ m → m ≢ left → l ≡ left → A
busy l m p ne q = absurd (ne (sym p ∙ q))

unreturned : {A : Type 0} (x y : Stage) → x ≡ y → y ≢ returned → x ≡ returned → A
unreturned x y p ne q = absurd (ne (sym p ∙ q))

-- No critical section of a connection is entered while `Close` is in its loop.
held :
    {A : Type 0} (s : Server) (ids : List ℕ)
    → IsShut s
    → s.locked ≡ false
    → s.closing ≡ at_connections ids
    → A
held s ids h free e = absurd (false≢true (sym free ∙ (h.sweeping ids e).0))

handed :
    (is_open : ℕ → Bool) (n : ℕ) (ids : List ℕ) (i : ℕ)
    → i < n
    → (is_open i ≡ false) ⊎ Among i ids
    → (write is_open n true i ≡ false) ⊎ Among i ids
handed is_open n ids i lt (inl c) = inl (other_kept is_open n true false i lt c)
handed is_open n ids i lt (inr a) = inr a

closed_or_left :
    (is_open : ℕ → Bool) (n : ℕ) (ids : List ℕ) (i : ℕ)
    → (is_open i ≡ false) ⊎ Among i ids
    → (write is_open n false i ≡ false) ⊎ Among i ids
closed_or_left is_open n ids i (inl c) = inl (still_closed is_open n i c)
closed_or_left is_open n ids i (inr a) = inr a

Step-IsShut : (s s' : Server) → Step s s' → IsListed s → IsCounted s → IsShut s → IsShut s'
Step-IsShut s s' (accepts at _) l n h = record {
  shut = h.shut;
  sweeping = h.sweeping;
  over = λ e. busy s.loop accepting at (λ p. cc) (h.over e).0;
}
Step-IsShut s s' (hands_on at) l n h = record {
  shut = h.shut;
  sweeping = λ ids e. (
    (h.sweeping ids e).0,
    All-map (λ i c. handed s.is_open s.next ids i c.0 c.1) s.active_connections
        (All-both _ _ s.active_connections l.known (h.sweeping ids e).1),
  );
  over = λ e. busy s.loop handing_on at (λ p. cc) (h.over e).0;
}
Step-IsShut s s' (leaves _ _) l n h = record {
  shut = h.shut;
  sweeping = h.sweeping;
  over = λ e. (refl, (h.over e).1);
}
Step-IsShut s s' (registers i _ at free) l n h = record {
  shut = h.shut;
  sweeping = λ ids e. held s ids h free e;
  over = λ e. unreturned (s.stages i) spawned at (λ p. cc) ((h.over e).1 i);
}
Step-IsShut s s' (unregisters i _ at free) l n h = record {
  shut = h.shut;
  sweeping = λ ids e. held s ids h free e;
  over = λ e. unreturned (s.stages i) registered at (λ p. cc) ((h.over e).1 i);
}
Step-IsShut s s' (returns i _ at) l n h = record {
  shut = h.shut;
  sweeping = λ ids e. (
    (h.sweeping ids e).0,
    All-map (closed_or_left s.is_open i ids) s.active_connections (h.sweeping ids e).1,
  );
  over = λ e. unreturned (s.stages i) unregistered at (λ p. cc) ((h.over e).1 i);
}
Step-IsShut s s' (begins_close _) l n h = record {
  shut = λ p. absurd p;
  sweeping = λ ids e. cc;
  over = λ e. cc;
}
Step-IsShut s s' (closes_listener _) l n h = record {
  shut = λ p. refl;
  sweeping = λ ids e. cc;
  over = λ e. cc;
}
Step-IsShut s s' (locks at _) l n h = record {
  shut = λ p. h.shut (subst IsPast (sym at) tt);
  sweeping =
      λ ids e. (refl, each_in _ s.active_connections ids (ids_eq s.active_connections ids e));
  over = λ e. cc;
}
Step-IsShut s s' (fails_listener _) l n h = record {
  shut = λ p. absurd p;
  sweeping = λ ids e. cc;
  over = λ e. cc;
}
Step-IsShut s s' (closes_connection before i after at) l n h = record {
  shut = λ p. h.shut (subst IsPast (sym at) tt);
  sweeping = λ ids e. (
    (h.sweeping (before ++ i ∷ after) at).0,
    All-map (λ j c. close_one s.is_open before i after ids (ids_eq (before ++ after) ids e) j c)
        s.active_connections (h.sweeping (before ++ i ∷ after) at).1,
  );
  over = λ e. cc;
}
Step-IsShut s s' (fails_connection _ _ _ _) l n h = record {
  shut = λ p. absurd p;
  sweeping = λ ids e. cc;
  over = λ e. cc;
}
Step-IsShut s s' (unlocks at) l n h = record {
  shut = λ p. h.shut (subst IsPast (sym at) tt);
  sweeping = λ ids e. cc;
  over = λ e. cc;
}
Step-IsShut s s' (waits at zero) l n h = record {
  shut = λ p. h.shut (subst IsPast (sym at) tt);
  sweeping = λ ids e. cc;
  over = λ e. all_returned s n zero;
}

listen-IsShut : IsShut listen
listen-IsShut = record { shut = λ p. absurd p; sweeping = λ ids e. cc; over = λ e. cc }

pub steps-IsShut : (s : Server) → Steps listen s → IsShut s
steps-IsShut s begin = listen-IsShut
steps-IsShut s (then_step {s' = s'} steps step) =
    Step-IsShut s' s step (steps-IsListed s' steps) (steps-IsCounted s' steps)
      (steps-IsShut s' steps)

none_left :
    (is_open : ℕ → Bool) (xs : List ℕ)
    → All (λ i. (is_open i ≡ false) ⊎ Among i []) xs
    → All (λ i. is_open i ≡ false) xs
none_left is_open xs h = All-map (λ i c. elim c [ inl e ↦ e | inr a ↦ absurd a ]) xs h

none_registered :
    (stages : ℕ → Stage) (xs : List ℕ)
    → ((i : ℕ) → stages i ≡ returned)
    → All (λ i. stages i ≡ registered) xs
    → xs ≡ []
none_registered stages [] gone h = refl
none_registered stages (i ∷ xs) gone h = unreturned (stages i) registered h.0 (λ p. cc) (gone i)

-- However connections come, register and return while `Close` runs: when it is through its loop,
-- the listener and every registered connection are closed, and when it has returned without an error,
-- the loop of `Listen` and every goroutine have returned, no connection is registered and none is open.
pub close-closes :
    (s : Server)
    → Steps listen s
    → (s.closing ≡ at_connections []
        → (s.listening ≡ false) × All (λ i. s.is_open i ≡ false) s.active_connections)
      × (s.closing ≡ closed
          → (s.listening ≡ false)
            × (s.loop ≡ left)
            × (s.active_connections ≡ [])
            × ((i : ℕ) → (s.stages i ≡ returned) × (s.is_open i ≡ false)))
close-closes s steps =
    let h = steps-IsShut s steps in
    let l = steps-IsListed s steps in
    (
      λ e. (
        h.shut (subst IsPast (sym e) tt),
        none_left s.is_open s.active_connections (h.sweeping [] e).1,
      ),
      λ e. (
        h.shut (subst IsPast (sym e) tt),
        (h.over e).0,
        none_registered s.stages s.active_connections (h.over e).1 l.listed,
        λ i. ((h.over e).1 i, l.resting i ((h.over e).1 i)),
      ),
    )
