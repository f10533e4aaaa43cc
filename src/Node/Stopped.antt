-- ===== src/Node/Stopped.antt =====
-- What still reaches the router of a node once `Stop` has closed `done`, and once its `Wait` has returned.
use suffren.Base.{
  ◌+◌, ◌≤◌, ◌<◌, ◌≡◌, refl, sym, ap, ◌∙◌, ◌⊎◌, inl, inr, true, false, Bool-cases, false≢true, List,
  [], ◌∷◌, ◌++◌, length, length-append, arith, if◌then◌else◌,
}
use suffren.Crdt.GCounter.{NodeId}
use suffren.Protocol.{Message}
use suffren.Agreement.Router.{MessageRouter}
use suffren.Node.{
  Node, new_node, deliver, dispatching_from, Step, arrives, hangs_up, dispatches, shuts_down,
  drains, passes, gives_up, delivers, stops, waits, Steps, begin, then_step,
}

module _ {L : Type 0} where
  length-middle :
      (xs before after : List (Message L)) (m : Message L)
      → xs ≡ before ++ m ∷ after
      → length xs ≡ length (before ++ after) + 1
  length-middle xs before after m e =
      omega (arith, ap length e, length-append before (m ∷ after), length-append before after)

  -- The wait group counts the loop and the goroutines of messages.
  pub record IsCounted (n : Node L) : Type 0 where
    pub counted : n.wg ≡ (if n.dispatching then 1 else 0) + length n.spawned + length n.passed
    pub over : n.waited ≡ true → n.wg ≡ 0

  -- While something runs, `Wait` has not returned.
  busy : {A : Type 0} (n : Node L) → IsCounted n → 0 < n.wg → n.waited ≡ true → A
  busy n h some e = absurd (omega (arith, some, h.over e))

  Step-IsCounted : (n n' : Node L) → Step n n' → IsCounted n → IsCounted n'
  unfolding deliver
  Step-IsCounted n n' (arrives msg) h = record { counted = h.counted; over = h.over }
  Step-IsCounted n n' hangs_up h = record { counted = h.counted; over = h.over }
  Step-IsCounted n n' (dispatches msg rest d e) h =
      let now : n.wg ≡ 1 + length n.spawned + length n.passed = ground (arith, h.counted, d) in
      record {
        counted = ground (arith, now, d, length-append n.spawned (msg ∷ []));
        over = busy n h (omega (arith, now));
      }
  Step-IsCounted n n' (shuts_down d e) h =
      let now : n.wg ≡ 1 + length n.spawned + length n.passed = ground (arith, h.counted, d) in
      record { counted = omega (arith, now); over = busy n h (omega (arith, now)) }
  Step-IsCounted n n' (drains d c e) h =
      let now : n.wg ≡ 1 + length n.spawned + length n.passed = ground (arith, h.counted, d) in
      record { counted = omega (arith, now); over = busy n h (omega (arith, now)) }
  Step-IsCounted n n' (passes before msg after d e) h =
      let one = length-middle n.spawned before after msg e in
      record {
        counted = omega (arith, h.counted, one, length-append n.passed (msg ∷ []));
        over = h.over;
      }
  Step-IsCounted n n' (gives_up before msg after d e) h =
      let one = length-middle n.spawned before after msg e in
      record {
        counted = omega (arith, h.counted, one);
        over = busy n h (omega (arith, h.counted, one));
      }
  Step-IsCounted n n' (delivers before msg after e) h =
      let one = length-middle n.passed before after msg e in
      record {
        counted = omega (arith, h.counted, one);
        over = busy n h (omega (arith, h.counted, one));
      }
  Step-IsCounted n n' stops h = record { counted = h.counted; over = h.over }
  Step-IsCounted n n' (waits d zero) h = record { counted = h.counted; over = λ e. zero }

  steps-IsCounted : (n n' : Node L) → IsCounted n → Steps n n' → IsCounted n'
  steps-IsCounted n n' h begin = h
  steps-IsCounted n n'' h (then_step {n' = n'} steps step) =
      Step-IsCounted n' n'' step (steps-IsCounted n n' h steps)

  -- Since `done` was closed: fewer goroutines have still found it open, or no message was delivered.
  pub record IsLate (n n' : Node L) : Type 0 where
    pub done : n'.done ≡ true
    pub fewer : length n'.passed ≤ length n.passed
    pub router : (n'.router ≡ n.router) ⊎ (length n'.passed < length n.passed)

  Step-IsLate : (n n' n'' : Node L) → IsLate n n' → Step n' n'' → IsLate n n''
  unfolding deliver
  Step-IsLate n n' n'' h (arrives msg) = record {
    done = h.done;
    fewer = h.fewer;
    router = h.router;
  }
  Step-IsLate n n' n'' h hangs_up = record { done = h.done; fewer = h.fewer; router = h.router }
  Step-IsLate n n' n'' h (dispatches msg rest d e) = record {
    done = h.done;
    fewer = h.fewer;
    router = h.router;
  }
  Step-IsLate n n' n'' h (shuts_down d e) = record {
    done = h.done;
    fewer = h.fewer;
    router = h.router;
  }
  Step-IsLate n n' n'' h (drains d c e) = record {
    done = h.done;
    fewer = h.fewer;
    router = h.router;
  }
  Step-IsLate n n' n'' h (passes before msg after d e) = absurd (false≢true (sym d ∙ h.done))
  Step-IsLate n n' n'' h (gives_up before msg after d e) = record {
    done = h.done;
    fewer = h.fewer;
    router = h.router;
  }
  Step-IsLate n n' n'' h (delivers before msg after e) =
      let one = length-middle n'.passed before after msg e in
      record {
        done = h.done;
        fewer = omega (arith, h.fewer, one);
        router = inr (omega (arith, h.fewer, one));
      }
  Step-IsLate n n' n'' h stops = record { done = refl; fewer = h.fewer; router = h.router }
  Step-IsLate n n' n'' h (waits d zero) = record {
    done = h.done;
    fewer = h.fewer;
    router = h.router;
  }

  steps-IsLate : (n n' : Node L) → n.done ≡ true → Steps n n' → IsLate n n'
  steps-IsLate n n' d begin = record { done = d; fewer = omega arith; router = inl refl }
  steps-IsLate n n'' d (then_step {n' = n'} steps step) =
      Step-IsLate n n' n'' (steps-IsLate n n' d steps) step

  started-IsCounted :
      (id : NodeId) (router : MessageRouter L) → IsCounted (dispatching_from (new_node id router))
  unfolding new_node
  started-IsCounted id router = record { counted = omega arith; over = λ e. absurd (false≢true e) }

  -- Let `Stop` close `done` after any steps of a new node that was started. From then on no further
  -- goroutine comes to find `done` open. The router stays as it is, unless one that had found it open
  -- delivers its message, and then the `Wait` of `Stop` had not returned: once it has, nothing
  -- reaches the router, whatever the network still brings.
  pub stop-silences :
      (id : NodeId) (router : MessageRouter L) (n n' : Node L)
      → Steps (dispatching_from (new_node id router)) n
      → n.done ≡ true
      → Steps n n'
      → (length n'.passed ≤ length n.passed)
        × ((n'.router ≡ n.router) ⊎ ((n.waited ≡ false) × (length n'.passed < length n.passed)))
  stop-silences id router n n' before d after =
      let h = steps-IsCounted _ n (started-IsCounted id router) before in
      let late = steps-IsLate n n' d after in
      (
        late.fewer,
        elim late.router [
          | inl same ↦ inl same
          | inr less ↦ elim (Bool-cases n.waited) [
            | inl e ↦ busy n h (omega (arith, h.counted, less)) e
            | inr e ↦ inr (e, less)
          ]
        ],
      )
