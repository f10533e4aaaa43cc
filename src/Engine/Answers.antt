-- ===== src/Engine/Answers.antt =====
-- The calls of the engine in any interleaving with the flusher and the learn callback: an answer is a
-- learned value.
use suffren.Base.{
  ℕ, ◌<◌, write, ◌==◌, ◌≡◌, refl, sym, subst, inl, inr, Bool, Bool-cases, Option, none, some,
  String, List, [], ◌∷◌, All, arith, nat_key,
}
use suffren.GoMap.{GoMap}
use suffren.Crdt.CounterMap.{CounterMap, IsMap, increment_key}
use suffren.Crdt.CounterMap.Order.{Below, Below-refl}
use suffren.Crdt.CounterMap.Keys.{increment_key-IsMap}
use suffren.Engine.{
  Engine, PendingOp, local_map, register_pending, add_op_to_batch, increment_begins, value_begins,
  flush,
}
use suffren.Engine.Flusher.{
  Running, Step, increments, reads, ends, learns, ticks, wakes, flushes, Steps, start, then_step,
}
use suffren.Engine.Committed.{written}
use suffren.Engine.Pending.{All-put}
use suffren.Engine.Growing.{IsSafe, AreNamed}
use suffren.Engine.Answering.{
  Justified, IsAnswering, value_begins-IsAnswering, increment_begins-IsAnswering,
  call_ends-IsAnswering, on_learn-IsAnswering,
}

abbrev pub AreSafe : {r r' : Running} → Steps r r' → Type 0
AreSafe start = Unit
AreSafe (then_step steps step) = AreSafe steps × IsSafe step

-- The values that the steps learn, the latest first.
abbrev pub learns_in : {r r' : Running} → Step r r' → List CounterMap → List CounterMap
learns_in (learns learned) rest = learned ∷ rest
learns_in _ rest = rest

abbrev pub learnt_in : {r r' : Running} → Steps r r' → List CounterMap
learnt_in start = []
learnt_in (then_step steps step) = learns_in step (learnt_in steps)

pub Step-IsAnswering :
    (added : CounterMap) (c : ℕ) (learnt : List CounterMap) (r r' : Running) (step : Step r r')
    → IsSafe step
    → IsAnswering added c learnt r.engine
    → IsAnswering added c (learns_in step learnt) r'.engine
unfolding flush
Step-IsAnswering added c learnt r r' (increments key value) fits h =
    increment_begins-IsAnswering added c learnt r.engine key value fits h
Step-IsAnswering added c learnt r r' reads _ h = value_begins-IsAnswering added c learnt r.engine h
Step-IsAnswering added c learnt r r' (ends op_id done arrived key) _ h =
    call_ends-IsAnswering added c learnt r.engine op_id done arrived key h
Step-IsAnswering added c learnt r r' (learns learned) valid h =
    on_learn-IsAnswering added c learnt r.engine learned valid h
Step-IsAnswering added c learnt r r' (ticks _) _ h = h
Step-IsAnswering added c learnt r r' (wakes _ _) _ h = record {
  is_map = h.is_map;
  floor = h.floor;
  live = h.live;
  named = h.named;
  answered = h.answered;
}
Step-IsAnswering added c learnt r r' (flushes _) _ h =
    elim (Bool-cases (r.engine.unflushed_ops == 0)) [
      | inl t ↦ rw (t) h
      | inr t ↦ rw (t) (record {
        is_map = h.is_map;
        floor = h.floor;
        live = h.live;
        named = h.named;
        answered = h.answered;
      })
    ]

pub steps-IsAnswering :
    (added : CounterMap) (c : ℕ) (r r' : Running) (steps : Steps r r')
    → AreSafe steps
    → IsAnswering added c [] r.engine
    → IsAnswering added c (learnt_in steps) r'.engine
steps-IsAnswering added c r r' start safe h = h
steps-IsAnswering added c r r' (then_step {r' = q} steps step) safe h =
    Step-IsAnswering added c (learnt_in steps) q r' step safe.1
      (steps-IsAnswering added c r q steps safe.0 h)

-- The map that an increment leaves.
abbrev pub incremented : Engine → String → ℕ → CounterMap
incremented s key value = increment_key (local_map s) key s.node_id value

pub fresh-WaitsLive :
    (c local : ℕ) (ops : GoMap ℕ PendingOp)
    → All (λ op. op.1.done < c) ops
    → All (λ op. op.1.done ≡ c → op.1.proposed_value ≡ local) ops
fresh-WaitsLive c local [] h = tt
fresh-WaitsLive c local (op ∷ ops) h =
    (λ e. absurd (omega (arith, e, h.0)), fresh-WaitsLive c local ops h.1)

pub nothing_written :
    (channels : ℕ → Option CounterMap) (a : ℕ) (x : CounterMap)
    → write channels a none a ≡ some x
    → ⊥
unfolding write
nothing_written channels a x e = ground (arith, e)

-- The map with the increment is below the live local map, and its channel is empty.
pub increment_begins-IsAnswering_first :
    (learnt : List CounterMap) (s : Engine) (key : String) (value : ℕ)
    → IsMap (local_map s)
    → AreNamed s
    → IsAnswering
        (incremented s key value)
        (increment_begins s key value).2
        learnt
        (increment_begins s key value).0
unfolding increment_begins value_begins register_pending add_op_to_batch
increment_begins-IsAnswering_first learnt s key value d names = record {
  is_map = subst IsMap (sym same) (increment_key-IsMap (local_map s) key s.node_id value d);
  floor = subst (Below m) (sym same) (Below-refl m);
  live =
      All-put (λ op. op.done ≡ s.next → op.proposed_value ≡ s.local_counters) s.op_id _ s.pending
        (λ _. refl) (fresh-WaitsLive s.next s.local_counters s.pending names);
  named = omega arith;
  answered = λ x p. absurd (nothing_written s.channels s.next x p);
}
  where
    m : CounterMap
    m = incremented s key value

    same : write s.maps s.local_counters m s.local_counters ≡ m
    same = written s.maps s.local_counters m

-- Let IncrementKey begin, and calls begin and end, values be learned and the flusher run in any
-- interleaving in which no count overflows and learned values are maps. When its channel then holds
-- an answer, some value that was learned meanwhile contains the whole local map with the increment,
-- and the answer and that value contain each other.
pub increment_begins-Justified :
    (s : Engine) (key : String) (value : ℕ) (awake : Bool) (r' : Running)
    → IsMap (local_map s)
    → AreNamed s
    → (steps : Steps (record { engine = (increment_begins s key value).0; awake = awake }) r')
    → AreSafe steps
    → (answer : CounterMap) → r'.engine.channels (increment_begins s key value).2 ≡ some answer
    → Justified (incremented s key value) answer (learnt_in steps)
increment_begins-Justified s key value awake r' d names steps safe answer e =
    (steps-IsAnswering (incremented s key value) _ _ r' steps safe
        (increment_begins-IsAnswering_first [] s key value d names)).answered
      answer e
