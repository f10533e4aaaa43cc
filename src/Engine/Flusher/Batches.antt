-- ===== src/Engine/Flusher/Batches.antt =====
-- A full batch is never forgotten.
use suffren.Base.{
  write, ℕ, ◌≤◌, ◌<◌, ◌==◌, ◌≡◌, refl, ◌∙◌, ◌⊎◌, inl, inr, Bool, true, false, Bool-cases,
  Option-cases, [], ◌∷◌, arith, String,
}
use suffren.GoMap.{GoMap}
use suffren.Crdt.CounterMap as Counters
use suffren.Crdt.CounterMap.{CounterMap}
use suffren.Engine.{
  Engine, PendingOp, add_op_to_batch, increment_begins, value_begins, call_ends, on_learn, signal,
  signal_all, flush, register_pending, local_map,
}
use suffren.Engine.Flusher.{
  Running, Step, increments, reads, ends, learns, ticks, wakes, flushes, Steps, start, then_step,
}

-- If the operations since the last flush fill a batch, then the trigger is set or the flusher is on
-- its way to flush; a batch is not empty.
pub record IsSignalled (r : Running) : Type 0 where
  pub batch : 0 < r.engine.max_batch_size
  pub signalled :
      r.engine.max_batch_size ≤ r.engine.unflushed_ops
      → (r.engine.flush_trigger ≡ true) ⊎ (r.awake ≡ true)

-- Two states that agree on the batch.
record Same (s t : Engine) : Type 0 where
  size : t.max_batch_size ≡ s.max_batch_size
  ops : t.unflushed_ops ≡ s.unflushed_ops
  trigger : t.flush_trigger ≡ s.flush_trigger

Same-refl : (s : Engine) → Same s s
Same-refl s = record { size = refl; ops = refl; trigger = refl }

Same-trans : {s t u : Engine} → Same s t → Same t u → Same s u
Same-trans f g = record {
  size = g.size ∙ f.size;
  ops = g.ops ∙ f.ops;
  trigger = g.trigger ∙ f.trigger;
}

signal-Same :
    (learned : CounterMap) (s : Engine) (i : ℕ) (op : PendingOp) → Same s (signal learned s i op)
unfolding signal
signal-Same learned s i op = elim (Bool-cases (Counters.is_in (s.maps op.proposed_value) learned)) [
  | inr t ↦ rw (t) (Same-refl s)
  | inl t ↦ elim (Option-cases (s.channels op.done)) [
    | inl e ↦ rw (t, e) (record { size = refl; ops = refl; trigger = refl })
    | inr (m, e) ↦ rw (t, e) (Same-refl s)
  ]
]

signal_all-Same :
    (learned : CounterMap) (ops : GoMap ℕ PendingOp) (s : Engine)
    → Same s (signal_all learned ops s)
unfolding signal_all
signal_all-Same learned [] s = Same-refl s
signal_all-Same learned ((i, op) ∷ ops) s =
    Same-trans (signal-Same learned s i op) (signal_all-Same learned ops (signal learned s i op))

on_learn-Same : (s : Engine) (learned : CounterMap) → Same s (on_learn s learned)
unfolding on_learn
on_learn-Same s learned =
    let h = signal_all-Same learned s.pending _ in
    record { size = h.size; ops = h.ops; trigger = h.trigger }

call_ends-Same :
    (s : Engine) (op_id done : ℕ) (arrived : Bool) (key : String)
    → Same s (call_ends s op_id done arrived key).0
unfolding call_ends
call_ends-Same s op_id done false key = record { size = refl; ops = refl; trigger = refl }
call_ends-Same s op_id done true key = elim (Option-cases (s.channels done)) [
  | inl e ↦ rw (e) (Same-refl s)
  | inr (m, e) ↦ rw (e) (record { size = refl; ops = refl; trigger = refl })
]

Same-IsSignalled :
    (r : Running) (t : Engine)
    → Same r.engine t
    → IsSignalled r
    → IsSignalled (record r { engine = t })
Same-IsSignalled r t f h = record {
  batch = omega (arith, f.size, h.batch);
  signalled = λ full. elim (h.signalled (omega (arith, f.size, f.ops, full))) [
    | inl p ↦ inl (f.trigger ∙ p)
    | inr p ↦ inr p
  ];
}

add_op-IsSignalled :
    (r : Running) (t : Engine)
    → Same r.engine t
    → IsSignalled r
    → IsSignalled (record r { engine = add_op_to_batch t })
unfolding add_op_to_batch
add_op-IsSignalled r t f h = record {
  batch = omega (arith, f.size, h.batch);
  signalled = λ full. inl (ground (arith, full));
}

empty_batch : (size ops : ℕ) → 0 < size → (ops == 0) ≡ true → size ≤ ops → ⊥
empty_batch size ops h t full = ground (arith, h, t, full)

value-IsSignalled :
    (r : Running) → IsSignalled r → IsSignalled (record r { engine = (value_begins r.engine).0 })
unfolding value_begins
value-IsSignalled r h =
    add_op-IsSignalled r (register_pending r.engine r.engine.local_counters)
      (record { size = refl; ops = refl; trigger = refl }) h

increment-IsSignalled :
    (r : Running) (key : String) (value : ℕ)
    → IsSignalled r
    → IsSignalled (record r { engine = (increment_begins r.engine key value).0 })
unfolding increment_begins
increment-IsSignalled r key value h =
    let counted : Engine = record r.engine {
      maps =
          write r.engine.maps r.engine.local_counters
            (Counters.increment_key (local_map r.engine) key r.engine.node_id value);
    } in
    value-IsSignalled (record { engine = counted; awake = r.awake })
      (record { batch = h.batch; signalled = h.signalled })

flush-IsSignalled :
    (r : Running)
    → IsSignalled r
    → IsSignalled (record { engine = (flush r.engine).0; awake = false })
unfolding flush
flush-IsSignalled r h = elim (Bool-cases (r.engine.unflushed_ops == 0)) [
  | inl t ↦
      rw (t)
        (record { batch = h.batch; signalled = λ full. absurd (empty_batch _ _ h.batch t full) })
  | inr t ↦
      rw (t) (record { batch = h.batch; signalled = λ full. absurd (omega (arith, h.batch, full)) })
]

Step-IsSignalled : (r r' : Running) → Step r r' → IsSignalled r → IsSignalled r'
Step-IsSignalled r r' (increments key value) h = increment-IsSignalled r key value h
Step-IsSignalled r r' reads h = value-IsSignalled r h
Step-IsSignalled r r' (ends op_id done arrived key) h =
    Same-IsSignalled r _ (call_ends-Same r.engine op_id done arrived key) h
Step-IsSignalled r r' (learns learned) h = Same-IsSignalled r _ (on_learn-Same r.engine learned) h
Step-IsSignalled r r' (ticks asleep) h = record { batch = h.batch; signalled = λ full. inr refl }
Step-IsSignalled r r' (wakes asleep set) h = record {
  batch = h.batch;
  signalled = λ full. inr refl;
}
Step-IsSignalled r r' (flushes awake) h = flush-IsSignalled r h

-- Over any sequence of calls, learned values and steps of the flusher, with batches that are not
-- empty: whenever the operations since the last flush fill a batch, the trigger is set or the
-- flusher is awake and about to flush.
pub steps-IsSignalled : (r r' : Running) → IsSignalled r → Steps r r' → IsSignalled r'
steps-IsSignalled r r' h start = h
steps-IsSignalled r r'' h (then_step {r' = r'} steps step) =
    Step-IsSignalled r' r'' step (steps-IsSignalled r r' h steps)
