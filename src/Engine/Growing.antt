-- ===== src/Engine/Growing.antt =====
-- The live local map only grows, and stays that of its node.
use suffren.Base.{
  ℕ, ◌+◌, ◌<◌, ◌≤◌, write, ◌==◌, ◌≡◌, refl, sym, ap, subst, ◌∙◌, inl, inr, Bool, true, false,
  Bool-cases, Option-cases, String, All, All-map, arith, nat_key,
}
use suffren.Crdt.GCounter.{count, uint64_mod}
use suffren.Crdt.CounterMap as Counters
use suffren.Crdt.CounterMap.{CounterMap, IsMap, counter_or_new, increment_key}
use suffren.Crdt.CounterMap.Order.{Below, Below-refl, Below-trans}
use suffren.Crdt.CounterMap.Keys.{increment_key-Below, increment_key-IsMap}
use suffren.Crdt.CounterMap.Bound.{merge_in_place-IsLeast, merge_in_place-IsMap}
use suffren.Engine.{
  Engine, local_map, register_pending, unregister_pending, add_op_to_batch, increment_begins,
  value_begins, call_ends, flush, on_learn,
}
use suffren.Engine.Flusher.{Running, Step, increments, reads, ends, learns, ticks, wakes, flushes}
use suffren.Engine.Learning.{merged}
use suffren.Engine.Committed.{written}
use suffren.Engine.Pending.{All-put, All-remove, signal_all-pending, signal_all-Leaves}

-- No count overflows, and a learned value is a map.
abbrev pub IsSafe : {r r' : Running} → Step r r' → Type 0
IsSafe {r = r} (increments key value) =
    count r.engine.node_id (counter_or_new (local_map r.engine) key).counts + value < uint64_mod
IsSafe (learns learned) = IsMap learned
IsSafe _ = Unit

-- The names of the channels that are waited at are taken.
abbrev pub AreNamed : Engine → Type 0
AreNamed s = All (λ op. op.1.done < s.next) s.pending

-- What every step keeps, from a state whose local map is a map and whose channels are named.
pub record Grows (s s' : Engine) : Type 0 where
  pub is_map : IsMap (local_map s')
  pub below : Below (local_map s) (local_map s')
  pub named : AreNamed s'
  pub node : s'.node_id ≡ s.node_id
  pub next : s.next ≤ s'.next

module _ (s : Engine) (d : IsMap (local_map s)) (names : AreNamed s) where
  same-Grows : Grows s s
  same-Grows = record {
    is_map = d;
    below = Below-refl (local_map s);
    named = names;
    node = refl;
    next = omega arith;
  }

  value_begins-named : All (λ op. op.1.done < (value_begins s).0.next) (value_begins s).0.pending
  unfolding value_begins register_pending add_op_to_batch
  value_begins-named =
      All-put (λ op. op.done < s.next + 1) s.op_id _ s.pending (omega arith)
        (All-map (λ op h. omega (arith, h)) s.pending names)

  pub value_begins-Grows : Grows s (value_begins s).0
  unfolding value_begins register_pending add_op_to_batch
  value_begins-Grows = record {
    is_map = d;
    below = Below-refl (local_map s);
    named = value_begins-named;
    node = refl;
    next = omega arith;
  }

  pub call_ends-Grows :
      (op_id done : ℕ) (arrived : Bool) (key : String)
      → Grows s (call_ends s op_id done arrived key).0
  unfolding call_ends unregister_pending
  call_ends-Grows op_id done false key = record {
    is_map = d;
    below = Below-refl (local_map s);
    named = All-remove (λ op. op.done < s.next) op_id s.pending names;
    node = refl;
    next = omega arith;
  }
  call_ends-Grows op_id done true key = elim (Option-cases (s.channels done)) [
    | inl e ↦ rw (e) same-Grows
    | inr (m, e) ↦ rw (e) (record {
      is_map = d;
      below = Below-refl (local_map s);
      named = All-remove (λ op. op.done < s.next) op_id s.pending names;
      node = refl;
      next = omega arith;
    })
  ]

  on_learn-Grows : (learned : CounterMap) → IsMap learned → Grows s (on_learn s learned)
  unfolding on_learn
  on_learn-Grows learned valid =
      let m = Counters.merge_in_place (local_map s) learned in
      let now = merged s learned in
      let leaves = signal_all-Leaves learned s.pending now in
      let local : local_map (on_learn s learned) ≡ m =
        ap (λ ms. ms (on_learn s learned).local_counters) leaves.maps
        ∙ ap now.maps leaves.local
        ∙ written s.maps s.local_counters m in
      record {
        is_map = subst IsMap (sym local) (merge_in_place-IsMap (local_map s) learned d valid);
        below =
            subst (Below (local_map s)) (sym local)
              (merge_in_place-IsLeast (local_map s) learned learned valid).0;
        named =
            subst (λ k. All (λ op. op.1.done < k) (on_learn s learned).pending) (sym leaves.next)
              (signal_all-pending (λ op. op.done < s.next) learned s.pending now names);
        node = leaves.node;
        next = subst (λ k. s.next ≤ k) (sym leaves.next) (omega arith);
      }

pub increment_begins-Grows :
    (s : Engine) (key : String) (value : ℕ)
    → IsMap (local_map s)
    → AreNamed s
    → count s.node_id (counter_or_new (local_map s) key).counts + value < uint64_mod
    → Grows s (increment_begins s key value).0
unfolding increment_begins
increment_begins-Grows s key value d names fits =
    let m = increment_key (local_map s) key s.node_id value in
    let same = written s.maps s.local_counters m in
    let next = record s { maps = write s.maps s.local_counters m } in
    let grown =
      value_begins-Grows next
        (subst IsMap (sym same) (increment_key-IsMap (local_map s) key s.node_id value d)) names in
    record {
      is_map = grown.is_map;
      below =
          Below-trans (local_map s) (local_map next) (local_map (value_begins next).0)
            (subst (Below (local_map s)) (sym same)
              (increment_key-Below (local_map s) key s.node_id value fits))
            grown.below;
      named = grown.named;
      node = grown.node;
      next = grown.next;
    }

pub Step-Grows :
    (r r' : Running) (step : Step r r')
    → IsSafe step
    → IsMap (local_map r.engine)
    → AreNamed r.engine
    → Grows r.engine r'.engine
unfolding flush
Step-Grows r r' (increments key value) fits d names =
    increment_begins-Grows r.engine key value d names fits
Step-Grows r r' reads _ d names = value_begins-Grows r.engine d names
Step-Grows r r' (ends op_id done arrived key) _ d names =
    call_ends-Grows r.engine d names op_id done arrived key
Step-Grows r r' (learns learned) valid d names = on_learn-Grows r.engine d names learned valid
Step-Grows r r' (ticks _) _ d names = same-Grows r.engine d names
Step-Grows r r' (wakes _ _) _ d names = record {
  is_map = d;
  below = Below-refl (local_map r.engine);
  named = names;
  node = refl;
  next = omega arith;
}
Step-Grows r r' (flushes _) _ d names = elim (Bool-cases (r.engine.unflushed_ops == 0)) [
  | inl t ↦ rw (t) (same-Grows r.engine d names)
  | inr t ↦ rw (t) (record {
    is_map = d;
    below = Below-refl (local_map r.engine);
    named = names;
    node = refl;
    next = omega arith;
  })
]
