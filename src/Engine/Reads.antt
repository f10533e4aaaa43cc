-- ===== src/Engine/Reads.antt =====
-- A read at a node after an increment at the same node.
use suffren.Base.{
  ℕ, ◌+◌, ◌<◌, ◌≡◌, refl, inl, inr, Bool, some, String, List, [], ◌∷◌, arith, nat_key,
}
use suffren.Crdt.GCounter.{count, uint64_mod}
use suffren.Crdt.CounterMap.{CounterMap, IsMap, counter_or_new}
use suffren.Crdt.CounterMap.Order.{Below, Below-refl, Below-trans}
use suffren.Engine.{
  Engine, local_map, register_pending, add_op_to_batch, increment_begins, value_begins,
}
use suffren.Engine.Flusher.{Running, Steps, start, then_step}
use suffren.Engine.Pending.{All-put}
use suffren.Engine.Growing.{AreNamed, increment_begins-Grows, Step-Grows}
use suffren.Engine.Answering.{Justified, IsAnswering}
use suffren.Engine.Answers.{
  AreSafe, learnt_in, incremented, steps-IsAnswering, increment_begins-IsAnswering_first,
  fresh-WaitsLive, nothing_written,
}

-- The local map is below itself, and the channel of the read is empty.
value_begins-IsAnswering_first :
    (learnt : List CounterMap) (s : Engine)
    → IsMap (local_map s)
    → AreNamed s
    → IsAnswering (local_map s) (value_begins s).2 learnt (value_begins s).0
unfolding value_begins register_pending add_op_to_batch
value_begins-IsAnswering_first learnt s d names = record {
  is_map = d;
  floor = Below-refl (local_map s);
  live =
      All-put (λ op. op.done ≡ s.next → op.proposed_value ≡ s.local_counters) s.op_id _ s.pending
        (λ _. refl) (fresh-WaitsLive s.next s.local_counters s.pending names);
  named = omega arith;
  answered = λ x p. absurd (nothing_written s.channels s.next x p);
}

Justified-Below :
    (small large answer : CounterMap) (learnt : List CounterMap)
    → Below small large
    → Justified large answer learnt
    → Justified small answer learnt
Justified-Below small large answer [] below h = h
Justified-Below small large answer (x ∷ xs) below (inl h) =
    inl (Below-trans small large x below h.0, h.1, h.2)
Justified-Below small large answer (x ∷ xs) below (inr h) =
    inr (Justified-Below small large answer xs below h)

-- What both kinds of call need of the state in which they begin.
steps-AreNamed :
    (r r' : Running) (steps : Steps r r')
    → AreSafe steps
    → IsMap (local_map r.engine)
    → AreNamed r.engine
    → IsMap (local_map r'.engine) × AreNamed r'.engine
steps-AreNamed r r' start safe d names = (d, names)
steps-AreNamed r r' (then_step {r' = q} steps step) safe d names =
    let h = steps-AreNamed r q steps safe.0 d names in
    let grown = Step-Grows q r' step safe.1 h.0 h.1 in (grown.is_map, grown.named)

-- Let a ValueForKey begin at a node some time after an IncrementKey of that node began, with any
-- calls, learned values and flushes in between and after it in which no count overflows and learned
-- values are maps. When the channel of the read holds an answer, some value that was learned during
-- the read contains the whole local map with the increment, and the answer and that value contain
-- each other.
pub value_begins-reads_own :
    (s : Engine) (key : String) (value : ℕ) (awake awake' : Bool) (r r' : Running)
    → IsMap (local_map s)
    → AreNamed s
    → count s.node_id (counter_or_new (local_map s) key).counts + value < uint64_mod
    → (before : Steps (record { engine = (increment_begins s key value).0; awake = awake }) r)
    → AreSafe before
    → (during : Steps (record { engine = (value_begins r.engine).0; awake = awake' }) r')
    → AreSafe during
    → (answer : CounterMap) → r'.engine.channels (value_begins r.engine).2 ≡ some answer
    → Justified (incremented s key value) answer (learnt_in during)
value_begins-reads_own s key value awake awake' r r' d names fits before safe during safe' answer
      e =
    let grown = increment_begins-Grows s key value d names fits in
    let now = steps-AreNamed _ r before safe grown.is_map grown.named in
    let written =
      steps-IsAnswering (incremented s key value) _ _ r before safe
        (increment_begins-IsAnswering_first [] s key value d names) in
    Justified-Below (incremented s key value) (local_map r.engine) answer (learnt_in during)
      written.floor
      ((steps-IsAnswering (local_map r.engine) _ _ r' during safe'
          (value_begins-IsAnswering_first [] r.engine now.0 now.1)).answered
        answer e)
