-- ===== src/Engine/Unanswered.antt =====
-- An increment whose answer is held back by a later increment of another caller, since what a pending
-- operation has proposed is the live local map.
use suffren.Base.{
  ℕ, ◌+◌, ◌<◌, ◌≤◌, write, ◌≡◌, sym, subst, inl, inr, Bool, true, none, String, [], arith,
  string_key,
}
use suffren.Crdt.GCounter
use suffren.Crdt.GCounter.{NodeId, count, uint64_mod}
use suffren.Crdt.GCounter.Value.{count-increment}
use suffren.Crdt.CounterMap as Counters
use suffren.Crdt.CounterMap.{CounterMap, IsMap, counter_or_new, increment_key}
use suffren.Crdt.CounterMap.Order.{Below, Below-trans, is_in_iff}
use suffren.Crdt.CounterMap.Keys.{lookup-increment_key, counter_or_new-some}
use suffren.Crdt.CounterMap.Bound.{merge_in_place-IsLeast, merge_in_place-IsMap}
use suffren.Engine.{
  Engine, local_map, register_pending, add_op_to_batch, increment_begins, value_begins, on_learn,
}
use suffren.Engine.Learning.{merged, on_learn-at}
use suffren.Engine.Committed.{WaitsLive, written, Served-learned}
use suffren.Engine.Growing.{AreNamed}
use suffren.Engine.Answering.{increment_begins-IsAnswering}
use suffren.Engine.Flusher.{Running, Steps}
use suffren.Engine.Answers.{
  AreSafe, incremented, steps-IsAnswering, increment_begins-IsAnswering_first,
}

-- A map with an increment is not below one that has counted no more for the node than the map did.
increment_key-above :
    (cm learned : CounterMap) (key : String) (n : NodeId) (v : ℕ)
    → 0 < v
    → count n (counter_or_new cm key).counts + v < uint64_mod
    → count n (counter_or_new learned key).counts ≤ count n (counter_or_new cm key).counts
    → ¬ Below (increment_key cm key n v) learned
increment_key-above cm learned key n v pos fits unseen below =
    let (h, found, le) =
      below key (GCounter.increment (counter_or_new cm key) n v)
        (ground (arith, lookup-increment_key cm key key n v)) in
    ground (
      arith,
      pos,
      fits,
      le n,
      count-increment (counter_or_new cm key) n n v,
      subst (λ g. count n g.counts ≤ count n (counter_or_new cm key).counts)
          (counter_or_new-some learned key h found) unseen,
    )

-- A learned value that the live local map is not below answers nobody who waits for that map.
on_learn-silent :
    (s : Engine) (learned : CounterMap) (c : ℕ)
    → IsMap (local_map s)
    → IsMap learned
    → WaitsLive s c
    → s.channels c ≡ none
    → ¬ Below (local_map s) learned
    → (on_learn s learned).channels c ≡ none
on_learn-silent s learned c d e live empty above =
    let m = Counters.merge_in_place (local_map s) learned in
    elim (on_learn-at s learned c empty) [
      | inl silent ↦ silent
      | inr (served, _) ↦
          let contained =
            (is_in_iff m learned (merge_in_place-IsMap (local_map s) learned d e) e).0 (
              subst (λ x. Counters.is_in x learned ≡ true) (written s.maps s.local_counters m)
                (Served-learned s (merged s learned) learned c s.pending live served)) in
          absurd (
            above (
              Below-trans (local_map s) m learned
                (merge_in_place-IsLeast (local_map s) learned learned e).0 contained))
    ]

increment_begins-empty :
    (s : Engine) (key : String) (value c : ℕ)
    → s.channels c ≡ none
    → (increment_begins s key value).0.channels c ≡ none
unfolding increment_begins value_begins register_pending add_op_to_batch write
increment_begins-empty s key value c e = ground (arith, e)

increment_begins-local :
    (s : Engine) (key : String) (value : ℕ)
    → local_map (increment_begins s key value).0 ≡ incremented s key value
unfolding increment_begins value_begins register_pending add_op_to_batch
increment_begins-local s key value = written s.maps s.local_counters (incremented s key value)

-- Let IncrementKey begin, and calls begin and end, values be learned and the flusher run in any
-- interleaving in which no count overflows and learned values are maps, with its channel still empty.
-- Then let another IncrementKey of the node, by more than 0 and without overflow, begin. A
-- learned map that has counted no more for this node under the other key than it had itself before
-- leaves the channel empty, also when the map contains the first increment.
pub on_learn-blocks :
    (s : Engine) (key other : String) (value more : ℕ) (awake : Bool) (r : Running)
    (learned : CounterMap)
    → IsMap (local_map s)
    → AreNamed s
    → (steps : Steps (record { engine = (increment_begins s key value).0; awake = awake }) r)
    → AreSafe steps
    → r.engine.channels (increment_begins s key value).2 ≡ none
    → 0 < more
    → count r.engine.node_id (counter_or_new (local_map r.engine) other).counts + more < uint64_mod
    → IsMap learned
    → count r.engine.node_id (counter_or_new learned other).counts
      ≤ count r.engine.node_id (counter_or_new (local_map r.engine) other).counts
    → (on_learn (increment_begins r.engine other more).0 learned).channels
        (increment_begins s key value).2
      ≡ none
on_learn-blocks s key other value more awake r learned d names steps safe empty pos fits valid
      unseen =
    let c = (increment_begins s key value).2 in
    let h =
      steps-IsAnswering (incremented s key value) c _ r steps safe
        (increment_begins-IsAnswering_first [] s key value d names) in
    let next =
      increment_begins-IsAnswering (incremented s key value) c _ r.engine other more fits h in
    on_learn-silent (increment_begins r.engine other more).0 learned c next.is_map valid next.live
      (increment_begins-empty r.engine other more c empty)
      (subst (λ m. ¬ Below m learned) (sym (increment_begins-local r.engine other more))
        (increment_key-above (local_map r.engine) learned other r.engine.node_id more pos fits
          unseen))
