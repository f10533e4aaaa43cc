-- ===== src/Deployment/Decided.antt =====
-- The limiter of a node decides.
use suffren.Base.{
  ℕ, ◌≤◌, ◌<◌, ◌≡◌, refl, sym, subst, ◌∙◌, inl, inr, Bool, true, some, some_unique, String, List,
  [], ◌∷◌, All, write, string_key,
}
use suffren.GoMap.{GoMap, lookup}
use suffren.Crdt.GCounter.{NodeId, GCounter}
use suffren.Crdt.GCounter.Value.{Fits}
use suffren.Crdt.CounterMap.{CounterMap, value_for_key}
use suffren.Agreement.System.{at_node}
use suffren.Engine.{Engine, call_ends}
use suffren.Engine.Flusher.{Running}
use suffren.Engine.Growing.{call_ends-Grows}
use suffren.Engine.Answering.{IsAnswering, call_ends-IsAnswering}
use suffren.Deployment.{IsAsked, Request, Outcome, Deployment}
use suffren.Deployment.Told.{at_node-elim, write_cases, asked_named}
use suffren.Deployment.Bounded.{IsGranted, IsBounded, moves-IsBounded}

module _ (key : String) (limit : ℕ) (ns : List NodeId) (peers : GoMap NodeId String) where
  -- The limiter of a node decides a request that has its answer.
  pub decides-IsBounded :
      (d : Deployment) (n : NodeId) (op_id done : ℕ) (answer : CounterMap) (allowed : Bool)
      → IsAsked n done d.requests
      → (d.engines n).engine.channels done ≡ some answer
      → ((g : GCounter) → lookup key answer.counters ≡ some g → Fits g)
      → (allowed ≡ true → value_for_key answer key ≤ limit)
      → IsBounded key limit ns peers d
      → IsBounded key limit ns peers (record d {
        engines =
            at_node n
              (record (d.engines n) {
                engine = (call_ends (d.engines n).engine op_id done true key).0;
              })
              d.engines;
        outcomes =
            at_node n
              (write (d.outcomes n) done (some (record { answer = answer; allowed = allowed })))
              d.outcomes;
      })
  decides-IsBounded d n op_id done answer allowed asked full fits within h = record {
    system = moved.system;
    known = moved.known;
    is_map = moved.is_map;
    named = moved.named;
    node = moved.node;
    counted = moved.counted;
    covers = moved.covers;
    waiting = moved.waiting;
    decided = all d.requests h.waiting h.decided;
    used =
        at_node-elim
          (λ k f. (c : ℕ) (o : Outcome) → f c ≡ some o → c < (at_node n r' d.engines k).engine.next)
          n (write (d.outcomes n) done (some o')) d.outcomes used_here (λ k _. moved.used k);
  }
    where
      s : Engine
      s = (d.engines n).engine

      r' : Running
      r' = record (d.engines n) { engine = (call_ends s op_id done true key).0 }

      moved : IsBounded key limit ns peers (record d { engines = at_node n r' d.engines })
      moved =
          moves-IsBounded key limit ns peers d n r'
            (call_ends-Grows s (h.is_map n) (h.named n) op_id done true key)
            (λ added c w. call_ends-IsAnswering added c d.told s op_id done true key w) h

      o' : Outcome
      o' = record { answer = answer; allowed = allowed }

      one :
          (q : Request)
          → IsAnswering q.added q.done d.told (d.engines q.node).engine
          → ((o : Outcome) → d.outcomes q.node q.done ≡ some o → IsGranted key limit d.told q o)
          → (o : Outcome)
          → at_node n (write (d.outcomes n) done (some o')) d.outcomes q.node q.done ≡ some o
          → IsGranted key limit d.told q o
      one q w old o =
          at_node-elim (λ k f. k ≡ q.node → f q.done ≡ some o → IsGranted key limit d.told q o) n
            (write (d.outcomes n) done (some o')) d.outcomes here
            (λ k _ at e. old o (subst (λ j. d.outcomes j q.done ≡ some o) at e)) q.node refl
        where
          here :
              n ≡ q.node
              → write (d.outcomes n) done (some o') q.done ≡ some o
              → IsGranted key limit d.told q o
          here at e = elim (write_cases (d.outcomes n) done (some o') q.done) [
            | inr same ↦ old o (subst (λ j. d.outcomes j q.done ≡ some o) at (sym same ∙ e))
            | inl (same, put) ↦
                subst (IsGranted key limit d.told q) (some_unique _ o' o put e) (λ yes_. (
                  w.answered answer (
                      subst (λ j. (d.engines j).engine.channels q.done ≡ some answer) at
                        (subst (λ c. s.channels c ≡ some answer) same full)),
                  within yes_,
                  fits,
                ))
          ]

      all :
          (qs : List Request)
          → All (λ q. IsAnswering q.added q.done d.told (d.engines q.node).engine) qs
          → All
              (λ q.
                (o : Outcome) → d.outcomes q.node q.done ≡ some o → IsGranted key limit d.told q o)
              qs
          → All
              (λ q.
                (o : Outcome)
                → at_node n (write (d.outcomes n) done (some o')) d.outcomes q.node q.done ≡ some o
                → IsGranted key limit d.told q o)
              qs
      all [] w g = tt
      all (q ∷ qs) w g = (one q w.0 g.0, all qs w.1 g.1)

      used_here :
          (c : ℕ) (o : Outcome)
          → write (d.outcomes n) done (some o') c ≡ some o
          → c < (at_node n r' d.engines n).engine.next
      used_here c o e = elim (write_cases (d.outcomes n) done (some o') c) [
        | inr same ↦ moved.used n c o (sym same ∙ e)
        | inl (same, put) ↦
            subst (λ k. k < (at_node n r' d.engines n).engine.next) same
              (asked_named n done d.told (at_node n r' d.engines) d.requests asked moved.waiting)
      ]
