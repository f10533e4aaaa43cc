-- ===== src/Deployment.antt =====
-- The nodes of a cluster together: on each the limiter of internal/limiter over the engine of
-- internal/engine, whose learn callback is fed by the learner of internal/latticeagreement on the
-- same node, as engine.New connects them. The requests are those for one key of the limiter, that is
-- for one identifier, resource and window.
pub mod Shares
pub mod Told
pub mod Bounded
pub mod Asked
pub mod Decided
pub mod Granted
pub mod Top
pub mod Limit
use suffren.Base.{
  ◌⊎◌, ℕ, ◌+◌, ◌<◌, ◌^◌, ◌≡◌, Bool, true, Option, none, some, String, List, [], ◌∷◌, ◌++◌, leb,
  write, ite, string_key, if◌then◌else◌,
}
use suffren.Crdt.GCounter.{NodeId, GCounter, uint64_mod}
use suffren.GoMap.{GoMap, lookup}
use suffren.Crdt.GCounter.Value.{Fits}
use suffren.Crdt.CounterMap.{CounterMap, value_for_key}
use suffren.Crdt.CounterMap.Uniform.{IsUniform}
use suffren.Crdt.CounterMap.Lawful.{counter_map_lattice}
use suffren.Agreement.Learner.Chain.{told}
use suffren.Agreement.System as Agreement
use suffren.Agreement.System.{System, Learned, at_node, hears}
use suffren.Engine.{Engine, local_map, increment_begins, call_ends}
use suffren.Engine.Flusher as Engines
use suffren.Engine.Flusher.{Running, learns}
use suffren.Engine.Growing.{IsSafe}
use suffren.Engine.Answers.{incremented}
use suffren.Limiter.{estimate, is_allowed}
use suffren.Limiter.Environment.{Platform}
use suffren.Deployment.Shares.{share}

-- A request whose increment has begun: where, at which channel it waits, for how much, and the local
-- map with it.
pub record Request : Type 0 where
  pub node : NodeId
  pub done : ℕ
  pub value : ℕ
  pub added : CounterMap

-- What the limiter has made of the answer.
pub record Outcome : Type 0 where
  pub answer : CounterMap
  pub allowed : Bool

-- `told` are the values that learners have passed to learn callbacks, which run in goroutines of their
-- own, `requests` the requests so far, the latest first, and `outcomes` those decided, by node and
-- channel.
pub record Deployment : Type 0 where
  pub system : System CounterMap
  pub told : List CounterMap
  pub engines : NodeId → Running
  pub requests : List Request
  pub outcomes : NodeId → ℕ → Option Outcome

module _ (ns : List NodeId) (peers : GoMap NodeId String) where
  -- What a step of the agreement tells the learn callbacks.
  abbrev pub told_by :
      {s s' : System CounterMap}
      → Agreement.Step counter_map_lattice (IsUniform ns) peers s s'
      → List CounterMap
  told_by (hears n msg x l out _ _ _) = told out
  told_by _ = []

-- A request waits at the channel of the node.
abbrev pub IsAsked : NodeId → ℕ → List Request → Type 0
IsAsked n done [] = ⊥
IsAsked n done (q ∷ qs) = ((q.node ≡ n) × (q.done ≡ done)) ⊎ IsAsked n done qs

-- A learn callback runs with a value that a learner has passed on, at any later time.
abbrev pub IsTold : List CounterMap → {r r' : Running} → Engines.Step r r' → Type 0
IsTold values (learns learned) = Learned learned values
IsTold values _ = Unit

module _ (ns : List NodeId) (peers : GoMap NodeId String) (go : Platform)
    (Within : go.Duration → go.Duration → Type 0) (window : go.Duration) (key : String)
    (limit : ℕ) where
  -- What may happen next, on any node. What proposers propose is any uniform map, of which the map that
  -- a flush gives is one. No count reaches 2^64, and where a request is decided the counts of the two windows
  -- add up to less than 2^63.
  pub data Step (d : Deployment) : Deployment → Type 0 where
    agrees :
        (s' : System CounterMap)
        (step : Agreement.Step counter_map_lattice (IsUniform ns) peers d.system s')
        → Step d (record d { system = s'; told = told_by ns peers step ++ d.told })
    runs :
        (n : NodeId) (r' : Running) (step : Engines.Step (d.engines n) r')
        → IsTold d.told step
        → IsSafe step
        → Step d (record d { engines = at_node n r' d.engines })
    requests :
        (n : NodeId) (value : ℕ)
        → share (local_map (d.engines n).engine) key (d.engines n).engine.node_id + value
          < uint64_mod
        → Step d (record d {
          engines =
              at_node n
                (record (d.engines n) {
                  engine = (increment_begins (d.engines n).engine key value).0;
                })
                d.engines;
          requests =
              record {
                node = n;
                done = (increment_begins (d.engines n).engine key value).2;
                value = value;
                added = incremented (d.engines n).engine key value;
              }
              ∷ d.requests;
        })
    decides :
        (n : NodeId) (op_id done : ℕ) (answer : CounterMap) (spent : go.Duration) (prev_count : ℕ)
        → IsAsked n done d.requests
        → (d.engines n).engine.channels done ≡ some answer
        → Within spent window
        → ((g : GCounter) → lookup key answer.counters ≡ some g → Fits g)
        → prev_count + value_for_key answer key < 2 ^ 63
        → Step d (record d {
          engines =
              at_node n
                (record (d.engines n) {
                  engine = (call_ends (d.engines n).engine op_id done true key).0;
                })
                d.engines;
          outcomes =
              at_node n
                (write (d.outcomes n) done (
                  some (record {
                    answer = answer;
                    allowed =
                        is_allowed
                          (estimate go spent prev_count (value_for_key answer key) window)
                          limit;
                  })))
                d.outcomes;
        })

  pub data Steps (d : Deployment) : Deployment → Type 0 where
    begin : Steps d d
    then_step : {d' d'' : Deployment} → Steps d d' → Step d' d'' → Steps d d''

-- What the requests that the limiters have allowed ask for in all.
abbrev pub granted_value : Option Outcome → ℕ → ℕ
granted_value none value = 0
granted_value (some o) value = if o.allowed then value else 0

abbrev pub granted_by : Deployment → Request → ℕ
granted_by d q = granted_value (d.outcomes q.node q.done) q.value
