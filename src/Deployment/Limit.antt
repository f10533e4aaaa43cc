-- ===== src/Deployment/Limit.antt =====
-- A deployment never admits more than its limit in one window.
use suffren.Base.{
  ℕ, ◌≤◌, ◌<◌, ◌^◌, ◌≡◌, ◌⊎◌, inl, inr, Option, none, some, String, List, [], All-map, arith, leb,
  string_key,
}
use suffren.GoMap.{GoMap, Distinct}
use suffren.Crdt.GCounter.{NodeId}
use suffren.Crdt.CounterMap.{CounterMap, IsMap, value_for_key}
use suffren.Crdt.CounterMap.Order.{Below, Below-trans}
use suffren.Crdt.CounterMap.Uniform.{IsUniform}
use suffren.Crdt.CounterMap.Lawful.{counter_map_lattice, counter_map-IsLattice}
use suffren.Agreement.System.{Learned}
use suffren.Agreement.System.Heard.{IsKnown, All-Learned}
use suffren.Agreement.System.InOrder.{IsInOrder}
use suffren.Agreement.System.Learners.{known-comparable}
use suffren.Engine.{local_map}
use suffren.Engine.Growing.{AreNamed, Step-Grows}
use suffren.Limiter.{estimate}
use suffren.Limiter.Environment.{Platform}
use suffren.Limiter.Estimate.{IsFloat64, count-le-limit}
use suffren.Deployment.{
  Request, Outcome, Deployment, Step, agrees, runs, requests, decides, Steps, begin, then_step,
  granted_by,
}
use suffren.Deployment.Shares.{sum_all}
use suffren.Deployment.Bounded.{IsBounded, agrees-IsBounded, moves-IsBounded}
use suffren.Deployment.Told.{told-IsAnswering}
use suffren.Deployment.Asked.{requests-IsBounded}
use suffren.Deployment.Decided.{decides-IsBounded}
use suffren.Deployment.Granted.{IsCounted, granted-le-value}
use suffren.Deployment.Top.{top, sum-of_zeros}

module _ (ns : List NodeId) (peers : GoMap NodeId String) (key : String) (limit : ℕ) where
  bounded-le :
      (d : Deployment)
      → Distinct peers
      → IsBounded key limit ns peers d
      → sum_all (λ q. q.node) (granted_by d) d.requests ≤ limit
  bounded-le d distinct h = elim (top key d limit d.requests chain h.decided) [
    | inl none_ ↦ omega (arith, sum-of_zeros key d d.requests none_)
    | inr t ↦
        le_via4
          (granted-le-value key d t.answer d.requests h.covers
            (All-map (λ q c. raise q t.learned t.answer t.below c) d.requests t.all) t.fits)
          t.within
  ]
    where
      le_via4 : {a b c : ℕ} → a ≤ b → b ≤ c → a ≤ c
      le_via4 p q = omega (arith, p, q)

      raise :
          (q : Request) (x y : CounterMap) → Below x y → IsCounted key d x q → IsCounted key d y q
      raise q x y up (inl e) = inl e
      raise q x y up (inr b) = inr (Below-trans q.added x y b up)

      chain : (v w : CounterMap) → Learned v d.told → Learned w d.told → Below v w ⊎ Below w v
      chain v w i j =
          known-comparable counter_map_lattice (IsUniform ns) Below (counter_map-IsLattice ns) peers
            d.system distinct h.system v w
            (All-Learned (IsKnown Below d.system.learned) v d.told i h.known)
            (All-Learned (IsKnown Below d.system.learned) w d.told j h.known)

  module _ (go : Platform) (Within : go.Duration → go.Duration → Type 0) (window : go.Duration)
      (floats : IsFloat64 go Within) (small : limit < 2 ^ 53) where
    Step-IsBounded :
        (d d' : Deployment)
        → Step ns peers go Within window key limit d d'
        → IsBounded key limit ns peers d
        → IsBounded key limit ns peers d'
    Step-IsBounded d d' (agrees s' step) h = agrees-IsBounded key limit ns peers d s' step h
    Step-IsBounded d d' (runs n r' step told safe) h =
        moves-IsBounded key limit ns peers d n r'
          (Step-Grows (d.engines n) r' step safe (h.is_map n) (h.named n))
          (λ added c w. told-IsAnswering added c d.told (d.engines n) r' step told safe w) h
    Step-IsBounded d d' (requests n value fits) h =
        requests-IsBounded key limit ns peers d n value fits h
    Step-IsBounded d d' (decides n op_id done answer spent prev_count asked full w fits range) h =
        decides-IsBounded key limit ns peers d n op_id done answer
          (leb (estimate go spent prev_count (value_for_key answer key) window) limit) asked full
          fits
          (count-le-limit go Within floats spent window prev_count (value_for_key answer key) limit
            w range small)
          h

    steps-IsBounded :
        (d d' : Deployment)
        → Steps ns peers go Within window key limit d d'
        → IsBounded key limit ns peers d
        → IsBounded key limit ns peers d'
    steps-IsBounded d d' begin h = h
    steps-IsBounded d d'' (then_step {d' = d'} steps step) h =
        Step-IsBounded d' d'' step (steps-IsBounded d d' steps h)

    -- At the start the cluster is in order, each engine has the map of its node, and nothing has been
    -- told, asked or decided.
    pub record IsFresh (d : Deployment) : Type 0 where
      pub system :
          IsInOrder counter_map_lattice
            (IsUniform ns)
            Below
            (counter_map-IsLattice ns)
            peers
            d.system
      pub is_map : (n : NodeId) → IsMap (local_map (d.engines n).engine)
      pub named : (n : NodeId) → AreNamed (d.engines n).engine
      pub node : (n : NodeId) → (d.engines n).engine.node_id ≡ n
      pub told : d.told ≡ []
      pub requests : d.requests ≡ []
      pub outcomes : (n : NodeId) (c : ℕ) → d.outcomes n c ≡ none

    fresh-IsBounded : (d : Deployment) → IsFresh d → IsBounded key limit ns peers d
    fresh-IsBounded d h = record {
      system = h.system;
      known = rw (h.told) tt;
      is_map = h.is_map;
      named = h.named;
      node = h.node;
      counted = λ n. rw (h.requests) (omega arith);
      covers = rw (h.requests) tt;
      waiting = rw (h.requests) tt;
      decided = rw (h.requests) tt;
      used = λ n c o e. absurd (unused _ o (h.outcomes n c) e);
    }
      where
        unused : (x : Option Outcome) (o : Outcome) → x ≡ none → x ≡ some o → ⊥
        unused x o p q = cc

    -- From a fresh start, however the requests of a window, their answers, the flushers, the messages
    -- of the agreement and the learn callbacks are interleaved on the nodes: the requests that the
    -- limiters have allowed ask for no more than the limit in all. The conditions are those of
    -- `learned-comparable` on ACKs and proposed maps, counts that do not overflow, sums of the counts of
    -- two windows below 2^63, and a limit below 2^53.
    pub granted-le-limit :
        (d d' : Deployment)
        → Distinct peers
        → IsFresh d
        → Steps ns peers go Within window key limit d d'
        → sum_all (λ q. q.node) (granted_by d') d'.requests ≤ limit
    granted-le-limit d d' distinct fresh steps =
        bounded-le d' distinct (steps-IsBounded d d' steps (fresh-IsBounded d fresh))
