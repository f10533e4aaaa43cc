-- ===== src/Deployment/Bounded.antt =====
-- What every step of a deployment keeps: the requests of each node are in its count, and an answer is
-- a value that the nodes agree on.
use suffren.Base.{
  ℕ, ◌≤◌, ◌<◌, ◌≡◌, ◌∙◌, true, some, String, List, [], ◌∷◌, ◌++◌, All, All-map, All-append,
  string_key,
}
use suffren.GoMap.{GoMap, lookup}
use suffren.Crdt.GCounter.{NodeId, GCounter}
use suffren.Crdt.GCounter.Value.{Fits}
use suffren.Crdt.CounterMap.{CounterMap, IsMap, value_for_key}
use suffren.Crdt.CounterMap.Order.{Below}
use suffren.Crdt.CounterMap.Uniform.{IsUniform}
use suffren.Crdt.CounterMap.Lawful.{counter_map_lattice, counter_map-IsLattice}
use suffren.Agreement.System as Agreement
use suffren.Agreement.System.{
  System, Learned, at_node, delivers, proposes, counts_ack, gets_nack, hears,
}
use suffren.Agreement.System.Heard.{IsKnown}
use suffren.Agreement.System.InOrder.{IsInOrder, Step-IsInOrder}
use suffren.Agreement.System.Learners.{Step-IsKnown, told-IsKnown}
use suffren.Engine.{local_map}
use suffren.Engine.Flusher.{Running}
use suffren.Engine.Growing.{AreNamed, Grows}
use suffren.Engine.Answering.{Justified, IsAnswering}
use suffren.Deployment.{Request, Outcome, Deployment, told_by}
use suffren.Deployment.Shares.{share, share_mono, sum_at}
use suffren.Deployment.Told.{
  at_node-elim, le_via, lt_via, Justified-mono, IsAnswering-mono, Learned-append,
}

module _ (key : String) where
  -- The local map with an increment counts all requests of its node up to that one.
  abbrev pub Covers : List Request → Type 0
  Covers [] = Unit
  Covers (q ∷ qs) =
      (sum_at (λ q. q.node) (λ q. q.value) q.node (q ∷ qs) ≤ share q.added key q.node) × Covers qs

module _ (key : String) (limit : ℕ) where
  -- What holds of a request that is allowed.
  abbrev pub IsGranted : List CounterMap → Request → Outcome → Type 0
  IsGranted values q o =
      o.allowed ≡ true
      → Justified q.added o.answer values
        × (value_for_key o.answer key ≤ limit)
        × ((g : GCounter) → lookup key o.answer.counters ≡ some g → Fits g)

  module _ (ns : List NodeId) (peers : GoMap NodeId String) where
    pub record IsBounded (d : Deployment) : Type 0 where
      pub system :
          IsInOrder counter_map_lattice
            (IsUniform ns)
            Below
            (counter_map-IsLattice ns)
            peers
            d.system
      pub known : All (IsKnown Below d.system.learned) d.told
      pub is_map : (n : NodeId) → IsMap (local_map (d.engines n).engine)
      pub named : (n : NodeId) → AreNamed (d.engines n).engine
      pub node : (n : NodeId) → (d.engines n).engine.node_id ≡ n
      pub counted :
          (n : NodeId)
          → sum_at (λ q. q.node) (λ q. q.value) n d.requests
            ≤ share (local_map (d.engines n).engine) key n
      pub covers : Covers key d.requests
      pub waiting :
          All (λ q. IsAnswering q.added q.done d.told (d.engines q.node).engine) d.requests
      pub decided :
          All
            (λ q. (o : Outcome) → d.outcomes q.node q.done ≡ some o → IsGranted d.told q o)
            d.requests
      pub used :
          (n : NodeId) (c : ℕ) (o : Outcome)
          → d.outcomes n c ≡ some o
          → c < (d.engines n).engine.next

    pub agrees-IsBounded :
        (d : Deployment) (s' : System CounterMap)
        (step : Agreement.Step counter_map_lattice (IsUniform ns) peers d.system s')
        → IsBounded d
        → IsBounded (record d { system = s'; told = told_by ns peers step ++ d.told })
    agrees-IsBounded d s' step h = record {
      system =
          Step-IsInOrder counter_map_lattice (IsUniform ns) Below (counter_map-IsLattice ns) peers
            d.system s' step h.system;
      known = All-append _ (told_by ns peers step) d.told (heard step) (
          All-map
            (Step-IsKnown counter_map_lattice (IsUniform ns) Below (counter_map-IsLattice ns) peers
              d.system s' step)
            d.told h.known);
      is_map = h.is_map;
      named = h.named;
      node = h.node;
      counted = h.counted;
      covers = h.covers;
      waiting = All-map (λ q. IsAnswering-mono q.added q.done d.told _ _ more) d.requests h.waiting;
      decided =
          All-map
            (λ q g o e allowed.
              let (j, within, fits) = g o e allowed in
              (Justified-mono q.added o.answer d.told _ more j, within, fits))
            d.requests h.decided;
      used = h.used;
    }
      where
        more : (x : CounterMap) → Learned x d.told → Learned x (told_by ns peers step ++ d.told)
        more = Learned-append (told_by ns peers step) d.told

        heard :
            {t : System CounterMap}
            (step : Agreement.Step counter_map_lattice (IsUniform ns) peers d.system t)
            → All (IsKnown Below t.learned) (told_by ns peers step)
        heard (hears n msg x l out e i run) =
            told-IsKnown counter_map_lattice (IsUniform ns) Below (counter_map-IsLattice ns) peers
              d.system n msg x l out h.system e i run
        heard (delivers _ _ _) = tt
        heard (proposes _ _ _) = tt
        heard (counts_ack _ _ _ _ _ _ _ _ _ _ _ _) = tt
        heard (gets_nack _ _ _ _ _ _ _ _) = tt

    -- A step of one engine.
    pub moves-IsBounded :
        (d : Deployment) (n : NodeId) (r' : Running)
        → Grows (d.engines n).engine r'.engine
        → ((added : CounterMap) (c : ℕ)
            → IsAnswering added c d.told (d.engines n).engine
            → IsAnswering added c d.told r'.engine)
        → IsBounded d
        → IsBounded (record d { engines = at_node n r' d.engines })
    moves-IsBounded d n r' grown keeps h = record {
      system = h.system;
      known = h.known;
      is_map =
          at_node-elim (λ k r. IsMap (local_map r.engine)) n r' d.engines grown.is_map
            (λ k _. h.is_map k);
      named = at_node-elim (λ k r. AreNamed r.engine) n r' d.engines grown.named (λ k _. h.named k);
      node =
          at_node-elim (λ k r. r.engine.node_id ≡ k) n r' d.engines (grown.node ∙ h.node n)
            (λ k _. h.node k);
      counted =
          at_node-elim
            (λ k r.
              sum_at (λ q. q.node) (λ q. q.value) k d.requests ≤ share (local_map r.engine) key k)
            n r' d.engines
            (le_via _ _ _ (h.counted n) (share_mono _ (local_map r'.engine) key n grown.below))
            (λ k _. h.counted k);
      covers = h.covers;
      waiting =
          All-map
            (λ q.
              at_node-elim
                (λ k r.
                  IsAnswering q.added q.done d.told (d.engines k).engine
                  → IsAnswering q.added q.done d.told r.engine)
                n r' d.engines (keeps q.added q.done) (λ k _ w. w) q.node)
            d.requests h.waiting;
      decided = h.decided;
      used =
          at_node-elim (λ k r. (c : ℕ) (o : Outcome) → d.outcomes k c ≡ some o → c < r.engine.next)
            n r' d.engines (λ c o e. lt_via _ _ _ (h.used n c o e) grown.next) (λ k _. h.used k);
    }
