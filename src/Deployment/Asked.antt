-- ===== src/Deployment/Asked.antt =====
-- An increment begins on a node.
use suffren.Base.{
  if_neg, ℕ, ◌+◌, ◌≤◌, ◌<◌, ◌≡◌, refl, subst, some, String, List, ◌∷◌, arith, ite, string_key,
}
use suffren.GoMap.{GoMap}
use suffren.Crdt.GCounter.{NodeId, uint64_mod}
use suffren.Agreement.System.{at_node}
use suffren.Engine.{Engine, local_map, increment_begins}
use suffren.Engine.Flusher.{Running}
use suffren.Engine.Growing.{increment_begins-Grows}
use suffren.Engine.Answering.{IsAnswering, increment_begins-IsAnswering}
use suffren.Engine.Answers.{incremented, increment_begins-IsAnswering_first}
use suffren.Deployment.{Outcome, Deployment}
use suffren.Deployment.Shares.{share, share_mono, share-increment_key, sum_at}
use suffren.Deployment.Told.{at_node-elim, le_via, le_zero_add, next_unused}
use suffren.Deployment.Bounded.{IsBounded, moves-IsBounded}

module _ (key : String) (limit : ℕ) (ns : List NodeId) (peers : GoMap NodeId String) where
  -- An increment begins: a further request.
  pub requests-IsBounded :
      (d : Deployment) (n : NodeId) (value : ℕ)
      → share (local_map (d.engines n).engine) key (d.engines n).engine.node_id + value < uint64_mod
      → IsBounded key limit ns peers d
      → IsBounded key limit ns peers (record d {
        engines =
            at_node n
              (record (d.engines n) {
                engine = (increment_begins (d.engines n).engine key value).0;
              })
              d.engines;
        requests =
            record {
              node = n;
              done = (increment_begins (d.engines n).engine key value).2;
              value = value;
              added = incremented (d.engines n).engine key value;
            }
            ∷ d.requests;
      })
  requests-IsBounded d n value fits h = record {
    system = moved.system;
    known = moved.known;
    is_map = moved.is_map;
    named = moved.named;
    node = moved.node;
    counted =
        at_node-elim
          (λ k r.
            ite (string_key.dec n k) value 0 + sum_at (λ q. q.node) (λ q. q.value) k d.requests
            ≤ share (local_map r.engine) key k)
          n r' d.engines (le_via _ _ _ cover (share_mono _ (local_map r'.engine) key n first.floor))
          (λ k ne. rw (if_neg (string_key.dec n k) ne value 0) (le_zero_add _ _ (h.counted k)));
    covers = (cover, h.covers);
    waiting = (waits, moved.waiting);
    decided = (λ o e. absurd (new o e), moved.decided);
    used = moved.used;
  }
    where
      s : Engine
      s = (d.engines n).engine

      r' : Running
      r' = record (d.engines n) { engine = (increment_begins s key value).0 }

      moved : IsBounded key limit ns peers (record d { engines = at_node n r' d.engines })
      moved =
          moves-IsBounded key limit ns peers d n r'
            (increment_begins-Grows s key value (h.is_map n) (h.named n) fits)
            (λ added c w. increment_begins-IsAnswering added c d.told s key value fits w) h

      first :
          IsAnswering (incremented s key value) (increment_begins s key value).2 d.told r'.engine
      first = increment_begins-IsAnswering_first d.told s key value (h.is_map n) (h.named n)

      waits :
          IsAnswering
            (incremented s key value)
            (increment_begins s key value).2
            d.told
            (at_node n r' d.engines n).engine
      waits =
          at_node-elim
            (λ k r.
              n ≡ k
              → IsAnswering (incremented s key value) (increment_begins s key value).2 d.told
                  r.engine)
            n r' d.engines (λ _. first) (λ k ne e. absurd (ne e)) n refl

      added : share (incremented s key value) key n ≡ share (local_map s) key n + value
      added =
          subst (λ j. share (incremented s key value) key j ≡ share (local_map s) key j + value)
            (h.node n) (share-increment_key (local_map s) key s.node_id value fits)

      cover :
          ite (string_key.dec n n) value 0 + sum_at (λ q. q.node) (λ q. q.value) n d.requests
          ≤ share (incremented s key value) key n
      cover = ground (arith, added, h.counted n)

      new : (o : Outcome) → d.outcomes n (increment_begins s key value).2 ≡ some o → ⊥
      new o e = next_unused s key value (h.used n (increment_begins s key value).2 o e)
