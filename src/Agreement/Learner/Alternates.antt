-- ===== src/Agreement/Learner/Alternates.antt =====
-- A learner of counter maps whose counters name different nodes: its test of growth breaks no loop.
use suffren.Base.{
  and-true, not, ap, Bool-cases, inl, inr, ◌∙◌, ℕ, zero, suc, ◌≡◌, refl, subst, sym, true, none,
  some, String, List, [], ◌∷◌, ◌++◌, string_key,
}
use suffren.Base.Result.{ok}
use suffren.GoMap.{lookup}
use suffren.Crdt.GCounter
use suffren.Crdt.GCounter.{GCounter, NodeId}
use suffren.Crdt.CounterMap as Counters
use suffren.Crdt.CounterMap.{CounterMap}
use suffren.Crdt.CounterMap.Lawful.{counter_map_lattice}
use suffren.Crdt.CounterMap.Zero.{single, with_zero, strictly_is_in-loop}
use suffren.Protocol.{Message, message, learn}
use suffren.Agreement.Output.{Output, broadcast_to_others}
use suffren.Agreement.Learner.Chain.{passed_on}
use suffren.Agreement.Learner.{Learner, notify, handle_all}

-- A learner with the learned value `x`.
abbrev pub at : Learner CounterMap → CounterMap → Learner CounterMap
at l x = record l { learned_value = x }

abbrev out_of : Learner CounterMap → CounterMap → List (Output CounterMap)
out_of l x = broadcast_to_others (message l.node_id learn (some x)) l.node_id ∷ notify (at l x)

strictly-is_in : (x y : CounterMap) → Counters.strictly_is_in x y ≡ true → Counters.is_in x y ≡ true
unfolding Counters.strictly_is_in
strictly-is_in x y e = (and-true (Counters.is_in x y) (not (Counters.equals x y)) e).0

passed_on-out_of :
    (l : Learner CounterMap) (x : CounterMap) (rest : List (Output CounterMap))
    → passed_on (out_of l x ++ rest) ≡ x ∷ passed_on rest
unfolding notify
passed_on-out_of l x rest = elim (Bool-cases l.has_callback) [
  | inl t ↦ rw (t) refl
  | inr t ↦ rw (t) refl
]

-- The handling of a LEARN before others.
handle_all-grown :
    (l l' : Learner CounterMap) (sender : NodeId) (x y : CounterMap)
    (msgs : List (Message CounterMap)) (outs : List (Output CounterMap))
    → Counters.strictly_is_in x y ≡ true
    → handle_all counter_map_lattice (at l y) msgs ≡ ok (l', outs)
    → handle_all counter_map_lattice (at l x) (message sender learn (some y) ∷ msgs)
      ≡ ok (l', out_of l y ++ outs)
unfolding handle_all
handle_all-grown l l' sender x y msgs outs e rest = rw (strictly-is_in x y e, e, rest) refl

module _ (a b : NodeId) (x y : CounterMap) where
  -- LEARNs of the one and of the other value in turn, from two peers.
  abbrev pub in_turn : ℕ → List (Message CounterMap)
  in_turn zero = []
  in_turn (suc k) = message a learn (some y) ∷ message b learn (some x) ∷ in_turn k

  abbrev pub values_in_turn : ℕ → List CounterMap
  values_in_turn zero = []
  values_in_turn (suc k) = y ∷ x ∷ values_in_turn k

  handle_all-in_turn :
      (l : Learner CounterMap) (k : ℕ)
      → Counters.strictly_is_in x y ≡ true
      → Counters.strictly_is_in y x ≡ true
      → (out : List (Output CounterMap)) × (handle_all counter_map_lattice (at l x) (in_turn k)
          ≡ ok (at l x, out))
        × (passed_on out ≡ values_in_turn k)
  unfolding handle_all
  handle_all-in_turn l zero up down = ([], refl, refl)
  handle_all-in_turn l (suc k) up down =
      let (out, rest, passed) = handle_all-in_turn l k up down in
      (
        out_of l y ++ (out_of l x ++ out),
        handle_all-grown l (at l x) a x y (message b learn (some x) ∷ in_turn k) (out_of l x ++ out)
            up (handle_all-grown l (at l x) b y x (in_turn k) out down rest),
        passed_on-out_of l y (out_of l x ++ out)
            ∙ ap (λ xs. y ∷ xs) (passed_on-out_of l x out ∙ ap (λ xs. x ∷ xs) passed),
      )

-- Take two maps of one key, without `nodeIds`, whose counters differ only in a node that is at 0 in one
-- and missing in the other. A learner that holds the one without the node and gets LEARNs of the other and
-- of its own in turn, from two peers and for any number of rounds, does not panic, broadcasts again every
-- single one of them, in order, and then holds the value that it began with.
pub handle_all-alternates :
    (l : Learner CounterMap) (a b : NodeId) (k : ℕ) (key : String) (n : NodeId) (g : GCounter)
    → GCounter.IsMap g
    → lookup n g.counts ≡ none
    → l.learned_value ≡ single key g
    → (out : List (Output CounterMap)) × (handle_all counter_map_lattice l
          (in_turn a b (single key g) (single key (with_zero n g)) k)
        ≡ ok (l, out))
      × (passed_on out ≡ values_in_turn a b (single key g) (single key (with_zero n g)) k)
handle_all-alternates l a b k key n g d absent e =
    let (up, down) = strictly_is_in-loop key n g d absent in
    subst
      (λ x.
        (out : List (Output CounterMap)) × (handle_all counter_map_lattice (at l x)
            (in_turn a b (single key g) (single key (with_zero n g)) k)
          ≡ ok (at l x, out))
        × (passed_on out ≡ values_in_turn a b (single key g) (single key (with_zero n g)) k))
      (sym e) (handle_all-in_turn a b (single key g) (single key (with_zero n g)) l k up down)
