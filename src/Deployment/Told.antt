-- ===== src/Deployment/Told.antt =====
-- What an engine keeps while more values are told, and functions of the nodes.
use suffren.Base.{
  ◌≢◌, ℕ, ◌+◌, ◌≤◌, ◌<◌, ◌==◌, ◌≡◌, refl, sym, subst, ◌⊎◌, inl, inr, Bool-cases, String, List, [],
  ◌∷◌, ◌++◌, All, arith, write, ite, string_key,
}
use suffren.Crdt.GCounter.{NodeId}
use suffren.Crdt.CounterMap.{CounterMap}
use suffren.Crdt.CounterMap.Order.{Below}
use suffren.Agreement.System.{Learned, at_node}
use suffren.Engine.{Engine, increment_begins, value_begins}
use suffren.Engine.Flusher as Engines
use suffren.Engine.Flusher.{Running, increments, reads, ends, learns, ticks, wakes, flushes}
use suffren.Engine.Growing.{IsSafe}
use suffren.Engine.Answering.{Justified, IsAnswering}
use suffren.Engine.Answers.{Step-IsAnswering}
use suffren.Deployment.{IsAsked, Request, IsTold}

pub at_node-elim :
    {A : Type 0} (P : NodeId → A → Type 0) (n : NodeId) (a : A) (f : NodeId → A)
    → P n a
    → ((k : NodeId) → n ≢ k → P k (f k))
    → (k : NodeId) → P k (at_node n a f k)
at_node-elim P n a f new old k = go (string_key.dec n k)
  where
    go : (d : Dec (n ≡ k)) → P k (ite d a (f k))
    go (yes p) = subst (λ j. P j a) p new
    go (no ne) = old k ne

pub le_via : (a b c : ℕ) → a ≤ b → b ≤ c → a ≤ c
le_via a b c p q = omega (arith, p, q)

pub le_zero_add : (a b : ℕ) → a ≤ b → 0 + a ≤ b
le_zero_add a b h = omega (arith, h)

pub lt_via : (a b c : ℕ) → a < b → b ≤ c → a < c
lt_via a b c p q = omega (arith, p, q)

-- More values may have been told.
pub Justified-mono :
    (added answer : CounterMap) (xs ys : List CounterMap)
    → ((x : CounterMap) → Learned x xs → Learned x ys)
    → Justified added answer xs
    → Justified added answer ys
Justified-mono added answer [] ys sub h = absurd h
Justified-mono added answer (x ∷ xs) ys sub (inl h) = one ys (sub x (inl refl))
  where
    one : (ys : List CounterMap) → Learned x ys → Justified added answer ys
    one [] i = absurd i
    one (y ∷ ys) (inl e) =
        inl (subst (λ z. Below added z × Below answer z × Below z answer) (sym e) h)
    one (y ∷ ys) (inr i) = inr (one ys i)
Justified-mono added answer (x ∷ xs) ys sub (inr h) =
    Justified-mono added answer xs ys (λ z i. sub z (inr i)) h

pub IsAnswering-mono :
    (added : CounterMap) (c : ℕ) (xs ys : List CounterMap) (s : Engine)
    → ((x : CounterMap) → Learned x xs → Learned x ys)
    → IsAnswering added c xs s
    → IsAnswering added c ys s
IsAnswering-mono added c xs ys s sub h = record {
  is_map = h.is_map;
  floor = h.floor;
  live = h.live;
  named = h.named;
  answered = λ m e. Justified-mono added m xs ys sub (h.answered m e);
}

pub Learned-append :
    (xs ys : List CounterMap) (x : CounterMap) → Learned x ys → Learned x (xs ++ ys)
Learned-append [] ys x i = i
Learned-append (y ∷ xs) ys x i = inr (Learned-append xs ys x i)

-- A step of one engine, which learns only what has been told.
pub told-IsAnswering :
    (added : CounterMap) (c : ℕ) (values : List CounterMap) (r r' : Running)
    (step : Engines.Step r r')
    → IsTold values step
    → IsSafe step
    → IsAnswering added c values r.engine
    → IsAnswering added c values r'.engine
told-IsAnswering added c values r r' (learns x) i safe h =
    IsAnswering-mono added c (x ∷ values) values r'.engine
      (λ y j. elim j [ inl e ↦ subst (λ z. Learned z values) e i | inr k ↦ k ])
      (Step-IsAnswering added c values r r' (learns x) safe h)
told-IsAnswering added c values r r' (increments k v) i safe h =
    Step-IsAnswering added c values r r' (increments k v) safe h
told-IsAnswering added c values r r' reads i safe h =
    Step-IsAnswering added c values r r' reads safe h
told-IsAnswering added c values r r' (ends o q a k) i safe h =
    Step-IsAnswering added c values r r' (ends o q a k) safe h
told-IsAnswering added c values r r' (ticks a) i safe h =
    Step-IsAnswering added c values r r' (ticks a) safe h
told-IsAnswering added c values r r' (wakes a b) i safe h =
    Step-IsAnswering added c values r r' (wakes a b) safe h
told-IsAnswering added c values r r' (flushes a) i safe h =
    Step-IsAnswering added c values r r' (flushes a) safe h

pub write_cases :
    {A : Type 0} (f : ℕ → A) (a : ℕ) (v : A) (c : ℕ)
    → ((a ≡ c) × (write f a v c ≡ v)) ⊎ (write f a v c ≡ f c)
unfolding write
write_cases f a v c = elim (Bool-cases (a == c)) [
  | inl t ↦ inl (ground arith, rw (t) refl)
  | inr t ↦ inr (rw (t) refl)
]

-- Who is asked for waits at a name that is taken.
pub asked_named :
    (n : NodeId) (done : ℕ) (values : List CounterMap) (engines : NodeId → Running)
    (qs : List Request)
    → IsAsked n done qs
    → All (λ q. IsAnswering q.added q.done values (engines q.node).engine) qs
    → done < (engines n).engine.next
asked_named n done values engines [] i h = absurd i
asked_named n done values engines (q ∷ qs) (inl (at, same)) h =
    subst (λ k. done < (engines k).engine.next) at
      (subst (λ c. c < (engines q.node).engine.next) same h.0.named)
asked_named n done values engines (q ∷ qs) (inr i) h = asked_named n done values engines qs i h.1

pub next_unused :
    (s : Engine) (key : String) (value : ℕ) → (increment_begins s key value).2 < s.next → ⊥
unfolding increment_begins value_begins
next_unused s key value h = omega (arith, h)
