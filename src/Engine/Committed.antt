-- ===== src/Engine/Committed.antt =====
-- What a call of the engine is answered with: the learned value, which contains what the call has
-- added.
use suffren.Base.{
  ℕ, write, ◌≡◌, sym, ap, subst, ◌∙◌, inl, inr, true, none, some, some_unique, [], ◌∷◌, All, arith,
}
use suffren.GoMap.{GoMap}
use suffren.Crdt.CounterMap as Counters
use suffren.Crdt.CounterMap.{CounterMap, IsMap}
use suffren.Crdt.CounterMap.Order.{Below, Below-trans, is_in_iff}
use suffren.Crdt.CounterMap.Bound.{merge_in_place-IsLeast, merge_in_place-IsMap, copy-Below}
use suffren.Engine.{Engine, PendingOp, local_map, on_learn}
use suffren.Engine.Learning.{merged, Served, on_learn-at, not_both}

-- Who waits at the channel `c` has registered the live local map.
abbrev pub WaitsLive : Engine → ℕ → Type 0
WaitsLive s c = All (λ op. op.1.done ≡ c → op.1.proposed_value ≡ s.local_counters) s.pending

pub written : (f : ℕ → CounterMap) (a : ℕ) (m : CounterMap) → write f a m a ≡ m
unfolding write
written f a m = ground arith

pub Served-learned :
    (s t : Engine) (learned : CounterMap) (c : ℕ) (ops : GoMap ℕ PendingOp)
    → All (λ op. op.1.done ≡ c → op.1.proposed_value ≡ s.local_counters) ops
    → Served t learned c ops
    → Counters.is_in (t.maps s.local_counters) learned ≡ true
Served-learned s t learned c [] live h = absurd h
Served-learned s t learned c ((i, op) ∷ ops) live (inl (e, h)) =
    subst (λ a. Counters.is_in (t.maps a) learned ≡ true) (live.0 e) h
Served-learned s t learned c ((i, op) ∷ ops) live (inr h) =
    Served-learned s t learned c ops live.1 h

-- When the learn callback puts an answer into a channel that was empty, at which only the live local
-- map is waited for, the answer and the learned value contain each other, and all that the local map
-- held before.
pub on_learn-commits :
    (s : Engine) (learned answer added : CounterMap) (c : ℕ)
    → IsMap (local_map s)
    → IsMap learned
    → Below added (local_map s)
    → WaitsLive s c
    → s.channels c ≡ none
    → (on_learn s learned).channels c ≡ some answer
    → Below added learned × Below answer learned × Below learned answer
on_learn-commits s learned answer added c d e below live empty put =
    let m = Counters.merge_in_place (local_map s) learned in
    let least = merge_in_place-IsLeast (local_map s) learned learned e in
    let m-IsMap = merge_in_place-IsMap (local_map s) learned d e in
    let same = written s.maps s.local_counters m in
    elim (on_learn-at s learned c empty) [
      | inl silent ↦ absurd (not_both _ answer silent put)
      | inr (served, put') ↦
          let is =
            some_unique _ answer (Counters.copy m) put
              (put' ∙ ap (λ x. some (Counters.copy x)) same) in
          let contained = (is_in_iff m learned m-IsMap e).0 (
            subst (λ x. Counters.is_in x learned ≡ true) same
              (Served-learned s (merged s learned) learned c s.pending live served)) in
          subst (λ a. Below added learned × Below a learned × Below learned a) (sym is)
            (
              Below-trans added m learned (Below-trans added (local_map s) m below least.0)
                  contained,
              Below-trans (Counters.copy m) m learned (copy-Below m m-IsMap).0 contained,
              Below-trans learned m (Counters.copy m) least.1 (copy-Below m m-IsMap).1,
            )
    ]
