-- ===== src/Deployment/Top.antt =====
-- Of the answers to the requests that are granted, one is above all.
use suffren.Base.{
  ℕ, ◌≤◌, ◌≡◌, refl, ◌⊎◌, inl, inr, some, String, List, [], ◌∷◌, All, All-map, arith, string_key,
}
use suffren.GoMap.{lookup}
use suffren.Crdt.GCounter.{GCounter}
use suffren.Crdt.GCounter.Value.{Fits}
use suffren.Crdt.CounterMap.{CounterMap, value_for_key}
use suffren.Crdt.CounterMap.Order.{Below, Below-trans}
use suffren.Agreement.System.{Learned}
use suffren.Engine.Answering.{Justified}
use suffren.Deployment.{Request, Outcome, Deployment, granted_by}
use suffren.Deployment.Shares.{sum_all}
use suffren.Deployment.Bounded.{IsGranted}
use suffren.Deployment.Granted.{granted-cases, IsCounted}

justify :
    (added answer : CounterMap) (values : List CounterMap)
    → Justified added answer values
    → (x : CounterMap) × Learned x values × Below added x × Below answer x × Below x answer
justify added answer [] h = absurd h
justify added answer (x ∷ xs) (inl (a, b, c)) = (x, inl refl, a, b, c)
justify added answer (x ∷ xs) (inr h) =
    let (y, i, a, b, c) = justify added answer xs h in (y, inr i, a, b, c)

module _ (key : String) (d : Deployment) where
  -- An answer above all that is granted, within the limit, and a learned value that it stands for.
  pub record IsTop (limit : ℕ) (qs : List Request) : Type 0 where
    pub learned : CounterMap
    pub answer : CounterMap
    pub is_told : Learned learned d.told
    pub below : Below learned answer
    pub within : value_for_key answer key ≤ limit
    pub fits : (g : GCounter) → lookup key answer.counters ≡ some g → Fits g
    pub all : All (IsCounted key d learned) qs

  pub top :
      (limit : ℕ) (qs : List Request)
      → ((v w : CounterMap) → Learned v d.told → Learned w d.told → Below v w ⊎ Below w v)
      → All
          (λ q. (o : Outcome) → d.outcomes q.node q.done ≡ some o → IsGranted key limit d.told q o)
          qs
      → All (λ q. granted_by d q ≡ 0) qs ⊎ IsTop limit qs
  top limit [] chain g = inl tt
  top limit (q ∷ qs) chain g = elim (granted-cases (d.outcomes q.node q.done) q.value) [
    | inl e ↦ elim (top limit qs chain g.1) [
      | inl none_ ↦ inl (e, none_)
      | inr t ↦ inr (higher t.learned t (inl e) t.all)
    ]
    | inr (o, found, allowed, _) ↦
        let (justified, within, fits) = g.0 o found allowed in
        let (x, told, added, _, below) = justify q.added o.answer d.told justified in
        let own : IsTop limit [] = record {
          learned = x;
          answer = o.answer;
          is_told = told;
          below = below;
          within = within;
          fits = fits;
          all = tt;
        } in
        elim (top limit qs chain g.1) [
          | inl none_ ↦ inr (onto own (inr added) (All-map (λ q e. inl e) qs none_))
          | inr t ↦ elim (chain x t.learned told t.is_told) [
            | inl up ↦
                inr (higher t.learned t (inr (Below-trans q.added x t.learned added up)) t.all)
            | inr down ↦
                inr (onto own (inr added) (All-map (λ q c. raise q t.learned x down c) qs t.all))
          ]
        ]
  ]
    where
      higher :
          (x : CounterMap) (t : IsTop limit qs)
          → IsCounted key d t.learned q
          → All (IsCounted key d t.learned) qs
          → IsTop limit (q ∷ qs)
      higher x t c cs = record {
        learned = t.learned;
        answer = t.answer;
        is_told = t.is_told;
        below = t.below;
        within = t.within;
        fits = t.fits;
        all = (c, cs);
      }

      onto :
          (t : IsTop limit [])
          → IsCounted key d t.learned q
          → All (IsCounted key d t.learned) qs
          → IsTop limit (q ∷ qs)
      onto t c cs = record {
        learned = t.learned;
        answer = t.answer;
        is_told = t.is_told;
        below = t.below;
        within = t.within;
        fits = t.fits;
        all = (c, cs);
      }

      raise :
          (q : Request) (x y : CounterMap) → Below x y → IsCounted key d x q → IsCounted key d y q
      raise q x y up (inl e) = inl e
      raise q x y up (inr b) = inr (Below-trans q.added x y b up)

  pub sum-of_zeros :
      (qs : List Request)
      → All (λ q. granted_by d q ≡ 0) qs
      → sum_all (λ q. q.node) (granted_by d) qs ≡ 0
  sum-of_zeros [] h = refl
  sum-of_zeros (q ∷ qs) h = omega (arith, h.0, sum-of_zeros qs h.1)
