-- ===== src/Agreement/Learner/Handle.antt =====
-- What one LEARN does to a learner, on every branch.
use suffren.Base.{sym, ◌∙◌, false≢true, ◌≡◌, Bool-cases, inl, inr, false, some, List, [], ◌∷◌}
use suffren.Base.Result.{ok}
use suffren.Crdt.Lattice.{Lattice, IsLattice}
use suffren.Protocol.{Message, message, learn}
use suffren.Agreement.Output.{Output, broadcast_to_others}
use suffren.Agreement.Learner.{Learner, notify, adopt, handle_learn}

module _ {L : Type 0} (Le : L → L → Type 0) where
  -- What becomes of a learner that is told `x`, and what it sets off.
  pub data Outcome (l : Learner L) (x : L) : Learner L → List (Output L) → Type 0 where
    stale : ¬ Le l.learned_value x → Outcome l x l []
    same : Le l.learned_value x → Le x l.learned_value → Outcome l x l (notify l)
    grown :
        Le l.learned_value x
        → ¬ Le x l.learned_value
        → Outcome l x
            (record l { learned_value = x })
            (broadcast_to_others (message l.node_id learn (some x)) l.node_id
              ∷ notify (record l { learned_value = x }))

module _ {L : Type 0} (lat : Lattice L) (Valid : L → Type 0) (Le : L → L → Type 0)
    (laws : IsLattice lat Valid Le) where
  not_strictly :
      (l : Learner L) (x : L)
      → Valid l.learned_value
      → Valid x
      → Le l.learned_value x
      → lat.strictly_is_in l.learned_value x ≡ false
      → Le x l.learned_value
  not_strictly l x u v le t = elim (Bool-cases (lat.is_in x l.learned_value)) [
    | inl s ↦ (laws.is_in_iff x l.learned_value v u).0 s
    | inr s ↦ absurd (
        false≢true (
          sym t
          ∙ (laws.strictly_iff l.learned_value x u v).1
              (le, λ back. false≢true (sym s ∙ (laws.is_in_iff x l.learned_value v u).1 back))))
  ]

  adopt-Outcome :
      (l : Learner L) (x : L)
      → Valid l.learned_value
      → Valid x
      → Le l.learned_value x
      → Outcome Le l x (adopt lat l x).0 (adopt lat l x).1
  unfolding adopt
  adopt-Outcome l x u v le = elim (Bool-cases (lat.strictly_is_in l.learned_value x)) [
    | inl t ↦ rw (t, adopt) (grown le ((laws.strictly_iff l.learned_value x u v).0 t).1)
    | inr t ↦ rw (t, adopt) (same le (not_strictly l x u v le t))
  ]

  -- A learner ignores a value that is not above its own. A value above its own is adopted and
  -- broadcast to the others exactly when it is strictly above; in both cases the callback, if any,
  -- is told the value that the learner then holds.
  pub handle_learn-Outcome :
      (l : Learner L) (msg : Message L) (x : L)
      → Valid l.learned_value
      → Valid x
      → msg.payload.value ≡ some x
      → (l' : Learner L) × (out : List (Output L)) × (handle_learn lat l msg ≡ ok (l', out))
        × Outcome Le l x l' out
  unfolding handle_learn
  handle_learn-Outcome l msg x u v e = elim (Bool-cases (lat.is_in l.learned_value x)) [
    | inl t ↦ (
      (adopt lat l x).0,
      (adopt lat l x).1,
      rw (e, t),
      adopt-Outcome l x u v ((laws.is_in_iff l.learned_value x u v).0 t),
    )
    | inr t ↦ (
      l,
      [],
      rw (e, t),
      stale (λ le. false≢true (sym t ∙ (laws.is_in_iff l.learned_value x u v).1 le)),
    )
  ]
