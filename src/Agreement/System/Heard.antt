-- ===== src/Agreement/System/Heard.antt =====
-- What a learner of a cluster may hold.
use suffren.Base.{
  All, ◌⊎◌, ◌≡◌, refl, subst, Bool-cases, inl, inr, some, List, [], ◌∷◌, ◌++◌, string_key,
}
use suffren.Base.Result.{Result, ok}
use suffren.Crdt.Lattice.{Lattice}
use suffren.Protocol.{Message}
use suffren.Agreement.Output.{Output}
use suffren.Agreement.Learner.{Learner, adopt, handle_learn}
use suffren.Agreement.System.{Learned}

-- A handler has one result.
pub ok_unique : {A : Type 0} (r : Result A) (a b : A) → r ≡ ok a → r ≡ ok b → a ≡ b
ok_unique r a b e e' = cc

pub All-Learned :
    {L : Type 0} (P : L → Type 0) (v : L) (xs : List L) → Learned v xs → All P xs → P v
All-Learned P v [] i h = absurd i
All-Learned P v (x ∷ xs) (inl e) h = subst P e h.0
All-Learned P v (x ∷ xs) (inr i) h = All-Learned P v xs i h.1

module _ {L : Type 0} (Le : L → L → Type 0) where
  -- The value of a learner: one that was broadcast in a LEARN, or the one it began with.
  abbrev pub IsKnown : List L → L → Type 0
  IsKnown learned v = Learned v learned ⊎ ((x : L) → Le v x)

  pub IsKnown-append : (xs learned : List L) (v : L) → IsKnown learned v → IsKnown (xs ++ learned) v
  IsKnown-append [] learned v h = h
  IsKnown-append (x ∷ xs) learned v h = elim (IsKnown-append xs learned v h) [
    | inl i ↦ inl (inr i)
    | inr le ↦ inr le
  ]

module _ {L : Type 0} (lat : Lattice L) where
  -- A LEARN leaves a learner with the value that it had or with the one that it hears.
  adopt-takes :
      (l : Learner L) (x : L)
      → (l.learned_value ≡ (adopt lat l x).0.learned_value) ⊎ (x ≡ (adopt lat l x).0.learned_value)
  unfolding adopt
  adopt-takes l x = elim (Bool-cases (lat.strictly_is_in l.learned_value x)) [
    | inl u ↦ inr (rw (u) refl)
    | inr u ↦ inl (rw (u) refl)
  ]

  pub handle_learn-takes :
      (l : Learner L) (msg : Message L) (x : L) (l' : Learner L) (out : List (Output L))
      → msg.payload.value ≡ some x
      → handle_learn lat l msg ≡ ok (l', out)
      → (l.learned_value ≡ l'.learned_value) ⊎ (x ≡ l'.learned_value)
  unfolding handle_learn
  handle_learn-takes l msg x l' out e run = elim (Bool-cases (lat.is_in l.learned_value x)) [
    | inr t ↦
        let same = ok_unique (handle_learn lat l msg) (l, []) (l', out) (rw (e, t) refl) run in
        subst (λ r. (l.learned_value ≡ r.0.learned_value) ⊎ (x ≡ r.0.learned_value)) same (inl refl)
    | inl t ↦
        let same =
          ok_unique (handle_learn lat l msg) (adopt lat l x) (l', out) (rw (e, t) refl) run in
        subst (λ r. (l.learned_value ≡ r.0.learned_value) ⊎ (x ≡ r.0.learned_value)) same
          (adopt-takes l x)
  ]
