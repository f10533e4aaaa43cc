-- ===== src/Agreement/System/Learners.antt =====
-- What the learners of a cluster hold, and so what they tell their engines.
use suffren.Base.{
  string_key, String, ◌≡◌, refl, subst, ◌⊎◌, inl, inr, Bool-cases, some, List, [], All, All-map,
}
use suffren.Base.Result.{ok}
use suffren.GoMap.{GoMap, Distinct}
use suffren.Crdt.GCounter.{NodeId}
use suffren.Crdt.Lattice.{Lattice, IsLattice}
use suffren.Protocol.{Message}
use suffren.Agreement.Output.{Output}
use suffren.Agreement.Learner.{Learner, notify, adopt, handle_learn}
use suffren.Agreement.Learner.Chain.{told}
use suffren.Agreement.System.{
  System, Step, Steps, Learned, delivers, proposes, counts_ack, gets_nack, hears, learned_values,
}
use suffren.Agreement.System.Heard.{IsKnown, IsKnown-append, ok_unique, handle_learn-takes}
use suffren.Agreement.System.InOrder.{IsInOrder, steps-IsInOrder}
use suffren.Agreement.System.Comparable.{in_order-comparable}

module _ {L : Type 0} (lat : Lattice L) where
  -- A callback is told the value that the learner then holds.
  notify-tells : (l : Learner L) → All (λ v. l.learned_value ≡ v) (told (notify l))
  unfolding notify
  notify-tells l = elim (Bool-cases l.has_callback) [
    | inl e ↦ rw (e) (refl, tt)
    | inr e ↦ rw (e) tt
  ]

  adopt-tells :
      (l : Learner L) (x : L)
      → All (λ v. (adopt lat l x).0.learned_value ≡ v) (told (adopt lat l x).1)
  unfolding adopt
  adopt-tells l x = elim (Bool-cases (lat.strictly_is_in l.learned_value x)) [
    | inl t ↦ rw (t) (notify-tells (record l { learned_value = x }))
    | inr t ↦ rw (t) (notify-tells l)
  ]

  pub handle_learn-tells :
      (l : Learner L) (msg : Message L) (x : L) (l' : Learner L) (out : List (Output L))
      → msg.payload.value ≡ some x
      → handle_learn lat l msg ≡ ok (l', out)
      → All (λ v. l'.learned_value ≡ v) (told out)
  unfolding handle_learn
  handle_learn-tells l msg x l' out e run = elim (Bool-cases (lat.is_in l.learned_value x)) [
    | inr t ↦
        subst (λ r. All (λ v. r.0.learned_value ≡ v) (told r.1))
          (ok_unique (handle_learn lat l msg) (l, []) (l', out) (rw (e, t) refl) run) tt
    | inl t ↦
        subst (λ r. All (λ v. r.0.learned_value ≡ v) (told r.1))
          (ok_unique (handle_learn lat l msg) (adopt lat l x) (l', out) (rw (e, t) refl) run)
          (adopt-tells l x)
  ]

module _ {L : Type 0} (lat : Lattice L) (Valid : L → Type 0) (Le : L → L → Type 0)
    (laws : IsLattice lat Valid Le) (peers : GoMap NodeId String) where
  -- What is known stays so.
  pub Step-IsKnown :
      (s s' : System L)
      → Step lat Valid peers s s'
      → (v : L) → IsKnown Le s.learned v
      → IsKnown Le s'.learned v
  Step-IsKnown s s' (delivers _ _ _) v h = h
  Step-IsKnown s s' (proposes n x _) v h = IsKnown-append Le _ s.learned v h
  Step-IsKnown s s' (counts_ack n msg x p out _ _ _ _ _ _ _) v h =
      IsKnown-append Le (learned_values out) s.learned v h
  Step-IsKnown s s' (gets_nack n msg x p out _ _ _) v h =
      IsKnown-append Le (learned_values out) s.learned v h
  Step-IsKnown s s' (hears _ _ _ _ _ _ _ _) v h = h

  -- What a callback is told is known.
  pub told-IsKnown :
      (s : System L) (n : NodeId) (msg : Message L) (x : L) (l : Learner L) (out : List (Output L))
      → IsInOrder lat Valid Le laws peers s
      → msg.payload.value ≡ some x
      → Learned x s.learned
      → handle_learn lat (s.learners n) msg ≡ ok (l, out)
      → All (IsKnown Le s.learned) (told out)
  told-IsKnown s n msg x l out h e i run =
      All-map (λ v p. subst (IsKnown Le s.learned) p known) (told out)
        (handle_learn-tells lat (s.learners n) msg x l out e run)
    where
      known : IsKnown Le s.learned l.learned_value
      known = elim (handle_learn-takes lat (s.learners n) msg x l out e run) [
        | inl t ↦ subst (IsKnown Le s.learned) t (h.learners n)
        | inr t ↦ inl (subst (λ v. Learned v s.learned) t i)
      ]

  pub known-comparable :
      (s : System L)
      → Distinct peers
      → IsInOrder lat Valid Le laws peers s
      → (v w : L) → IsKnown Le s.learned v
      → IsKnown Le s.learned w
      → Le v w ⊎ Le w v
  known-comparable s d h v w (inr least) j = inl (least w)
  known-comparable s d h v w (inl i) (inr least) = inr (least v)
  known-comparable s d h v w (inl i) (inl j) =
      in_order-comparable lat Valid Le laws peers s d h v w i j

  -- In a cluster as in `learned-comparable`, whose learners begin with a value below all others and
  -- hear only values that a proposer has broadcast in a LEARN: at any time the learned values of any
  -- two nodes are comparable.
  pub learners-comparable :
      (s s' : System L)
      → Distinct peers
      → IsInOrder lat Valid Le laws peers s
      → Steps lat Valid peers s s'
      → (m n : NodeId)
      → Le (s'.learners m).learned_value (s'.learners n).learned_value
        ⊎ Le (s'.learners n).learned_value (s'.learners m).learned_value
  learners-comparable s s' d h steps m n =
      let after = steps-IsInOrder lat Valid Le laws peers s s' h steps in
      known-comparable s' d after _ _ (after.learners m) (after.learners n)
