-- ===== src/GoMap/Size.antt =====
-- Sizes of maps: a map whose keys all stand in another is no larger.
use suffren.Base.{suc, ◌+◌, ◌≤◌, ◌≡◌, refl, none, some, [], ◌∷◌, Key, arith, length}
use suffren.GoMap.{GoMap, lookup, put, remove, Distinct, Has}
use suffren.GoMap.Laws.{lookup-remove, remove-Distinct}

module _ {K V : Type 0} ⦃key : Key K⦄ where
  remove_absent : (k : K) (m : GoMap K V) → lookup k m ≡ none → remove k m ≡ m
  unfolding lookup remove
  remove_absent k [] h = refl
  remove_absent k ((i, w) ∷ m) h = ground (arith, remove_absent k m)

  pub length-remove :
      (k : K) (m : GoMap K V) → Distinct m → Has k m → suc (length (remove k m)) ≡ length m
  unfolding lookup remove
  length-remove k [] d (v, h) = ground arith
  length-remove k ((i, w) ∷ m) d (v, h) = elim (key.dec i k) [
    | yes p ↦ ground (arith, remove_absent k m)
    | no p ↦ ground (arith, length-remove k m d.1 (v, ground arith))
  ]

  pub length-put :
      (k : K) (v : V) (m : GoMap K V)
      → length (put k v m) ≡ elim (lookup k m) [ none ↦ length m + 1 | some _ ↦ length m ]
  unfolding lookup put
  length-put k v [] = refl
  length-put k v ((i, w) ∷ m) = ground (arith, length-put k v m)

module _ {K V W : Type 0} ⦃key : Key K⦄ where
  pub length-le_of_Has :
      (m : GoMap K V) (o : GoMap K W)
      → Distinct m
      → Distinct o
      → ((k : K) → Has k m → Has k o)
      → length m ≤ length o
  unfolding lookup
  length-le_of_Has [] o d e sub = omega arith
  length-le_of_Has ((i, w) ∷ m) o d e sub = omega (
    arith,
    length-remove i o e (sub i (w, ground arith)),
    length-le_of_Has m (remove i o) d.1 (remove-Distinct i o e) kept,
  )
    where
      kept : (k : K) → Has k m → Has k (remove i o)
      kept k (v, h) =
          let (x, q) = sub k (v, ground arith) in (x, ground (arith, lookup-remove i k o))
