-- ===== src/GoMap/Laws.antt =====
-- What a lookup returns after a write or a delete, and loops over the entries against lookups.
use suffren.Base.{◌≡◌, refl, ◌≢◌, none, some, [], ◌∷◌, ite, Key, arith, All}
use suffren.GoMap.{GoMap, lookup, put, remove, Distinct}

module _ {K V : Type 0} ⦃key : Key K⦄ where
  pub lookup-put :
      (k j : K) (v : V) (m : GoMap K V)
      → lookup j (put k v m) ≡ ite (key.dec k j) (some v) (lookup j m)
  unfolding lookup put
  lookup-put k j v [] = refl
  lookup-put k j v ((i, w) ∷ m) = ground (arith, lookup-put k j v m)

  pub lookup-put_self : (k : K) (v : V) (m : GoMap K V) → lookup k (put k v m) ≡ some v
  lookup-put_self k v m = ground (arith, lookup-put k k v m)

  pub lookup-put_ne : (k j : K) (v : V) (m : GoMap K V) → k ≢ j → lookup j (put k v m) ≡ lookup j m
  lookup-put_ne k j v m h = ground (arith, lookup-put k j v m)

  pub lookup-remove :
      (k j : K) (m : GoMap K V) → lookup j (remove k m) ≡ ite (key.dec k j) none (lookup j m)
  unfolding lookup remove
  lookup-remove k j [] = ground arith
  lookup-remove k j ((i, w) ∷ m) = ground (arith, lookup-remove k j m)

  pub lookup-remove_self : (k : K) (m : GoMap K V) → lookup k (remove k m) ≡ none
  lookup-remove_self k m = ground (arith, lookup-remove k k m)

  pub lookup-remove_ne : (k j : K) (m : GoMap K V) → k ≢ j → lookup j (remove k m) ≡ lookup j m
  lookup-remove_ne k j m h = ground (arith, lookup-remove k j m)

  pub put-Distinct : (k : K) (v : V) (m : GoMap K V) → Distinct m → Distinct (put k v m)
  unfolding lookup put
  put-Distinct k v [] h = (refl, tt)
  put-Distinct k v ((i, w) ∷ m) h = ground (arith, put-Distinct k v m h.1, lookup-put k i v m)

  pub remove-Distinct : (k : K) (m : GoMap K V) → Distinct m → Distinct (remove k m)
  unfolding lookup remove
  remove-Distinct k [] h = tt
  remove-Distinct k ((i, w) ∷ m) h = ground (arith, remove-Distinct k m h.1, lookup-remove k i m)

  -- What holds of every entry holds of every lookup.
  pub lookup_of_All :
      (P : K → V → Type 0) (m : GoMap K V)
      → All (λ e. P e.0 e.1) m
      → (k : K) (v : V) → lookup k m ≡ some v
      → P k v
  unfolding lookup
  lookup_of_All P [] h k v e = ground arith
  lookup_of_All P ((i, w) ∷ m) h k v e = elim (key.dec i k) [
    | yes p ↦ let q : w ≡ v = ground arith in rw (← p, ← q) h.0
    | no p ↦ lookup_of_All P m h.1 k v (ground arith)
  ]

  -- The other way round, where no key stands twice.
  pub All-of_lookup :
      (P : K → V → Type 0) (m : GoMap K V)
      → Distinct m
      → ((k : K) (v : V) → lookup k m ≡ some v → P k v)
      → All (λ e. P e.0 e.1) m
  unfolding lookup
  All-of_lookup P [] d h = tt
  All-of_lookup P ((i, w) ∷ m) d h =
      (h i w (ground arith), All-of_lookup P m d.1 (λ k v e. h k v (ground arith)))
