-- ===== src/GoMap/Copy.antt =====
-- The loop that copies a map into a new one.
use suffren.Base.{◌≡◌, refl, none, some, [], ◌∷◌, Key, arith}
use suffren.GoMap.{GoMap, lookup, put, copy_into, Distinct}
use suffren.GoMap.Laws.{lookup-put, put-Distinct}
use mathlib.Core.Option

module _ {K V : Type 0} ⦃key : Key K⦄ where
  -- The copy holds, under each key, the image of what the map holds there.
  lookup-copy_into :
      (f : V → V) (result m : GoMap K V) (k : K)
      → Distinct m
      → lookup k (copy_into f result m)
        ≡ elim (lookup k m) [ none ↦ lookup k result | some v ↦ some (f v) ]
  unfolding lookup copy_into
  lookup-copy_into f result [] k d = refl
  lookup-copy_into f result ((i, w) ∷ m) k d =
      ground (arith, lookup-copy_into f (put i (f w) result) m k d.1, lookup-put i k (f w) result)

  pub lookup-copy :
      (f : V → V) (m : GoMap K V) (k : K)
      → Distinct m
      → lookup k (copy_into f [] m) ≡ Option.map f (lookup k m)
  unfolding lookup
  lookup-copy f m k d = ground (arith, lookup-copy_into f [] m k d)

  pub copy_into-Distinct :
      (f : V → V) (result m : GoMap K V) → Distinct result → Distinct (copy_into f result m)
  unfolding copy_into
  copy_into-Distinct f result [] h = h
  copy_into-Distinct f result ((i, w) ∷ m) h =
      copy_into-Distinct f (put i (f w) result) m (put-Distinct i (f w) result h)
