-- ===== src/GoMap.antt =====
-- Go's built-in `map`, as the list of its entries in the order of one iteration. Reads, writes and
-- deletes are those of the language; a `range` loop is a recursion on the list.
pub mod Laws
pub mod Size
pub mod Copy
pub mod Overlap
use suffren.Base.{◌≡◌, Option, none, some, List, [], ◌∷◌, ite, Key}

abbrev pub GoMap : Type 0 → Type 0 → Type 0
GoMap K V = List (K × V)

module _ {K V : Type 0} ⦃key : Key K⦄ where
  -- `v, ok := m[k]`
  unfoldable pub lookup : K → GoMap K V → Option V
  lookup k [] = none
  lookup k ((j, v) ∷ m) = ite (key.dec j k) (some v) (lookup k m)

  -- `m[k] = v`
  unfoldable pub put : K → V → GoMap K V → GoMap K V
  put k v [] = (k, v) ∷ []
  put k v ((j, w) ∷ m) = ite (key.dec j k) ((j, v) ∷ m) ((j, w) ∷ put k v m)

  -- `delete(m, k)`
  unfoldable pub remove : K → GoMap K V → GoMap K V
  remove k [] = []
  remove k ((j, w) ∷ m) = ite (key.dec j k) (remove k m) ((j, w) ∷ remove k m)

  -- `for k, v := range m { result[k] = f(v) }`
  unfoldable pub copy_into : (V → V) → GoMap K V → GoMap K V → GoMap K V
  unfolding put
  copy_into f result [] = result
  copy_into f result ((k, v) ∷ m) = copy_into f (put k (f v) result) m

  -- No key stands in two entries.
  abbrev pub Distinct : GoMap K V → Type 0
  Distinct [] = Unit
  Distinct ((k, v) ∷ m) = (lookup k m ≡ none) × Distinct m

  -- The key is present.
  abbrev pub Has : K → GoMap K V → Type 0
  Has k m = (v : V) × (lookup k m ≡ some v)
