-- ===== src/Crdt/CounterMap/Order.antt =====
-- `IsIn` decides the order of counter maps; the test of the sizes in front changes nothing.
use suffren.Base.{
  ◌≤◌, ◌≡◌, refl, ◌↔◌, String, true, Option-cases, inl, inr, some, [], ◌∷◌, arith, All, string_key,
  length,
}
use suffren.GoMap.{GoMap, lookup}
use suffren.GoMap.Laws.{lookup_of_All, All-of_lookup}
use suffren.GoMap.Size.{length-le_of_Has}
use suffren.Crdt.GCounter
use suffren.Crdt.GCounter.{GCounter}
use suffren.Crdt.GCounter.Order as Counter
use suffren.Crdt.CounterMap.{CounterMap, IsMap, counters_in, is_in}

-- cm ⊑ o: `o` has every key of `cm`, with a counter that is at least as large.
abbrev pub Below : CounterMap → CounterMap → Type 0
Below cm o =
    (key : String) (g : GCounter)
    → lookup key cm.counters ≡ some g
    → (h : GCounter) × (lookup key o.counters ≡ some h) × Counter.Below g h

pub Below-refl : (cm : CounterMap) → Below cm cm
Below-refl cm key g p = (g, p, Counter.Below-refl g)

pub Below-trans : (a b c : CounterMap) → Below a b → Below b c → Below a c
Below-trans a b c p q key g e =
    let (h, found, le) = p key g e in
    let (i, there, le') = q key h found in (i, there, Counter.Below-trans g h i le le')

-- What one round of the loop of `IsIn` asks for.
abbrev InAt : GoMap String GCounter → String → GCounter → Type 0
InAt o key g = (h : GCounter) × (lookup key o ≡ some h) × (GCounter.is_in g h ≡ true)

counters_in_iff :
    (m o : GoMap String GCounter) → (counters_in m o ≡ true) ↔ All (λ e. InAt o e.0 e.1) m
unfolding counters_in
counters_in_iff [] o = (λ _. tt, λ _. refl)
counters_in_iff ((key, g) ∷ m) o = (
  λ h. elim (Option-cases (lookup key o)) [
    | inl p ↦ absurd (ground arith)
    | inr (x, p) ↦ ((x, p, ground arith), (counters_in_iff m o).0 (ground arith))
  ],
  λ h. ground (arith, (counters_in_iff m o).1 h.1),
)

pub length-Below :
    (cm o : CounterMap) → IsMap cm → IsMap o → Below cm o → length cm.counters ≤ length o.counters
length-Below cm o d e h =
    length-le_of_Has cm.counters o.counters d.distinct e.distinct
      λ key has. let (x, p, _) = h key has.0 has.1 in (x, p)

-- `IsIn` holds exactly when the one map is below the other.
pub is_in_iff : (cm o : CounterMap) → IsMap cm → IsMap o → (is_in cm o ≡ true) ↔ Below cm o
unfolding is_in
is_in_iff cm o d e = (sound, complete)
  where
    sound : is_in cm o ≡ true → Below cm o
    sound h key g p =
        let (x, q, t) =
          lookup_of_All (InAt o.counters) cm.counters
            ((counters_in_iff cm.counters o.counters).0 (ground arith)) key g p in
        (x, q, (Counter.is_in_iff g x (d.counter key g p)).0 t)

    complete : Below cm o → is_in cm o ≡ true
    complete h = ground (
      arith,
      length-Below cm o d e h,
      (counters_in_iff cm.counters o.counters).1 (
          All-of_lookup (InAt o.counters) cm.counters d.distinct λ key g p.
            let (x, q, le) = h key g p in (x, q, (Counter.is_in_iff g x (d.counter key g p)).1 le)),
    )
