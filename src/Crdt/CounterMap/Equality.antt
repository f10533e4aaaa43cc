-- ===== src/Crdt/CounterMap/Equality.antt =====
-- `Equals` and `StrictlyIsIn` of counter maps, over maps whose counters name the same nodes.
use suffren.Base.{
  some_unique, ◌<◌, ◌≡◌, refl, subst, ◌↔◌, String, true, false≢true, Option-cases, inl, inr,
  false_of_ne_true, none, some, [], ◌∷◌, arith, All, string_key, length,
}
use suffren.GoMap.{GoMap, lookup, Has}
use suffren.GoMap.Laws.{lookup_of_All, All-of_lookup}
use suffren.GoMap.Size.{length-le_of_Has}
use suffren.Crdt.GCounter
use suffren.Crdt.GCounter.{GCounter, NodeId}
use suffren.Crdt.GCounter.Order as Counter
use suffren.Crdt.GCounter.Equality as CounterEquality
use suffren.Crdt.CounterMap.{CounterMap, IsMap, counters_same, equals, strictly_is_in}
use suffren.Crdt.CounterMap.Order.{Below, is_in_iff, length-Below}

-- Counters under the same key name the same nodes.
abbrev pub SameNodes : CounterMap → CounterMap → Type 0
SameNodes cm o =
    (key : String) (g h : GCounter)
    → lookup key cm.counters ≡ some g
    → lookup key o.counters ≡ some h
    → CounterEquality.SameNodes g h

abbrev SameAt : GoMap String GCounter → String → GCounter → Type 0
SameAt o key g = (h : GCounter) × (lookup key o ≡ some h) × (GCounter.equals g h ≡ true)

counters_same_iff :
    (m o : GoMap String GCounter) → (counters_same m o ≡ true) ↔ All (λ e. SameAt o e.0 e.1) m
unfolding counters_same
counters_same_iff [] o = (λ _. tt, λ _. refl)
counters_same_iff ((key, g) ∷ m) o = (
  λ h. elim (Option-cases (lookup key o)) [
    | inl p ↦ absurd (ground arith)
    | inr (x, p) ↦ ((x, p, ground arith), (counters_same_iff m o).0 (ground arith))
  ],
  λ h. ground (arith, (counters_same_iff m o).1 h.1),
)

same_at :
    (cm o : CounterMap)
    → equals cm o ≡ true
    → (key : String) (g : GCounter) → lookup key cm.counters ≡ some g
    → SameAt o.counters key g
unfolding equals
same_at cm o h key g p =
    lookup_of_All (SameAt o.counters) cm.counters
      ((counters_same_iff cm.counters o.counters).0 (ground arith)) key g p

-- Whenever `Equals` answers true, the receiver is below the argument.
pub equals-Below : (cm o : CounterMap) → IsMap cm → equals cm o ≡ true → Below cm o
equals-Below cm o d h key g p =
    let (x, q, t) = same_at cm o h key g p in
    (x, q, CounterEquality.equals-Below g x (d.counter key g p) t)

-- A map with a key that another one lacks, and with all the other's keys, is larger.
length-lt :
    (cm o : CounterMap) (key : String)
    → IsMap cm
    → IsMap o
    → Below cm o
    → lookup key cm.counters ≡ none
    → Has key o.counters
    → length cm.counters < length o.counters
unfolding lookup
length-lt cm o key d e le p (x, q) =
    length-le_of_Has ((key, GCounter.new []) ∷ cm.counters) o.counters (p, d.distinct) e.distinct
      λ k has. elim (string_key.dec key k) [
        | yes r ↦ (x, subst (λ j. lookup j o.counters ≡ some x) r q)
        | no r ↦ let (h, found, _) = le k has.0 (ground (arith, has.1)) in (h, found)
      ]

-- The keys of two maps of one size, of which the one has all the keys of the other, are the same.
Has-back :
    (cm o : CounterMap) (key : String)
    → IsMap cm
    → IsMap o
    → Below cm o
    → length cm.counters ≡ length o.counters
    → Has key o.counters
    → Has key cm.counters
Has-back cm o key d e le n has = elim (Option-cases (lookup key cm.counters)) [
  | inr (g, p) ↦ (g, p)
  | inl p ↦ absurd (omega (arith, length-lt cm o key d e le p has))
]

length-equals : (cm o : CounterMap) → equals cm o ≡ true → length cm.counters ≡ length o.counters
unfolding equals
length-equals cm o h = ground arith

equals-Below_back :
    (cm o : CounterMap) → IsMap cm → IsMap o → SameNodes cm o → equals cm o ≡ true → Below o cm
equals-Below_back cm o d e s h key x q =
    let (g, p) = Has-back cm o key d e (equals-Below cm o d h) (length-equals cm o h) (x, q) in
    let (y, r, t) = same_at cm o h key g p in
    let same : y ≡ x = some_unique (lookup key o.counters) y x r q in
    (
      g,
      p,
      λ n. omega (
        arith,
        (CounterEquality.equals_iff g x (d.counter key g p) (e.counter key x q) (s key g x p q)).0
            (subst (λ z. GCounter.equals g z ≡ true) same t) n,
      ),
    )

equals_of_Below :
    (cm o : CounterMap)
    → IsMap cm
    → IsMap o
    → SameNodes cm o
    → Below cm o
    → Below o cm
    → equals cm o ≡ true
unfolding equals
equals_of_Below cm o d e s le ge = ground (
  arith,
  length-Below cm o d e le,
  length-Below o cm e d ge,
  (counters_same_iff cm.counters o.counters).1
      (All-of_lookup (SameAt o.counters) cm.counters d.distinct same),
)
  where
    same : (key : String) (g : GCounter) → lookup key cm.counters ≡ some g → SameAt o.counters key g
    same key g p =
        let (x, q, below) = le key g p in
        let (f, r, above) = ge key x q in
        let eq : f ≡ g = some_unique (lookup key cm.counters) f g r p in
        (
          x,
          q,
          (CounterEquality.equals_iff g x (d.counter key g p) (e.counter key x q) (s key g x p q)).1
              λ n. omega (arith, below n, subst (λ z. Counter.Below x z) eq above n),
        )

-- Where counters under the same key name the same nodes, `Equals` holds exactly when each map is
-- below the other.
pub equals_iff :
    (cm o : CounterMap)
    → IsMap cm
    → IsMap o
    → SameNodes cm o
    → (equals cm o ≡ true) ↔ (Below cm o × Below o cm)
equals_iff cm o d e s = (
  λ h. (equals-Below cm o d h, equals-Below_back cm o d e s h),
  λ h. equals_of_Below cm o d e s h.0 h.1,
)

-- There, `StrictlyIsIn` is `IsIn` one way and not the other.
pub strictly_is_in_iff :
    (cm o : CounterMap)
    → IsMap cm
    → IsMap o
    → SameNodes cm o
    → (strictly_is_in cm o ≡ true) ↔ (Below cm o × ¬ Below o cm)
unfolding strictly_is_in
strictly_is_in_iff cm o d e s = (
  λ h.
      let le = (is_in_iff cm o d e).0 (ground arith) in
      (le, λ back. let both = equals_of_Below cm o d e s le back in false≢true (ground arith)),
  λ h.
      let differ = false_of_ne_true (equals cm o) (λ t. h.1 (equals-Below_back cm o d e s t)) in
      let le = (is_in_iff cm o d e).1 h.0 in ground arith,
)
