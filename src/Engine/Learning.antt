-- ===== src/Engine/Learning.antt =====
-- Which operations the learn callback signals, and with what.
use suffren.Base.{
  write, ℕ, ◌==◌, ◌≡◌, refl, sym, ap, subst, ◌∙◌, ◌⊎◌, ◌↔◌, inl, inr, true, Bool-cases, Option,
  none, some, Option-cases, [], ◌∷◌, arith,
}
use suffren.GoMap.{GoMap}
use suffren.Crdt.CounterMap as Counters
use suffren.Crdt.CounterMap.{CounterMap}
use suffren.Engine.{Engine, PendingOp, local_map, signal, signal_all, on_learn}

-- The engine once the callback has merged the learned value, before it looks at the operations.
abbrev pub merged : Engine → CounterMap → Engine
merged s learned = record s {
  maps = write s.maps s.local_counters (Counters.merge_in_place (local_map s) learned);
}

-- Some pending operation waits at the channel `c` for a map that `learned` contains.
abbrev pub Served : Engine → CounterMap → ℕ → GoMap ℕ PendingOp → Type 0
Served s learned c [] = ⊥
Served s learned c ((op_id, op) ∷ ops) =
    ((op.done ≡ c) × (Counters.is_in (s.maps op.proposed_value) learned ≡ true))
    ⊎ Served s learned c ops

-- What the loop leaves alone.
record Frame (s s' : Engine) : Type 0 where
  maps : s'.maps ≡ s.maps
  local : s'.local_counters ≡ s.local_counters

Frame-refl : (s : Engine) → Frame s s
Frame-refl s = record { maps = refl; local = refl }

Frame-trans : {s t u : Engine} → Frame s t → Frame t u → Frame s u
Frame-trans f g = record { maps = g.maps ∙ f.maps; local = g.local ∙ f.local }

Frame-local_map : {s t : Engine} → Frame s t → local_map t ≡ local_map s
Frame-local_map {s = s} {t = t} f = ap (λ ms. ms t.local_counters) f.maps ∙ ap s.maps f.local

pub not_both : (o : Option CounterMap) (m : CounterMap) → o ≡ none → o ≡ some m → ⊥
not_both o m p q = cc

signal-Frame :
    (learned : CounterMap) (s : Engine) (i : ℕ) (op : PendingOp) → Frame s (signal learned s i op)
unfolding signal
signal-Frame learned s i op =
    elim (Bool-cases (Counters.is_in (s.maps op.proposed_value) learned)) [
      | inr t ↦ rw (t) (record { maps = refl; local = refl })
      | inl t ↦ elim (Option-cases (s.channels op.done)) [
        | inl e ↦ rw (t, e) (record { maps = refl; local = refl })
        | inr (m, e) ↦ rw (t, e) (record { maps = refl; local = refl })
      ]
    ]

eq_of_test : (a b : ℕ) → (a == b) ≡ true → a ≡ b
eq_of_test a b h = ground arith

test_of_eq : (a b : ℕ) → a ≡ b → (a == b) ≡ true
test_of_eq a b h = ground (arith, h)

-- What one round does to a channel that was empty.
signal-at :
    (learned : CounterMap) (s : Engine) (i : ℕ) (op : PendingOp) (c : ℕ)
    → s.channels c ≡ none
    → ((signal learned s i op).channels c ≡ none)
      ⊎ ((op.done ≡ c)
          × (Counters.is_in (s.maps op.proposed_value) learned ≡ true)
          × ((signal learned s i op).channels c ≡ some (Counters.copy (local_map s))))
unfolding signal write
signal-at learned s i op c e =
    elim (Bool-cases (Counters.is_in (s.maps op.proposed_value) learned)) [
      | inr t ↦ inl (rw (t) e)
      | inl t ↦ elim (Option-cases (s.channels op.done)) [
        | inr (m, f) ↦ inl (rw (t, f) e)
        | inl f ↦ elim (Bool-cases (op.done == c)) [
          | inl k ↦ inr (eq_of_test op.done c k, t, rw (t, f, k) refl)
          | inr k ↦ inl (rw (t, f, k) e)
        ]
      ]
    ]

-- A channel that holds a value keeps it.
signal-keeps :
    (learned : CounterMap) (s : Engine) (i : ℕ) (op : PendingOp) (c : ℕ) (m : CounterMap)
    → s.channels c ≡ some m
    → (signal learned s i op).channels c ≡ some m
unfolding signal write
signal-keeps learned s i op c m e =
    elim (Bool-cases (Counters.is_in (s.maps op.proposed_value) learned)) [
      | inr t ↦ rw (t) e
      | inl t ↦ elim (Option-cases (s.channels op.done)) [
        | inr (m', f) ↦ rw (t, f) e
        | inl f ↦ elim (Bool-cases (op.done == c)) [
          | inl k ↦ absurd (
              not_both (s.channels c) m
                (subst (λ d. s.channels d ≡ none) (eq_of_test op.done c k) f) e)
          | inr k ↦ rw (t, f, k) e
        ]
      ]
    ]

signal_all-keeps :
    (learned : CounterMap) (ops : GoMap ℕ PendingOp) (s : Engine) (c : ℕ) (m : CounterMap)
    → s.channels c ≡ some m
    → (signal_all learned ops s).channels c ≡ some m
unfolding signal_all
signal_all-keeps learned [] s c m e = e
signal_all-keeps learned ((i, op) ∷ ops) s c m e =
    signal_all-keeps learned ops (signal learned s i op) c m (signal-keeps learned s i op c m e)

module _ (learned : CounterMap) (start : Engine) (c : ℕ) where
  -- The loop, from a state with the maps of `start`.
  signal_all-at :
      (ops : GoMap ℕ PendingOp) (s : Engine)
      → Frame start s
      → s.channels c ≡ none
      → ((signal_all learned ops s).channels c ≡ none)
        ⊎ (Served start learned c ops
            × ((signal_all learned ops s).channels c ≡ some (Counters.copy (local_map start))))
  unfolding signal_all
  signal_all-at [] s f e = inl e
  signal_all-at ((i, op) ∷ ops) s f e = elim (signal-at learned s i op c e) [
    | inl e' ↦
        elim (signal_all-at ops (signal learned s i op)
          (Frame-trans f (signal-Frame learned s i op)) e') [
            | inl n ↦ inl n
            | inr (served, d) ↦ inr (inr served, d)
          ]
    | inr (same, t, d) ↦ inr (
      inl (same, subst (λ ms. Counters.is_in (ms op.proposed_value) learned ≡ true) f.maps t),
      signal_all-keeps learned ops (signal learned s i op) c _
          (d ∙ ap (λ m. some (Counters.copy m)) (Frame-local_map f)),
    )
  ]

  -- The round of an operation that waits at `c` for a map that has been learned.
  signal-serves :
      (s : Engine) (i : ℕ) (op : PendingOp)
      → s.channels c ≡ none
      → op.done ≡ c
      → Counters.is_in (s.maps op.proposed_value) learned ≡ true
      → (signal learned s i op).channels c ≡ some (Counters.copy (local_map s))
  unfolding signal write
  signal-serves s i op e same t =
      let f = subst (λ d. s.channels d ≡ none) (sym same) e in
      rw (t, f, test_of_eq op.done c same) refl

  signal_all-serves :
      (ops : GoMap ℕ PendingOp) (s : Engine)
      → Frame start s
      → s.channels c ≡ none
      → Served start learned c ops
      → (signal_all learned ops s).channels c ≡ some (Counters.copy (local_map start))
  unfolding signal_all
  signal_all-serves [] s f e h = absurd h
  signal_all-serves ((i, op) ∷ ops) s f e (inl (same, t)) =
      signal_all-keeps learned ops (signal learned s i op) c _ (
        signal-serves s i op e same
          (subst (λ ms. Counters.is_in (ms op.proposed_value) learned ≡ true) (sym f.maps) t)
        ∙ ap (λ m. some (Counters.copy m)) (Frame-local_map f))
  signal_all-serves ((i, op) ∷ ops) s f e (inr h) = elim (signal-at learned s i op c e) [
    | inl e' ↦
        signal_all-serves ops (signal learned s i op) (Frame-trans f (signal-Frame learned s i op))
          e' h
    | inr (same, t, d) ↦
        signal_all-keeps learned ops (signal learned s i op) c _
          (d ∙ ap (λ m. some (Counters.copy m)) (Frame-local_map f))
  ]

-- What the learn callback does to a channel that was empty.
pub on_learn-at :
    (s : Engine) (learned : CounterMap) (c : ℕ)
    → s.channels c ≡ none
    → ((on_learn s learned).channels c ≡ none)
      ⊎ (Served (merged s learned) learned c s.pending
          × ((on_learn s learned).channels c ≡ some (Counters.copy (local_map (merged s learned)))))
unfolding on_learn
on_learn-at s learned c e =
    signal_all-at learned (merged s learned) c s.pending (merged s learned)
      (Frame-refl (merged s learned)) e

-- An answer that has not been taken stays.
pub on_learn-keeps :
    (s : Engine) (learned : CounterMap) (c : ℕ) (m : CounterMap)
    → s.channels c ≡ some m
    → (on_learn s learned).channels c ≡ some m
unfolding on_learn
on_learn-keeps s learned c m e = signal_all-keeps learned s.pending (merged s learned) c m e

-- After the learn callback a channel that was empty holds a copy of the merged local map exactly
-- when some pending operation waits at it for a map that, as it is after the merge, the learned
-- value contains; else it is still empty.
pub on_learn-signals_iff :
    (s : Engine) (learned : CounterMap) (c : ℕ)
    → s.channels c ≡ none
    → (((on_learn s learned).channels c ≡ some (Counters.copy (local_map (merged s learned))))
        ↔ Served (merged s learned) learned c s.pending)
      × ((¬ Served (merged s learned) learned c s.pending) → (on_learn s learned).channels c ≡ none)
unfolding on_learn
on_learn-signals_iff s learned c e =
    let start = merged s learned in
    let same = Frame-refl start in
    let done = on_learn-at s learned c e in
    (
      (
        λ h. elim done [ inl n ↦ absurd (not_both _ _ n h) | inr (served, d) ↦ served ],
        λ served. signal_all-serves learned start c s.pending start same e served,
      ),
      λ un. elim done [ inl n ↦ n | inr (served, d) ↦ absurd (un served) ],
    )
