-- ===== src/Engine/Pending.antt =====
-- The operations that are pending, and what the loop of the learn callback leaves alone.
use suffren.Base.{ℕ, ◌≡◌, refl, ◌∙◌, inl, inr, Bool-cases, Option-cases, [], ◌∷◌, All, ite, nat_key}
use suffren.GoMap.{GoMap, put, remove}
use suffren.Crdt.CounterMap as Counters
use suffren.Crdt.CounterMap.{CounterMap, IsMap, counter_or_new, increment_key}
use suffren.Engine.{Engine, PendingOp, signal, signal_all}

module _ (Q : PendingOp → Type 0) where
  pub All-put :
      (k : ℕ) (op : PendingOp) (ops : GoMap ℕ PendingOp)
      → Q op
      → All (λ e. Q e.1) ops
      → All (λ e. Q e.1) (put k op ops)
  unfolding put
  All-put k op [] q h = (q, tt)
  All-put k op ((j, o) ∷ ops) q h = go (All-put k op ops q h.1) (nat_key.dec j k)
    where
      go :
          All (λ e. Q e.1) (put k op ops)
          → (d : Dec (j ≡ k)) → All (λ e. Q e.1) (ite d ((j, op) ∷ ops) ((j, o) ∷ put k op ops))
      go rest (yes p) = (q, h.1)
      go rest (no p) = (h.0, rest)

  pub All-remove :
      (k : ℕ) (ops : GoMap ℕ PendingOp) → All (λ e. Q e.1) ops → All (λ e. Q e.1) (remove k ops)
  unfolding remove
  All-remove k [] h = tt
  All-remove k ((j, o) ∷ ops) h = go (All-remove k ops h.1) (nat_key.dec j k)
    where
      go :
          All (λ e. Q e.1) (remove k ops)
          → (d : Dec (j ≡ k)) → All (λ e. Q e.1) (ite d (remove k ops) ((j, o) ∷ remove k ops))
      go rest (yes p) = rest
      go rest (no p) = (h.0, rest)

  -- What one round, and so the loop, of the learn callback leaves of the operations.
  signal-pending :
      (learned : CounterMap) (s : Engine) (i : ℕ) (op : PendingOp)
      → All (λ e. Q e.1) s.pending
      → All (λ e. Q e.1) (signal learned s i op).pending
  unfolding signal
  signal-pending learned s i op h =
      elim (Bool-cases (Counters.is_in (s.maps op.proposed_value) learned)) [
        | inr t ↦ rw (t) h
        | inl t ↦ elim (Option-cases (s.channels op.done)) [
          | inl e ↦ rw (t, e) (All-remove i s.pending h)
          | inr (m, e) ↦ rw (t, e) h
        ]
      ]

  pub signal_all-pending :
      (learned : CounterMap) (ops : GoMap ℕ PendingOp) (s : Engine)
      → All (λ e. Q e.1) s.pending
      → All (λ e. Q e.1) (signal_all learned ops s).pending
  unfolding signal_all
  signal_all-pending learned [] s h = h
  signal_all-pending learned ((i, op) ∷ ops) s h =
      signal_all-pending learned ops (signal learned s i op) (signal-pending learned s i op h)

-- The loop of the learn callback leaves the maps, the pointer to the live one and the names alone.
pub record Leaves (s s' : Engine) : Type 0 where
  pub maps : s'.maps ≡ s.maps
  pub local : s'.local_counters ≡ s.local_counters
  pub next : s'.next ≡ s.next
  pub node : s'.node_id ≡ s.node_id

signal-Leaves :
    (learned : CounterMap) (s : Engine) (i : ℕ) (op : PendingOp) → Leaves s (signal learned s i op)
unfolding signal
signal-Leaves learned s i op =
    elim (Bool-cases (Counters.is_in (s.maps op.proposed_value) learned)) [
      | inr t ↦ rw (t) (record { maps = refl; local = refl; next = refl; node = refl })
      | inl t ↦ elim (Option-cases (s.channels op.done)) [
        | inl e ↦ rw (t, e) (record { maps = refl; local = refl; next = refl; node = refl })
        | inr (m, e) ↦ rw (t, e) (record { maps = refl; local = refl; next = refl; node = refl })
      ]
    ]

pub signal_all-Leaves :
    (learned : CounterMap) (ops : GoMap ℕ PendingOp) (s : Engine)
    → Leaves s (signal_all learned ops s)
unfolding signal_all
signal_all-Leaves learned [] s = record { maps = refl; local = refl; next = refl; node = refl }
signal_all-Leaves learned ((i, op) ∷ ops) s =
    let one = signal-Leaves learned s i op in
    let rest = signal_all-Leaves learned ops (signal learned s i op) in
    record {
      maps = rest.maps ∙ one.maps;
      local = rest.local ∙ one.local;
      next = rest.next ∙ one.next;
      node = rest.node ∙ one.node;
    }
