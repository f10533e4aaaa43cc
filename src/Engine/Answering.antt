-- ===== src/Engine/Answering.antt =====
-- The map with an increment stays below the live local map, whatever calls begin or end and whatever is
-- learned.
use suffren.Base.{
  ℕ, ◌+◌, ◌<◌, write, ◌≡◌, refl, sym, ap, subst, ◌∙◌, ◌⊎◌, inl, inr, Bool, true, false, Option,
  none, some, Option-cases, String, List, [], ◌∷◌, All, arith, nat_key,
}
use suffren.Crdt.GCounter.{count, uint64_mod}
use suffren.Crdt.CounterMap as Counters
use suffren.Crdt.CounterMap.{CounterMap, IsMap, counter_or_new, increment_key}
use suffren.Crdt.CounterMap.Order.{Below, Below-trans}
use suffren.Crdt.CounterMap.Keys.{increment_key-Below, increment_key-IsMap}
use suffren.Crdt.CounterMap.Bound.{merge_in_place-IsLeast, merge_in_place-IsMap}
use suffren.Engine.{
  Engine, local_map, register_pending, unregister_pending, add_op_to_batch, increment_begins,
  value_begins, call_ends, on_learn,
}
use suffren.Engine.Learning.{merged, on_learn-keeps}
use suffren.Engine.Committed.{WaitsLive, written, on_learn-commits}
use suffren.Engine.Pending.{All-put, All-remove, signal_all-pending, signal_all-Leaves}

-- The learned value is among these, contains what has been added, and is what the answer holds.
abbrev pub Justified : CounterMap → CounterMap → List CounterMap → Type 0
Justified added answer [] = ⊥
Justified added answer (x ∷ xs) =
    (Below added x × Below answer x × Below x answer) ⊎ Justified added answer xs

module _ (added : CounterMap) (c : ℕ) where
  -- What has been added is in the live local map, for which alone the channel `c` is waited at, and
  -- an answer there is justified by what has been learned.
  pub record IsAnswering (learnt : List CounterMap) (s : Engine) : Type 0 where
    pub is_map : IsMap (local_map s)
    pub floor : Below added (local_map s)
    pub live : WaitsLive s c
    pub named : c < s.next
    pub answered : (m : CounterMap) → s.channels c ≡ some m → Justified added m learnt

  other_channel :
      (channels : ℕ → Option CounterMap) (a : ℕ) (x : CounterMap)
      → write channels a none c ≡ some x
      → channels c ≡ some x
  unfolding write
  other_channel channels a x e = ground (arith, e)

  pub value_begins-IsAnswering :
      (learnt : List CounterMap) (s : Engine)
      → IsAnswering learnt s
      → IsAnswering learnt (value_begins s).0
  unfolding value_begins register_pending add_op_to_batch
  value_begins-IsAnswering learnt s h = record {
    is_map = h.is_map;
    floor = h.floor;
    live =
        All-put (λ op. op.done ≡ c → op.proposed_value ≡ s.local_counters) s.op_id _ s.pending
          (λ e. refl) h.live;
    named = omega (arith, h.named);
    answered = λ m e. h.answered m (other_channel s.channels s.next m e);
  }

  pub increment_begins-IsAnswering :
      (learnt : List CounterMap) (s : Engine) (key : String) (value : ℕ)
      → count s.node_id (counter_or_new (local_map s) key).counts + value < uint64_mod
      → IsAnswering learnt s
      → IsAnswering learnt (increment_begins s key value).0
  unfolding increment_begins
  increment_begins-IsAnswering learnt s key value fits h =
      let m = increment_key (local_map s) key s.node_id value in
      let same = written s.maps s.local_counters m in
      value_begins-IsAnswering learnt (record s { maps = write s.maps s.local_counters m })
        (record {
          is_map =
              subst IsMap (sym same)
                (increment_key-IsMap (local_map s) key s.node_id value h.is_map);
          floor = subst (Below added) (sym same) (
              Below-trans added (local_map s) m h.floor
                (increment_key-Below (local_map s) key s.node_id value fits));
          live = h.live;
          named = h.named;
          answered = h.answered;
        })

  pub call_ends-IsAnswering :
      (learnt : List CounterMap) (s : Engine) (op_id done : ℕ) (arrived : Bool) (key : String)
      → IsAnswering learnt s
      → IsAnswering learnt (call_ends s op_id done arrived key).0
  unfolding call_ends unregister_pending
  call_ends-IsAnswering learnt s op_id done false key h = record {
    is_map = h.is_map;
    floor = h.floor;
    live =
        All-remove (λ op. op.done ≡ c → op.proposed_value ≡ s.local_counters) op_id s.pending
          h.live;
    named = h.named;
    answered = h.answered;
  }
  call_ends-IsAnswering learnt s op_id done true key h = elim (Option-cases (s.channels done)) [
    | inl e ↦ rw (e) h
    | inr (m, e) ↦ rw (e) (record {
      is_map = h.is_map;
      floor = h.floor;
      live =
          All-remove (λ op. op.done ≡ c → op.proposed_value ≡ s.local_counters) op_id s.pending
            h.live;
      named = h.named;
      answered = λ x p. h.answered x (other_channel s.channels done x p);
    })
  ]

  pub on_learn-IsAnswering :
      (learnt : List CounterMap) (s : Engine) (learned : CounterMap)
      → IsMap learned
      → IsAnswering learnt s
      → IsAnswering (learned ∷ learnt) (on_learn s learned)
  unfolding on_learn
  on_learn-IsAnswering learnt s learned valid h =
      let m = Counters.merge_in_place (local_map s) learned in
      let now = merged s learned in
      let same = written s.maps s.local_counters m in
      let leaves = signal_all-Leaves learned s.pending now in
      let local : local_map (on_learn s learned) ≡ m =
        ap (λ ms. ms (on_learn s learned).local_counters) leaves.maps
        ∙ ap now.maps leaves.local
        ∙ same in
      record {
        is_map =
            subst IsMap (sym local) (merge_in_place-IsMap (local_map s) learned h.is_map valid);
        floor = subst (Below added) (sym local) (
            Below-trans added (local_map s) m h.floor
              (merge_in_place-IsLeast (local_map s) learned learned valid).0);
        live =
            subst
              (λ a.
                All (λ op. op.1.done ≡ c → op.1.proposed_value ≡ a) (on_learn s learned).pending)
              (sym leaves.local)
              (signal_all-pending (λ op. op.done ≡ c → op.proposed_value ≡ s.local_counters) learned
                s.pending now h.live);
        named = subst (λ k. c < k) (sym leaves.next) h.named;
        answered = λ x e. elim (Option-cases (s.channels c)) [
          | inl empty ↦
              inl (on_learn-commits s learned x added c h.is_map valid h.floor h.live empty e)
          | inr (y, full) ↦ inr (h.answered x (full ∙ sym (on_learn-keeps s learned c y full) ∙ e))
        ];
      }
