-- ===== src/Cmd/Cli/Commands.antt =====
-- What the command loop does to the engine.
use text.Mathlib.Text.{◌==◌ as str_eq}
use suffren.Base.{ℕ, ◌≡◌, refl, inl, inr, Bool-cases, Option, Option-cases, String, List, [], ◌∷◌}
use suffren.Cmd.Cli.{
  Node, Turn, goes_on, quits, panics, increment, read, start_node, run_i, run_v, run_parts,
}

-- The state after a turn is this one.
abbrev pub Leaves : {W : Type 0} → W → Turn W → Type 0
Leaves w (goes_on w' _) = w' ≡ w
Leaves w (quits w') = w' ≡ w
Leaves w panics = ⊥

module _ {W : Type 0} (node : Node W) (parse_uint : String → Option ℕ) where
  -- One call of the engine, or none.
  pub data Effect (w : W) : Turn W → Type 0 where
    starts : {t : Turn W} → Leaves (node.start w).0 t → Effect w t
    increments :
        {t : Turn W} (key : String) (n : ℕ) → Leaves (node.increment_key w key n).0 t → Effect w t
    reads : {t : Turn W} (key : String) → Leaves (node.value_for_key w key).0 t → Effect w t
    stops : {t : Turn W} → Leaves (node.stop w) t → Effect w t
    rests : {t : Turn W} → Leaves w t → Effect w t

  increment-Leaves :
      (w : W) (key : String) (n : ℕ)
      → Leaves (node.increment_key w key n).0 (increment node parse_uint w key n)
  unfolding increment
  increment-Leaves w key n = elim (Option-cases (node.increment_key w key n).1) [
    | inl e ↦ rw (e, increment) refl
    | inr (v, e) ↦ rw (e, increment) refl
  ]

  read-Leaves :
      (w : W) (key : String) → Leaves (node.value_for_key w key).0 (read node parse_uint w key)
  unfolding read
  read-Leaves w key = elim (Option-cases (node.value_for_key w key).1) [
    | inl e ↦ rw (e, read) refl
    | inr (v, e) ↦ rw (e, read) refl
  ]

  run_i-Effect : (w : W) (args : List String) → Effect w (run_i node parse_uint w args)
  unfolding run_i
  run_i-Effect w [] = rests refl
  run_i-Effect w (key ∷ []) = increments key 1 (increment-Leaves w key 1)
  run_i-Effect w (key ∷ text ∷ rest) = elim (Option-cases (parse_uint text)) [
    | inl e ↦ rw (e, run_i) (rests refl)
    | inr (n, e) ↦ rw (e, run_i) (increments key n (increment-Leaves w key n))
  ]

  run_v-Effect : (w : W) (args : List String) → Effect w (run_v node parse_uint w args)
  unfolding run_v
  run_v-Effect w [] = rests refl
  run_v-Effect w (key ∷ rest) = reads key (read-Leaves w key)

  -- A line with at least one word makes at most one call of the engine and does not panic.
  pub run_parts-Effect :
      (w : W) (command : String) (args : List String)
      → Effect w (run_parts node parse_uint w (command ∷ args))
  unfolding run_parts start_node
  run_parts-Effect w command args = elim (Bool-cases (str_eq command "s")) [
    | inl a ↦ rw (a, run_parts) (starts refl)
    | inr a ↦ elim (Bool-cases (str_eq command "i")) [
      | inl b ↦ rw (a, b, run_parts) (run_i-Effect w args)
      | inr b ↦ elim (Bool-cases (str_eq command "v")) [
        | inl c ↦ rw (a, b, c, run_parts) (run_v-Effect w args)
        | inr c ↦ elim (Bool-cases (str_eq command "q")) [
          | inl d ↦ rw (a, b, c, d, run_parts) (stops refl)
          | inr d ↦ rw (a, b, c, d, run_parts) (rests refl)
        ]
      ]
    ]
  ]
