-- ===== src/Cmd/Cli.antt =====
-- cmd/suffren/cli.go: the command loop, by the lines that the scanner gives. The engine,
-- `strings.Fields` and `strconv.ParseUint` are parameters.
pub mod Commands
use text.Mathlib.Text.{◌==◌ as str_eq}
use suffren.Base.{ℕ, Bool, Option, none, some, String, List, [], ◌∷◌, ◌++◌, if◌then◌else◌}

-- The methods of the engine on the state of the world; `start` gives whether there was no error.
pub record Node (W : Type 0) : Type 0 where
  pub start : W → W × Bool
  pub increment_key : W → String → ℕ → W × Option ℕ
  pub value_for_key : W → String → W × Option ℕ
  pub stop : W → W

-- What is printed.
pub data Line : Type 0 where
  starting started failed_to_start usage_i usage_v invalid_value failed_increment failed_value :
      Line
  incremented value : String → ℕ → Line

-- The loop goes on, with what it has printed, has returned, or the process has panicked.
pub data Turn (W : Type 0) : Type 0 where
  goes_on : W → List Line → Turn W
  quits : W → Turn W
  panics : Turn W

module _ {W : Type 0} (node : Node W) (parse_uint : String → Option ℕ) where
  unfoldable pub increment : W → String → ℕ → Turn W
  increment w key inc_value = elim (node.increment_key w key inc_value).1 [
    | some v ↦ goes_on (node.increment_key w key inc_value).0 (incremented key v ∷ [])
    | none ↦ goes_on (node.increment_key w key inc_value).0 (failed_increment ∷ [])
  ]

  unfoldable pub read : W → String → Turn W
  read w key = elim (node.value_for_key w key).1 [
    | some v ↦ goes_on (node.value_for_key w key).0 (value key v ∷ [])
    | none ↦ goes_on (node.value_for_key w key).0 (failed_value ∷ [])
  ]

  unfoldable pub start_node : W → Turn W
  start_node w =
      goes_on (node.start w).0
        (if (node.start w).1 then starting ∷ started ∷ [] else starting ∷ failed_to_start ∷ [])

  -- The arguments of `i` and of `v`.
  unfoldable pub run_i : W → List String → Turn W
  unfolding increment
  run_i w [] = goes_on w (usage_i ∷ [])
  run_i w (key ∷ []) = increment w key 1
  run_i w (key ∷ text ∷ _) = elim (parse_uint text) [
    | some parsed ↦ increment w key parsed
    | none ↦ goes_on w (invalid_value ∷ [])
  ]

  unfoldable pub run_v : W → List String → Turn W
  unfolding read
  run_v w [] = goes_on w (usage_v ∷ [])
  run_v w (key ∷ _) = read w key

  -- `parts[0]` of no parts panics.
  unfoldable pub run_parts : W → List String → Turn W
  unfolding start_node run_i run_v
  run_parts w [] = panics
  run_parts w (command ∷ args) =
      if str_eq command "s"
      then start_node w
      else (if str_eq command "i"
          then run_i w args
          else (if str_eq command "v"
              then run_v w args
              else (if str_eq command "q" then quits (node.stop w) else goes_on w [])))

  module _ (fields : String → List String) where
    unfoldable pub run_line : W → String → Turn W
    unfolding run_parts
    run_line w text = if str_eq text "" then goes_on w [] else run_parts w (fields text)

    -- The lines up to the end of the input.
    unfoldable pub start_interactive_cli : W → List String → Turn W
    unfolding run_line
    start_interactive_cli w [] = goes_on w []
    start_interactive_cli w (text ∷ texts) = elim (run_line w text) [
      | panics ↦ panics
      | quits w' ↦ quits w'
      | goes_on w' printed ↦ elim (start_interactive_cli w' texts) [
        | panics ↦ panics
        | quits w'' ↦ quits w''
        | goes_on w'' more ↦ goes_on w'' (printed ++ more)
      ]
    ]
