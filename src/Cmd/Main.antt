-- ===== src/Cmd/Main.antt =====
-- cmd/suffren/main.go: the choices of `main`, over the environment, in which "" is an unset variable.
use Prim.Native.String.{◌++◌ as append}
use text.Mathlib.Text.{◌==◌ as str_eq}
use suffren.Base.{Bool, String, if◌then◌else◌}

-- The start of the node and of the HTTP server, whose errors are logged, and the command loop.
pub record Programs (W : Type 0) : Type 0 where
  pub start_node : W → W × Bool
  pub start_server : W → W × Bool
  pub run_cli : W → W

unfoldable pub node_id_of : String → String → String
node_id_of flag fly_region =
    if str_eq flag "" then (if str_eq fly_region "" then "N1" else fly_region) else flag

unfoldable pub store_path : String → String → String
store_path data_path node_id =
    append
      (append (append (if str_eq data_path "" then "./data" else data_path) "/suffren_") node_id)
      ".json"

unfoldable pub main : {W : Type 0} → Programs W → Bool → W → W
main programs run_api w =
    if run_api then (programs.start_server (programs.start_node w).0).0 else programs.run_cli w
