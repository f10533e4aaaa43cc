-- ===== src/Tests/Commands.antt =====
-- The results about the commands, at the peers of the tests.
use text.Mathlib.Text.{◌==◌ as str_eq}
use suffren.Base.{
  ℕ, ◌+◌, true, Option, some, none, String, List, if◌then◌else◌, ◌≡◌, refl, [], ◌∷◌, All,
  string_key, string_discrete,
}
use suffren.GoMap.{lookup, Distinct}
use suffren.Cmd.Peers.{parse_string_to_peers_map}
use suffren.Cmd.Peers.RoundTrip.{IsPrintable, print_peers, parse-print}
use suffren.Cmd.Cli.{
  Node, start_interactive_cli, goes_on, panics, incremented, invalid_value, usage_i,
}
use suffren.Cmd.Main.{node_id_of, store_path}
use suffren.Tests.Data.{peers}

peers-IsPrintable : All IsPrintable peers
peers-IsPrintable = (
  ((refl, (refl, tt)), (refl, (refl, tt)), (refl, (refl, (refl, tt)))),
  (
    ((refl, (refl, tt)), (refl, (refl, tt)), (refl, (refl, (refl, tt)))),
    (((refl, (refl, tt)), (refl, (refl, tt)), (refl, (refl, (refl, tt)))), tt),
  ),
)

peers-Distinct : Distinct peers
unfolding lookup string_discrete
peers-Distinct = (refl, (refl, (refl, tt)))

parse-print_example : parse_string_to_peers_map (print_peers peers) ≡ peers
parse-print_example =
    parse-print ("N1", "a:1") (("N2", "b:1") ∷ ("N3", "c:1") ∷ []) peers-IsPrintable peers-Distinct

reads_peers : parse_string_to_peers_map "N1:a:1,N2:b:1,N3:c:1" ≡ peers
unfolding parse_string_to_peers_map string_discrete
reads_peers = refl

-- A text without a pair gives no peers.
no_peers : parse_string_to_peers_map "" ≡ []
unfolding parse_string_to_peers_map
no_peers = refl

-- The command loop over a counter as the engine, whose keys are all one; words are given apart.
abbrev counting : Node ℕ
counting = record {
  start = λ w. (w, true);
  increment_key = λ w key n. (w + n, some (w + n));
  value_for_key = λ w key. (w, some w);
  stop = λ w. w;
}

abbrev words : String → List String
words text =
    if str_eq text "i k 5"
    then "i" ∷ "k" ∷ "5" ∷ []
    else (if str_eq text "i k x"
        then "i" ∷ "k" ∷ "x" ∷ []
        else (if str_eq text "  " then [] else text ∷ []))

abbrev number : String → Option ℕ
number text = if str_eq text "5" then some 5 else none

-- A number that does not parse increments nothing.
counts_up :
    start_interactive_cli counting number words 1 ("i k 5" ∷ "" ∷ "i k x" ∷ "i" ∷ [])
    ≡ goes_on 6 (incremented "k" 6 ∷ invalid_value ∷ usage_i ∷ [])
unfolding start_interactive_cli
counts_up = refl

blanks_panic : start_interactive_cli counting number words 1 ("i k 5" ∷ "  " ∷ []) ≡ panics
unfolding start_interactive_cli
blanks_panic = refl

-- The flag, then the region, then N1 name a node, and its file.
names_node : store_path "" (node_id_of "" "cdg") ≡ "./data/suffren_cdg.json"
unfolding store_path node_id_of
names_node = refl
