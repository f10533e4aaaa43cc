-- ===== src/Cmd/Peers.antt =====
-- cmd/suffren/main.go: the peers from the environment variable PEERS.
pub mod RoundTrip
use Prim.Native.Char.{Char, code}
use Prim.Native.String.{String}
use suffren.Base.{ℕ, Option, none, some, List, [], ◌∷◌, ◌==◌, if◌then◌else◌, string_key}
use suffren.GoMap.{GoMap, put}
use suffren.Crdt.GCounter.{NodeId}

abbrev pub comma : ℕ
comma = 44

abbrev pub colon : ℕ
colon = 58

-- A character before the first piece.
abbrev pub push : Char → List String → List String
push c [] = String.◌∷◌ c String.[] ∷ []
push c (piece ∷ pieces) = String.◌∷◌ c piece ∷ pieces

-- `strings.Split` at one ASCII character: a text without it is one piece.
unfoldable pub split : ℕ → String → List String
split sep String.[] = String.[] ∷ []
split sep (String.◌∷◌ c s) =
    let rest = split sep s in if code c == sep then String.[] ∷ rest else push c rest

abbrev pub prepend : Char → Option (String × String) → Option (String × String)
prepend c none = none
prepend c (some (before, after)) = some (String.◌∷◌ c before, after)

-- `strings.SplitN(s, sep, 2)`, if it gives two parts: those before and after the first separator.
unfoldable pub split_two : ℕ → String → Option (String × String)
split_two sep String.[] = none
split_two sep (String.◌∷◌ c s) =
    let rest = split_two sep s in if code c == sep then some (String.[], s) else prepend c rest

-- The loop over the pairs, which passes over a pair without a colon.
unfoldable pub add_peers : GoMap NodeId String → List String → GoMap NodeId String
unfolding split_two put
add_peers peers [] = peers
add_peers peers (pair ∷ pairs) = elim (split_two colon pair) [
  | none ↦ add_peers peers pairs
  | some (node_id, address) ↦ add_peers (put node_id address peers) pairs
]

unfoldable pub parse_string_to_peers_map : String → GoMap NodeId String
unfolding split add_peers
parse_string_to_peers_map s = add_peers [] (split comma s)
