-- ===== src/Cmd/Peers/RoundTrip.antt =====
-- Peers that are written out are read back.
use Prim.Native.Char.{Char, code}
use Prim.Native.String.{String, ◌++◌ as append}
use text.Mathlib.TextLemmas.{nil-append, cons-append}
use mathlib.Core.List.{append-nil, append_assoc}
use suffren.Base.{
  subst, map, ℕ, ◌≡◌, ◌≢◌, refl, sym, ◌∙◌, ap, false, none, some, [], ◌∷◌, ◌++◌, ◌==◌, All,
  string_key, arith,
}
use suffren.GoMap.{GoMap, lookup, put, Distinct}
use suffren.GoMap.Laws.{lookup-put_ne}
use suffren.Crdt.GCounter.{NodeId}
use suffren.Cmd.Peers.{
  comma, colon, push, split, prepend, split_two, add_peers, parse_string_to_peers_map,
}

-- The text has no character of this code.
abbrev pub Lacks : ℕ → String → Type 0
Lacks sep String.[] = Unit
Lacks sep (String.◌∷◌ c s) = ((code c == sep) ≡ false) × Lacks sep s

-- A pair of the variable, and its value: pairs with commas between them.
abbrev pub print_peer : NodeId × String → String
print_peer (node_id, address) = append node_id (append ":" address)

abbrev pub print_peers : GoMap NodeId String → String
print_peers [] = ""
print_peers (peer ∷ []) = print_peer peer
print_peers (peer ∷ (next ∷ peers)) =
    append (print_peer peer) (append "," (print_peers (next ∷ peers)))

-- What can be written out: no comma at all, and no colon in a node's name.
abbrev pub IsPrintable : NodeId × String → Type 0
IsPrintable (node_id, address) = Lacks colon node_id × Lacks comma node_id × Lacks comma address

one_append : (c : Char) (t : String) → append (String.◌∷◌ c String.[]) t ≡ String.◌∷◌ c t
one_append c t = cons-append c String.[] t ∙ ap (λ u. String.◌∷◌ c u) (nil-append t)

split-comma : (t : String) → split comma (append "," t) ≡ "" ∷ split comma t
unfolding split
split-comma t = ap (λ u. split comma u) (one_append _ t)

split_two-colon : (t : String) → split_two colon (append ":" t) ≡ some ("", t)
unfolding split_two
split_two-colon t = ap (λ u. split_two colon u) (one_append _ t)

-- A character that is not the separator stays in front.
split-other :
    (sep : ℕ) (c : Char) (s : String)
    → (code c == sep) ≡ false
    → split sep (String.◌∷◌ c s) ≡ push c (split sep s)
unfolding split
split-other sep c s h = rw (h) refl

split_two-other :
    (sep : ℕ) (c : Char) (s : String)
    → (code c == sep) ≡ false
    → split_two sep (String.◌∷◌ c s) ≡ prepend c (split_two sep s)
unfolding split_two
split_two-other sep c s h = rw (h) refl

split_two-pair :
    (a b : String) → Lacks colon a → split_two colon (append a (append ":" b)) ≡ some (a, b)
split_two-pair String.[] b h =
    ap (λ u. split_two colon u) (nil-append (append ":" b)) ∙ split_two-colon b
split_two-pair (String.◌∷◌ c s) b h =
    ap (λ u. split_two colon u) (cons-append c s (append ":" b))
    ∙ split_two-other colon c _ h.0
    ∙ ap (prepend c) (split_two-pair s b h.1)

split-last : (s : String) → Lacks comma s → split comma s ≡ s ∷ []
unfolding split
split-last String.[] h = refl
split-last (String.◌∷◌ c s) h = split-other comma c s h.0 ∙ ap (push c) (split-last s h.1)

split-first :
    (s t : String) → Lacks comma s → split comma (append s (append "," t)) ≡ s ∷ split comma t
split-first String.[] t h = ap (λ u. split comma u) (nil-append (append "," t)) ∙ split-comma t
split-first (String.◌∷◌ c s) t h =
    ap (λ u. split comma u) (cons-append c s (append "," t))
    ∙ split-other comma c _ h.0
    ∙ ap (push c) (split-first s t h.1)

Lacks-append : (sep : ℕ) (s t : String) → Lacks sep s → Lacks sep t → Lacks sep (append s t)
Lacks-append sep String.[] t h k = subst (λ u. Lacks sep u) (sym (nil-append t)) k
Lacks-append sep (String.◌∷◌ c s) t h k =
    subst (λ u. Lacks sep u) (sym (cons-append c s t)) (h.0, Lacks-append sep s t h.1 k)

print_peer-Lacks : (peer : NodeId × String) → IsPrintable peer → Lacks comma (print_peer peer)
print_peer-Lacks (a, b) h = Lacks-append comma a _ h.1 (Lacks-append comma ":" b (refl, tt) h.2)

-- The pieces of the variable are the pairs.
split-print :
    (peer : NodeId × String) (peers : GoMap NodeId String)
    → All IsPrintable (peer ∷ peers)
    → split comma (print_peers (peer ∷ peers)) ≡ map print_peer (peer ∷ peers)
split-print peer [] h = split-last (print_peer peer) (print_peer-Lacks peer h.0)
split-print peer (next ∷ peers) h =
    split-first (print_peer peer) (print_peers (next ∷ peers)) (print_peer-Lacks peer h.0)
    ∙ ap (λ ps. print_peer peer ∷ ps) (split-print next peers h.1)

-- A new key goes to the end.
put_new :
    (k v : String) (m : GoMap NodeId String) → lookup k m ≡ none → put k v m ≡ m ++ (k, v) ∷ []
unfolding lookup put
put_new k v [] h = refl
put_new k v ((j, w) ∷ m) h = ground (arith, h, put_new k v m)

-- Nodes that are not in the map yet, each once.
abbrev IsNew : GoMap NodeId String → GoMap NodeId String → Type 0
IsNew m peers = All (λ peer. lookup peer.0 m ≡ none) peers

-- The head of the peers is new to the others.
head_absent :
    (a k v : String) (m : GoMap NodeId String)
    → lookup a ((k, v) ∷ m) ≡ none
    → (a ≢ k) × (lookup a m ≡ none)
unfolding lookup
head_absent a k v m h = elim (string_key.dec k a) [
  | yes p ↦ ground (arith, h, p)
  | no ne ↦ (λ e. ne (sym e), ground (arith, h, ne))
]

IsNew-put :
    (a b : String) (m peers : GoMap NodeId String)
    → lookup a peers ≡ none
    → IsNew m peers
    → IsNew (put a b m) peers
IsNew-put a b m [] h n = tt
IsNew-put a b m ((k, v) ∷ peers) h n =
    let (ne, rest) = head_absent a k v peers h in
    (lookup-put_ne a k b m ne ∙ n.0, IsNew-put a b m peers rest n.1)

all-IsNew : (peers : GoMap NodeId String) → IsNew [] peers
unfolding lookup
all-IsNew [] = tt
all-IsNew (peer ∷ peers) = (refl, all-IsNew peers)

add_peers-print :
    (m peers : GoMap NodeId String)
    → All IsPrintable peers
    → IsNew m peers
    → Distinct peers
    → add_peers m (map print_peer peers) ≡ m ++ peers
unfolding add_peers
add_peers-print m [] h new d = sym (append-nil m)
add_peers-print m ((a, b) ∷ peers) h new d =
    ap
      (λ o. elim o [
        | none ↦ add_peers m (map print_peer peers)
        | some (i, x) ↦ add_peers (put i x m) (map print_peer peers)
      ])
      (split_two-pair a b h.0.0)
    ∙ add_peers-print (put a b m) peers h.1 (IsNew-put a b m peers d.0 new.1) d.1
    ∙ ap (λ x. x ++ peers) (put_new a b m new.0)
    ∙ append_assoc m ((a, b) ∷ []) peers

-- The variable that lists peers as `N1:host:port,N2:host:port` is read as these peers, in this
-- order, if there is one, no node is listed twice, no name has a colon or a comma, and no address
-- has a comma; an address may have colons.
pub parse-print :
    (peer : NodeId × String) (peers : GoMap NodeId String)
    → All IsPrintable (peer ∷ peers)
    → Distinct (peer ∷ peers)
    → parse_string_to_peers_map (print_peers (peer ∷ peers)) ≡ peer ∷ peers
unfolding parse_string_to_peers_map
parse-print peer peers h d =
    ap (add_peers []) (split-print peer peers h)
    ∙ add_peers-print [] (peer ∷ peers) h (all-IsNew (peer ∷ peers)) d
