-- ===== src/Crdt/GCounter.antt =====
-- internal/crdt/gcounter.go: the grow-only counter, a count for each node. `count` reads a missing
-- node as 0, as Go does; each loop over `Counts` is a function of its own.
pub mod Order
pub mod Merge
pub mod Value
pub mod Equality
pub mod Nodes
use suffren.Base.{
  ℕ, ◌+◌, ◌%◌, ◌^◌, Bool, true, false, not, Option, none, some, List, [], ◌∷◌, String, ltb, ◌==◌,
  if◌then◌else◌, length, string_key,
}
use suffren.GoMap.{GoMap, lookup, put, copy_into, Distinct}

abbrev pub NodeId : Type 0
NodeId = String

pub record GCounter : Type 0 where
  pub counts : GoMap NodeId ℕ

abbrev pub uint64_mod : ℕ
uint64_mod = 2 ^ 64

-- `counts[nodeId]`
unfoldable pub count : NodeId → GoMap NodeId ℕ → ℕ
unfolding lookup
count n m = elim (lookup n m) [ none ↦ 0 | some c ↦ c ]

unfoldable pub zero_counts : GoMap NodeId ℕ → List NodeId → GoMap NodeId ℕ
unfolding put
zero_counts counts [] = counts
zero_counts counts (n ∷ ns) = zero_counts (put n 0 counts) ns

unfoldable pub new : List NodeId → GCounter
unfolding zero_counts
new node_ids = record { counts = zero_counts [] node_ids }

unfoldable pub increment : GCounter → NodeId → ℕ → GCounter
unfolding put count
increment g n value = record { counts = put n ((count n g.counts + value) % uint64_mod) g.counts }

unfoldable pub total_from : ℕ → GoMap NodeId ℕ → ℕ
total_from total [] = total
total_from total ((n, c) ∷ m) = total_from ((total + c) % uint64_mod) m

unfoldable pub value : GCounter → ℕ
unfolding total_from
value g = total_from 0 g.counts

-- One round of the loops of `Join` and `MergeInPlace`: a larger count replaces the one there.
unfoldable pub raise_count : NodeId → ℕ → GoMap NodeId ℕ → GoMap NodeId ℕ
unfolding put count
raise_count n c result = if ltb (count n result) c then put n c result else result

unfoldable pub merge_counts : GoMap NodeId ℕ → GoMap NodeId ℕ → GoMap NodeId ℕ
unfolding raise_count
merge_counts result [] = result
merge_counts result ((n, c) ∷ o) = merge_counts (raise_count n c result) o

unfoldable pub copy : GCounter → GCounter
unfolding copy_into
copy g = record { counts = copy_into (λ c. c) [] g.counts }

unfoldable pub join : GCounter → GCounter → GCounter
unfolding merge_counts copy_into new
join g o = record { counts = merge_counts (copy_into (λ c. c) (new []).counts g.counts) o.counts }

unfoldable pub merge_in_place : GCounter → GCounter → GCounter
unfolding merge_counts
merge_in_place g o = record { counts = merge_counts g.counts o.counts }

unfoldable pub all_below : GoMap NodeId ℕ → GoMap NodeId ℕ → Bool
unfolding count
all_below [] o = true
all_below ((n, c) ∷ m) o = if ltb (count n o) c then false else all_below m o

unfoldable pub is_in : GCounter → GCounter → Bool
unfolding all_below
is_in g o = all_below g.counts o.counts

unfoldable pub below_from : Bool → GoMap NodeId ℕ → GoMap NodeId ℕ → Bool
unfolding count
below_from strictly_less [] o = strictly_less
below_from strictly_less ((n, c) ∷ m) o =
    if ltb (count n o) c
    then false
    else below_from (if ltb c (count n o) then true else strictly_less) m o

unfoldable pub strictly_is_in : GCounter → GCounter → Bool
unfolding below_from
strictly_is_in g o = below_from false g.counts o.counts

unfoldable pub all_same : GoMap NodeId ℕ → GoMap NodeId ℕ → Bool
unfolding count
all_same [] o = true
all_same ((n, c) ∷ m) o = if c == count n o then all_same m o else false

unfoldable pub equals : GCounter → GCounter → Bool
unfolding all_same
equals g o = if length g.counts == length o.counts then all_same g.counts o.counts else false

unfoldable pub node_ids_of : GoMap NodeId ℕ → List NodeId
node_ids_of [] = []
node_ids_of ((n, c) ∷ m) = n ∷ node_ids_of m

unfoldable pub bottom : GCounter → GCounter
unfolding node_ids_of new
bottom g = new (node_ids_of g.counts)

-- Go's maps hold a key once.
abbrev pub IsMap : GCounter → Type 0
IsMap g = Distinct g.counts
