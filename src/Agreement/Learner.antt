-- ===== src/Agreement/Learner.antt =====
-- internal/latticeagreement/learner.go. The mutex is held for the whole handler. A message with a nil
-- value makes `IsIn` panic on its type assertion.
pub mod Handle
pub mod Chain
pub mod Alternates
use suffren.Base.{Bool, Option, none, some, List, [], ◌∷◌, ◌++◌, if◌then◌else◌}
use suffren.Base.Result.{Result, ok, panic, ◌>>=◌}
use suffren.Crdt.GCounter.{NodeId}
use suffren.Crdt.Lattice.{Lattice}
use suffren.Protocol.{Message, message, learn}
use suffren.Agreement.Output.{Output, broadcast_to_others, on_learn}

-- `has_callback` says whether `onLearn` is other than nil.
pub record Learner (L : Type 0) : Type 0 where
  pub node_id : NodeId
  pub has_callback : Bool
  pub learned_value : L

unfoldable pub new : {L : Type 0} → NodeId → L → Bool → Learner L
new node_id bottom has_callback = record {
  node_id = node_id;
  has_callback = has_callback;
  learned_value = bottom;
}

-- The call of the callback, if there is one.
unfoldable pub notify : {L : Type 0} → Learner L → List (Output L)
notify l = if l.has_callback then on_learn l.learned_value ∷ [] else []

module _ {L : Type 0} (lat : Lattice L) where
  -- A value that is above the learned one: adopted and passed on, if it is strictly above.
  unfoldable pub adopt : Learner L → L → Learner L × List (Output L)
  unfolding notify
  adopt l value =
      let grown = record l { learned_value = value } in
      if lat.strictly_is_in l.learned_value value
      then (
        grown,
        broadcast_to_others (message l.node_id learn (some value)) l.node_id ∷ notify grown,
      )
      else (l, notify l)

  unfoldable pub handle_learn : Learner L → Message L → Result (Learner L × List (Output L))
  unfolding adopt
  handle_learn l msg = elim msg.payload.value [
    | none ↦ panic
    | some value ↦ ok (if lat.is_in l.learned_value value then adopt l value else (l, []))
  ]

  -- The messages of the mailbox, handled in turn; a panic ends the process.
  unfoldable pub handle_all : Learner L → List (Message L) → Result (Learner L × List (Output L))
  unfolding handle_learn
  handle_all l [] = ok (l, [])
  handle_all l (msg ∷ msgs) = do
    (l', out) ← handle_learn l msg
    (last, outs) ← handle_all l' msgs
    ok (last, out ++ outs)
