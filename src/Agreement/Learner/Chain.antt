-- ===== src/Agreement/Learner/Chain.antt =====
-- The loop of `runLearner`: what one learner learns is an ascending chain, and what it passes on is
-- a strictly ascending one.
use suffren.Base.{
  ◌≡◌, refl, Bool, true, false, Option, none, some, List, [], ◌∷◌, ◌++◌, if◌then◌else◌, All, Chain,
}
use suffren.Base.Result.{ok}
use suffren.Crdt.Lattice.{Lattice, IsLattice}
use suffren.Protocol.{Message}
use suffren.Agreement.Output.{Output, broadcast_to_others, on_learn}
use suffren.Agreement.Proposer.Once.{HasValid}
use suffren.Agreement.Learner.{Learner, notify, handle_all}
use suffren.Agreement.Learner.Handle.{Outcome, stale, same, grown, handle_learn-Outcome}

-- The values that the callback is told, first to last.
abbrev pub told : {L : Type 0} → List (Output L) → List L
told [] = []
told (on_learn x ∷ out) = x ∷ told out
told (_ ∷ out) = told out

abbrev prepend : {L : Type 0} → Option L → List L → List L
prepend none xs = xs
prepend (some x) xs = x ∷ xs

-- The values that are broadcast again to the other peers, first to last.
abbrev pub passed_on : {L : Type 0} → List (Output L) → List L
passed_on [] = []
passed_on (broadcast_to_others msg n ∷ out) = prepend msg.payload.value (passed_on out)
passed_on (_ ∷ out) = passed_on out

abbrev pub Below : {L : Type 0} → (L → L → Type 0) → L → L → Type 0
Below Le x y = Le x y × ¬ Le y x

module _ {L : Type 0} (lat : Lattice L) (Valid : L → Type 0) (Le : L → L → Type 0)
    (laws : IsLattice lat Valid Le) where
  pub record Learns (l l' : Learner L) (out : List (Output L)) : Type 0 where
    pub valid : Valid l'.learned_value
    pub up : Le l.learned_value l'.learned_value
    pub ascending : Chain Le l.learned_value (told out)
    pub strict : Chain (Below Le) l.learned_value (passed_on out)

  Chain-from-below : (x y : L) (zs : List L) → Le x y → Chain Le y zs → Chain Le x zs
  Chain-from-below x y [] le c = tt
  Chain-from-below x y (z ∷ zs) le c = (laws.le_trans x y z le c.0, c.1)

  -- The call of the callback, with the flag and the value as variables.
  call : Bool → L → List (Output L)
  call b x = if b then on_learn x ∷ [] else []

  ascending-call :
      (b : Bool) (x : L) (outs : List (Output L))
      → Chain Le x (told outs)
      → Chain Le x (told (call b x ++ outs))
  unfolding call
  ascending-call true x outs c = (laws.le_refl x, c)
  ascending-call false x outs c = c

  strict-call :
      (b : Bool) (x y : L) (outs : List (Output L))
      → Chain (Below Le) x (passed_on outs)
      → Chain (Below Le) x (passed_on (call b y ++ outs))
  unfolding call
  strict-call true x y outs c = c
  strict-call false x y outs c = c

  -- One outcome put before the rest of a run.
  Learns-cons :
      (l l' last : Learner L) (x : L) (out outs : List (Output L))
      → Outcome Le l x l' out
      → Learns l' last outs
      → Learns l last (out ++ outs)
  unfolding notify call
  Learns-cons l l' last x out outs (stale _) r = r
  Learns-cons l l' last x out outs (same le ge) r = record {
    valid = r.valid;
    up = r.up;
    ascending = ascending-call l.has_callback l.learned_value outs r.ascending;
    strict = strict-call l.has_callback l.learned_value l.learned_value outs r.strict;
  }
  Learns-cons l l' last x out outs (grown le above) r = record {
    valid = r.valid;
    up = laws.le_trans l.learned_value x last.learned_value le r.up;
    ascending =
        Chain-from-below l.learned_value x _ le (ascending-call l.has_callback x outs r.ascending);
    strict = ((le, above), strict-call l.has_callback x x outs r.strict);
  }

  outcome_valid :
      (l l' : Learner L) (x : L) (out : List (Output L))
      → Outcome Le l x l' out
      → Valid l.learned_value
      → Valid x
      → Valid l'.learned_value
  outcome_valid l l' x out (stale _) u v = u
  outcome_valid l l' x out (same _ _) u v = u
  outcome_valid l l' x out (grown _ _) u v = v

  -- Over any LEARNs with valid values, in any order, a learner does not panic; the values that it
  -- tells its callback ascend from the one that it starts with, and the values that it passes on
  -- ascend strictly, so it passes no value on twice.
  pub handle_all-Learns :
      (l : Learner L) (msgs : List (Message L))
      → Valid l.learned_value
      → All (HasValid Valid) msgs
      → (l' : Learner L) × (out : List (Output L)) × (handle_all lat l msgs ≡ ok (l', out))
        × Learns l l' out
  unfolding handle_all
  handle_all-Learns l [] u vs = (
    l,
    [],
    refl,
    record { valid = u; up = laws.le_refl l.learned_value; ascending = tt; strict = tt },
  )
  handle_all-Learns l (msg ∷ msgs) u ((x, e, v), vs) =
      let (l', out, eq, o) = handle_learn-Outcome lat Valid Le laws l msg x u v e in
      let (last, outs, eq', r) = handle_all-Learns l' msgs (outcome_valid l l' x out o u v) vs in
      (last, out ++ outs, rw (eq, eq'), Learns-cons l l' last x out outs o r)
