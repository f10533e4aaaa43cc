-- ===== src/Agreement/Proposer/Once.antt =====
-- The loop of `runProposer` between two proposals of the engine: over any replies it never panics on
-- messages with values, keeps the invariant, and commits at most once. It does not look at senders.
use suffren.Base.{
  ℕ, ◌+◌, ◌≤◌, ◌≡◌, refl, ◌∙◌, true, some, List, [], ◌∷◌, ◌++◌, arith, if◌then◌else◌, All,
}
use suffren.Base.Result.{ok}
use suffren.Crdt.Lattice.{Lattice, IsLattice}
use suffren.Protocol.{Message, CommandType, propose, ack, nack, learn, unknown}
use suffren.Agreement.Output.{Output, send, broadcast, broadcast_to_others, on_learn}
use suffren.Agreement.Proposer.{
  Proposer, check_and_handle_quorum, count_ack, count_nack, handle_ack, handle_nack, handle,
  handle_all,
}
use suffren.Agreement.Proposer.Round.{
  IsValid, Climbs, Climbs-refl, Climbs-trans, handle_ack-Climbs, handle_nack-Climbs,
}
use suffren.Agreement.Proposer.Commit.{learns}

pub learns-append :
    {L : Type 0} (xs ys : List (Output L)) → learns (xs ++ ys) ≡ learns xs + learns ys
learns-append [] ys = omega arith
learns-append (broadcast msg ∷ xs) ys = omega (arith, learns-append xs ys)
learns-append (send to msg ∷ xs) ys = learns-append xs ys
learns-append (broadcast_to_others msg n ∷ xs) ys = learns-append xs ys
learns-append (on_learn x ∷ xs) ys = learns-append xs ys

-- A round that has reached its quorum is spent; an open one may commit once.
abbrev pub budget : {L : Type 0} → Proposer L → ℕ
budget p = if p.quorum_reached then 0 else 1

module _ {L : Type 0} (lat : Lattice L) where
  check-budget :
      (p : Proposer L)
      → learns (check_and_handle_quorum p).1 + budget (check_and_handle_quorum p).0 ≤ budget p
  unfolding check_and_handle_quorum
  check-budget p = ground arith

  handle-budget :
      (p p' : Proposer L) (msg : Message L) (out : List (Output L))
      → handle lat p msg ≡ ok (p', out)
      → learns out + budget p' ≤ budget p
  unfolding handle count_ack count_nack
  handle-budget p p' msg out e =
      ground (arith, check-budget (record p { acks_received = p.acks_received ++ true ∷ [] }))

  -- `runProposer` dispatches on the kind of the message.
  pub handle_as_ack :
      (p : Proposer L) (msg : Message L)
      → msg.payload.kind ≡ ack
      → handle lat p msg ≡ handle_ack lat p msg
  unfolding handle
  handle_as_ack p msg k = rw k

  handle_as_nack :
      (p : Proposer L) (msg : Message L)
      → msg.payload.kind ≡ nack
      → handle lat p msg ≡ handle_nack lat p msg
  unfolding handle
  handle_as_nack p msg k = rw k

  handle_as_propose :
      (p : Proposer L) (msg : Message L)
      → msg.payload.kind ≡ propose
      → handle lat p msg ≡ ok (p, [])
  unfolding handle
  handle_as_propose p msg k = rw k

  handle_as_learn :
      (p : Proposer L) (msg : Message L) → msg.payload.kind ≡ learn → handle lat p msg ≡ ok (p, [])
  unfolding handle
  handle_as_learn p msg k = rw k

  handle_as_unknown :
      (p : Proposer L) (msg : Message L) (b : ℕ)
      → msg.payload.kind ≡ unknown b
      → handle lat p msg ≡ ok (p, [])
  unfolding handle
  handle_as_unknown p msg b k = rw k

-- A message carries a valid value.
abbrev pub HasValid : {L : Type 0} → (L → Type 0) → Message L → Type 0
HasValid {L} Valid msg = (x : L) × (msg.payload.value ≡ some x) × Valid x

module _ {L : Type 0} (lat : Lattice L) (Valid : L → Type 0) (Le : L → L → Type 0)
    (laws : IsLattice lat Valid Le) where
  -- What the loop leaves behind.
  pub record Served (p p' : Proposer L) (out : List (Output L)) : Type 0 where
    pub climbs : Climbs lat Valid Le laws p p'
    pub once : learns out + budget p' ≤ budget p

  handle-Served :
      (p : Proposer L) (msg : Message L)
      → IsValid Valid Le p
      → HasValid Valid msg
      → (p' : Proposer L) × (out : List (Output L)) × (handle lat p msg ≡ ok (p', out))
        × Served p p' out
  handle-Served p msg h (x, e, v) = by_kind msg.payload.kind refl
    where
      served :
          (p' : Proposer L) (out : List (Output L))
          → handle lat p msg ≡ ok (p', out)
          → Climbs lat Valid Le laws p p'
          → (p' : Proposer L) × (out : List (Output L)) × (handle lat p msg ≡ ok (p', out))
            × Served p p' out
      served p' out eq up =
          (p', out, eq, record { climbs = up; once = handle-budget lat p p' msg out eq })

      by_kind :
          (kind : CommandType)
          → msg.payload.kind ≡ kind
          → (p' : Proposer L) × (out : List (Output L)) × (handle lat p msg ≡ ok (p', out))
            × Served p p' out
      by_kind ack k =
          let (p', out, eq, up) = handle_ack-Climbs lat Valid Le laws p msg x h e in
          served p' out (handle_as_ack lat p msg k ∙ eq) up
      by_kind nack k =
          let (p', out, eq, up) = handle_nack-Climbs lat Valid Le laws p msg x h v e in
          served p' out (handle_as_nack lat p msg k ∙ eq) up
      by_kind propose k =
          served p [] (handle_as_propose lat p msg k) (Climbs-refl lat Valid Le laws p h)
      by_kind learn k =
          served p [] (handle_as_learn lat p msg k) (Climbs-refl lat Valid Le laws p h)
      by_kind (unknown b) k =
          served p [] (handle_as_unknown lat p msg b k) (Climbs-refl lat Valid Le laws p h)

  -- Over any sequence of replies that carry valid values, in any order and with any repetitions,
  -- the proposer does not panic, keeps its invariant, lowers neither value, and broadcasts at most
  -- one LEARN; none, if its quorum was reached before.
  pub handle_all-once :
      (p : Proposer L) (msgs : List (Message L))
      → IsValid Valid Le p
      → All (HasValid Valid) msgs
      → (p' : Proposer L) × (out : List (Output L)) × (handle_all lat p msgs ≡ ok (p', out))
        × Served p p' out
  unfolding handle_all
  handle_all-once p [] h vs =
      (p, [], refl, record { climbs = Climbs-refl lat Valid Le laws p h; once = omega arith })
  handle_all-once p (msg ∷ msgs) h (v, vs) =
      let (p', out, eq, s) = handle-Served p msg h v in
      let (last, outs, eq', t) = handle_all-once p' msgs s.climbs.valid vs in
      (
        last,
        out ++ outs,
        rw (eq, eq'),
        record {
          climbs = Climbs-trans lat Valid Le laws p p' last s.climbs t.climbs;
          once = omega (arith, s.once, t.once, learns-append out outs);
        },
      )
