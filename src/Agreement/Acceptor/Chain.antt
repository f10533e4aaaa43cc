-- ===== src/Agreement/Acceptor/Chain.antt =====
-- The loop of `runAcceptor`: the values that one acceptor sends form an ascending chain.
use suffren.Base.{◌≡◌, inl, inr, Option-cases, List, [], ◌∷◌, ◌++◌, none, some, arith, All, Chain}
use suffren.Crdt.Lattice.{Lattice, IsLattice}
use suffren.Protocol.{Message}
use suffren.Agreement.Output.{Output, send}
use suffren.Agreement.Acceptor.{Acceptor, handle_propose}
use suffren.Agreement.Acceptor.Handle.{handle_propose-replies}

-- The values of the messages sent, first to last.
abbrev pub sent_values : {L : Type 0} → List (Output L) → List L
sent_values [] = []
sent_values (send to msg ∷ out) = elim msg.payload.value [
  | none ↦ sent_values out
  | some v ↦ v ∷ sent_values out
]
sent_values (_ ∷ out) = sent_values out

module _ {L : Type 0} (lat : Lattice L) where
  -- The messages of the mailbox, handled in turn.
  unfoldable pub handle_all : Acceptor L → List (Message L) → Acceptor L × List (Output L)
  unfolding handle_propose
  handle_all a [] = (a, [])
  handle_all a (msg ∷ msgs) =
      let (a', out) = handle_propose lat a msg in
      let (last, outs) = handle_all a' msgs in (last, out ++ outs)

-- A message carries a valid value or none.
abbrev pub ValidMessage : {L : Type 0} → (L → Type 0) → Message L → Type 0
ValidMessage {L} Valid msg = (v : L) → msg.payload.value ≡ some v → Valid v

module _ {L : Type 0} (lat : Lattice L) (Valid : L → Type 0) (Le : L → L → Type 0)
    (laws : IsLattice lat Valid Le) where
  pub handle_propose-nil :
      (a : Acceptor L) (msg : Message L)
      → msg.payload.value ≡ none
      → handle_propose lat a msg ≡ (a, [])
  unfolding handle_propose
  handle_propose-nil a msg e = ground arith

  -- Whatever is proposed, and in whatever order, each value that an acceptor sends is at least the
  -- one before, from the value that it starts with to the value that it ends with.
  pub handle_all-Chain :
      (a : Acceptor L) (msgs : List (Message L))
      → Valid a.accepted_value
      → All (ValidMessage Valid) msgs
      → Chain Le a.accepted_value (sent_values (handle_all lat a msgs).1)
        × Valid (handle_all lat a msgs).0.accepted_value
        × Le a.accepted_value (handle_all lat a msgs).0.accepted_value
  unfolding handle_all
  handle_all-Chain a [] u vs = (tt, u, laws.le_refl a.accepted_value)
  handle_all-Chain a (msg ∷ msgs) u (v, vs) = elim (Option-cases msg.payload.value) [
    | inl e ↦ rw (handle_propose-nil a msg e) (handle_all-Chain a msgs u vs)
    | inr (value, e) ↦
        let (kind, sent, _, eq, valid, le, _) =
          handle_propose-replies lat Valid Le laws a msg value u (v value e) e in
        let (chain, valid', le') =
          handle_all-Chain (record a { accepted_value = sent }) msgs valid vs in
        rw eq ((le, chain), valid', laws.le_trans a.accepted_value sent _ le le')
  ]
