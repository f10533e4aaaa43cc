-- ===== src/P2p/Connection/InOrder.antt =====
-- What one end of a connection sends, the other receives.
use suffren.Base.{
  ◌≡◌, refl, sym, ap, subst, Bool, true, false, Bool-cases, inl, inr, false≢true, Option, some,
  List, [], ◌∷◌, ◌++◌, if◌then◌else◌, arith,
}
use mathlib.Core.List.{append_assoc, append-nil}
use suffren.P2p.Connection.{Streams, Connection, send, receive}

module _ {W R Message : Type 0} (streams : Streams W R Message) where
  -- What the packages say: the buffer takes an encoded message behind those it holds, a flush sends them
  -- on and empties it, and a decoder gives the messages of its stream in order.
  pub record AreStreams : Type 1 where
    pub IsAt : List Message → List Message → W → Type 0
    pub Carries : List Message → R → Type 0
    pub encoded :
        (sent buffered : List Message) (w : W) (msg : Message)
        → IsAt sent buffered w
        → (streams.encode w msg).1 ≡ true
        → IsAt sent (buffered ++ msg ∷ []) (streams.encode w msg).0
    pub flushed :
        (sent buffered : List Message) (w : W)
        → IsAt sent buffered w
        → (streams.flush w).1 ≡ true
        → IsAt (sent ++ buffered) [] (streams.flush w).0
    pub decoded :
        (msg : Message) (msgs : List Message) (r : R)
        → Carries (msg ∷ msgs) r
        → ((streams.decode r).1 ≡ some msg) × Carries msgs (streams.decode r).0

  -- The connection after the messages, and whether every `Send` succeeded.
  unfoldable pub send_all : Connection W R → List Message → Connection W R × Bool
  unfolding send
  send_all c [] = (c, true)
  send_all c (msg ∷ msgs) =
      let rest = send_all (send streams c msg).0 msgs in
      if (send streams c msg).1 then rest else ((send streams c msg).0, false)

  send-sends :
      (laws : AreStreams) (c : Connection W R) (sent : List Message) (msg : Message)
      → laws.IsAt sent [] c.writer
      → (send streams c msg).1 ≡ true
      → laws.IsAt (sent ++ msg ∷ []) [] (send streams c msg).0.writer
  unfolding send
  send-sends laws c sent msg at ok = elim (Bool-cases (streams.encode c.writer msg).1) [
    | inl t ↦
        rw (t, send)
          (laws.flushed sent (msg ∷ []) _ (laws.encoded sent [] c.writer msg at t)
            (ground (arith, ok, t)))
    | inr t ↦ absurd (false≢true (ground (arith, ok, t)))
  ]

  send_all-sends :
      (laws : AreStreams) (c : Connection W R) (sent msgs : List Message)
      → laws.IsAt sent [] c.writer
      → (send_all c msgs).1 ≡ true
      → laws.IsAt (sent ++ msgs) [] (send_all c msgs).0.writer
  unfolding send_all
  send_all-sends laws c sent [] at ok =
      subst (λ m. laws.IsAt m [] c.writer) (sym (append-nil sent)) at
  send_all-sends laws c sent (msg ∷ msgs) at ok = elim (Bool-cases (send streams c msg).1) [
    | inl t ↦
        rw (t, send_all)
          (subst (λ m. laws.IsAt m [] (send_all (send streams c msg).0 msgs).0.writer)
            (append_assoc sent (msg ∷ []) msgs)
            (send_all-sends laws (send streams c msg).0 (sent ++ msg ∷ []) msgs
              (send-sends laws c sent msg at t) (ground (arith, ok, t))))
    | inr t ↦ absurd (false≢true (ground (arith, ok, t)))
  ]

  -- What as many calls of `Receive` give.
  unfoldable pub receive_all : Connection W R → List Message → List (Option Message)
  unfolding receive
  receive_all c [] = []
  receive_all c (_ ∷ msgs) = (receive streams c).1 ∷ receive_all (receive streams c).0 msgs

  abbrev pub all_of : List Message → List (Option Message)
  all_of [] = []
  all_of (msg ∷ msgs) = some msg ∷ all_of msgs

  receive_all-gives :
      (laws : AreStreams) (c : Connection W R) (msgs : List Message)
      → laws.Carries msgs c.reader
      → receive_all c msgs ≡ all_of msgs
  unfolding receive_all receive
  receive_all-gives laws c [] carried = refl
  receive_all-gives laws c (msg ∷ msgs) carried =
      let (first, rest) = laws.decoded msg msgs c.reader carried in
      rw (first) (ap (λ ms. some msg ∷ ms) (receive_all-gives laws (receive streams c).0 msgs rest))

  -- When each of the messages is sent without an error over a fresh connection and the stream between
  -- carries what has been flushed, nothing is left in the buffer, and the other end receives all of the
  -- messages, in the order in which they were sent.
  pub send_all-received :
      (laws : AreStreams) (c peer : Connection W R) (msgs : List Message)
      → laws.IsAt [] [] c.writer
      → (send_all c msgs).1 ≡ true
      → ((sent : List Message)
          → laws.IsAt sent [] (send_all c msgs).0.writer
          → laws.Carries sent peer.reader)
      → receive_all peer msgs ≡ all_of msgs
  send_all-received laws c peer msgs at ok stream =
      receive_all-gives laws peer msgs (stream msgs (send_all-sends laws c [] msgs at ok))
