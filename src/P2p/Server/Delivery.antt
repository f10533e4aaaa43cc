-- ===== src/P2p/Server/Delivery.antt =====
-- Which messages of a connection reach the channel.
use suffren.Base.{◌≡◌, refl, ap, Bool, true, false, List, [], ◌∷◌, All, false≢true}
use suffren.P2p.Server.{Received, received, eof, closing, lost, handle_connection}

-- The messages up to the first event that is no message, or that finds `done` closed.
abbrev pub messages_before_end : {Message : Type 0} → List (Received Message × Bool) → List Message
messages_before_end [] = []
messages_before_end ((received msg, false) ∷ events) = msg ∷ messages_before_end events
messages_before_end ((received msg, true) ∷ events) = []
messages_before_end ((eof, done) ∷ events) = []
messages_before_end ((closing, done) ∷ events) = []
messages_before_end ((lost, done) ∷ events) = []

-- `Close` closes `done` before it closes any connection.
abbrev pub ClosesAfterDone : {Message : Type 0} → Received Message × Bool → Type 0
ClosesAfterDone (e, done) = e ≡ closing → done ≡ true

-- As `Close` orders its calls, the channel gets the messages of a connection in their order, up to
-- its end or the shutdown, and no other: never the blank one of a failed `Receive`.
pub handle_connection-delivers :
    {Message : Type 0} (blank : Message) (events : List (Received Message × Bool))
    → All ClosesAfterDone events
    → handle_connection blank events ≡ messages_before_end events
unfolding handle_connection
handle_connection-delivers blank [] h = refl
handle_connection-delivers blank ((eof, done) ∷ events) h = refl
handle_connection-delivers blank ((lost, done) ∷ events) h = refl
handle_connection-delivers blank ((closing, true) ∷ events) h = refl
handle_connection-delivers blank ((closing, false) ∷ events) h = absurd (false≢true (h.0 refl))
handle_connection-delivers blank ((received msg, true) ∷ events) h = refl
handle_connection-delivers blank ((received msg, false) ∷ events) h =
    ap (λ ms. msg ∷ ms) (handle_connection-delivers blank events h.1)
