-- ===== src/Tests/Peers.antt =====
-- The results about the network layer, at a client with one connection and two peers.
use suffren.Base.{
  ℕ, ◌+◌, ◌≡◌, refl, Bool, true, false, none, ◌++◌, some, String, List, [], ◌∷◌, arith, string_key,
  leb,
}
use suffren.GoMap.{lookup}
use suffren.P2p.Client.{Tcp, Client, send}
use suffren.P2p.Client.Pool.{IsApart, After, send-After}
use suffren.P2p.Connection.{Streams}
use suffren.P2p.Connection.InOrder.{send_all, receive_all}
use suffren.P2p.Server.{Received, received, closing, sending, Serving, start, then_step, closes}
use suffren.P2p.Server.Shutdown.{IsStuck, steps-IsStuck}

-- The world counts the connections; the first one is stale.
abbrev tcp : Tcp ℕ ℕ String
tcp = record {
  dial = λ w addr. (w + 1, some w);
  send = λ w conn msg. (w, leb 1 conn);
  close = λ w conn. (w, true);
}

abbrev client : Client ℕ
client = record { pool = ("a:1", 0) ∷ []; known_down = [] }

client-IsApart : IsApart client
unfolding lookup
client-IsApart = record { apart = λ addr h. refl }

send-After_example :
    let (w', c', sent) = send tcp 1 client "a:1" "hello" in After "a:1" client c' sent
send-After_example = send-After tcp "a:1" "hello" client client-IsApart 1

-- Two messages, then a shutdown.
abbrev events : List (Received String × Bool)
events = (received "one", false) ∷ (received "two", false) ∷ (closing, true) ∷ []

events_in_order : (e : Received String) → e ≡ closing → true ≡ true
events_in_order e h = refl

not_closing : (m : String) → Path (Received String) (received m) closing → false ≡ true
not_closing m e = cc

abbrev full : Serving
full = record { handlers = λ i. sending; queued = 100; reading = false; done = false }

full-IsStuck : IsStuck 0 full
full-IsStuck = record { unread = refl; full = omega arith; waiting = refl }

steps-IsStuck_example : IsStuck 0 (record full { done = true })
steps-IsStuck_example =
    steps-IsStuck 0 full (record full { done = true }) full-IsStuck (then_step start closes)

-- A buffer and a wire of texts.
abbrev buffered_stream : Streams (List String × List String) (List String) String
buffered_stream = record {
  encode = λ w msg. ((w.0, w.1 ++ msg ∷ []), true);
  flush = λ w. ((w.0 ++ w.1, []), true);
  decode = λ r. elim r [ [] ↦ ([], none) | msg ∷ rest ↦ (rest, some msg) ];
}

both_sent :
    (send_all buffered_stream (record { writer = ([], []); reader = [] }) ("a" ∷ "b" ∷ [])).0.writer
    ≡ ("a" ∷ "b" ∷ [], [])
unfolding send_all
both_sent = refl

both_received :
    receive_all buffered_stream
      (record { writer = ([], []); reader = "a" ∷ "b" ∷ [] })
      ("a" ∷ "b" ∷ [])
    ≡ some "a" ∷ some "b" ∷ []
unfolding receive_all
both_received = refl
