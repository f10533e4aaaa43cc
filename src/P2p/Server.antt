-- ===== src/P2p/Server.antt =====
-- internal/p2p/server.go: the goroutine of each connection, beside the reader of the channel that
-- they all feed, which is the loop of internal/node/node.go.
pub mod Delivery
pub mod Shutdown
use suffren.Base.{ℕ, ◌+◌, ◌<◌, ◌≡◌, Bool, true, false, List, [], ◌∷◌, if◌then◌else◌, write}

abbrev pub msg_chan_size : ℕ
msg_chan_size = 100

-- What `Receive` gives: a message, the end of the connection, an error that says that the connection
-- was closed here, or any other error.
pub data Received (Message : Type 0) : Type 0 where
  received : Message → Received Message
  eof closing lost : Received Message

-- The loop of `handleConnection`, by what each `Receive` gives and whether `done` is closed after it:
-- the messages that it puts into the channel. `blank` is the message that a failed `Receive` leaves.
unfoldable pub handle_connection :
    {Message : Type 0} → Message → List (Received Message × Bool) → List Message
handle_connection blank [] = []
handle_connection blank ((eof, done) ∷ events) = []
handle_connection blank ((lost, done) ∷ events) = []
handle_connection blank ((closing, done) ∷ events) =
    let rest = handle_connection blank events in if done then [] else blank ∷ rest
handle_connection blank ((received msg, done) ∷ events) =
    let rest = handle_connection blank events in if done then [] else msg ∷ rest

-- Where a goroutine of a connection is: in `Receive`, at the send into the channel, or returned.
pub data Handler : Type 0 where
  receiving sending returned : Handler

-- `reading` says that the node's loop still takes messages, `queued` how many the channel holds.
pub record Serving : Type 0 where
  pub handlers : ℕ → Handler
  pub queued : ℕ
  pub reading : Bool
  pub done : Bool

-- What may happen next. A send into a full channel waits, with nothing else to wake it.
pub data Step : Serving → Serving → Type 0 where
  receives :
      {s : Serving} (i : ℕ)
      → s.handlers i ≡ receiving
      → s.done ≡ false
      → Step s (record s { handlers = write s.handlers i sending })
  sends :
      {s : Serving} (i : ℕ)
      → s.handlers i ≡ sending
      → s.queued < msg_chan_size
      → Step s (record s { handlers = write s.handlers i receiving; queued = s.queued + 1 })
  returns :
      {s : Serving} (i : ℕ)
      → s.handlers i ≡ receiving
      → Step s (record s { handlers = write s.handlers i returned })
  takes :
      {s : Serving} (n : ℕ) → s.reading ≡ true → s.queued ≡ n + 1 → Step s (record s { queued = n })
  stops_reading : {s : Serving} → Step s (record s { reading = false })
  closes : {s : Serving} → Step s (record s { done = true })

pub data Steps (s : Serving) : Serving → Type 0 where
  start : Steps s s
  then_step : {s' s'' : Serving} → Steps s s' → Step s' s'' → Steps s s''
