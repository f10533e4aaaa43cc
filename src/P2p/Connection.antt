-- ===== src/P2p/Connection.antt =====
-- internal/p2p/connection.go. The encoder over its buffered writer and the decoder over its buffered
-- reader, from encoding/gob and bufio, are a parameter.
pub mod InOrder
use suffren.Base.{Bool, true, false, Option, none, some, if◌then◌else◌}

-- The two ends of a stream. `encode` writes into the buffer of the writer, `flush` sends the buffer on, and
-- `decode` takes the next message; `false` and `none` are errors.
pub record Streams (W R Message : Type 0) : Type 0 where
  pub encode : W → Message → W × Bool
  pub flush : W → W × Bool
  pub decode : R → R × Option Message

-- The mutex makes a `Send` one step on the writer.
pub record Connection (W R : Type 0) : Type 0 where
  pub writer : W
  pub reader : R

module _ {W R Message : Type 0} (streams : Streams W R Message) where
  unfoldable pub send : Connection W R → Message → Connection W R × Bool
  send c msg =
      let (encoded, ok) = streams.encode c.writer msg in
      if ok
      then (record c { writer = (streams.flush encoded).0 }, (streams.flush encoded).1)
      else (record c { writer = encoded }, false)

  unfoldable pub receive : Connection W R → Connection W R × Option Message
  receive c = let (reader, msg) = streams.decode c.reader in (record c { reader = reader }, msg)
