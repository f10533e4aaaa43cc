-- ===== src/P2p/Client.antt =====
-- internal/p2p/client.go, for one call at a time, over the connections of connection.go. The source
-- locks the maps for each access only, so two calls for one address may also interleave between them.
pub mod Pool
use suffren.Base.{
  Bool, true, false, Option, none, some, String, List, [], ◌∷◌, if◌then◌else◌, string_key,
}
use suffren.GoMap.{GoMap, lookup, put, remove}

-- `net.Dial` with `NewConnection`, and the methods `Send` and `Close` of a connection, on the state
-- of the world; `false` and `none` are errors.
pub record Tcp (W Connection Message : Type 0) : Type 0 where
  pub dial : W → String → W × Option Connection
  pub send : W → Connection → Message → W × Bool
  pub close : W → Connection → W × Bool

pub record Client (Connection : Type 0) : Type 0 where
  pub pool : GoMap String Connection
  pub known_down : GoMap String (Unit {0})

unfoldable pub new : {Connection : Type 0} → Client Connection
new = record { pool = []; known_down = [] }

module _ {Connection : Type 0} where
  -- The bookkeeping of `connect`, after a failed and after a successful dial.
  unfoldable pub note_down : Client Connection → String → Client Connection
  unfolding lookup put
  note_down c target_addr = elim (lookup target_addr c.known_down) [
    | some already_down ↦ c
    | none ↦ record c { known_down = put target_addr tt c.known_down }
  ]

  unfoldable pub note_up : Client Connection → String → Connection → Client Connection
  unfolding lookup put remove
  note_up c target_addr conn = elim (lookup target_addr c.known_down) [
    | some was_down ↦ record {
      pool = put target_addr conn c.pool;
      known_down = remove target_addr c.known_down;
    }
    | none ↦ record c { pool = put target_addr conn c.pool }
  ]

  unfoldable pub drop : Client Connection → String → Client Connection
  unfolding remove
  drop c target_addr = record c { pool = remove target_addr c.pool }

module _ {W Connection Message : Type 0} (tcp : Tcp W Connection Message) where
  unfoldable pub connected :
      Client Connection → String → W × Option Connection → W × Client Connection × Option Connection
  unfolding note_down note_up
  connected c target_addr (w, none) = (w, note_down c target_addr, none)
  connected c target_addr (w, some conn) = (w, note_up c target_addr conn, some conn)

  unfoldable pub connect :
      W → Client Connection → String → W × Client Connection × Option Connection
  unfolding connected
  connect w c target_addr = connected c target_addr (tcp.dial w target_addr)

  -- The second try: its connection is dropped, but not closed, if it fails too.
  unfoldable pub send_again :
      String → Message → W × Client Connection × Option Connection → W × Client Connection × Bool
  unfolding drop
  send_again target_addr msg (w, c, none) = (w, c, false)
  send_again target_addr msg (w, c, some conn) =
      let (w1, sent) = tcp.send w conn msg in
      if sent then (w1, c, true) else (w1, drop c target_addr, false)

  -- The first try, and what follows if it fails: the connection is stale.
  unfoldable pub send_over :
      W → Client Connection → String → Connection → Message → W × Client Connection × Bool
  unfolding connect send_again drop
  send_over w c target_addr conn msg =
      let (w1, sent) = tcp.send w conn msg in
      if sent
      then (w1, c, true)
      else send_again target_addr msg
          (connect (tcp.close w1 conn).0 (drop c target_addr) target_addr)

  unfoldable pub send_connected :
      String → Message → W × Client Connection × Option Connection → W × Client Connection × Bool
  unfolding send_over
  send_connected target_addr msg (w, c, none) = (w, c, false)
  send_connected target_addr msg (w, c, some conn) = send_over w c target_addr conn msg

  unfoldable pub send : W → Client Connection → String → Message → W × Client Connection × Bool
  unfolding send_over send_connected connect lookup
  send w c target_addr msg = elim (lookup target_addr c.pool) [
    | some conn ↦ send_over w c target_addr conn msg
    | none ↦ send_connected target_addr msg (connect w c target_addr)
  ]

  -- The loop of `Close` stops at the first error.
  unfoldable pub close_from : W → GoMap String Connection → W × Bool
  close_from w [] = (w, true)
  close_from w ((addr, conn) ∷ pool) =
      let (w1, closed) = tcp.close w conn in
      let rest = close_from w1 pool in if closed then rest else (w1, false)

  unfoldable pub close : W → Client Connection → W × Client Connection × Bool
  unfolding close_from
  close w c =
      let (w1, closed) = close_from w c.pool in
      if closed then (w1, record c { pool = [] }, true) else (w1, c, false)
