-- ===== src/P2p/Listener.antt =====
-- internal/p2p/server.go as a whole: the loop of `Listen`, the registration of connections, and `Close`,
-- which run beside one another, with `Close` called once. What a registered connection does with messages is in Server.
pub mod Slots
pub mod Listed
pub mod Counted
pub mod Shut
pub mod Locked
use suffren.Base.{
  ℕ, ◌<◌, ◌+◌, ◌≡◌, Bool, true, false, List, [], ◌∷◌, ◌++◌, ◌-◌, write, ◌==◌, if◌then◌else◌,
}

-- The goroutine of a connection: spawned, registered in `activeConnections`, taken from them again, or
-- returned, with its connection closed. A number that no connection has yet stands at `returned`.
pub data Stage : Type 0 where
  spawned registered unregistered returned : Stage

-- The goroutine of `Listen`: in `Accept`, with a connection that it has not handed on yet, or returned.
pub data Loop : Type 0 where
  accepting handing_on left : Loop

-- `Close`: not called, at the listener, at the mutex, at its loop with the connections that are left, at `Wait`,
-- and returned without or with an error.
pub data Closing : Type 0 where
  not_called at_listener at_lock at_wait closed failed : Closing
  at_connections : List ℕ → Closing

-- `is_open` tells of each connection whether its socket is open, and `locked` whether `Close` holds the
-- mutex; the other critical sections are one step each. `wg` is the counter of the wait group.
pub record Server : Type 0 where
  pub stages : ℕ → Stage
  pub is_open : ℕ → Bool
  pub active_connections : List ℕ
  pub next : ℕ
  pub loop : Loop
  pub listening : Bool
  pub done : Bool
  pub locked : Bool
  pub wg : ℕ
  pub closing : Closing

-- A server after `Listen`.
abbrev pub listen : Server
listen = record {
  stages = λ i. returned;
  is_open = λ i. false;
  active_connections = [];
  next = 0;
  loop = accepting;
  listening = true;
  done = false;
  locked = false;
  wg = 1;
  closing = not_called;
}

-- `delete(s.activeConnections, conn)`
unfoldable pub delete : ℕ → List ℕ → List ℕ
delete i [] = []
delete i (j ∷ js) = let rest = delete i js in if j == i then rest else j ∷ rest

-- What may happen next. The loop of `Close` takes the connections in any order.
pub data Step (s : Server) : Server → Type 0 where
  accepts : s.loop ≡ accepting → s.listening ≡ true → Step s (record s { loop = handing_on })
  hands_on :
      s.loop ≡ handing_on
      → Step s (record s {
        stages = write s.stages s.next spawned;
        is_open = write s.is_open s.next true;
        next = s.next + 1;
        loop = accepting;
        wg = s.wg + 1;
      })
  leaves :
      s.loop ≡ accepting → s.listening ≡ false → Step s (record s { loop = left; wg = s.wg - 1 })
  registers :
      (i : ℕ)
      → i < s.next
      → s.stages i ≡ spawned
      → s.locked ≡ false
      → Step s (record s {
        stages = write s.stages i registered;
        active_connections = i ∷ s.active_connections;
      })
  unregisters :
      (i : ℕ)
      → i < s.next
      → s.stages i ≡ registered
      → s.locked ≡ false
      → Step s (record s {
        stages = write s.stages i unregistered;
        active_connections = delete i s.active_connections;
      })
  returns :
      (i : ℕ)
      → i < s.next
      → s.stages i ≡ unregistered
      → Step s (record s {
        stages = write s.stages i returned;
        is_open = write s.is_open i false;
        wg = s.wg - 1;
      })
  begins_close : s.closing ≡ not_called → Step s (record s { done = true; closing = at_listener })
  closes_listener :
      s.closing ≡ at_listener → Step s (record s { listening = false; closing = at_lock })
  locks :
      s.closing ≡ at_lock
      → s.locked ≡ false
      → Step s (record s { locked = true; closing = at_connections s.active_connections })
  fails_listener : s.closing ≡ at_listener → Step s (record s { closing = failed })
  closes_connection :
      (before : List ℕ) (i : ℕ) (after : List ℕ)
      → s.closing ≡ at_connections (before ++ i ∷ after)
      → Step s (record s {
        is_open = write s.is_open i false;
        closing = at_connections (before ++ after);
      })
  fails_connection :
      (before : List ℕ) (i : ℕ) (after : List ℕ)
      → s.closing ≡ at_connections (before ++ i ∷ after)
      → Step s (record s { closing = failed })
  unlocks : s.closing ≡ at_connections [] → Step s (record s { locked = false; closing = at_wait })
  waits : s.closing ≡ at_wait → s.wg ≡ 0 → Step s (record s { closing = closed })

pub data Steps (s : Server) : Server → Type 0 where
  begin : Steps s s
  then_step : {s' s'' : Server} → Steps s s' → Step s' s'' → Steps s s''
