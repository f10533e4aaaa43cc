-- ===== src/Node.antt =====
-- internal/node/node.go: a node between its network and the router. The network service and the start
-- of the roles are parameters.
pub mod Stopped
use suffren.Base.{
  ℕ, ◌+◌, ◌-◌, ◌≡◌, Bool, true, false, Option, none, some, String, List, [], ◌∷◌, ◌++◌,
  if◌then◌else◌,
}
use suffren.Crdt.GCounter.{NodeId}
use suffren.Protocol.{Command, Message, new_message}
use suffren.Agreement.Router.{MessageRouter, handle_incoming_message}

-- The calls of `NetworkService` and of the agreement, on the state of the world; `false` is an error.
pub record Services (W L : Type 0) : Type 0 where
  pub listen : W → W × Bool
  pub send : W → NodeId → Message L → W × Bool
  pub close : W → W × Bool
  pub start_agreement : W → W
  pub stop_agreement : W → W

-- `incoming` is what the channel of the network holds, `closed` says that the network has closed it,
-- `spawned` are the messages whose goroutines have not looked at `done` yet, and
-- `passed` those whose goroutines have found it open. `dispatching` says that the loop
-- of `handleIncomingMsgChannel` runs. `wg` is the counter of the wait group, and `waited` says that the `Wait`
-- of `Stop` has returned.
pub record Node (L : Type 0) : Type 0 where
  pub id : NodeId
  pub router : MessageRouter L
  pub incoming : List (Message L)
  pub closed : Bool
  pub spawned : List (Message L)
  pub passed : List (Message L)
  pub dispatching : Bool
  pub done : Bool
  pub wg : ℕ
  pub waited : Bool

unfoldable pub new_node : {L : Type 0} → NodeId → MessageRouter L → Node L
new_node id router = record {
  id = id;
  router = router;
  incoming = [];
  closed = false;
  spawned = [];
  passed = [];
  dispatching = false;
  done = false;
  wg = 0;
  waited = false;
}

-- The goroutine of the loop is added to the wait group and started.
abbrev pub dispatching_from : {L : Type 0} → Node L → Node L
dispatching_from n = record n { dispatching = true; wg = n.wg + 1 }

module _ {W L : Type 0} (services : Services W L) where
  -- The second result says whether there was no error.
  unfoldable pub start : W → Node L → W × Node L × Bool
  start w n =
      let (w1, listening) = services.listen w in
      if listening then (services.start_agreement w1, dispatching_from n, true) else (w1, n, false)

  unfoldable pub send_to : W → Node L → NodeId → Command L → W × Bool
  unfolding new_message
  send_to w n node_id cmd = services.send w node_id (new_message n.id cmd)

  -- The rest of `Stop`, once `done` is closed and the goroutines have returned; it logs an error.
  unfoldable pub stop_services : W → W
  stop_services w = (services.close (services.stop_agreement w)).0

-- The goroutine of one message that found `done` open, at its last call.
unfoldable pub deliver : {L : Type 0} → Node L → Message L → Node L
unfolding handle_incoming_message
deliver n msg = record n { router = handle_incoming_message n.router msg }

-- What may happen next: the network brings a message or closes its channel, the loop takes one or
-- ends, a goroutine goes on, `Stop` closes `done`, or its `Wait` returns. Where both are ready the select takes either.
pub data Step {L : Type 0} : Node L → Node L → Type 0 where
  arrives : {n : Node L} (msg : Message L) → Step n (record n { incoming = n.incoming ++ msg ∷ [] })
  hangs_up : {n : Node L} → Step n (record n { closed = true })
  dispatches :
      {n : Node L} (msg : Message L) (rest : List (Message L))
      → n.dispatching ≡ true
      → n.incoming ≡ msg ∷ rest
      → Step n (record n { incoming = rest; spawned = n.spawned ++ msg ∷ []; wg = n.wg + 1 })
  shuts_down :
      {n : Node L}
      → n.dispatching ≡ true
      → n.done ≡ true
      → Step n (record n { dispatching = false; wg = n.wg - 1 })
  drains :
      {n : Node L}
      → n.dispatching ≡ true
      → n.closed ≡ true
      → n.incoming ≡ []
      → Step n (record n { dispatching = false; wg = n.wg - 1 })
  passes :
      {n : Node L} (before : List (Message L)) (msg : Message L) (after : List (Message L))
      → n.done ≡ false
      → n.spawned ≡ before ++ msg ∷ after
      → Step n (record n { spawned = before ++ after; passed = n.passed ++ msg ∷ [] })
  gives_up :
      {n : Node L} (before : List (Message L)) (msg : Message L) (after : List (Message L))
      → n.done ≡ true
      → n.spawned ≡ before ++ msg ∷ after
      → Step n (record n { spawned = before ++ after; wg = n.wg - 1 })
  delivers :
      {n : Node L} (before : List (Message L)) (msg : Message L) (after : List (Message L))
      → n.passed ≡ before ++ msg ∷ after
      → Step n (deliver (record n { passed = before ++ after; wg = n.wg - 1 }) msg)
  stops : {n : Node L} → Step n (record n { done = true })
  waits : {n : Node L} → n.done ≡ true → n.wg ≡ 0 → Step n (record n { waited = true })

pub data Steps {L : Type 0} (n : Node L) : Node L → Type 0 where
  begin : Steps n n
  then_step : {n' n'' : Node L} → Steps n n' → Step n' n'' → Steps n n''
