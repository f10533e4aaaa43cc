-- ===== src/Agreement/Output.antt =====
-- What a handler sets off: the calls of the interface `Network` and of the learn callback. The
-- source makes each in a goroutine of its own, after the state has changed; the network may fail,
-- which the handlers only log.
use suffren.Crdt.GCounter.{NodeId}
use suffren.Protocol.{Message}

pub data Output (L : Type 0) : Type 0 where
  send : NodeId → Message L → Output L
  broadcast : Message L → Output L
  broadcast_to_others : Message L → NodeId → Output L
  on_learn : L → Output L
