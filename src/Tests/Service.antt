-- ===== src/Tests/Service.antt =====
-- The results about the router and the engine, at node N1.
use suffren.Base.{
  ◌⊎◌, ◌<◌, length, [], ◌∷◌, ℕ, ◌+◌, ◌≤◌, Bool, ◌≡◌, refl, ◌↔◌, inl, true, false, none, some, [],
  arith,
}
use suffren.Crdt.CounterMap as Counters
use suffren.Crdt.CounterMap.{CounterMap}
use suffren.Crdt.CounterMap.Lawful.{counter_map_lattice}
use suffren.Protocol.{Message, message, propose, ack}
use suffren.Agreement.Router.{
  MessageRouter, new_lattice_agreement, handle_incoming_message, start, then_step, arrives,
}
use suffren.Agreement.Router.Mailboxes.{IsSorted, steps-IsSorted}
use suffren.Engine.{Engine, flush, local_map, on_learn, increment_begins}
use suffren.Engine.Flusher.{Running, start, then_step, increments, ticks, flushes}
use suffren.Engine.Flusher.Batches.{IsSignalled, steps-IsSignalled}
use suffren.Engine.Learning.{merged, Served, on_learn-signals_iff}
use suffren.Engine.Startup.{World, start as start_engine}
use suffren.Engine.Startup.Terminates.{IsWorld, start-ends}
use suffren.Node.{
  Node, new_node, deliver, dispatching_from, Steps, begin, then_step, arrives, dispatches, passes,
  delivers, stops,
}
use suffren.Node.Stopped.{stop-silences}
use suffren.Tests.Data.{peers, empty, five, crdt}

-- A router with room for one message in each mailbox: the second proposal is dropped.
abbrev router : MessageRouter CounterMap
unfolding new_lattice_agreement
router = new_lattice_agreement "N1" peers empty true 1

abbrev routed : MessageRouter CounterMap
routed =
    handle_incoming_message
      (handle_incoming_message (handle_incoming_message router (message "N2" propose (some five)))
        (message "N3" propose (some five)))
      (message "N3" ack (some five))

router-IsSorted : IsSorted router
unfolding router
router-IsSorted = record {
  for_proposer = record { kinds = tt; bounded = omega arith };
  for_acceptor = record { kinds = tt; bounded = omega arith };
  for_learner = record { kinds = tt; bounded = omega arith };
}

steps-IsSorted_example : IsSorted routed
steps-IsSorted_example =
    steps-IsSorted counter_map_lattice router routed router-IsSorted
      (then_step (then_step (then_step start (arrives _)) (arrives _)) (arrives _))

-- An engine at the empty map, with one increment of 5 in flight, and then another of 3.
abbrev engine : Engine
engine = record {
  node_id = "N1";
  max_batch_size = 10;
  maps = λ a. empty;
  channels = λ c. none;
  next = 1;
  local_counters = 0;
  op_id = 0;
  pending = [];
  unflushed_ops = 0;
  flush_trigger = false;
}

abbrev waiting : Engine
waiting = (increment_begins engine "k" 5).0

waiting-empty : waiting.channels 1 ≡ none
unfolding increment_begins
waiting-empty = refl

on_learn-signals_iff_example :
    (((on_learn waiting five).channels 1 ≡ some (Counters.copy (local_map (merged waiting five))))
      ↔ Served (merged waiting five) five 1 waiting.pending)
    × ((¬ Served (merged waiting five) five 1 waiting.pending)
        → (on_learn waiting five).channels 1 ≡ none)
on_learn-signals_iff_example = on_learn-signals_iff waiting five 1 waiting-empty

served : Served (merged waiting five) five 1 waiting.pending
unfolding increment_begins crdt
served = inl (refl, refl)

-- The flusher is asleep at the start of an engine.
abbrev running : Running
running = record { engine = engine; awake = false }

running-IsSignalled : IsSignalled running
running-IsSignalled = record {
  batch = omega arith;
  signalled = λ full. absurd (omega (arith, full));
}

-- An increment, a tick of the timer and the flush that follows.
steps-IsSignalled_example :
    IsSignalled (record { engine = (flush (increment_begins engine "k" 5).0).0; awake = false })
steps-IsSignalled_example =
    steps-IsSignalled running
      (record { engine = (flush (increment_begins engine "k" 5).0).0; awake = false })
      running-IsSignalled
      (then_step (then_step (then_step start (increments "k" 5)) (ticks refl)) (flushes refl))

-- A world of milliseconds in which every sync fails after two seconds.
abbrev world : World ℕ
world = record {
  now = λ w. w;
  start_node = λ w. (w, true);
  sync = λ w. (w + 2000, false);
  sleep = λ w ms. w + ms;
  run_loops = λ w. w;
  stop_node = λ w. w;
  close_stop_channel = λ w. w;
}

world-IsWorld : IsWorld world
world-IsWorld = record { sync_later = λ w. omega arith; sleep_later = λ w ms. omega arith }

start-ends_example :
    (w' : ℕ) × (started : Bool) × (start_engine world 42 20000 7 ≡ some (w', started))
    × (started ≡ false
        → ((world.start_node 7).1 ≡ false)
          ⊎ (world.now (world.start_node 7).0 + 20000 ≤ world.now w'))
start-ends_example = start-ends world world-IsWorld 42 20000 7 (omega arith)

-- A node has taken a message, whose goroutine found `done` open, when `Stop` begins, and delivers it
-- then.
abbrev node : Node CounterMap
node = dispatching_from (new_node "N1" router)

abbrev asked : Message CounterMap
asked = message "N2" propose (some five)

abbrev stopping : Node CounterMap
stopping = record node { passed = asked ∷ []; done = true; wg = 2 }

node_stops : Steps node stopping
unfolding new_node
node_stops =
    then_step
      (then_step (then_step (then_step begin (arrives asked)) (dispatches asked [] refl refl))
        (passes [] asked [] refl refl))
      stops

abbrev stopped : Node CounterMap
stopped = deliver (record stopping { passed = []; wg = 1 }) asked

stop-silences_example :
    (length stopped.passed ≤ length stopping.passed)
    × ((stopped.router ≡ stopping.router)
        ⊎ ((stopping.waited ≡ false) × (length stopped.passed < length stopping.passed)))
stop-silences_example =
    stop-silences "N1" router stopping stopped node_stops refl
      (then_step begin (delivers [] asked [] refl))
