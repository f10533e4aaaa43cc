-- ===== src/Engine/Startup.antt =====
-- internal/engine/engine.go: `New`, `Start` and `Stop`, and the snapshots.
pub mod Terminates
use suffren.Base.{
  ℕ, zero, suc, ◌+◌, Bool, true, false, Option, none, some, String, List, [], map, ltb,
  if◌then◌else◌,
}
use suffren.GoMap.{GoMap}
use suffren.Crdt.GCounter.{NodeId}
use suffren.Crdt.CounterMap as Counters
use suffren.Crdt.CounterMap.{CounterMap}
use suffren.Agreement.Router.{MessageRouter, new_lattice_agreement}
use suffren.Engine.{Engine, local_map}
use suffren.Storage.{recover}

-- `New`, by what `Load` gives for the nodes of the peers: the engine, and the roles at the bottom.
unfoldable pub new_engine :
    NodeId
    → GoMap NodeId String
    → ℕ
    → ℕ
    → (List NodeId → Option CounterMap)
    → Engine × MessageRouter CounterMap
unfolding recover new_lattice_agreement Counters.bottom
new_engine node_id peers max_batch_size msg_chan_size load =
    let node_ids = map (λ e. e.0) peers in
    let state = recover (load node_ids) node_ids in
    (
      record {
        node_id = node_id;
        max_batch_size = max_batch_size;
        maps = λ a. state;
        channels = λ c. none;
        next = 1;
        local_counters = 0;
        op_id = 0;
        pending = [];
        unflushed_ops = 0;
        flush_trigger = false;
      },
      new_lattice_agreement node_id peers (Counters.bottom state) true msg_chan_size,
    )

-- The clock in milliseconds, and what `Start` calls, on the state of the world; `false` is an error.
-- `run_loops` starts the goroutines `flusher` and `snapshotLoop`.
pub record World (W : Type 0) : Type 0 where
  pub now : W → ℕ
  pub start_node : W → W × Bool
  pub sync : W → W × Bool
  pub sleep : W → ℕ → W
  pub run_loops : W → W
  pub stop_node : W → W
  pub close_stop_channel : W → W

module _ {W : Type 0} (world : World W) where
  -- The loop of `Start`, on fuel; `none` says that the fuel is spent.
  unfoldable pub sync_until : ℕ → ℕ → W → Option (W × Bool)
  sync_until zero deadline w = none
  sync_until (suc fuel) deadline w =
      let (w1, synced) = world.sync w in
      let retried = sync_until fuel deadline (world.sleep w1 500) in
      if ltb (world.now w) deadline
      then (if synced then some (world.run_loops w1, true) else retried)
      else some (w, false)

  unfoldable pub start : ℕ → ℕ → W → Option (W × Bool)
  unfolding sync_until
  start fuel startup_sync_timeout w =
      let (w1, started) = world.start_node w in
      let synced = sync_until fuel (world.now w1 + startup_sync_timeout) w1 in
      if started then synced else some (w1, false)

  unfoldable pub stop : W → W
  stop w = world.stop_node (world.close_stop_channel w)

-- What a snapshot saves, at a tick and when the engine stops; an error of `Save` is only logged.
unfoldable pub take_snapshot : {D : Type 0} → (D → CounterMap → D × Bool) → D → Engine → D
unfolding Counters.copy
take_snapshot save disk s = (save disk (Counters.copy (local_map s))).0
