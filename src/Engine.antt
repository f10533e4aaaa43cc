-- ===== src/Engine.antt =====
-- internal/engine/engine.go: the batching engine. A call runs in steps, each under the mutex; between
-- them it waits for its channel, and other steps run. `local_counters` is a pointer that operations in
-- flight share, so maps live in a store, by address.
pub mod Learning
pub mod Committed
pub mod Pending
pub mod Growing
pub mod Answering
pub mod Answers
pub mod Reads
pub mod Unanswered
pub mod Flusher
pub mod Startup
use suffren.Base.{
  ℕ, ◌+◌, Bool, true, false, Option, none, some, String, List, [], ◌∷◌, leb, ◌==◌, if◌then◌else◌,
  nat_key, write,
}
use suffren.GoMap.{GoMap, put, remove}
use suffren.Crdt.GCounter.{NodeId}
use suffren.Crdt.CounterMap as Counters
use suffren.Crdt.CounterMap.{CounterMap, value_for_key}

-- `proposed_value` is the address of a map, `done` the name of a channel of one place.
pub record PendingOp : Type 0 where
  pub proposed_value : ℕ
  pub done : ℕ

-- `maps` and `channels` say what each address and each channel holds, and `next` is the first name
-- that is free. `flush_trigger` says whether the channel of one place holds a signal.
pub record Engine : Type 0 where
  pub node_id : NodeId
  pub max_batch_size : ℕ
  pub maps : ℕ → CounterMap
  pub channels : ℕ → Option CounterMap
  pub next : ℕ
  pub local_counters : ℕ
  pub op_id : ℕ
  pub pending : GoMap ℕ PendingOp
  pub unflushed_ops : ℕ
  pub flush_trigger : Bool

-- The map that `local_counters` points to.
abbrev pub local_map : Engine → CounterMap
local_map s = s.maps s.local_counters

-- `pending` after the registration of a map under the present `op_id`, with a new channel.
unfoldable pub register_pending : Engine → ℕ → Engine
unfolding write put
register_pending s proposed = record s {
  channels = write s.channels s.next none;
  next = s.next + 1;
  op_id = s.op_id + 1;
  pending = put s.op_id (record { proposed_value = proposed; done = s.next }) s.pending;
}

unfoldable pub unregister_pending : Engine → ℕ → Engine
unfolding remove
unregister_pending s op_id = record s { pending = remove op_id s.pending }

-- A trigger that is already full stays so.
unfoldable pub add_op_to_batch : Engine → Engine
add_op_to_batch s = record s {
  unflushed_ops = s.unflushed_ops + 1;
  flush_trigger = if leb s.max_batch_size (s.unflushed_ops + 1) then true else s.flush_trigger;
}

-- The calls up to their wait, and what each then waits for: its operation and its channel.
unfoldable pub value_begins : Engine → Engine × ℕ × ℕ
unfolding register_pending add_op_to_batch
value_begins s = (add_op_to_batch (register_pending s s.local_counters), s.op_id, s.next)

unfoldable pub increment_begins : Engine → String → ℕ → Engine × ℕ × ℕ
unfolding value_begins write
increment_begins s key value = value_begins (record s {
  maps = write s.maps s.local_counters (Counters.increment_key (local_map s) key s.node_id value);
})

-- The rest of either call: `arrived` says whether the select took the channel rather than the timeout.
-- It can take the channel only when that holds a value: with an empty one the call still waits.
unfoldable pub call_ends : Engine → ℕ → ℕ → Bool → String → Engine × Option ℕ
unfolding unregister_pending
call_ends s op_id done arrived key =
    if arrived
    then elim (s.channels done) [
      | some learned ↦ (
        unregister_pending (record s { channels = write s.channels done none }) op_id,
        some (value_for_key learned key),
      )
      | none ↦ (s, none)
    ]
    else (unregister_pending s op_id, none)

abbrev pub value_for_key_local : Engine → String → ℕ
value_for_key_local s key = value_for_key (local_map s) key

-- What `flush` proposes, if it proposes anything.
unfoldable pub flush : Engine → Engine × Option CounterMap
flush s =
    if s.unflushed_ops == 0
    then (s, none)
    else (record s { unflushed_ops = 0 }, some (Counters.copy (local_map s)))

-- `sync` up to its wait, with the map that it proposes, and after it.
unfoldable pub sync_begins : Engine → Engine × ℕ × CounterMap
unfolding write register_pending
sync_begins s =
    let proposed = Counters.copy (local_map s) in
    (
      register_pending (record s { maps = write s.maps s.next proposed; next = s.next + 1 }) s.next,
      s.next + 1,
      proposed,
    )

unfoldable pub sync_ends : Engine → ℕ → Bool → Engine × Bool
unfolding write
sync_ends s done arrived =
    if arrived
    then elim (s.channels done) [
      | some value ↦ (
        record s {
          channels = write s.channels done none;
          maps = write s.maps s.next value;
          local_counters = s.next;
          next = s.next + 1;
        },
        true,
      )
      | none ↦ (s, false)
    ]
    else (s, false)

-- One round of the loop of the learn callback.
unfoldable pub signal : CounterMap → Engine → ℕ → PendingOp → Engine
unfolding write remove
signal learned s op_id op =
    if Counters.is_in (s.maps op.proposed_value) learned
    then elim (s.channels op.done) [
      | none ↦ record s {
        channels = write s.channels op.done (some (Counters.copy (local_map s)));
        pending = remove op_id s.pending;
      }
      | some value ↦ s
    ]
    else s

-- Go visits each operation once, even if others are deleted meanwhile.
unfoldable pub signal_all : CounterMap → GoMap ℕ PendingOp → Engine → Engine
unfolding signal
signal_all learned [] s = s
signal_all learned ((op_id, op) ∷ ops) s = signal_all learned ops (signal learned s op_id op)

unfoldable pub on_learn : Engine → CounterMap → Engine
unfolding write signal_all
on_learn s learned = signal_all learned s.pending (record s {
  maps = write s.maps s.local_counters (Counters.merge_in_place (local_map s) learned);
})
