-- ===== src/Tests/Increments.antt =====
-- The results about an increment and its answer, and about a read after it, at an engine that begins at the empty map.
use suffren.Base.{◌+◌, ◌<◌, ◌≤◌, ◌≡◌, arith, refl, true, false, none, some, [], write, ℕ_discrete}
use suffren.Engine.{local_map, Engine, increment_begins, value_begins, call_ends, flush, on_learn}
use suffren.Engine.Flusher.{Running, start, then_step, ticks, flushes, learns, Steps}
use suffren.Engine.Answering.{Justified}
use suffren.Engine.Answers.{incremented, learnt_in, increment_begins-Justified}
use suffren.Engine.Unanswered.{on_learn-blocks}
use suffren.Crdt.GCounter.{count, uint64_mod}
use suffren.Crdt.CounterMap.{counter_or_new}
use suffren.Engine.Reads.{value_begins-reads_own}
use suffren.Tests.Data.{five, five-IsUniform, empty, both, empty-IsUniform, both-IsUniform, crdt}

abbrev pub engine : Engine
engine = record {
  node_id = "N1";
  max_batch_size = 10;
  maps = λ a. empty;
  channels = λ c. none;
  next = 1;
  local_counters = 0;
  op_id = 0;
  pending = [];
  unflushed_ops = 0;
  flush_trigger = false;
}

-- An increment of 5, a tick and a flush; then a value is learned in which N2 has added 3.
abbrev begun : Running
begun = record { engine = (increment_begins engine "k" 5).0; awake = false }

abbrev ended : Running
ended = record { engine = on_learn (flush begun.engine).0 both; awake = false }

abbrev steps : Steps begun ended
steps = then_step (then_step (then_step start (ticks refl)) (flushes refl)) (learns both)

answered : ended.engine.channels 1 ≡ some both
unfolding increment_begins crdt on_learn flush ℕ_discrete write
answered = refl

increment_begins-Justified_example : Justified (incremented engine "k" 5) both (learnt_in steps)
unfolding increment_begins
increment_begins-Justified_example =
    increment_begins-Justified engine "k" 5 false ended empty-IsUniform.is_map tt steps
      (((tt, tt), tt), both-IsUniform.is_map) both answered

-- Run: the caller is told 8.
told : (call_ends ended.engine 0 1 true "k").1 ≡ some 8
unfolding increment_begins crdt on_learn flush call_ends write
told = refl

-- A read begins before the increment is flushed.
abbrev read_begun : Running
read_begun = record { engine = (value_begins begun.engine).0; awake = false }

abbrev read_ended : Running
read_ended = record { engine = on_learn (flush read_begun.engine).0 both; awake = false }

abbrev read_steps : Steps read_begun read_ended
read_steps = then_step (then_step (then_step start (ticks refl)) (flushes refl)) (learns both)

read_answered : read_ended.engine.channels 2 ≡ some both
unfolding increment_begins crdt on_learn flush ℕ_discrete write
read_answered = refl

value_begins-reads_own_example : Justified (incremented engine "k" 5) both (learnt_in read_steps)
unfolding increment_begins crdt
value_begins-reads_own_example =
    value_begins-reads_own engine "k" 5 false false begun read_ended empty-IsUniform.is_map tt
      (omega arith) start tt read_steps (((tt, tt), tt), both-IsUniform.is_map) both read_answered

-- A second increment, by 3, begins before the first is learned.
silent : begun.engine.channels 1 ≡ none
unfolding increment_begins
silent = refl

seen_by_five :
    count "N1" (counter_or_new five "k").counts
    ≤ count "N1" (counter_or_new (local_map begun.engine) "k").counts
unfolding increment_begins crdt
seen_by_five = omega arith

has_room : count "N1" (counter_or_new (local_map begun.engine) "k").counts + 3 < uint64_mod
unfolding increment_begins crdt
has_room = omega arith

on_learn-blocks_example : (on_learn (increment_begins begun.engine "k" 3).0 five).channels 1 ≡ none
unfolding increment_begins
on_learn-blocks_example =
    on_learn-blocks engine "k" "k" 5 3 false begun five empty-IsUniform.is_map tt start tt silent
      (omega arith) has_room five-IsUniform.is_map seen_by_five

-- With the first increment alone it is answered.
not_blocked : (on_learn begun.engine five).channels 1 ≡ some five
unfolding increment_begins crdt on_learn write
not_blocked = refl
