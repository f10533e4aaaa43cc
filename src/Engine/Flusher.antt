-- ===== src/Engine/Flusher.antt =====
-- internal/engine/engine.go, the goroutine `flusher` beside the calls of the engine.
pub mod Batches
use suffren.Base.{ℕ, ◌≡◌, Bool, true, false, Option, String}
use suffren.Crdt.CounterMap.{CounterMap}
use suffren.Engine.{
  Engine, increment_begins, value_begins, call_ends, on_learn, flush, sync_begins, sync_ends,
}

-- `awake` says that the select has returned and `flush` has not run yet.
pub record Running : Type 0 where
  pub engine : Engine
  pub awake : Bool

-- What may happen next: a call begins or ends, a value is learned, or the flusher goes on. It wakes
-- at a tick of its timer or at the trigger, which it empties.
pub data Step : Running → Running → Type 0 where
  increments :
      {r : Running} (key : String) (value : ℕ)
      → Step r (record r { engine = (increment_begins r.engine key value).0 })
  reads : {r : Running} → Step r (record r { engine = (value_begins r.engine).0 })
  ends :
      {r : Running} (op_id done : ℕ) (arrived : Bool) (key : String)
      → Step r (record r { engine = (call_ends r.engine op_id done arrived key).0 })
  learns :
      {r : Running} (learned : CounterMap)
      → Step r (record r { engine = on_learn r.engine learned })
  ticks : {r : Running} → r.awake ≡ false → Step r (record r { awake = true })
  wakes :
      {r : Running}
      → r.awake ≡ false
      → r.engine.flush_trigger ≡ true
      → Step r (record { engine = record r.engine { flush_trigger = false }; awake = true })
  flushes :
      {r : Running}
      → r.awake ≡ true
      → Step r (record { engine = (flush r.engine).0; awake = false })

pub data Steps (r : Running) : Running → Type 0 where
  start : Steps r r
  then_step : {r' r'' : Running} → Steps r r' → Step r' r'' → Steps r r''
