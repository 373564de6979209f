-- ===== src/Runtime/Engine/Serve.antt =====
-- crates/orion-runtime/src/engine.rs: the loop of the engine thread, with what it receives as data.
use orion_serve_rs.Prelude.{ℕ, Bool, true, false, Option, none, some, List, [], ◌∷◌, if◌then◌else◌}
use orion_serve_rs.Core.Sequence.{SamplingParams}
use orion_serve_rs.Scheduler.State.{has_work}
use orion_serve_rs.Runtime.Engine.{Engine, Services, engine_stats}
use orion_serve_rs.Runtime.Engine.Calls.{submit, cancel}
use orion_serve_rs.Runtime.Engine.Step.{step}

pub data Command : Type 0 where
  generate : List ℕ → SamplingParams → Command
  cancel_command : ℕ → Command
  stats_command : Command
  shutdown : Command

-- What the thread receives in one turn of its loop: the commands that wait, whether the channel is
-- still open after them, and the command that ends an idle wait. The clock is read at each call.
pub record Turn : Type 0 where
  pub pending : List Command
  pub is_connected : Bool
  pub next : Option Command
  pub clock : ℕ → ℕ

module _ {S : Type 0} (w : Services S) where
  -- The flag says whether the thread goes on.
  unfoldable pub handle : ℕ → Command → Engine S → Bool × Engine S
  unfolding submit cancel engine_stats
  handle now (generate prompt params) e = (true, submit w now e prompt params)
  handle now (cancel_command id) e = (true, cancel w e id)
  handle now stats_command e = (true, record e { reports = engine_stats e ∷ e.reports })
  handle now shutdown e = (false, e)

  abbrev pub and_on : Bool × Engine S → (Engine S → Bool × Engine S) → Bool × Engine S
  and_on (true, e) rest = rest e
  and_on (false, e) rest = (false, e)

  unfoldable pub drain : ℕ → List Command → Engine S → Bool × Engine S
  unfolding handle
  drain now [] e = (true, e)
  drain now (c ∷ cs) e = and_on (handle now c e) (drain now cs)

  abbrev pub wait : ℕ → Option Command → Engine S → Bool × Engine S
  wait now none e = (false, e)
  wait now (some c) e = handle now c e

  -- A failed step is logged, and the loop goes on.
  unfoldable pub turn : Turn → Engine S → Bool × Engine S
  unfolding drain has_work step handle
  turn t e = and_on (drain (t.clock 0) t.pending e) (λ e1.
      if t.is_connected
      then (if has_work e1.scheduler
          then (true, (step w t.clock e1).1)
          else wait (t.clock 0) t.next e1)
      else (false, e1))

  unfoldable pub serve : List Turn → Engine S → Engine S
  unfolding turn
  serve [] e = e
  serve (t ∷ ts) e = (and_on (turn t e) (λ e1. (true, serve ts e1))).1
