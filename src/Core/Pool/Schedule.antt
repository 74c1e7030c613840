-- ===== src/Core/Pool/Schedule.antt =====
-- The pool under any interleaving of its callers, its filler and its creation tasks.
pub mod Bounds
pub mod Shutdown
pub mod Flag
pub mod Ready
pub mod Acquires
pub mod Spawns
pub mod Fills
use petty.Shared.{ℕ, zero, suc, List, [], ◌∷◌, ◌++◌, Option, none, some}
use petty.Host.{Trace}
use petty.Core.Sandbox.{Libraries}
use petty.Core.Pool.Caller.{Caller, trying, ask}
use petty.Core.Pool.{
  SandboxPool, Task, start, filler_turn, task_step, signal_shutdown, finish_shutdown,
}

-- The pool, its creation tasks in the order in which they were spawned, the callers of `acquire`,
-- and the host's trace.
pub record System : Type 0 where
  pub pool : SandboxPool
  pub tasks : List Task
  pub callers : List Caller
  pub trace : Trace

-- What runs next: a method of the pool, of which `acquire` only gets its caller, a turn of the filler,
-- or one step of a creation task or of a caller, by its place.
pub data Turn : Type 0 where
  starts fills acquires signals finishes : Turn
  works asks : ℕ → Turn

abbrev pub replace : Option Task → List Task → List Task
replace none ts = ts
replace (some x) ts = x ∷ ts

module _ (l : Libraries) where
  -- One step of the task in place `i`; a task that has ended leaves the list.
  unfoldable pub work : ℕ → List Task → SandboxPool → Trace → List Task × SandboxPool × Trace
  work i [] p t = ([], p, t)
  work zero (x ∷ ts) p t = let (o, p', t') = task_step l x p t in (replace o ts, p', t')
  work (suc i) (x ∷ ts) p t = let (ts', p', t') = work i ts p t in (x ∷ ts', p', t')

  unfoldable pub step : Turn → System → System
  unfolding work
  step starts y = record y { pool = start y.pool }
  step fills y = let (p, ts) = filler_turn y.pool y.tasks in record y { pool = p; tasks = ts }
  step acquires y = record y { callers = y.callers ++ trying ∷ [] }
  step signals y = record y { pool = signal_shutdown y.pool }
  step finishes y =
      let (p, t) = finish_shutdown l y.pool y.trace in record y { pool = p; trace = t }
  step (works i) y =
      let (ts, p, t) = work i y.tasks y.pool y.trace in record y { pool = p; tasks = ts; trace = t }
  step (asks i) y =
      let (cs, p, t) = ask l i y.callers y.pool y.trace in
      record y { pool = p; callers = cs; trace = t }

  unfoldable pub run : List Turn → System → System
  run [] y = y
  run (o ∷ os) y = run os (step o y)
