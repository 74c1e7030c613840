-- ===== src/Mcp/Session.antt =====
-- The server in operation: tool calls between the steps of the pool's filler and creation tasks.
pub mod Calls
pub mod Bounds
pub mod Owners
pub mod Distinct
pub mod Signalled
use petty.Shared.{ℕ, List, [], ◌∷◌, Option, none, some}
use petty.Text.{Str}
use petty.Host.{Trace}
use petty.Core.Sandbox.{Libraries}
use petty.Core.Manager
use petty.Core.Pool.{SandboxPool, Task, filler_turn, signal_shutdown, finish_shutdown}
use petty.Core.Pool.Schedule.{work}
use petty.Mcp.Tools.{Tools}
use petty.Mcp.Server.{Server, start_pool}
use petty.Mcp.Server.Handlers.{call_tool}

-- The server, the creation tasks of its pool, and the host's trace.
pub record Session : Type 0 where
  pub server : Server
  pub tasks : List Task
  pub trace : Trace

module _ (l : Libraries) (r : Tools) where
  open r use {Arguments}

  -- What happens next: a request, the pool's start or shutdown, a turn of its filler, one step of a
  -- creation task, by its place, or the destruction of all sandboxes at the end of `main`.
  pub data Event : Type 0 where
    calls : Str → Option Arguments → Event
    starts fills signals finishes clears : Event
    works : ℕ → Event

  abbrev pub Background : Type 0
  Background = SandboxPool → List Task → Trace → List Task × SandboxPool × Trace

  abbrev pub filling : Background
  filling p ts t = let (p', ts') = filler_turn p ts in (ts', p', t)

  abbrev pub signalling : Background
  signalling p ts t = (ts, signal_shutdown p, t)

  abbrev pub finishing : Background
  finishing p ts t = let (p', t') = finish_shutdown l p t in (ts, p', t')

  abbrev pub working : ℕ → Background
  working i p ts t = work l i ts p t

  unfoldable pub on_pool : Background → Session → Session
  on_pool f y = elim (y.server.pool) [
    | none ↦ y
    | some p ↦
        let (ts, p', t) = f p y.tasks y.trace in
        record { server = record (y.server) { pool = some p' }; tasks = ts; trace = t }
  ]

  unfoldable pub step : Event → Session → Session
  unfolding on_pool
  step (calls name args) y =
      let (_, s, t) = call_tool l r name args y.server y.trace in record y { server = s; trace = t }
  step starts y = record y { server = start_pool y.server }
  step fills y = on_pool filling y
  step signals y = on_pool signalling y
  step finishes y = on_pool finishing y
  step (works i) y = on_pool (working i) y
  step clears y =
      let (_, m, t) = Manager.destroy_all l y.server.manager y.trace in
      record y { server = record (y.server) { manager = m }; trace = t }

  unfoldable pub run : List Event → Session → Session
  run [] y = y
  run (e ∷ es) y = run es (step e y)
