-- ===== src/Core/Pool/Owners.antt =====
-- Who holds the sandbox of an identifier: the pool's queue, its creation tasks, the callers of
-- `acquire`, and those to whom a call has returned it.
pub mod Moves
pub mod Distinct
pub mod Acquires
use petty.Shared.{
  ℕ, ◌+◌, ◌≤◌, ◌<◌, ◌≡◌, ◌⊎◌, List, [], ◌∷◌, Option, none, some, if◌then◌else◌, ◌==◌, length,
}
use petty.Shared.Result.{Result, ok, err}
use petty.Host.{Uuid, Trace}
use petty.Core.Error.{CoreError}
use petty.Core.Sandbox.{Sandbox, Libraries}
use petty.Core.Sandbox.Owners.{one, of_answer}
use petty.Core.Pool.{Task, spawned, booted, adding}
use petty.Core.Pool.Caller.{Caller, trying, checking, answer_at}
use petty.Core.Pool.Schedule.{
  System, Turn, starts, fills, acquires, signals, finishes, works, asks, step,
}

module _ (i : Uuid) where
  abbrev pub in_queue : List Sandbox → ℕ
  in_queue [] = 0
  in_queue (s ∷ q) = one i s + in_queue q

  abbrev pub of_task : Task → ℕ
  of_task (spawned c) = 0
  of_task (booted s) = one i s
  of_task (adding s) = one i s

  abbrev pub in_tasks : List Task → ℕ
  in_tasks [] = 0
  in_tasks (x ∷ ts) = of_task x + in_tasks ts

  abbrev pub of_caller : Caller → ℕ
  of_caller trying = 0
  of_caller (checking s) = one i s

  abbrev pub in_callers : List Caller → ℕ
  in_callers [] = 0
  in_callers (c ∷ cs) = of_caller c + in_callers cs

  -- How many of the places in the pool hold a sandbox of this identifier.
  abbrev pub held : System → ℕ
  held y = in_queue y.pool.queue + in_tasks y.tasks + in_callers y.callers

  module _ (l : Libraries) where
    -- Whether a turn returns a sandbox of this identifier to a caller, and how many turns of a run do.
    abbrev pub given : Turn → System → ℕ
    given (asks k) y = of_answer i (answer_at l k y.callers y.pool y.trace)
    given _ y = 0

    unfoldable pub handed_out : List Turn → System → ℕ
    handed_out [] y = 0
    handed_out (o ∷ os) y = given o y + handed_out os (step l o y)
