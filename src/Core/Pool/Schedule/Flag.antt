-- ===== src/Core/Pool/Schedule/Flag.antt =====
-- The shutdown flag under the steps of the filler and of the creation tasks.
use petty.Shared.{ℕ, zero, suc, ◌≡◌, refl, List, [], ◌∷◌, true, arith}
use petty.Host.{Trace}
use petty.Core.Sandbox.{Libraries}
use petty.Core.Pool.{
  SandboxPool, Task, Filler, running, absent, exited, turn, fill, filler_turn, task_step, boot_done,
  spawned, booted, adding,
}
use petty.Core.Pool.Schedule.{work}

module _ (l : Libraries) where
  pub filler_turn-shutdown :
      (p : SandboxPool) (ts : List Task) → p.shutdown ≡ true → (filler_turn p ts).0.shutdown ≡ true
  unfolding filler_turn
  filler_turn-shutdown p ts h = by_filler p.filler
    where
      by_filler : (f : Filler) → (turn f p ts).0.shutdown ≡ true
      by_filler absent = h
      by_filler exited = h
      by_filler running = rw (h, fill) h

  task_step-shutdown :
      (x : Task) (p : SandboxPool) (t : Trace) → (task_step l x p t).1.shutdown ≡ p.shutdown
  unfolding task_step boot_done
  task_step-shutdown (spawned c) p t = ground arith
  task_step-shutdown (booted s) p t = ground arith
  task_step-shutdown (adding s) p t = ground arith

  pub work-shutdown :
      (i : ℕ) (ts : List Task) (p : SandboxPool) (t : Trace)
      → (work l i ts p t).1.shutdown ≡ p.shutdown
  unfolding work
  work-shutdown i [] p t = refl
  work-shutdown zero (x ∷ ts) p t = task_step-shutdown x p t
  work-shutdown (suc i) (x ∷ ts) p t = work-shutdown i ts p t
