-- ===== src/Core/Pool/Schedule/Ready.antt =====
-- The sandboxes that the pool holds and gives away are ready.
use petty.Shared.{
  ℕ, zero, suc, ◌≡◌, refl, Bool, true, false, List, [], ◌∷◌, Option, none, some, arith, All,
  All-append, length, if◌then◌else◌, Bool-cases, inl, inr, ◌==◌, ◌-◌, leb, if_both, subst, sym,
}
use petty.Shared.Result.{Result, ok, err}
use petty.Host.{Trace}
use petty.Core.Error.{CoreError}
use petty.Core.Config.{SandboxConfig}
use petty.Core.Sandbox.{Sandbox, Libraries, ready}
use petty.Core.Sandbox
use petty.Core.Sandbox.Create.{create_ok}
use petty.Core.Pool.{
  SandboxPool, PoolConfig, Task, spawned, booted, adding, Filler, absent, running, exited, turn,
  fill, spawn_rounds, start, filler_turn, task_step, boot_done, cold_start, signal_shutdown,
  finish_shutdown,
}
use petty.Core.Pool.Caller.{Caller, trying, checking, caller_step, take_front, ask, stay}
use petty.Core.Pool.Schedule.{
  System, Turn, starts, fills, acquires, signals, finishes, works, asks, work, step, run, replace,
}
use petty.Core.Pool.Schedule.Bounds.{initial}

abbrev pub IsReady : Sandbox → Type 0
IsReady s = s.state ≡ ready

abbrev pub TaskReady : Task → Type 0
TaskReady (spawned c) = Unit
TaskReady (booted s) = IsReady s
TaskReady (adding s) = IsReady s

abbrev pub CallerReady : Caller → Type 0
CallerReady trying = Unit
CallerReady (checking s) = IsReady s

-- Every sandbox in the queue, in a creation task and with a caller is ready.
pub record AllReady (y : System) : Type 0 where
  pub queue : All IsReady y.pool.queue
  pub tasks : All TaskReady y.tasks
  pub callers : All CallerReady y.callers

spawn_rounds-Ready :
    (n : ℕ) (p : SandboxPool) (ts : List Task)
    → All TaskReady ts
    → let (p', ts') = spawn_rounds n p ts in (p'.queue ≡ p.queue) × All TaskReady ts'
unfolding spawn_rounds
spawn_rounds-Ready zero p ts a = (refl, a)
spawn_rounds-Ready (suc n) p ts a = elim (Bool-cases (p.permits == 0)) [
  | inl full ↦ rw (full, spawn_rounds) (spawn_rounds-Ready n p ts a)
  | inr free ↦
      rw (free, spawn_rounds) (spawn_rounds-Ready n _ _ (All-append TaskReady ts _ a (tt, tt)))
]

abbrev SameQueue : SandboxPool → SandboxPool × List Task → Type 0
SameQueue p (p', ts') = (p'.queue ≡ p.queue) × All TaskReady ts'

fill-Ready : (p : SandboxPool) (ts : List Task) → All TaskReady ts → SameQueue p (fill p ts)
unfolding fill
fill-Ready p ts a = by_flag p.shutdown
  where
    by_flag :
        (b : Bool)
        → SameQueue p (elim b as (λ _. SandboxPool × List Task) [
          | true ↦ (record p { filler = exited }, ts)
          | false ↦
              if leb p.config.min_size (length p.queue)
              then (p, ts)
              else spawn_rounds (p.config.min_size - length p.queue) p ts
        ])
    by_flag true = (refl, a)
    by_flag false =
        if_both (SameQueue p) (leb p.config.min_size (length p.queue)) (p, ts) _ (refl, a)
          (spawn_rounds-Ready (p.config.min_size - length p.queue) p ts a)

filler_turn-Ready :
    (p : SandboxPool) (ts : List Task)
    → All TaskReady ts
    → let (p', ts') = filler_turn p ts in (p'.queue ≡ p.queue) × All TaskReady ts'
unfolding filler_turn
filler_turn-Ready p ts a = by_filler p.filler
  where
    by_filler : (f : Filler) → ((turn f p ts).0.queue ≡ p.queue) × All TaskReady (turn f p ts).1
    by_filler absent = (refl, a)
    by_filler exited = (refl, a)
    by_filler running = fill-Ready p ts a

abbrev OptionReady : Option Task → Type 0
OptionReady none = Unit
OptionReady (some x) = TaskReady x

abbrev Kept : SandboxPool → Option Task × SandboxPool × Trace → Type 0
Kept p (o, p', t) = OptionReady o × (All IsReady p.queue → All IsReady p'.queue)

module _ (l : Libraries) where
  boot_done-Kept :
      (c : SandboxConfig) (p : SandboxPool) (t : Trace) (r : Result CoreError Sandbox × Trace)
      → Sandbox.create l c t ≡ r
      → Kept p (boot_done l p r)
  unfolding boot_done
  boot_done-Kept c p t (ok s, u) h = let (_, _, q, _) = create_ok l c t u s h in (q, λ a. a)
  boot_done-Kept c p t (err x, u) h = (tt, λ a. a)

  task_step-Kept :
      (x : Task) (p : SandboxPool) (t : Trace) → TaskReady x → Kept p (task_step l x p t)
  unfolding task_step
  task_step-Kept (spawned c) p t h =
      if_both (Kept p) p.shutdown _ _ (tt, λ a. a)
        (boot_done-Kept c p t (Sandbox.create l c t) refl)
  task_step-Kept (booted s) p t h =
      if_both (Kept p) p.shutdown _ (some (adding s), p, t) (tt, λ a. a) (h, λ a. a)
  task_step-Kept (adding s) p t h =
      if_both (Kept p) (leb p.config.min_size (length p.queue)) _ _ (tt, λ a. a)
        (tt, λ a. All-append IsReady p.queue (s ∷ []) a (h, tt))

  work-Ready :
      (i : ℕ) (ts : List Task) (p : SandboxPool) (t : Trace)
      → All TaskReady ts
      → All IsReady p.queue
      → let (ts', p', _) = work l i ts p t in All TaskReady ts' × All IsReady p'.queue
  unfolding work
  work-Ready i [] p t a b = (tt, b)
  work-Ready zero (x ∷ ts) p t a b =
      let (o, k) = task_step-Kept x p t a.0 in (replaced (task_step l x p t).0 o, k b)
    where
      replaced : (o : Option Task) → OptionReady o → All TaskReady (replace o ts)
      replaced none h = a.1
      replaced (some y) h = (h, a.1)
  work-Ready (suc i) (x ∷ ts) p t a b = let (c, d) = work-Ready i ts p t a.1 b in ((a.0, c), d)

  pub is_healthy-state : (s : Sandbox) (t : Trace) → (Sandbox.is_healthy l s t).1.state ≡ s.state
  unfolding Sandbox.is_healthy
  is_healthy-state s t = ground arith

  abbrev pub OptionCallerReady : Option Caller → Type 0
  OptionCallerReady none = Unit
  OptionCallerReady (some c) = CallerReady c

  abbrev pub CallerKept : Option Caller × SandboxPool × Trace → Type 0
  CallerKept (o, p', t) = OptionCallerReady o × All IsReady p'.queue

  take_front-Kept :
      (q : List Sandbox) (p : SandboxPool) (t : Trace)
      → All IsReady p.queue
      → All IsReady q
      → CallerKept (take_front l q p t)
  unfolding take_front cold_start
  take_front-Kept [] p t a b = (tt, a)
  take_front-Kept (s ∷ rest) p t a b = (b.0, b.1)

  pub caller_step-Kept :
      (c : Caller) (p : SandboxPool) (t : Trace)
      → CallerReady c
      → All IsReady p.queue
      → CallerKept (caller_step l c p t)
  unfolding caller_step
  caller_step-Kept trying p t h a = take_front-Kept p.queue p t a a
  caller_step-Kept (checking s) p t h a =
      if_both CallerKept (Sandbox.is_healthy l s t).0 _ _ (tt, a) (tt, a)

  ask-Ready :
      (i : ℕ) (cs : List Caller) (p : SandboxPool) (t : Trace)
      → All CallerReady cs
      → All IsReady p.queue
      → let (cs', p', _) = ask l i cs p t in All CallerReady cs' × All IsReady p'.queue
  unfolding ask
  ask-Ready i [] p t a b = (tt, b)
  ask-Ready zero (c ∷ cs) p t a b =
      let (o, k) = caller_step-Kept c p t a.0 b in (stayed (caller_step l c p t).0 o, k)
    where
      stayed : (o : Option Caller) → OptionCallerReady o → All CallerReady (stay l o cs)
      stayed none h = a.1
      stayed (some d) h = (h, a.1)
  ask-Ready (suc i) (c ∷ cs) p t a b = let (d, e) = ask-Ready i cs p t a.1 b in ((a.0, d), e)

  pub step-AllReady : (o : Turn) (y : System) → AllReady y → AllReady (step l o y)
  unfolding step start signal_shutdown finish_shutdown
  step-AllReady starts y v = record { queue = v.queue; tasks = v.tasks; callers = v.callers }
  step-AllReady fills y v =
      let (e, a) = filler_turn-Ready y.pool y.tasks v.tasks in
      record { queue = subst (All IsReady) (sym e) v.queue; tasks = a; callers = v.callers }
  step-AllReady acquires y v = record {
    queue = v.queue;
    tasks = v.tasks;
    callers = All-append CallerReady y.callers (trying ∷ []) v.callers (tt, tt);
  }
  step-AllReady signals y v = record { queue = v.queue; tasks = v.tasks; callers = v.callers }
  step-AllReady finishes y v = record { queue = tt; tasks = v.tasks; callers = v.callers }
  step-AllReady (works i) y v =
      let (a, b) = work-Ready i y.tasks y.pool y.trace v.tasks v.queue in
      record { queue = b; tasks = a; callers = v.callers }
  step-AllReady (asks i) y v =
      let (a, b) = ask-Ready i y.callers y.pool y.trace v.callers v.queue in
      record { queue = b; tasks = v.tasks; callers = a }

  run-AllReady : (os : List Turn) (y : System) → AllReady y → AllReady (run l os y)
  unfolding run
  run-AllReady [] y v = v
  run-AllReady (o ∷ os) y v = run-AllReady os (step l o y) (step-AllReady o y v)

  -- From a new pool, under every interleaving and whatever the host answers, each sandbox in the queue,
  -- with a creation task or with a caller of `acquire` is ready.
  run-initial-AllReady :
      (c : PoolConfig) (os : List Turn) (t : Trace) → AllReady (run l os (initial c t))
  run-initial-AllReady c os t =
      run-AllReady os (initial c t) (record { queue = tt; tasks = tt; callers = tt })
