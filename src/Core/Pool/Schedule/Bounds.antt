-- ===== src/Core/Pool/Schedule/Bounds.antt =====
-- The bounds that the pool keeps under every interleaving: its size and its boot permits.
use petty.Shared.{
  ℕ, zero, suc, ◌+◌, ◌-◌, ◌≤◌, ◌≡◌, refl, ◌∙◌, ap, List, [], ◌∷◌, ◌++◌, Option, none, some, arith,
  length, length-append, Bool-cases, inl, inr, ◌==◌,
}
use petty.Host.{Trace}
use petty.Core.Sandbox.{Sandbox, Libraries}
use petty.Core.Manager.{next_cid}
use petty.Core.Pool.{
  SandboxPool, PoolConfig, Task, new, start, filler_turn, spawn_rounds, task_step, boot_done,
  cold_start, signal_shutdown, finish_shutdown, spawned, booted, adding,
}
use petty.Core.Pool.Caller.{Caller, trying, checking, caller_step, ask, take_front}
use petty.Core.Pool.Schedule.{
  System, Turn, starts, fills, acquires, signals, finishes, works, asks, work, step, run, replace,
}

-- The pool holds no more sandboxes than its minimum, and each boot permit is free or held by one
-- creation task.
pub record Inv (c : PoolConfig) (y : System) : Type 0 where
  pub config : y.pool.config ≡ c
  pub size : length y.pool.queue ≤ c.min_size
  pub permits : y.pool.permits + length y.tasks ≡ c.max_concurrent_boots

pub spawn_rounds-keeps :
    (n : ℕ) (p : SandboxPool) (ts : List Task)
    → let (p', ts') = spawn_rounds n p ts in
      (p'.config ≡ p.config)
      × (p'.queue ≡ p.queue)
      × (p'.permits + length ts' ≡ p.permits + length ts)
unfolding spawn_rounds
spawn_rounds-keeps zero p ts = (refl, refl, refl)
spawn_rounds-keeps (suc n) p ts = elim (Bool-cases (p.permits == 0)) [
  | inl full ↦ rw (full, spawn_rounds) (spawn_rounds-keeps n p ts)
  | inr free ↦
      let task = spawned (record (p.config.sandbox_config) { vsock_cid = p.cid_counter }) in
      let (a, b, k) =
        spawn_rounds-keeps n
          (record p { permits = p.permits - 1; cid_counter = next_cid p.cid_counter })
          (ts ++ task ∷ []) in
      rw (free, spawn_rounds) (a, b, k ∙ ground (arith, length-append ts (task ∷ [])))
]

-- What one step keeps: the configuration and the permits, and the queue does not grow.
abbrev pub Lowers : SandboxPool → SandboxPool → Type 0
Lowers p p' = (p'.config ≡ p.config) × (length p'.queue ≤ length p.queue) × (p'.permits ≡ p.permits)

pub caller_step-Lowers :
    (l : Libraries) (c : Caller) (p : SandboxPool) (t : Trace) → Lowers p (caller_step l c p t).1
unfolding caller_step cold_start
caller_step-Lowers l trying p t = by_queue p.queue refl
  where
    by_queue : (q : List Sandbox) → p.queue ≡ q → Lowers p (take_front l q p t).1
    by_queue [] e = (refl, omega arith, refl)
    by_queue (s ∷ rest) e = (refl, rw e (omega arith), refl)
caller_step-Lowers l (checking s) p t = ground arith

ask-Lowers :
    (l : Libraries) (i : ℕ) (cs : List Caller) (p : SandboxPool) (t : Trace)
    → Lowers p (ask l i cs p t).1
unfolding ask
ask-Lowers l i [] p t = (refl, omega arith, refl)
ask-Lowers l zero (c ∷ cs) p t = caller_step-Lowers l c p t
ask-Lowers l (suc i) (c ∷ cs) p t = ask-Lowers l i cs p t

abbrev held : Option Task → ℕ
held none = 0
held (some x) = 1

task_step-keeps :
    (l : Libraries) (x : Task) (p : SandboxPool) (t : Trace)
    → length p.queue ≤ p.config.min_size
    → let (o, p', _) = task_step l x p t in
      (p'.config ≡ p.config)
      × (length p'.queue ≤ p.config.min_size)
      × (p'.permits + held o ≡ p.permits + 1)
unfolding task_step boot_done
task_step-keeps l (spawned c) p t h = ground arith
task_step-keeps l (booted s) p t h = ground arith
task_step-keeps l (adding s) p t h = ground (arith, length-append p.queue (s ∷ []))

length-replace : (o : Option Task) (ts : List Task) → length (replace o ts) ≡ held o + length ts
length-replace none ts = omega arith
length-replace (some x) ts = omega arith

work-keeps :
    (l : Libraries) (i : ℕ) (ts : List Task) (p : SandboxPool) (t : Trace)
    → length p.queue ≤ p.config.min_size
    → let (ts', p', _) = work l i ts p t in
      (p'.config ≡ p.config)
      × (length p'.queue ≤ p.config.min_size)
      × (p'.permits + length ts' ≡ p.permits + length ts)
unfolding work
work-keeps l i [] p t h = (refl, h, refl)
work-keeps l zero (x ∷ ts) p t h =
    let (a, b, c) = task_step-keeps l x p t h in
    (a, b, omega (arith, c, length-replace (task_step l x p t).0 ts))
work-keeps l (suc i) (x ∷ ts) p t h =
    let (a, b, c) = work-keeps l i ts p t h in (a, b, omega (arith, c))

filler_turn-keeps :
    (p : SandboxPool) (ts : List Task)
    → let (p', ts') = filler_turn p ts in
      (p'.config ≡ p.config)
      × (p'.queue ≡ p.queue)
      × (p'.permits + length ts' ≡ p.permits + length ts)
unfolding filler_turn
filler_turn-keeps p ts =
    ground (arith, spawn_rounds-keeps (p.config.min_size - length p.queue) p ts)

pub step-Inv :
    (l : Libraries) (c : PoolConfig) (o : Turn) (y : System) → Inv c y → Inv c (step l o y)
unfolding step start signal_shutdown finish_shutdown
step-Inv l c starts y v = record { config = v.config; size = v.size; permits = v.permits }
step-Inv l c fills y v =
    let (a, b, k) = filler_turn-keeps y.pool y.tasks in
    record { config = a ∙ v.config; size = rw b v.size; permits = k ∙ v.permits }
step-Inv l c acquires y v = record { config = v.config; size = v.size; permits = v.permits }
step-Inv l c signals y v = record { config = v.config; size = v.size; permits = v.permits }
step-Inv l c finishes y v = record { config = v.config; size = omega arith; permits = v.permits }
step-Inv l c (works i) y v =
    let e : y.pool.config.min_size ≡ c.min_size = ap (λ k. k.min_size) v.config in
    let (a, b, k) = work-keeps l i y.tasks y.pool y.trace (omega (arith, e, v.size)) in
    record { config = a ∙ v.config; size = omega (arith, b, e); permits = k ∙ v.permits }
step-Inv l c (asks i) y v =
    let (a, b, k) = ask-Lowers l i y.callers y.pool y.trace in
    record {
      config = a ∙ v.config;
      size = omega (arith, b, v.size);
      permits = omega (arith, k, v.permits);
    }

run-Inv :
    (l : Libraries) (c : PoolConfig) (os : List Turn) (y : System) → Inv c y → Inv c (run l os y)
unfolding run
run-Inv l c [] y v = v
run-Inv l c (o ∷ os) y v = run-Inv l c os (step l o y) (step-Inv l c o y v)

abbrev pub initial : PoolConfig → Trace → System
initial c t = record { pool = new c; tasks = []; callers = []; trace = t }

-- From a new pool, under every interleaving of its methods, the filler's turns and the steps of the
-- creation tasks and of the callers of `acquire`, whatever the host answers: the pool never holds more than `min_size` sandboxes,
-- and the free boot permits and the creation tasks together are always `max_concurrent_boots`, so
-- that no more tasks than that exist at once.
pub run-initial-Inv :
    (l : Libraries) (c : PoolConfig) (os : List Turn) (t : Trace) → Inv c (run l os (initial c t))
run-initial-Inv l c os t =
    run-Inv l c os (initial c t)
      (record { config = refl; size = omega arith; permits = omega arith })
