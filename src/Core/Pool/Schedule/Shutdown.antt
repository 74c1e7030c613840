-- ===== src/Core/Pool/Schedule/Shutdown.antt =====
-- What a shutdown of the pool does about creation tasks that are still under way.
use petty.Shared.{
  ℕ, zero, suc, ◌-◌, ◌<◌, ◌≡◌, refl, ◌∙◌, ap, true, false, List, [], ◌∷◌, ◌++◌, arith, All,
  Bool-cases, inl, inr, ◌==◌, leb,
}
use petty.Shared.Result.{ok}
use petty.Host.{Trace}
use petty.Core.Config.{SandboxConfig}
use petty.Core.Sandbox.{Sandbox, Libraries, ready}
use petty.Core.Sandbox
use petty.Core.Pool.{
  SandboxPool, PoolConfig, Task, Filler, exited, absent, running, turn, fill, spawn_rounds, new,
  start, filler_turn, task_step, boot_done, cold_start, first_cid, signal_shutdown, finish_shutdown,
  spawned, booted, adding,
}
use petty.Core.Pool.Caller.{Caller, trying, checking, caller_step, ask, take_front}
use petty.Core.Pool.Schedule.{
  System, Turn, starts, fills, acquires, signals, finishes, works, asks, work, step, run,
}
use petty.Core.Pool.Schedule.Bounds.{initial}

-- The task has not passed its last look at the shutdown flag.
abbrev pub Early : Task → Type 0
Early (adding s) = ⊥
Early _ = Unit

-- The pool is shut down and empty, and no task is about to add a sandbox to it.
pub record Closed (y : System) : Type 0 where
  pub flagged : y.pool.shutdown ≡ true
  pub emptied : y.pool.queue ≡ []
  pub early : All Early y.tasks

caller_step-Closed :
    (l : Libraries) (c : Caller) (p : SandboxPool) (t : Trace)
    → p.queue ≡ []
    → let (_, p', _) = caller_step l c p t in (p'.shutdown ≡ p.shutdown) × (p'.queue ≡ [])
unfolding caller_step cold_start
caller_step-Closed l trying p t e = rw (e, take_front) (refl, refl)
caller_step-Closed l (checking s) p t e = ground (arith, e)

ask-Closed :
    (l : Libraries) (i : ℕ) (cs : List Caller) (p : SandboxPool) (t : Trace)
    → p.queue ≡ []
    → let (_, p', _) = ask l i cs p t in (p'.shutdown ≡ p.shutdown) × (p'.queue ≡ [])
unfolding ask
ask-Closed l i [] p t e = (refl, e)
ask-Closed l zero (c ∷ cs) p t e = caller_step-Closed l c p t e
ask-Closed l (suc i) (c ∷ cs) p t e = ask-Closed l i cs p t e

work-Closed :
    (l : Libraries) (i : ℕ) (ts : List Task) (p : SandboxPool) (t : Trace)
    → p.shutdown ≡ true
    → All Early ts
    → let (ts', p', _) = work l i ts p t in
      (p'.shutdown ≡ true) × (p'.queue ≡ p.queue) × All Early ts'
unfolding work task_step
work-Closed l i [] p t h a = (h, refl, tt)
work-Closed l zero (spawned c ∷ ts) p t h a = ground arith
work-Closed l zero (booted s ∷ ts) p t h a = ground arith
work-Closed l zero (adding s ∷ ts) p t h a = absurd a.0
work-Closed l (suc i) (x ∷ ts) p t h a =
    let (b, c, d) = work-Closed l i ts p t h a.1 in (b, c, (a.0, d))

pub step-Closed : (l : Libraries) (o : Turn) (y : System) → Closed y → Closed (step l o y)
unfolding step start signal_shutdown finish_shutdown filler_turn
step-Closed l starts y v = record { flagged = v.flagged; emptied = v.emptied; early = v.early }
step-Closed l fills y v = record {
  flagged = ground (arith, v.flagged);
  emptied = ground (arith, v.flagged, v.emptied);
  early = closed_tasks y.pool.filler v.flagged;
}
  where
    closed_tasks : (f : Filler) → y.pool.shutdown ≡ true → All Early (turn f y.pool y.tasks).1
    closed_tasks absent h = v.early
    closed_tasks exited h = v.early
    closed_tasks running h = rw (h, fill) v.early
step-Closed l acquires y v = record { flagged = v.flagged; emptied = v.emptied; early = v.early }
step-Closed l signals y v = record { flagged = refl; emptied = v.emptied; early = v.early }
step-Closed l finishes y v = record { flagged = v.flagged; emptied = refl; early = v.early }
step-Closed l (works i) y v =
    let (a, b, c) = work-Closed l i y.tasks y.pool y.trace v.flagged v.early in
    record { flagged = a; emptied = b ∙ v.emptied; early = c }
step-Closed l (asks i) y v =
    let (a, b) = ask-Closed l i y.callers y.pool y.trace v.emptied in
    record { flagged = a ∙ v.flagged; emptied = b; early = v.early }

-- Once the pool is shut down and emptied with no task past its last look at the flag, it stays
-- empty under every further interleaving, also if it is started again.
pub run-Closed : (l : Libraries) (os : List Turn) (y : System) → Closed y → Closed (run l os y)
unfolding run
run-Closed l [] y v = v
run-Closed l (o ∷ os) y v = run-Closed l os (step l o y) (step-Closed l o y v)

-- The first task boots and looks at the flag, and only then the pool is shut down.
abbrev pub late : List Turn
late = starts ∷ fills ∷ works 0 ∷ works 0 ∷ signals ∷ fills ∷ finishes ∷ works 0 ∷ []

-- Later rounds of a fill leave the first task, the queue and the flag alone.
record Started (c : PoolConfig) (x : Task) (p : SandboxPool) (ts : List Task) : Type 0 where
  rest : List Task
  first : ts ≡ x ∷ rest
  queue : p.queue ≡ []
  shutdown : p.shutdown ≡ false
  config : p.config ≡ c
  filler : p.filler ≡ running

spawn_rounds-Started :
    (c : PoolConfig) (x : Task) (n : ℕ) (p : SandboxPool) (ts : List Task)
    → Started c x p ts
    → let (p', ts') = spawn_rounds n p ts in Started c x p' ts'
unfolding spawn_rounds
spawn_rounds-Started c x zero p ts v = v
spawn_rounds-Started c x (suc n) p ts v = elim (Bool-cases (p.permits == 0)) [
  | inl full ↦ rw (full, spawn_rounds) (spawn_rounds-Started c x n p ts v)
  | inr free ↦
      rw (free, spawn_rounds)
        (spawn_rounds-Started c x n _ _ (record {
          rest =
              v.rest
              ++ spawned (record (p.config.sandbox_config) { vsock_cid = p.cid_counter }) ∷ [];
          first =
              ap
                (λ l.
                  l
                  ++ spawned (record (p.config.sandbox_config) { vsock_cid = p.cid_counter }) ∷ [])
                v.first;
          queue = v.queue;
          shutdown = v.shutdown;
          config = v.config;
          filler = v.filler;
        }))
]

first_task : PoolConfig → Task
first_task c = spawned (record (c.sandbox_config) { vsock_cid = first_cid })

-- The first round of a fill, when a permit is free.
first_round :
    (c : PoolConfig) (n : ℕ) (p : SandboxPool)
    → p.config ≡ c
    → p.permits == 0 ≡ false
    → p.queue ≡ []
    → p.shutdown ≡ false
    → p.filler ≡ running
    → p.cid_counter ≡ first_cid
    → let (p', ts') = spawn_rounds (suc n) p [] in Started c (first_task c) p' ts'
unfolding spawn_rounds first_task
first_round c n p a b q h f i =
    rw (spawn_rounds, b)
      (spawn_rounds-Started c (first_task c) n _ _ (record {
        rest = [];
        first =
            ap (λ x. spawned x ∷ [])
              (ap (λ k. record (p.config.sandbox_config) { vsock_cid = k }) i
                ∙ ap (λ (k : PoolConfig). record (k.sandbox_config) { vsock_cid = first_cid }) a);
        queue = q;
        shutdown = h;
        config = a;
        filler = f;
      }))

fill_opens :
    (n : ℕ) (p : SandboxPool)
    → p.config.min_size ≡ suc n
    → p.queue ≡ []
    → p.shutdown ≡ false
    → fill p [] ≡ spawn_rounds (suc n) p []
unfolding fill
fill_opens n p a q h =
    let low : leb (suc n) 0 ≡ false = ground arith in
    let all : suc n - 0 ≡ suc n = omega arith in ground (arith, a, q, h, low, all)

first_fill :
    (c : PoolConfig) (n k : ℕ)
    → c.min_size ≡ suc n
    → c.max_concurrent_boots ≡ suc k
    → let (p, ts) = filler_turn (start (new c)) [] in Started c (first_task c) p ts
unfolding filler_turn start
first_fill c n k a b =
    rw (fill_opens n (start (new c)) a refl refl)
      (first_round c n (start (new c)) refl (ground (arith, b)) refl refl refl refl)

abbrev at : SandboxPool → List Task → Trace → System
at p ts t = record { pool = p; tasks = ts; callers = []; trace = t }

module _ (l : Libraries) (s : Sandbox) (rest : List Task) where
  boots :
      (c : SandboxConfig) (p : SandboxPool) (t t' : Trace)
      → p.shutdown ≡ false
      → Sandbox.create l c t ≡ (ok s, t')
      → step l (works 0) (at p (spawned c ∷ rest) t) ≡ at p (booted s ∷ rest) t'
  unfolding step task_step boot_done
  boots c p t t' a h = ground (arith, h)

  checks :
      (p : SandboxPool) (t : Trace)
      → p.shutdown ≡ false
      → step l (works 0) (at p (booted s ∷ rest) t) ≡ at p (adding s ∷ rest) t
  unfolding step task_step
  checks p t a = ground arith

  exits :
      (p : SandboxPool) (ts : List Task) (t : Trace)
      → p.filler ≡ running
      → step l fills (step l signals (at p ts t))
        ≡ at (record p { shutdown = true; filler = exited }) ts t
  unfolding step filler_turn signal_shutdown
  exits p ts t a = rw a

  adds :
      (p : SandboxPool) (ts : List Task) (t : Trace)
      → p.queue ≡ []
      → 0 < p.config.min_size
      → (step l (works 0) (at p (adding s ∷ ts) t)).pool.queue ≡ s ∷ []
  unfolding step task_step
  adds p ts t a b = ground arith

  adds_only :
      (p : SandboxPool) (ts : List Task) (t : Trace)
      → ((step l (works 0) (at p (adding s ∷ ts) t)).pool.shutdown ≡ p.shutdown)
        × ((step l (works 0) (at p (adding s ∷ ts) t)).pool.filler ≡ p.filler)
  unfolding step task_step
  adds_only p ts t = ground arith

  -- The pool when its shutdown has finished.
  finishes_at :
      (p : SandboxPool) (ts : List Task) (t : Trace)
      → (q : SandboxPool) × (u : Trace) × (step l finishes (at p ts t) ≡ at q ts u)
        × (q.queue ≡ [])
        × (q.shutdown ≡ p.shutdown)
        × (q.filler ≡ absent)
        × (q.config ≡ p.config)
  unfolding step finish_shutdown
  finishes_at p ts t =
      ((finish_shutdown l p t).0, (finish_shutdown l p t).1, refl, refl, refl, refl, refl)

  late_steps :
      (c : PoolConfig) (p : SandboxPool) (t t' : Trace)
      → 0 < c.min_size
      → p.shutdown ≡ false
      → p.filler ≡ running
      → p.config ≡ c
      → Sandbox.create l (record (c.sandbox_config) { vsock_cid = first_cid }) t ≡ (ok s, t')
      → let y =
          run l
            (works 0 ∷ works 0 ∷ signals ∷ fills ∷ finishes ∷ works 0 ∷ [])
            (at p (first_task c ∷ rest) t) in
        (y.pool.shutdown ≡ true) × (y.pool.filler ≡ absent) × (y.pool.queue ≡ s ∷ [])
  unfolding run first_task
  late_steps c p t t' a b f g h =
      let (q, u, e, x, y, z, w) =
        finishes_at (record p { shutdown = true; filler = exited }) (adding s ∷ rest) t' in
      let (m, n) = adds_only q rest u in
      rw (boots (record (c.sandbox_config) { vsock_cid = first_cid }) p t t' b h) (
        rw (checks p t' b) (
          rw (exits p (adding s ∷ rest) t' f) (rw e (m ∙ y, n ∙ z, adds q rest u x (rw (w, g) a)))))

filled :
    (l : Libraries) (c : PoolConfig) (t : Trace) (rest : List Task)
    → (filler_turn (start (new c)) []).1 ≡ first_task c ∷ rest
    → step l fills (step l starts (initial c t))
      ≡ at (filler_turn (start (new c)) []).0 (first_task c ∷ rest) t
unfolding step
filled l c t rest h = ap (λ ts. at (filler_turn (start (new c)) []).0 ts t) h

-- A shutdown does not wait for the creation tasks: in every pool that keeps sandboxes and may boot
-- one, if the first sandbox boots, this interleaving ends after the shutdown has finished, its
-- flag set and its filler gone, with that sandbox in the queue, where nothing will destroy it.
pub late_sandbox :
    (l : Libraries) (c : PoolConfig) (t t' : Trace) (s : Sandbox) (n k : ℕ)
    → c.min_size ≡ suc n
    → c.max_concurrent_boots ≡ suc k
    → Sandbox.create l (record (c.sandbox_config) { vsock_cid = first_cid }) t ≡ (ok s, t')
    → let y = run l late (initial c t) in
      (y.pool.shutdown ≡ true) × (y.pool.filler ≡ absent) × (y.pool.queue ≡ s ∷ [])
unfolding run
late_sandbox l c t t' s n k a b h =
    let v = first_fill c n k a b in
    rw (filled l c t v.rest v.first)
      (late_steps l s v.rest c _ t t' (omega (arith, a)) v.shutdown v.filler v.config h)
