-- ===== src/Core/Pool/Schedule/Fills.antt =====
-- The filler fills the pool, where the host boots every sandbox.
use petty.Shared.{
  ℕ, zero, suc, ◌+◌, ◌^◌, ◌≤◌, ◌<◌, ◌≡◌, refl, sym, ◌∙◌, ap, subst, false, true, List, [], ◌∷◌,
  ◌++◌, Option, none, some, arith, length, length-append, All, leb,
}
use petty.Shared.Result.{Result, ok, err}
use petty.Host.{Trace, is_ok}
use petty.Core.Error.{CoreError}
use petty.Core.Config.{SandboxConfig}
use petty.Core.Sandbox.{Sandbox, Libraries}
use petty.Core.Sandbox
use petty.Core.Pool.{
  SandboxPool, PoolConfig, Task, spawned, booted, adding, filler_turn, task_step, boot_done, start,
  first_cid, add_u64,
}
use petty.Core.Pool.Caller.{Caller}
use petty.Core.Pool.Schedule.{System, Turn, starts, fills, works, step, run, work, replace}
use petty.Core.Pool.Schedule.Bounds.{initial}
use petty.Core.Pool.Schedule.Spawns.{Open, Open-at, IsFresh, Ample, filler_turn-Spawned}

-- A turn of the filler, and the steps that the tasks need that it may spawn.
abbrev pub works_for : ℕ → List Turn
works_for zero = []
works_for (suc n) = works 0 ∷ works 0 ∷ works 0 ∷ works_for n

abbrev pub rounds : ℕ → ℕ → List Turn
rounds zero boots = []
rounds (suc n) boots = fills ∷ works_for boots ++ rounds n boots

abbrev system : SandboxPool → List Task → List Caller → Trace → System
system p ts cs t = record { pool = p; tasks = ts; callers = cs; trace = t }

-- Every sandbox of the configuration boots, with each CID that a VM accepts.
abbrev pub Boots : Libraries → SandboxConfig → Type 0
Boots l c =
    (cid : ℕ) (t : Trace)
    → 3 ≤ cid
    → is_ok (Sandbox.create l (record c { vsock_cid = cid }) t).0 ≡ true

booted_as :
    {A : Type 0} (r : Result CoreError A × Trace)
    → is_ok r.0 ≡ true
    → (a : A) × (u : Trace) × (r ≡ (ok a, u))
booted_as (ok a, u) h = (a, u, refl)
booted_as (err x, u) h = absurd (cc h)

module _ (l : Libraries) where
  -- A step of the task in the first place.
  first-step :
      (x : Task) (ts : List Task) (p p' : SandboxPool) (cs : List Caller) (t t' : Trace)
      (o : Option Task)
      → task_step l x p t ≡ (o, p', t')
      → step l (works 0) (system p (x ∷ ts) cs t) ≡ system p' (replace o ts) cs t'
  unfolding step work
  first-step x ts p p' cs t t' o h = ap (λ r. let (o, p, t) = r in system p (replace o ts) cs t) h

  boot-step :
      (k : SandboxConfig) (s : Sandbox) (p : SandboxPool) (t u : Trace)
      → p.shutdown ≡ false
      → Sandbox.create l k t ≡ (ok s, u)
      → task_step l (spawned k) p t ≡ (some (booted s), p, u)
  unfolding task_step boot_done
  boot-step k s p t u f h = simp (f, h, task_step, boot_done)

  check-step :
      (s : Sandbox) (p : SandboxPool) (t : Trace)
      → p.shutdown ≡ false
      → task_step l (booted s) p t ≡ (some (adding s), p, t)
  unfolding task_step
  check-step s p t f = simp (f, task_step)

  abbrev added : Sandbox → SandboxPool → SandboxPool
  added s p = record p {
    queue = p.queue ++ s ∷ [];
    permits = p.permits + 1;
    stats = record (p.stats) { created = add_u64 p.stats.created 1 };
  }

  add-step :
      (s : Sandbox) (p : SandboxPool) (t : Trace)
      → length p.queue < p.config.min_size
      → task_step l (adding s) p t ≡ (none, added s p, t)
  unfolding task_step
  add-step s p t h =
      let room : leb p.config.min_size (length p.queue) ≡ false = ground arith in rw room refl

  added-Open :
      (c : PoolConfig) (permits size : ℕ) (s : Sandbox) (p : SandboxPool)
      → Open c permits size p
      → size < c.min_size
      → Open c (suc permits) (suc size) (added s p)
  added-Open c permits size s p v h = record {
    config = v.config;
    flag = v.flag;
    filler = v.filler;
    free = omega (arith, v.free);
    held = omega (arith, v.held, length-append p.queue (s ∷ []));
  }

  run-append : (xs ys : List Turn) (y : System) → run l (xs ++ ys) y ≡ run l ys (run l xs y)
  unfolding run
  run-append [] ys y = refl
  run-append (x ∷ xs) ys y = run-append xs ys (step l x y)

  -- The three steps of a task that has not begun.
  task-Open :
      (c : PoolConfig) (boots : Boots l c.sandbox_config) (permits size : ℕ) (k : SandboxConfig)
      (ts : List Task) (p : SandboxPool) (cs : List Caller) (t : Trace)
      → Open c permits size p
      → IsFresh c (spawned k)
      → size < c.min_size
      → (p' : SandboxPool) × (t' : Trace) × (step l
            (works 0)
            (step l (works 0) (step l (works 0) (system p (spawned k ∷ ts) cs t)))
          ≡ system p' ts cs t')
        × Open c (suc permits) (suc size) p'
        × (p'.cid_counter ≡ p.cid_counter)
  task-Open c boots permits size k ts p cs t v (cid, low, e) h =
      let (s, u, b) =
        booted_as (Sandbox.create l k t)
          (subst (λ z. is_ok (Sandbox.create l z t).0 ≡ true) (sym e) (boots cid t low)) in
      let m : p.config.min_size ≡ c.min_size = ap (λ z. z.min_size) v.config in
      (
        added s p,
        u,
        ap (λ y. step l (works 0) (step l (works 0) y))
              (first-step (spawned k) ts p p cs t u (some (booted s))
                (boot-step k s p t u v.flag b))
            ∙ ap (step l (works 0))
                (first-step (booted s) ts p p cs u u (some (adding s)) (check-step s p u v.flag))
            ∙ first-step (adding s) ts p (added s p) cs u u none
                (add-step s p u (omega (arith, m, v.held, h))),
        added-Open c permits size s p v h,
        refl,
      )

  idle-step :
      (p : SandboxPool) (cs : List Caller) (t : Trace) (n : ℕ)
      → run l (works_for n) (system p [] cs t) ≡ system p [] cs t
  unfolding run step work
  idle-step p cs t zero = refl
  idle-step p cs t (suc n) = idle-step p cs t n

  -- The steps of all tasks, when each of them fits into the pool.
  tasks-Open :
      (c : PoolConfig) (boots : Boots l c.sandbox_config) (n permits size : ℕ) (ts : List Task)
      (p : SandboxPool) (cs : List Caller) (t : Trace)
      → Open c permits size p
      → All (IsFresh c) ts
      → size + length ts ≤ c.min_size
      → length ts ≤ n
      → (p' : SandboxPool) × (t' : Trace) × (run l (works_for n) (system p ts cs t)
          ≡ system p' [] cs t')
        × Open c (permits + length ts) (size + length ts) p'
        × (p'.cid_counter ≡ p.cid_counter)
  unfolding run
  tasks-Open c boots n permits size [] p cs t v a h b =
      (p, t, idle-step p cs t n, Open-at v (omega arith) (omega arith), refl)
  tasks-Open c boots zero permits size (x ∷ ts) p cs t v a h b = absurd (omega (arith, b))
  tasks-Open c boots (suc n) permits size (spawned k ∷ ts) p cs t v a h b =
      let (p1, t1, e1, w, i) =
        task-Open c boots permits size k ts p cs t v a.0 (omega (arith, h)) in
      let (p2, t2, e2, x, j) =
        tasks-Open c boots n (suc permits) (suc size) ts p1 cs t1 w a.1 (omega (arith, h))
          (omega (arith, b)) in
      (p2, t2, ap (run l (works_for n)) e1 ∙ e2, Open-at x (omega arith) (omega arith), j ∙ i)
  tasks-Open c boots (suc n) permits size (booted s ∷ ts) p cs t v a h b = absurd a.0
  tasks-Open c boots (suc n) permits size (adding s ∷ ts) p cs t v a h b = absurd a.0

  -- A turn of the filler and the work of the tasks that it spawns.
  round-Open :
      (c : PoolConfig) (boots : Boots l c.sandbox_config) (permits size : ℕ) (p : SandboxPool)
      (cs : List Caller) (t : Trace)
      → Open c permits size p
      → size ≤ c.min_size
      → Ample c size p
      → 1 ≤ permits
      → (more : ℕ) × (p' : SandboxPool) × (t' : Trace) × (run l
            (works_for permits)
            (step l fills (system p [] cs t))
          ≡ system p' [] cs t')
        × Open c permits (size + more) p'
        × (size + more ≤ c.min_size)
        × Ample c (size + more) p'
        × (size < c.min_size → 1 ≤ more)
  unfolding step
  round-Open c boots permits size p cs t v h y b =
      let (p1, ts1) = filler_turn p [] in
      let (k, w, e, z, a, room, some_more) = filler_turn-Spawned c permits size p v h y in
      let (p2, t2, e2, x, j) =
        tasks-Open c boots permits k size ts1 p1 cs t w a room (omega (arith, e)) in
      (
        length ts1,
        p2,
        t2,
        e2,
        Open-at x e refl,
        room,
        (omega (arith, j, z.0), omega (arith, j, z.1)),
        λ q. some_more q b,
      )

  rounds-Open :
      (c : PoolConfig) (boots : Boots l c.sandbox_config) (permits size n : ℕ) (p : SandboxPool)
      (cs : List Caller) (t : Trace)
      → Open c permits size p
      → size ≤ c.min_size
      → Ample c size p
      → 1 ≤ permits
      → c.min_size ≤ size + n
      → (p' : SandboxPool) × (t' : Trace) × (run l (rounds n permits) (system p [] cs t)
          ≡ system p' [] cs t')
        × Open c permits c.min_size p'
  unfolding run
  rounds-Open c boots permits size zero p cs t v h y b e =
      (p, t, refl, Open-at v refl (omega (arith, h, e)))
  rounds-Open c boots permits size (suc n) p cs t v h y b e =
      let (more, p1, t1, e1, w, room, z, q) = round-Open c boots permits size p cs t v h y b in
      let (p2, t2, e2, x) =
        rounds-Open c boots permits (size + more) n p1 cs t1 w room z b
          (ground (arith, e, q, room)) in
      (
        p2,
        t2,
        run-append (works_for permits) (rounds n permits) (step l fills (system p [] cs t))
            ∙ (ap (run l (rounds n permits)) e1 ∙ e2),
        x,
      )

  -- Where the host boots every sandbox of the pool's configuration, at least one may boot at a time
  -- and the CIDs do not wrap, a started pool is full
  -- after as many turns of the filler as its minimum size, when after each turn its tasks run to
  -- their end: it then holds `min_size` sandboxes, has all its permits back and no task.
  pub rounds-fill :
      (c : PoolConfig) (t : Trace)
      → Boots l c.sandbox_config
      → 1 ≤ c.max_concurrent_boots
      → first_cid + c.min_size < 2 ^ 32
      → let y = run l (starts ∷ rounds c.min_size c.max_concurrent_boots) (initial c t) in
        (length y.pool.queue ≡ c.min_size)
        × (y.pool.permits ≡ c.max_concurrent_boots)
        × (length y.tasks ≡ 0)
  unfolding run step start
  rounds-fill c t boots b f =
      let (p, t', e, v) =
        rounds-Open c boots c.max_concurrent_boots 0 c.min_size (start (initial c t).pool) [] t
          (record { config = refl; flag = refl; filler = refl; free = refl; held = refl })
          (omega arith) (omega arith, omega (arith, f)) b (omega arith) in
      (
        ap (λ y. length y.pool.queue) e ∙ v.held,
        ap (λ y. y.pool.permits) e ∙ v.free,
        ap (λ y. length y.tasks) e,
      )
