-- ===== src/Mcp/Session/Bounds.antt =====
-- What holds of the server in any order of its requests and of the pool's background steps.
use petty.Shared.{
  ℕ, ◌+◌, ◌≤◌, ◌≡◌, refl, ap, subst, Bool, true, false, List, [], ◌∷◌, Option, none, some, arith,
  All, length, if◌then◌else◌,
}
use petty.Shared.Result.{Result, ok, err, some-injective}
use petty.Host.{Trace}
use petty.Core.Error.{CoreError}
use petty.Core.Config.{SandboxConfig, default_config, build}
use petty.Core.Sandbox.{Libraries}
use petty.Core.Manager.{ManagerConfig, new_config}
use petty.Core.Manager.Limit
use petty.Core.Manager.Registry.{Good}
use petty.Core.Pool.{PoolConfig, SandboxPool, Task, start}
use petty.Core.Pool.Schedule.{System, Turn}
use petty.Core.Pool.Schedule
use petty.Core.Pool.Schedule.Ready.{IsReady, TaskReady}
use petty.Mcp.Config.{BouvetConfig}
use petty.Mcp.Tools.{Tools}
use petty.Mcp.Server.{Server, new, pool_of, pool_template, server_with, start_pool}
use petty.Mcp.Session.{
  Session, Event, calls, starts, fills, signals, finishes, works, Background, filling, signalling,
  clears, working, finishing, on_pool, step, run,
}
use petty.Mcp.Session.Calls.{Fine, PoolFine, Inv, alone, turn-Fine, managed-Inv, call_tool-Inv}

module _ (l : Libraries) (r : Tools) (k : ℕ) (m : ManagerConfig) (c : PoolConfig) where
  abbrev InvAt : Session → Type 0
  InvAt y = Inv k m c y.tasks y.server

  on_pool-Inv :
      (o : Turn) (f : Background l r) (y : Session)
      → ((p : SandboxPool) (ts : List Task) (t : Trace)
          → let z = Schedule.step l o (alone ts t p) in
            ((f p ts t).0 ≡ z.tasks) × ((f p ts t).1 ≡ z.pool))
      → InvAt y
      → InvAt (on_pool l r f y)
  unfolding on_pool
  on_pool-Inv o f y e v = by_pool y.server.pool v.pool
    where
      by_pool :
          (q : Option SandboxPool)
          → PoolFine c y.tasks q
          → InvAt (elim q as (λ _. Session) [
            | none ↦ y
            | some p ↦
                let (ts, p', t) = f p y.tasks y.trace in
                record { server = record (y.server) { pool = some p' }; tasks = ts; trace = t }
          ])
      by_pool none w = v
      by_pool (some p) w =
          let (a, b) = e p y.tasks y.trace in
          record {
            manager = v.manager;
            config = v.config;
            pool = rw (a, b) (turn-Fine l c o y.tasks y.trace p w);
          }

  start_pool-Inv : (ts : List Task) (s : Server) → Inv k m c ts s → Inv k m c ts (start_pool s)
  unfolding start_pool start Schedule.step
  start_pool-Inv ts s v = by_pool s.pool v.pool
    where
      by_pool :
          (q : Option SandboxPool)
          → PoolFine c ts q
          → Inv k m c ts (record s {
            pool = elim q as (λ _. Option SandboxPool) [ none ↦ none | some p ↦ some (start p) ];
          })
      by_pool none w = record { manager = v.manager; config = v.config; pool = tt }
      by_pool (some p) w = record {
        manager = v.manager;
        config = v.config;
        pool = turn-Fine l c Schedule.starts ts [] p w;
      }

  pub step-Inv : (e : Event l r) (y : Session) → InvAt y → InvAt (step l r e y)
  unfolding step Schedule.step Limit.step
  step-Inv (calls name args) y v = call_tool-Inv l r k m c y.tasks name args y.server y.trace v
  step-Inv starts y v = start_pool-Inv y.tasks y.server v
  step-Inv fills y v = on_pool-Inv Schedule.fills (filling l r) y (λ p ts t. (refl, refl)) v
  step-Inv signals y v = on_pool-Inv Schedule.signals (signalling l r) y (λ p ts t. (refl, refl)) v
  step-Inv finishes y v = on_pool-Inv Schedule.finishes (finishing l r) y (λ p ts t. (refl, refl)) v
  step-Inv (works i) y v =
      on_pool-Inv (Schedule.works i) (working l r i) y (λ p ts t. (refl, refl)) v
  step-Inv clears y v =
      managed-Inv y.server _ v
        (Limit.step-Inv l Limit.destroy_all y.server.manager y.trace tt v.manager)

  run-Inv : (es : List (Event l r)) (y : Session) → InvAt y → InvAt (run l r es y)
  unfolding run
  run-Inv [] y v = v
  run-Inv (e ∷ es) y v = run-Inv es (step l r e y) (step-Inv e y v)

-- What a session keeps to, under the server's configuration.
pub record Safe (c : BouvetConfig) (y : Session) : Type 0 where
  pub registry : Good y.server.manager.sandboxes
  pub limit : length y.server.manager.sandboxes ≤ 100
  pub pool :
      (p : SandboxPool)
      → y.server.pool ≡ some p
      → (length p.queue ≤ c.pool_min_size)
        × (p.permits + length y.tasks ≡ c.pool_max_boots)
        × All IsReady p.queue
        × All TaskReady y.tasks

abbrev pub manager_config : BouvetConfig → ManagerConfig
manager_config c = new_config c.kernel_path c.rootfs_path c.firecracker_path c.chroot_path

Inv-Safe :
    (c : BouvetConfig) (k : SandboxConfig) (y : Session)
    → Inv 0 (manager_config c) (pool_of c k).config y.tasks y.server
    → Safe c y
Inv-Safe c k y v = record {
  registry = v.manager.good;
  limit =
      let e : y.server.manager.config.max_sandboxes ≡ 100 = ap (λ x. x.max_sandboxes) v.config in
      omega (arith, e, v.manager.bounded (omega (arith, e)));
  pool = λ p e.
      let w : Fine (pool_of c k).config y.tasks p =
        subst (PoolFine (pool_of c k).config y.tasks) e v.pool in
      (w.size, w.permits, w.queue, w.tasks);
}

abbrev pub opened : Server → Trace → Session
opened s t = record { server = s; tasks = []; trace = t }

-- The server that `new` made, under any slack of its limit.
pub new-Inv :
    (k : ℕ) (c : BouvetConfig) (s : Server)
    → new c ≡ some s
    → (q : SandboxConfig) × Inv k (manager_config c) (pool_of c q).config [] s
unfolding new
new-Inv k c s h = by_new c.pool_enabled (build (pool_template c)) h
  where
    kept :
        (q : SandboxConfig) (o : Option SandboxPool)
        → PoolFine (pool_of c q).config [] o
        → some (server_with c o) ≡ some s
        → (q : SandboxConfig) × Inv k (manager_config c) (pool_of c q).config [] s
    kept q o w e = (
      q,
      subst (λ z. Inv k (manager_config c) (pool_of c q).config [] z) (some-injective e)
          (record {
            manager = record { good = tt; bounded = λ p. omega arith };
            config = refl;
            pool = w;
          }),
    )

    by_new :
        (b : Bool) (x : Result CoreError SandboxConfig)
        → (if b
            then elim x as (λ _. Option Server) [
              | ok q ↦ some (server_with c (some (pool_of c q)))
              | err e ↦ none
            ]
            else some (server_with c none))
          ≡ some s
        → (q : SandboxConfig) × Inv k (manager_config c) (pool_of c q).config [] s
    by_new true (ok q) e =
        kept q (some (pool_of c q))
          (record {
            config = refl;
            size = omega arith;
            permits = omega arith;
            queue = tt;
            tasks = tt;
          })
          e
    by_new true (err x) e = absurd (cc e)
    by_new false x e = kept default_config none tt e

module _ (l : Libraries) (r : Tools) where
  -- From a server that `new` made, after any sequence of tool calls with the steps of the pool's
  -- filler, its creation tasks and its shutdown between them, whatever the requests ask and the host
  -- answers: every registered sandbox is ready and stands under its own identifier, no identifier
  -- stands twice, and no more than 100 are registered. Where there is a pool, it holds at most
  -- `pool_min_size` sandboxes, its free permits and its creation tasks together are `pool_max_boots`,
  -- and each sandbox that it holds or that a task has booted is ready.
  pub session-Safe :
      (c : BouvetConfig) (s : Server) (es : List (Event l r)) (t : Trace)
      → new c ≡ some s
      → Safe c (run l r es (opened s t))
  session-Safe c s es t h =
      let (q, v) = new-Inv 0 c s h in
      Inv-Safe c q _ (run-Inv l r 0 (manager_config c) (pool_of c q).config es (opened s t) v)
