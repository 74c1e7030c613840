-- ===== src/Mcp/Session/Calls.antt =====
-- What every tool call keeps of the server: its manager's invariant and its pool's.
use petty.Shared.{
  ℕ, ◌+◌, ◌≤◌, ◌≡◌, refl, ◌∙◌, sym, subst, List, [], ◌++◌, Option, none, some, arith, All, length,
}
use petty.Shared.Result.{Result, ok, err}
use petty.Text.{Str, lit}
use petty.Host.{Uuid, Trace}
use petty.Core.Error.{CoreError}
use petty.Core.Config.{SandboxConfig, build}
use petty.Core.Sandbox.{Sandbox, Libraries}
use petty.Core.Manager.{SandboxManager, ManagerConfig, new_config}
use petty.Core.Manager
use petty.Core.Manager.Limit
use petty.Core.Manager.Owners.{Within-Allowed}
use petty.Core.Manager.Limit.{Kept, register-Kept}
use petty.Core.Pool.{PoolConfig, SandboxPool, Task, acquire}
use petty.Core.Pool.Schedule.{System, Turn}
use petty.Core.Pool.Schedule
use petty.Core.Pool.Schedule.Bounds
use petty.Core.Pool.Schedule.Ready.{IsReady, TaskReady, step-AllReady}
use petty.Core.Pool.Schedule.Acquires.{acquire-Lowers, acquire-Given}
use petty.Mcp.Types.{CreateSandboxParams}
use petty.Mcp.Tools.{Tools, Outcome, returned, error}
use petty.Mcp.Server.{Server, error_text}
use petty.Mcp.Server.Create.{
  register_acquired, after_register, created_result, from_pool, from_cold_start, after_pool,
  requested,
}
use petty.Mcp.Server.Handlers.{call_tool}
use petty.Mcp.Server.Cases.{call_tool-Related}

-- The pool within its configuration, with ready sandboxes only.
pub record Fine (c : PoolConfig) (ts : List Task) (p : SandboxPool) : Type 0 where
  pub config : p.config ≡ c
  pub size : length p.queue ≤ c.min_size
  pub permits : p.permits + length ts ≡ c.max_concurrent_boots
  pub queue : All IsReady p.queue
  pub tasks : All TaskReady ts

abbrev pub PoolFine : PoolConfig → List Task → Option SandboxPool → Type 0
PoolFine c ts none = Unit
PoolFine c ts (some p) = Fine c ts p

pub record Inv (k : ℕ) (m : ManagerConfig) (c : PoolConfig) (ts : List Task) (s : Server)
    : Type 0 where
  pub manager : Limit.Inv k s.manager
  pub config : s.manager.config ≡ m
  pub pool : PoolFine c ts s.pool

abbrev pub alone : List Task → Trace → SandboxPool → System
alone ts t p = record { pool = p; tasks = ts; callers = []; trace = t }

pub turn-Fine :
    (l : Libraries) (c : PoolConfig) (o : Turn) (ts : List Task) (t : Trace) (p : SandboxPool)
    → Fine c ts p
    → let y = Schedule.step l o (alone ts t p) in Fine c y.tasks y.pool
turn-Fine l c o ts t p v =
    let a =
      Bounds.step-Inv l c o (alone ts t p)
        (record { config = v.config; size = v.size; permits = v.permits }) in
    let b =
      step-AllReady l o (alone ts t p)
        (record { queue = v.queue; tasks = v.tasks; callers = tt }) in
    record {
      config = a.config;
      size = a.size;
      permits = a.permits;
      queue = b.queue;
      tasks = b.tasks;
    }

-- The server after its manager did something that keeps it.
pub managed-Inv :
    {k : ℕ} {m : ManagerConfig} {c : PoolConfig} {ts : List Task} (s : Server) (m' : SandboxManager)
    → Inv k m c ts s
    → Kept k s.manager m'
    → Inv k m c ts (record s { manager = m' })
managed-Inv s m' v (w, e) = record { manager = w; config = e ∙ v.config; pool = v.pool }

module _ (l : Libraries) (r : Tools) (k : ℕ) (m : ManagerConfig) (c : PoolConfig)
    (ts : List Task) where
  abbrev Keeps : Server → Trace → Outcome × Server × Trace → Type 0
  Keeps s t (o, s', t') = Inv k m c ts s → Inv k m c ts s'

  abbrev KeepsId : Server → Option Uuid × Server × Trace → Type 0
  KeepsId s (o, s', t') = Inv k m c ts s → Inv k m c ts s'

  after_register-server :
      (a : Result (CoreError × Sandbox) Uuid) (s : Server) (t : Trace)
      → (after_register l r a s t).1 ≡ s
  unfolding after_register
  after_register-server (ok id) s t = refl
  after_register-server (err (e, x)) s t = refl

  register_acquired-Inv :
      (a : Result CoreError Sandbox) (s : Server) (t : Trace)
      → ((x : Sandbox) → a ≡ ok x → IsReady x)
      → KeepsId s (register_acquired l r a s t)
  unfolding register_acquired
  register_acquired-Inv (err e) s t h v = v
  register_acquired-Inv (ok x) s t h v =
      subst (Inv k m c ts)
        (sym (
          after_register-server (Manager.register s.manager x).0
            (record s { manager = (Manager.register s.manager x).1 }) t))
        (managed-Inv s (Manager.register s.manager x).1 v
          (register-Kept l x s.manager (h x refl) v.manager))

  acquired-Fine : (p : SandboxPool) (t : Trace) → Fine c ts p → Fine c ts (acquire l p t).1
  acquired-Fine p t v =
      let (a, b, e) = acquire-Lowers l p t in
      record {
        config = a ∙ v.config;
        size = omega (arith, b, v.size);
        permits = omega (arith, e, v.permits);
        queue = (acquire-Given l p t v.queue).1;
        tasks = v.tasks;
      }

  from_pool-Inv :
      (o : Option SandboxPool) (s : Server) (t : Trace)
      → s.pool ≡ o
      → KeepsId s (from_pool l r o s t)
  unfolding from_pool
  from_pool-Inv none s t e v = v
  from_pool-Inv (some p) s t e v =
      let fine : Fine c ts p = subst (PoolFine c ts) e v.pool in
      let (a, p', t') = acquire l p t in
      register_acquired-Inv a (record s { pool = some p' }) t' (acquire-Given l p t fine.queue).0
        (record { manager = v.manager; config = v.config; pool = acquired-Fine p t fine })

  from_cold_start-Inv :
      (params : CreateSandboxParams) (s : Server) (t : Trace)
      → Keeps s t (from_cold_start l r params s t)
  unfolding from_cold_start Limit.step
  from_cold_start-Inv params s t = by_config (build (requested s.config params))
    where
      by_config :
          (b : Result CoreError SandboxConfig)
          → Keeps s t (elim b as (λ _. Outcome × Server × Trace) [
            | err e ↦
                (returned (error (lit "Invalid sandbox configuration: " ++ error_text l r e)), s, t)
            | ok q ↦
                let (id, m', t') = Manager.create l q s.manager t in
                (returned (created_result l r id), record s { manager = m' }, t')
          ])
      by_config (err e) v = v
      by_config (ok q) v =
          managed-Inv s (Manager.create l q s.manager t).1 v
            (Limit.step-Inv l (Limit.create q) s.manager t tt v.manager)

  after_pool-Inv :
      (params : CreateSandboxParams) (s : Server) (t : Trace) (x : Option Uuid × Server × Trace)
      → KeepsId s x
      → Keeps s t (after_pool l r params x)
  unfolding after_pool
  after_pool-Inv params s t (some id, s', t') h v = h v
  after_pool-Inv params s t (none, s', t') h v = from_cold_start-Inv params s' t' (h v)

  pub call_tool-Inv :
      (name : Str) (args : Option r.Arguments) (s : Server) (t : Trace)
      → Keeps s t (call_tool l r name args s t)
  call_tool-Inv =
      call_tool-Related l r Keeps (λ o s t v. v)
        (λ op a o s t v.
          managed-Inv s (Limit.step l op s.manager t).0 v
            (Limit.step-Inv l op s.manager t (Within-Allowed op a) v.manager))
        (λ params s t.
          after_pool-Inv params s t (from_pool l r s.pool s t) (from_pool-Inv s.pool s t refl))
