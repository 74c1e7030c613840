-- ===== src/Mcp/Session/Signalled.antt =====
-- The pool of a session once its shutdown was signalled.
use petty.Shared.{
  ◌≤◌, ◌≡◌, refl, ◌∙◌, ap, sym, subst, true, List, [], ◌∷◌, ◌++◌, Option, none, some, arith, All,
  length,
}
use petty.Shared.Result.{Result, ok, err}
use petty.Text.{Str, lit}
use petty.Host.{Uuid, Trace}
use petty.Core.Error.{CoreError}
use petty.Core.Config.{SandboxConfig, build}
use petty.Core.Sandbox.{Sandbox, Libraries}
use petty.Core.Sandbox
use petty.Core.Manager
use petty.Core.Pool.{
  SandboxPool, Task, acquire, acquire_from, cold_start, warm_hit, count_destroyed, discard,
}
use petty.Core.Pool.Schedule.{Turn}
use petty.Core.Pool.Schedule
use petty.Core.Pool.Schedule.Acquires.{acquire-Lowers}
use petty.Core.Pool.Schedule.Shutdown.{Early, step-Closed}
use petty.Mcp.Types.{CreateSandboxParams}
use petty.Mcp.Tools.{Tools, Outcome, returned, error}
use petty.Mcp.Server.{Server, error_text}
use petty.Mcp.Server.Create.{
  register_acquired, after_register, created_result, from_pool, from_cold_start, after_pool,
  requested,
}
use petty.Mcp.Server.Handlers.{call_tool}
use petty.Mcp.Server.Cases.{call_tool-Related}
use petty.Mcp.Session.{Session, Background, on_pool}
use petty.Mcp.Session.Calls.{alone}

-- The flag of the pool, which its filler and its creation tasks read, is set.
abbrev pub IsSignalled : Option SandboxPool → Type 0
IsSignalled none = Unit
IsSignalled (some p) = p.shutdown ≡ true

-- It is set, the pool is empty, and no creation task is past its last look at it.
abbrev pub Shut : Option SandboxPool → List Task → Type 0
Shut none ts = Unit
Shut (some p) ts = (p.shutdown ≡ true) × (p.queue ≡ []) × All Early ts

module _ (l : Libraries) where
  acquire_from-shutdown :
      (q : List Sandbox) (p : SandboxPool) (t : Trace)
      → (acquire_from l q p t).1.shutdown ≡ p.shutdown
  unfolding acquire_from cold_start warm_hit
  acquire_from-shutdown [] p t = refl
  acquire_from-shutdown (s ∷ rest) p t =
      let (healthy, s', t') = Sandbox.is_healthy l s t in
      ground (arith, acquire_from-shutdown rest (count_destroyed p) (discard l s' t'))

  emptied : (q : List Sandbox) → length q ≤ 0 → q ≡ []
  emptied [] h = refl
  emptied (s ∷ q) h = absurd (omega arith)

  -- What `acquire` leaves of the flag and of an empty queue.
  acquire-Shut :
      (p : SandboxPool) (t : Trace)
      → ((acquire l p t).1.shutdown ≡ p.shutdown) × (p.queue ≡ [] → (acquire l p t).1.queue ≡ [])
  unfolding acquire
  acquire-Shut p t =
      let (_, b, _) = acquire-Lowers l p t in
      (
        acquire_from-shutdown p.queue p t,
        λ e. emptied _ (let n : length p.queue ≡ 0 = ap length e in omega (arith, b, n)),
      )

-- One pool after another: it stays signalled, and empty where it was both.
abbrev pub Stays : Option SandboxPool → Option SandboxPool → Type 0
Stays o o' = (IsSignalled o → IsSignalled o') × ((ts : List Task) → Shut o ts → Shut o' ts)

module _ (l : Libraries) (r : Tools) where
  Stays-same : (o o' : Option SandboxPool) → o' ≡ o → Stays o o'
  Stays-same o o' e = (subst IsSignalled (sym e), λ ts. subst (λ x. Shut x ts) (sym e))

  abbrev Keeps : Server → Trace → Outcome × Server × Trace → Type 0
  Keeps s t (o, s', t') = Stays s.pool s'.pool

  register_acquired-pool :
      (a : Result CoreError Sandbox) (s : Server) (t : Trace)
      → (register_acquired l r a s t).1.pool ≡ s.pool
  unfolding register_acquired after_register
  register_acquired-pool (err e) s t = refl
  register_acquired-pool (ok x) s t = by_result (Manager.register s.manager x).0
    where
      by_result :
          (a : Result (CoreError × Sandbox) Uuid)
          → (after_register l r a
              (record s { manager = (Manager.register s.manager x).1 })
              t).1.pool
            ≡ s.pool
      by_result (ok id) = refl
      by_result (err (e, y)) = refl

  from_pool-Stays :
      (o : Option SandboxPool) (s : Server) (t : Trace)
      → s.pool ≡ o
      → Stays o (from_pool l r o s t).1.pool
  unfolding from_pool
  from_pool-Stays none s t e = Stays-same none s.pool e
  from_pool-Stays (some p) s t e =
      let (a, p', t') = acquire l p t in
      let (f, q) = acquire-Shut l p t in
      let k = register_acquired-pool a (record s { pool = some p' }) t' in
      (
        λ h. subst IsSignalled (sym k) (f ∙ h),
        λ ts (h, i, j). subst (λ x. Shut x ts) (sym k) (f ∙ h, q i, j),
      )

  from_cold_start-pool :
      (params : CreateSandboxParams) (s : Server) (t : Trace)
      → (from_cold_start l r params s t).1.pool ≡ s.pool
  unfolding from_cold_start
  from_cold_start-pool params s t = by_config (build (requested s.config params))
    where
      by_config :
          (b : Result CoreError SandboxConfig)
          → (elim b as (λ _. Outcome × Server × Trace) [
            | err e ↦
                (returned (error (lit "Invalid sandbox configuration: " ++ error_text l r e)), s, t)
            | ok q ↦
                let (id, m', t') = Manager.create l q s.manager t in
                (returned (created_result l r id), record s { manager = m' }, t')
          ]).1.pool
            ≡ s.pool
      by_config (err e) = refl
      by_config (ok q) = refl

  after_pool-pool :
      (params : CreateSandboxParams) (x : Option Uuid × Server × Trace)
      → (after_pool l r params x).1.pool ≡ x.1.pool
  unfolding after_pool
  after_pool-pool params (some id, s', t') = refl
  after_pool-pool params (none, s', t') = from_cold_start-pool params s' t'

  pub call_tool-Stays :
      (name : Str) (args : Option r.Arguments) (s : Server) (t : Trace)
      → Keeps s t (call_tool l r name args s t)
  call_tool-Stays =
      call_tool-Related l r Keeps (λ o s t. (λ h. h, λ ts h. h)) (λ op a o s t. (λ h. h, λ ts h. h))
        (λ params s t.
          let e = after_pool-pool params (from_pool l r s.pool s t) in
          let (a, b) = from_pool-Stays s.pool s t refl in
          let (c, d) = Stays-same _ _ e in (λ h. c (a h), λ ts h. d ts (b ts h)))

  -- A background step of the pool, where it is the schedule's.
  abbrev pub Follows : Turn → Background l r → Type 0
  Follows o f =
      (p : SandboxPool) (ts : List Task) (t : Trace)
      → let z = Schedule.step l o (alone ts t p) in
        ((f p ts t).0 ≡ z.tasks) × ((f p ts t).1 ≡ z.pool)

  pub on_pool-cases :
      (f : Background l r) (y : Session) (P : Session → Type 0)
      → (y.server.pool ≡ none → P y)
      → ((p : SandboxPool)
          → y.server.pool ≡ some p
          → let (ts, p', t) = f p y.tasks y.trace in
            P (record { server = record (y.server) { pool = some p' }; tasks = ts; trace = t }))
      → P (on_pool l r f y)
  unfolding on_pool
  on_pool-cases f y P a b = by_pool y.server.pool refl
    where
      by_pool :
          (q : Option SandboxPool)
          → y.server.pool ≡ q
          → P (elim q as (λ _. Session) [
            | none ↦ y
            | some p ↦
                let (ts, p', t) = f p y.tasks y.trace in
                record { server = record (y.server) { pool = some p' }; tasks = ts; trace = t }
          ])
      by_pool none e = a e
      by_pool (some p) e = b p e

  pub on_pool-manager :
      (f : Background l r) (y : Session) → (on_pool l r f y).server.manager ≡ y.server.manager
  on_pool-manager f y =
      on_pool-cases f y (λ z. z.server.manager ≡ y.server.manager) (λ e. refl) (λ p e. refl)

  pub on_pool-IsSignalled :
      (f : Background l r) (y : Session)
      → ((p : SandboxPool) (ts : List Task) (t : Trace)
          → p.shutdown ≡ true
          → (f p ts t).1.shutdown ≡ true)
      → IsSignalled y.server.pool
      → IsSignalled (on_pool l r f y).server.pool
  on_pool-IsSignalled f y k h =
      on_pool-cases f y (λ z. IsSignalled z.server.pool) (λ e. h)
        (λ p e. let i : p.shutdown ≡ true = subst IsSignalled e h in k p y.tasks y.trace i)

  pub on_pool-Shut :
      (o : Turn) (f : Background l r) (y : Session)
      → Follows o f
      → Shut y.server.pool y.tasks
      → Shut (on_pool l r f y).server.pool (on_pool l r f y).tasks
  on_pool-Shut o f y k h =
      on_pool-cases f y (λ z. Shut z.server.pool z.tasks) (λ e. h)
        (λ p e.
          let i : Shut (some p) y.tasks = subst (λ x. Shut x y.tasks) e h in
          let (d, g) = k p y.tasks y.trace in
          let z =
            step-Closed l o (alone y.tasks y.trace p)
              (record { flagged = i.0; emptied = i.1; early = i.2 }) in
          rw (d, g) (z.flagged, z.emptied, z.early))
