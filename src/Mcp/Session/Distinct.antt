-- ===== src/Mcp/Session/Distinct.antt =====
-- No sandbox of the server has two holders.
use petty.Shared.{
  ℕ, ◌+◌, ◌≤◌, ◌≡◌, refl, subst, List, [], ◌∷◌, Option, none, some, arith, inl, Bool, true, false,
  if◌then◌else◌,
}
use petty.Shared.Result.{Result, ok, err, some-injective}
use petty.Host.{Uuid, Trace}
use petty.Core.Error.{CoreError}
use petty.Core.Config.{SandboxConfig, build}
use petty.Core.Sandbox.{Libraries}
use petty.Core.Sandbox.Owners.{Unrepeated, Owned-eq}
use petty.Core.Manager.Limit
use petty.Core.Manager.Owners.{in_registry}
use petty.Core.Pool.{SandboxPool, Task, start}
use petty.Core.Pool.Schedule.{System, Turn}
use petty.Core.Pool.Schedule
use petty.Core.Pool.Owners.{in_tasks, in_callers, given}
use petty.Core.Pool.Owners.Moves.{step-Moves}
use petty.Mcp.Config.{BouvetConfig}
use petty.Mcp.Tools.{Tools, panicked}
use petty.Mcp.Server.{Server, new, pool_of, pool_template, server_with, start_pool}
use petty.Mcp.Session.{
  Session, Event, calls, starts, fills, signals, finishes, works, Background, filling, signalling,
  clears, working, finishing, on_pool, step, run,
}
use petty.Mcp.Session.Calls.{alone}
use petty.Mcp.Session.Bounds.{opened}
use petty.Mcp.Session.Owners.{in_server, Keeps, Moves-Keeps, managed-Keeps, call_tool-Keeps}

-- How many places of the session hold a sandbox of this identifier.
abbrev pub holders : Uuid → Session → ℕ
holders i y = in_server i y.server + in_tasks i y.tasks

module _ (l : Libraries) (r : Tools) (fresh : Unrepeated l) (i : Uuid) where
  abbrev pub SessionKeeps : Session → Session → Type 0
  SessionKeeps y z = Keeps l fresh i (holders i y) y.trace (holders i z) z.trace

  on_pool-Keeps :
      (o : Turn) (f : Background l r) (y : Session)
      → ((p : SandboxPool) (ts : List Task) (t : Trace)
          → let z = Schedule.step l o (alone ts t p) in
            (f p ts t ≡ (z.tasks, z.pool, z.trace))
            × (given i l o (alone ts t p) ≡ 0)
            × (in_callers i z.callers ≡ 0))
      → SessionKeeps y (on_pool l r f y)
  unfolding on_pool
  on_pool-Keeps o f y e = by_pool y.server.pool refl
    where
      by_pool :
          (q : Option SandboxPool)
          → y.server.pool ≡ q
          → SessionKeeps y (elim q as (λ _. Session) [
            | none ↦ y
            | some p ↦
                let (ts, p', t) = f p y.tasks y.trace in
                record { server = record (y.server) { pool = some p' }; tasks = ts; trace = t }
          ])
      by_pool none k = λ h v. v
      by_pool (some p) k = λ h v.
          let (a, b, c) = e p y.tasks y.trace in
          let z = Schedule.step l o (alone y.tasks y.trace p) in
          let n = h + in_registry i y.server.manager.sandboxes in
          let w =
            Moves-Keeps l fresh i y.trace z.trace _ _ (step-Moves l i o (alone y.tasks y.trace p)) n
              (Owned-eq l fresh i _ _ _ (rw k (omega arith)) v) in
          rw a (Owned-eq l fresh i _ _ _ (omega (arith, b, c)) w)

  start_pool-holders : (ts : List Task) (s : Server) → in_server i (start_pool s) ≡ in_server i s
  unfolding start_pool start
  start_pool-holders ts s = by_pool s.pool refl
    where
      by_pool :
          (q : Option SandboxPool)
          → s.pool ≡ q
          → in_server i (record s {
            pool = elim q as (λ _. Option SandboxPool) [ none ↦ none | some p ↦ some (start p) ];
          })
            ≡ in_server i s
      by_pool none k = rw k refl
      by_pool (some p) k = rw k refl

  pub step-Keeps : (e : Event l r) (y : Session) → SessionKeeps y (step l r e y)
  unfolding step Schedule.step Limit.step
  step-Keeps (calls name args) y k v = Owned-eq l fresh i _ _ _ (omega arith) (
      call_tool-Keeps l r fresh i name args y.server y.trace (k + in_tasks i y.tasks)
        (Owned-eq l fresh i _ _ _ (omega arith) v))
  step-Keeps starts y k v =
      Owned-eq l fresh i _ _ _ (omega (arith, start_pool-holders y.tasks y.server)) v
  step-Keeps fills y k v =
      on_pool-Keeps Schedule.fills (filling l r) y (λ p ts t. (refl, refl, refl)) k v
  step-Keeps signals y k v =
      on_pool-Keeps Schedule.signals (signalling l r) y (λ p ts t. (refl, refl, refl)) k v
  step-Keeps finishes y k v =
      on_pool-Keeps Schedule.finishes (finishing l r) y (λ p ts t. (refl, refl, refl)) k v
  step-Keeps (works j) y k v =
      on_pool-Keeps (Schedule.works j) (working l r j) y (λ p ts t. (refl, refl, refl)) k v
  step-Keeps clears y k v = Owned-eq l fresh i _ _ _ (omega arith) (
      managed-Keeps l r fresh i Limit.destroy_all tt panicked y.server y.trace
        (k + in_tasks i y.tasks) (Owned-eq l fresh i _ _ _ (omega arith) v))

  run-Keeps : (es : List (Event l r)) (y : Session) → SessionKeeps y (run l r es y)
  unfolding run
  run-Keeps [] y k v = v
  run-Keeps (e ∷ es) y k v = run-Keeps es (step l r e y) k (step-Keeps e y k v)

  pub new-in_server : (c : BouvetConfig) (s : Server) → new c ≡ some s → in_server i s ≡ 0
  unfolding new
  new-in_server c s h = by_new c.pool_enabled (build (pool_template c)) h
    where
      by_new :
          (b : Bool) (x : Result CoreError SandboxConfig)
          → (if b
              then elim x as (λ _. Option Server) [
                | ok k ↦ some (server_with c (some (pool_of c k)))
                | err e ↦ none
              ]
              else some (server_with c none))
            ≡ some s
          → in_server i s ≡ 0
      by_new true (ok k) e = subst (λ z. in_server i z ≡ 0) (some-injective e) (omega arith)
      by_new true (err x) e = absurd (cc e)
      by_new false x e = subst (λ z. in_server i z ≡ 0) (some-injective e) (omega arith)

  -- Where the host draws no identifier twice, from a server that `new` made and after any sequence of
  -- tool calls with the steps of the pool's filler, its creation tasks and its shutdown between them, at
  -- most one of the registry's entries, the queue's places and the creation tasks holds a sandbox of a
  -- given identifier. So a sandbox that was taken from the pool and registered is no longer in the pool,
  -- and no entry of the registry is the sandbox of another.
  pub session_holds_once :
      (c : BouvetConfig) (s : Server) (es : List (Event l r)) (t : Trace)
      → new c ≡ some s
      → holders i (run l r es (opened s t)) ≤ 1
  session_holds_once c s es t h =
      let e = new-in_server c s h in
      let (b, _) = run-Keeps es (opened s t) 0 (omega (arith, e), inl (omega (arith, e))) in
      omega (arith, b)
