-- ===== src/Mcp/Server/Full.antt =====
-- `create_sandbox` at the manager's limit.
use petty.Shared.{◌≡◌, refl, subst, sym, true, Option, none, some, ◌++◌}
use petty.Shared.Result.{Result, ok, err}
use petty.Text.{Str, lit}
use petty.Host.{drop_machine, Trace}
use petty.Core.Error.{CoreError}
use petty.Core.Config.{SandboxConfig, build}
use petty.Core.Sandbox.{Sandbox, Libraries, machine_config}
use petty.Core.Sandbox
use petty.Core.Manager.{SandboxManager, insert, at_limit}
use petty.Core.Manager.Added.{register-full, create-full}
use petty.Core.Manager.Destroy.{Occurs, Occurs-drop}
use petty.Core.Manager
use petty.Core.Pool.{SandboxPool, acquire}
use petty.Mcp.Types.{CreateSandboxParams}
use petty.Mcp.Tools.{Tools, Outcome, returned, error}
use petty.Mcp.Server.{Server, error_text}
use petty.Mcp.Server.Create.{
  requested, after_register, register_acquired, from_pool, created_result, from_cold_start,
  after_pool, handle_create_sandbox, params_or_default,
}

module _ (l : Libraries) (r : Tools) where
  abbrev Refused : Server → Trace → Outcome × Server × Trace → Type 0
  Refused s t (o, s', t') =
      ((message : Str) × (o ≡ returned (error message)))
      × (s'.manager ≡ s.manager)
      × (s'.pool ≡ s.pool)
      × (t' ≡ t)

  from_cold_start-full :
      (params : CreateSandboxParams) (s : Server) (t : Trace)
      → at_limit s.manager ≡ true
      → Refused s t (from_cold_start l r params s t)
  unfolding from_cold_start created_result
  from_cold_start-full params s t full = by_config (build (requested s.config params))
    where
      by_config :
          (b : Result CoreError SandboxConfig)
          → Refused s t (elim b as (λ _. Outcome × Server × Trace) [
            | err e ↦
                (returned (error (lit "Invalid sandbox configuration: " ++ error_text l r e)), s, t)
            | ok k ↦
                let (id, m', t') = Manager.create l k s.manager t in
                (returned (created_result l r id), record s { manager = m' }, t')
          ])
      by_config (err e) = ((_, refl), refl, refl, refl)
      by_config (ok k) = rw (create-full l k s.manager t full) ((_, refl), refl, refl, refl)

  from_pool-full :
      (p : SandboxPool) (s : Server) (t : Trace) (x : Sandbox)
      → at_limit s.manager ≡ true
      → (acquire l p t).0 ≡ ok x
      → from_pool l r (some p) s t ≡ (
        none,
        record s { pool = some (acquire l p t).1 },
        (Sandbox.destroy l x (acquire l p t).2).1,
      )
  unfolding from_pool register_acquired after_register
  from_pool-full p s t x full a = rw (a, register-full x s.manager full) refl

  -- At the manager's limit, the sandbox that the pool gives is destroyed and the request is refused,
  -- with nothing registered.
  pub full_destroys_acquired :
      (args : Option r.Arguments) (p : SandboxPool) (s : Server) (t : Trace) (x : Sandbox)
      → s.pool ≡ some p
      → at_limit s.manager ≡ true
      → (acquire l p t).0 ≡ ok x
      → let (o, s', t') = handle_create_sandbox l r args s t in
        ((message : Str) × (o ≡ returned (error message)))
        × (s'.manager ≡ s.manager)
        × (s'.pool ≡ some (acquire l p t).1)
        × Occurs (drop_machine x.machine.id) t'
  unfolding handle_create_sandbox after_pool
  full_destroys_acquired args p s t x e full a =
      let s1 : Server = record s { pool = some (acquire l p t).1 } in
      let t1 : Trace = (Sandbox.destroy l x (acquire l p t).2).1 in
      let (o, m, q, u) = from_cold_start-full (params_or_default r.create_params args) s1 t1 full in
      rw (e, from_pool-full p s t x full a)
        (
          o,
          m,
          q,
          subst (Occurs (drop_machine x.machine.id)) (sym u) (Occurs-drop l x (acquire l p t).2),
        )
