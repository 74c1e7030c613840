-- ===== src/Mcp/Server/Create.antt =====
-- `create_sandbox` of crates/bouvet-mcp/src/server.rs: a warm sandbox of the pool, or a cold start.
use petty.Shared.{ℕ, ◌++◌, Option, none, some}
use petty.Shared.Result.{Result, ok, err}
use petty.Text.{Str, lit}
use petty.Host.{Uuid, Trace}
use petty.Core.Error.{CoreError}
use petty.Core.Config.{SandboxConfigBuilder, memory_mib, vcpu_count, build}
use petty.Core.Sandbox.{Sandbox, Libraries, state_text}
use petty.Core.Sandbox
use petty.Core.Manager.{SandboxManager, new_config, with_sandbox, ManagerMethod}
use petty.Core.Manager
use petty.Core.Pool.{SandboxPool, acquire}
use petty.Mcp.Config.{BouvetConfig}
use petty.Mcp.Types.{CreateSandboxParams, default_params, ToolResult, created}
use petty.Mcp.Tools.{Tools, CallToolResult, error, Outcome, returned}
use petty.Mcp.Server.{Server, pool_template, required, Tool, json_result, error_text}

unfoldable pub params_or_default {ℓ} :
    {A : Type ℓ} → (A → Result Str CreateSandboxParams) → Option A → CreateSandboxParams
unfolding required
params_or_default f args = elim (required f args) [ none ↦ default_params | some p ↦ p ]

abbrev pub set_memory : Option ℕ → SandboxConfigBuilder → SandboxConfigBuilder
set_memory none b = b
set_memory (some m) b = memory_mib b m

abbrev pub set_vcpus : Option ℕ → SandboxConfigBuilder → SandboxConfigBuilder
set_vcpus none b = b
set_vcpus (some n) b = vcpu_count b n

-- The builder of a cold start.
abbrev pub requested : BouvetConfig → CreateSandboxParams → SandboxConfigBuilder
requested c params = set_vcpus params.vcpu_count (set_memory params.memory_mib (pool_template c))

module _ (l : Libraries) (r : Tools) where
  open r use {Arguments}

  abbrev pub id_result : Uuid → ToolResult
  id_result id = created (record { sandbox_id = l.env.uuid_string id })

  -- A sandbox of the pool that the manager refuses is destroyed.
  unfoldable pub after_register :
      Result (CoreError × Sandbox) Uuid → Server → Trace → Option Uuid × Server × Trace
  after_register (ok id) s t = (some id, s, t)
  after_register (err (e, sandbox)) s t = (none, s, (Sandbox.destroy l sandbox t).1)

  -- The part of `create_sandbox` that the pool serves: the identifier under which a sandbox of the
  -- pool was registered, or nothing, after which a cold start is tried.
  unfoldable pub register_acquired :
      Result CoreError Sandbox → Server → Trace → Option Uuid × Server × Trace
  unfolding after_register
  register_acquired (err e) s t = (none, s, t)
  register_acquired (ok sandbox) s t =
      let (registered, m) = Manager.register s.manager sandbox in
      after_register registered (record s { manager = m }) t

  unfoldable pub from_pool : Option SandboxPool → Server → Trace → Option Uuid × Server × Trace
  unfolding register_acquired
  from_pool none s t = (none, s, t)
  from_pool (some p) s t =
      let (acquired, p', t') = acquire l p t in
      register_acquired acquired (record s { pool = some p' }) t'

  unfoldable pub created_result : Result CoreError Uuid → CallToolResult
  unfolding json_result
  created_result (ok id) = json_result l r (id_result id)
  created_result (err e) = error (lit "Failed to create sandbox: " ++ error_text l r e)

  unfoldable pub from_cold_start : CreateSandboxParams → Tool
  unfolding created_result
  from_cold_start params s t = elim (build (requested s.config params)) [
    | err e ↦ (returned (error (lit "Invalid sandbox configuration: " ++ error_text l r e)), s, t)
    | ok c ↦
        let (id, m, t') = Manager.create l c s.manager t in
        (returned (created_result id), record s { manager = m }, t')
  ]

  unfoldable pub after_pool :
      CreateSandboxParams → Option Uuid × Server × Trace → Outcome × Server × Trace
  unfolding json_result from_cold_start
  after_pool params (some id, s, t) = (returned (json_result l r (id_result id)), s, t)
  after_pool params (none, s, t) = from_cold_start params s t

  unfoldable pub handle_create_sandbox : Option Arguments → Tool
  unfolding from_pool after_pool params_or_default
  handle_create_sandbox args s t =
      after_pool (params_or_default r.create_params args) (from_pool s.pool s t)
