-- ===== src/Mcp/Server/Creation.antt =====
-- What `create_sandbox` answers, and what it leaves.
use petty.Shared.{ℕ, ◌≡◌, refl, subst, ap, sym, ◌∙◌, ◌⊎◌, inl, inr, false, Option, none, some, ◌++◌}
use petty.Shared.Result.{Result, ok, err}
use petty.Text.{Str, lit}
use petty.Text.FilePath.{path_from}
use petty.Host.{Uuid, Trace, Env}
use petty.Core.Error.{CoreError}
use petty.Core.Config.{SandboxConfig, build}
use petty.Core.Config.Valid.{build_iff}
use petty.Core.Sandbox.{Sandbox, Libraries, machine_config}
use petty.Core.Manager.{SandboxManager, insert, at_limit}
use petty.Core.Manager.Added.{Added, register-Added, register-config, create-Added}
use petty.Core.Manager
use petty.Core.Pool.{SandboxPool, acquire}
use petty.Mcp.Config.{BouvetConfig}
use petty.Mcp.Types.{CreateSandboxParams}
use petty.Mcp.Tools.{Tools, Outcome, returned, error}
use petty.Mcp.Server.{Server, pool_template, json_result, error_text}
use petty.Mcp.Server.Create.{
  requested, set_memory, set_vcpus, id_result, after_register, register_acquired, from_pool,
  created_result, from_cold_start, after_pool, handle_create_sandbox, params_or_default,
}

abbrev pub or_default : Option ℕ → ℕ → ℕ
or_default none n = n
or_default (some k) n = k

abbrev Configured : Env → Uuid → BouvetConfig → CreateSandboxParams → SandboxConfig → Type 0
Configured e id c params k =
    let mc = machine_config e id k in
    (mc.kernel_path ≡ c.kernel_path)
    × (mc.root_drive.path_on_host ≡ c.rootfs_path)
    × (mc.memory_mib ≡ or_default params.memory_mib 256)
    × (mc.vcpu_count ≡ or_default params.vcpu_count 2)
    × (mc.chroot_path ≡ path_from (lit "/tmp/bouvet"))
    × (mc.firecracker_path ≡ path_from (lit "/usr/local/bin/firecracker"))

requested-Configured :
    (e : Env) (id : Uuid) (c : BouvetConfig) (m n : Option ℕ)
    → Configured e id c
        (record { memory_mib = m; vcpu_count = n })
        (set_vcpus n (set_memory m (pool_template c))).config
unfolding machine_config
requested-Configured e id c none none = (refl, refl, refl, refl, refl, refl)
requested-Configured e id c none (some n) = (refl, refl, refl, refl, refl, refl)
requested-Configured e id c (some m) none = (refl, refl, refl, refl, refl, refl)
requested-Configured e id c (some m) (some n) = (refl, refl, refl, refl, refl, refl)

-- The machine of a cold start has the kernel and the image of the server's configuration and the
-- memory and the processors of the request, or 256 MiB and 2 processors where it gives none. Its
-- chroot and Firecracker paths are the default ones, whatever the server's configuration says.
pub requested_machine :
    (e : Env) (id : Uuid) (c : BouvetConfig) (params : CreateSandboxParams) (k : SandboxConfig)
    → build (requested c params) ≡ ok k
    → let mc = machine_config e id k in
      (mc.kernel_path ≡ c.kernel_path)
      × (mc.root_drive.path_on_host ≡ c.rootfs_path)
      × (mc.memory_mib ≡ or_default params.memory_mib 256)
      × (mc.vcpu_count ≡ or_default params.vcpu_count 2)
      × (mc.chroot_path ≡ path_from (lit "/tmp/bouvet"))
      × (mc.firecracker_path ≡ path_from (lit "/usr/local/bin/firecracker"))
requested_machine e id c params k h =
    subst (Configured e id c params) ((build_iff (requested c params) k).0 h).1
      (requested-Configured e id c params.memory_mib params.vcpu_count)

module _ (l : Libraries) (r : Tools) where
  -- The sandbox of the identifier in the answer was added to the registry, below the limit; or the
  -- answer is an error and the registry is as it was.
  abbrev pub Answered : SandboxManager → Outcome × Server × Trace → Type 0
  Answered m (o, s, _) =
      ((x : Sandbox) × (o ≡ returned (json_result l r (id_result l r x.id)))
        × (at_limit m ≡ false)
        × (s.manager.sandboxes ≡ insert x.id x m.sandboxes))
      ⊎ ((message : Str) × (o ≡ returned (error message)) × (s.manager.sandboxes ≡ m.sandboxes))

  -- The same after the pool, where nothing is answered yet.
  abbrev Identified : SandboxManager → Option Uuid × Server × Trace → Type 0
  Identified m (some id, s, _) =
      (x : Sandbox) × (x.id ≡ id)
      × (at_limit m ≡ false)
      × (s.manager.sandboxes ≡ insert x.id x m.sandboxes)
  Identified m (none, s, _) = (s.manager.sandboxes ≡ m.sandboxes) × (s.manager.config ≡ m.config)

  after_register-Identified :
      (m : SandboxManager) (a : Result (CoreError × Sandbox) Uuid) (s : Server) (t : Trace)
      → s.manager.config ≡ m.config
      → Added m a s.manager
      → Identified m (after_register l r a s t)
  unfolding after_register
  after_register-Identified m (ok id) s t e h = h
  after_register-Identified m (err (x, sandbox)) s t e h = (h, e)

  register_acquired-Identified :
      (a : Result CoreError Sandbox) (s : Server) (t : Trace)
      → Identified s.manager (register_acquired l r a s t)
  unfolding register_acquired
  register_acquired-Identified (err e) s t = (refl, refl)
  register_acquired-Identified (ok x) s t =
      after_register-Identified s.manager (Manager.register s.manager x).0
        (record s { manager = (Manager.register s.manager x).1 }) t (register-config x s.manager)
        (register-Added x s.manager)

  from_pool-Identified :
      (o : Option SandboxPool) (s : Server) (t : Trace) → Identified s.manager (from_pool l r o s t)
  unfolding from_pool
  from_pool-Identified none s t = (refl, refl)
  from_pool-Identified (some p) s t =
      let (a, p', t') = acquire l p t in
      register_acquired-Identified a (record s { pool = some p' }) t'

  created-Answered :
      (a : Result CoreError Uuid) (m' : SandboxManager) (s : Server) (t : Trace)
      → Added s.manager a m'
      → Answered s.manager (returned (created_result l r a), record s { manager = m' }, t)
  unfolding created_result
  created-Answered (ok id) m' s t (x, e, b, h) =
      inl (x, ap (λ i. returned (json_result l r (id_result l r i))) (sym e), b, h)
  created-Answered (err e) m' s t h = inr (_, refl, h)

  from_cold_start-Answered :
      (params : CreateSandboxParams) (s : Server) (t : Trace)
      → Answered s.manager (from_cold_start l r params s t)
  unfolding from_cold_start
  from_cold_start-Answered params s t = by_config (build (requested s.config params))
    where
      by_config :
          (b : Result CoreError SandboxConfig)
          → Answered s.manager (elim b as (λ _. Outcome × Server × Trace) [
            | err e ↦
                (returned (error (lit "Invalid sandbox configuration: " ++ error_text l r e)), s, t)
            | ok k ↦
                let (id, m', t') = Manager.create l k s.manager t in
                (returned (created_result l r id), record s { manager = m' }, t')
          ])
      by_config (err e) = inr (_, refl, refl)
      by_config (ok k) =
          let (a, m', t') = Manager.create l k s.manager t in
          created-Answered a m' s t' (create-Added l k s.manager t)

  same-at_limit :
      (m m' : SandboxManager)
      → m'.sandboxes ≡ m.sandboxes
      → m'.config ≡ m.config
      → at_limit m' ≡ at_limit m
  unfolding at_limit
  same-at_limit m m' h e = cc

  same-Answered :
      (m m' : SandboxManager) (x : Outcome × Server × Trace)
      → m'.sandboxes ≡ m.sandboxes
      → m'.config ≡ m.config
      → Answered m' x
      → Answered m x
  same-Answered m m' x h e (inl (y, o, b, i)) =
      inl (y, o, sym (same-at_limit m m' h e) ∙ b, i ∙ ap (insert y.id y) h)
  same-Answered m m' x h e (inr (message, o, i)) = inr (message, o, i ∙ h)

  after_pool-Answered :
      (params : CreateSandboxParams) (m : SandboxManager) (x : Option Uuid × Server × Trace)
      → Identified m x
      → Answered m (after_pool l r params x)
  unfolding after_pool
  after_pool-Answered params m (some id, s, t) (x, e, b, h) =
      inl (x, ap (λ i. returned (json_result l r (id_result l r i))) (sym e), b, h)
  after_pool-Answered params m (none, s, t) (h, e) =
      same-Answered m s.manager (from_cold_start l r params s t) h e
        (from_cold_start-Answered params s t)

  -- `create_sandbox` either answers with the identifier of a sandbox that it added to the registry,
  -- which was below its limit, and changed nothing else there, or it answers with an error and the
  -- registry is as it was: whether it tried the pool or not, and whatever the request asks and the
  -- host answers.
  pub create_sandbox-Answered :
      (args : Option r.Arguments) (s : Server) (t : Trace)
      → Answered s.manager (handle_create_sandbox l r args s t)
  unfolding handle_create_sandbox
  create_sandbox-Answered args s t =
      after_pool-Answered (params_or_default r.create_params args) s.manager
        (from_pool l r s.pool s t) (from_pool-Identified s.pool s t)

  -- Where the pool gives a sandbox that is registered, the memory and the processors that are asked
  -- for have no effect: any two requests have the same answer and leave the same state.
  pub warm_ignores_request :
      (a b : Option r.Arguments) (s : Server) (t : Trace) (id : Uuid)
      → (from_pool l r s.pool s t).0 ≡ some id
      → handle_create_sandbox l r a s t ≡ handle_create_sandbox l r b s t
  unfolding handle_create_sandbox
  warm_ignores_request a b s t id h = by_pool (from_pool l r s.pool s t) h
    where
      by_pool :
          (x : Option Uuid × Server × Trace)
          → x.0 ≡ some id
          → after_pool l r (params_or_default r.create_params a) x
            ≡ after_pool l r (params_or_default r.create_params b) x
      by_pool (some i, s', t') e = refl
      by_pool (none, s', t') e = absurd (cc e)
