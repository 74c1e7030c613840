-- ===== src/Mcp/Concurrent/Alone.antt =====
-- A `create_sandbox` request that nothing interrupts, against the whole handler.
use petty.Shared.{
  ℕ, zero, suc, ◌≡◌, refl, sym, subst, List, [], ◌∷◌, ◌++◌, Option, none, some, inl, inr,
  if◌then◌else◌, Bool, true, false, Bool-cases,
}
use petty.Shared.Result.{Result, ok, err}
use petty.Text.{lit}
use petty.Host.{Trace}
use petty.Core.Error.{CoreError}
use petty.Core.Config.{SandboxConfig, build}
use petty.Core.Sandbox.{Sandbox, Libraries}
use petty.Core.Sandbox
use petty.Core.Manager.{SandboxManager, at_limit, insert, next_cid, registered}
use petty.Core.Manager
use petty.Core.Manager.Race.{checked, booted, advance, boot_end}
use petty.Core.Pool.{
  SandboxPool, acquire, acquire_from, cold_start, warm_hit, count_destroyed, discard,
}
use petty.Core.Pool.Caller.{trying, checking, Caller, caller_step, answer, count_hit}
use petty.Mcp.Types.{CreateSandboxParams}
use petty.Mcp.Tools.{Tools, Outcome}
use petty.Mcp.Server.{Server}
use petty.Mcp.Server.Create.{
  requested, register_acquired, after_register, from_pool, from_cold_start, after_pool,
  handle_create_sandbox, params_or_default, created_result,
}
use petty.Mcp.Concurrent.{
  Request, acquiring, registering, starting, creating, begin, after_acquire, start_cold, wrap,
  acquire_step, request_step,
}
use petty.Mcp.Tools.{returned, error}
use petty.Mcp.Server.{error_text}

module _ (l : Libraries) (r : Tools) where
  -- Up to so many steps of one request.
  pub steps : ℕ → Option Request → Server → Trace → Option Request × Server × Trace
  steps zero o s t = (o, s, t)
  steps (suc n) none s t = (none, s, t)
  steps (suc n) (some q) s t = let (o, s', t') = request_step l q s t in steps n o s' t'

  -- The request ends, and leaves the server and the host so.
  abbrev pub Reaches : Option Request → Server → Trace → Server × Trace → Type 0
  Reaches o s t (s', t') = (n : ℕ) × (steps n o s t ≡ (none, s', t'))

  Reaches-step :
      (q : Request) (o : Option Request) (s s₁ : Server) (t t₁ : Trace) (z : Server × Trace)
      → request_step l q s t ≡ (o, s₁, t₁)
      → Reaches o s₁ t₁ z
      → Reaches (some q) s t z
  unfolding steps
  Reaches-step q o s s₁ t t₁ z h (n, k) = (suc n, rw (h, steps) k)

  Reaches-done : (s : Server) (t : Trace) → Reaches none s t (s, t)
  unfolding steps
  Reaches-done s t = (0, refl)

  abbrev final : Outcome × Server × Trace → Server × Trace
  final (o, s, t) = (s, t)

  insert-Reaches :
      (x : Sandbox) (s : Server) (t : Trace)
      → Reaches (some (creating (booted x))) s t (
        record s { manager = record (s.manager) { sandboxes = insert x.id x s.manager.sandboxes } },
        t,
      )
  unfolding request_step advance
  insert-Reaches x s t = Reaches-step _ none s _ t t _ refl (Reaches-done _ t)

  booted-Reaches :
      (x : Result CoreError Sandbox × Trace) (m : SandboxManager) (s : Server)
      → let (o, m', t') = boot_end x m in
        let (_, n, u) = registered m x in
        Reaches (wrap o) (record s { manager = m' }) t' (record s { manager = n }, u)
  unfolding registered
  booted-Reaches (ok x, t) m s = insert-Reaches x (record s { manager = m }) t
  booted-Reaches (err e, t) m s = Reaches-done (record s { manager = m }) t

  create-Reaches :
      (k : SandboxConfig) (s : Server) (t : Trace)
      → let (_, m, t') = Manager.create l k s.manager t in
        Reaches (start_cold (ok k) s.manager) s t (record s { manager = m }, t')
  unfolding start_cold Manager.create request_step advance
  create-Reaches k s t = elim (Bool-cases (at_limit s.manager)) [
    | inl full ↦ rw full (Reaches-done s t)
    | inr room ↦ rw room (
        Reaches-step (creating (checked k)) _ s _ t _ _ refl (
          booted-Reaches (Sandbox.create l (record k { vsock_cid = s.manager.cid_counter }) t)
            (record (s.manager) { cid_counter = next_cid s.manager.cid_counter }) s))
  ]

  cold-Reaches :
      (params : CreateSandboxParams) (s : Server) (t : Trace)
      → Reaches (some (starting params)) s t (final (from_cold_start l r params s t))
  unfolding from_cold_start request_step start_cold
  cold-Reaches params s t =
      Reaches-step (starting params) _ s s t t _ refl
        (by_config (build (requested s.config params)))
    where
      by_config :
          (b : Result CoreError SandboxConfig)
          → Reaches (start_cold b s.manager) s t (
              final (elim b as (λ _. Outcome × Server × Trace) [
                | err e ↦ (
                  returned (error (lit "Invalid sandbox configuration: " ++ error_text l r e)),
                  s,
                  t,
                )
                | ok c ↦
                    let (id, m, t') = Manager.create l c s.manager t in
                    (returned (created_result l r id), record s { manager = m }, t')
              ]))
      by_config (err e) = Reaches-done s t
      by_config (ok k) = create-Reaches k s t

  -- From the result of `acquire` on.
  acquired-Reaches :
      (params : CreateSandboxParams) (a : Result CoreError Sandbox) (s : Server) (t : Trace)
      → Reaches
          (after_acquire params (some a) none)
          s
          t
          (final (after_pool l r params (register_acquired l r a s t)))
  unfolding after_acquire after_pool register_acquired after_register Manager.register request_step
  acquired-Reaches params (err e) s t = cold-Reaches params s t
  acquired-Reaches params (ok x) s t = elim (Bool-cases (at_limit s.manager)) [
    | inl full ↦
        Reaches-step (registering params x) (some (starting params)) s s t (Sandbox.destroy l x t).1
          _ (rw full refl) (rw full (cold-Reaches params s (Sandbox.destroy l x t).1))
    | inr room ↦
        Reaches-step (registering params x) (some (creating (booted x))) s s t t _ (rw room refl)
          (rw room (insert-Reaches x s t))
  ]

  abbrev finished :
      CreateSandboxParams → Server → Result CoreError Sandbox × SandboxPool × Trace → Server × Trace
  finished params s (a, p, t) =
      final (after_pool l r params (register_acquired l r a (record s { pool = some p }) t))

  acquire_from-Reaches :
      (params : CreateSandboxParams) (q : List Sandbox) (p : SandboxPool) (s : Server) (t : Trace)
      → Reaches
          (some (acquiring params trying))
          (record s { pool = some (record p { queue = q }) })
          t
          (finished params s (acquire_from l q p t))
  unfolding acquire_from request_step acquire_step caller_step answer cold_start warm_hit
      after_acquire
  acquire_from-Reaches params [] p s t =
      Reaches-step (acquiring params trying) _ _ _ t _ _ refl
        (acquired-Reaches params (cold_start l (record p { queue = [] }) t).0 _ _)
  acquire_from-Reaches params (x ∷ rest) p s t =
      let (healthy, x', t') = Sandbox.is_healthy l x t in
      Reaches-step (acquiring params trying) (some (acquiring params (checking x))) _
        (record s { pool = some (record p { queue = rest }) }) t t _ refl
        (Reaches-step (acquiring params (checking x)) _
          (record s { pool = some (record p { queue = rest }) }) _ t _ _ refl
          (by_health healthy x' t'
            (acquire_from-Reaches params rest (count_destroyed p) s (discard l x' t'))))
    where
      by_health :
          (healthy : Bool) (x' : Sandbox) (t' : Trace)
          → Reaches
              (some (acquiring params trying))
              (record s { pool = some (record (count_destroyed p) { queue = rest }) })
              (discard l x' t')
              (finished params s (acquire_from l rest (count_destroyed p) (discard l x' t')))
          → let a : Option (Result CoreError Sandbox) = if healthy then some (ok x') else none in
            let (o, p', u) : Option Caller × SandboxPool × Trace =
              if healthy
              then (none, count_hit (record p { queue = rest }), t')
              else (some trying, count_destroyed (record p { queue = rest }), discard l x' t') in
            Reaches
              (after_acquire params a o)
              (record s { pool = some p' })
              u
              (finished params s (
                if healthy
                then warm_hit l x' rest p t'
                else acquire_from l rest (count_destroyed p) (discard l x' t')))
      by_health true x' t' h = acquired-Reaches params (ok x') _ t'
      by_health false x' t' h = h

  from_pool-Reaches :
      (params : CreateSandboxParams) (o : Option SandboxPool) (s : Server) (t : Trace)
      → s.pool ≡ o
      → Reaches (some (begin params o)) s t (final (after_pool l r params (from_pool l r o s t)))
  unfolding begin from_pool after_pool acquire
  from_pool-Reaches params none s t e = cold-Reaches params s t
  from_pool-Reaches params (some p) s t e =
      subst
        (λ o.
          Reaches (some (acquiring params trying)) (record s { pool = o }) t
            (finished params s (acquire_from l p.queue p t)))
        (sym e) (acquire_from-Reaches params p.queue p s t)

  -- A `create_sandbox` request whose steps nothing interrupts is answered after finitely many of them,
  -- and leaves the server and the host as the whole handler does.
  steps-handle_create_sandbox :
      (args : Option r.Arguments) (s : Server) (t : Trace)
      → let (_, s', t') = handle_create_sandbox l r args s t in
        (n : ℕ) × (steps n (some (begin (params_or_default r.create_params args) s.pool)) s t
          ≡ (none, s', t'))
  unfolding handle_create_sandbox
  steps-handle_create_sandbox args s t =
      from_pool-Reaches (params_or_default r.create_params args) s.pool s t refl
