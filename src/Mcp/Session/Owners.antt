-- ===== src/Mcp/Session/Owners.antt =====
-- Who holds the sandbox of an identifier in the whole server: the manager's registry, the pool's
-- queue or one of its creation tasks.
use petty.Shared.{ℕ, ◌+◌, ◌≡◌, refl, Option, none, some, arith, inl, inr, ◌++◌, Bool-cases}
use petty.Shared.Result.{Result, ok, err}
use petty.Text.{Str, lit}
use petty.Host.{Uuid, Trace}
use petty.Core.Error.{CoreError}
use petty.Core.Config.{SandboxConfig, build}
use petty.Core.Sandbox.{Sandbox, Libraries}
use petty.Core.Sandbox.Growth.{destroy-Grows}
use petty.Core.Sandbox.Owners.{
  of_answer, Moves, same-Moves, Moves-beside, Owned, Unrepeated, Moves-Owned,
}
use petty.Core.Manager.{SandboxManager, at_limit, insert}
use petty.Core.Manager
use petty.Core.Manager.Owners.{
  in_registry, in_registry-insert, Within, step-Managed, create-Managed,
}
use petty.Core.Manager.Limit.{Op}
use petty.Core.Manager.Limit
use petty.Core.Pool.{SandboxPool, acquire}
use petty.Core.Pool.Owners.{in_queue}
use petty.Core.Pool.Owners.Acquires.{acquire-Moves}
use petty.Mcp.Types.{CreateSandboxParams}
use petty.Mcp.Tools.{Tools, Outcome, returned, error}
use petty.Mcp.Server.{Server, error_text}
use petty.Mcp.Server.Create.{
  register_acquired, after_register, created_result, from_pool, from_cold_start, after_pool,
  requested,
}
use petty.Mcp.Server.Handlers.{call_tool}
use petty.Mcp.Server.Cases.{call_tool-Related}

module _ (i : Uuid) where
  abbrev pub in_pool : Option SandboxPool → ℕ
  in_pool none = 0
  in_pool (some p) = in_queue i p.queue

  -- How many places of the server hold a sandbox of this identifier.
  abbrev pub in_server : Server → ℕ
  in_server s = in_registry i s.manager.sandboxes + in_pool s.pool

module _ (l : Libraries) (fresh : Unrepeated l) (i : Uuid) where
  -- The server's steps keep one holder at most, beside the holders elsewhere.
  abbrev pub Keeps : ℕ → Trace → ℕ → Trace → Type 0
  Keeps n t n' t' = (k : ℕ) → Owned l i (k + n) t → Owned l i (k + n') t'

  pub Moves-Keeps : (t t' : Trace) (n n' : ℕ) → Moves l i t n t' n' → Keeps n t n' t'
  Moves-Keeps t t' n n' m k v = Moves-Owned l fresh i t t' n n' k m v

  Keeps-trans : (t u t' : Trace) (n m n' : ℕ) → Keeps n t m u → Keeps m u n' t' → Keeps n t n' t'
  Keeps-trans t u t' n m n' f g k v = g k (f k v)

module _ (l : Libraries) (r : Tools) (fresh : Unrepeated l) (i : Uuid) where
  abbrev ServerKeeps : Server → Trace → Outcome × Server × Trace → Type 0
  ServerKeeps s t (o, s', t') = Keeps l fresh i (in_server i s) t (in_server i s') t'

  pub managed-Keeps :
      (op : Op)
      → Within op
      → (o : Outcome) (s : Server) (t : Trace)
      → let (m, t') = Limit.step l op s.manager t in
        ServerKeeps s t (o, record s { manager = m }, t')
  managed-Keeps op w o s t = Moves-Keeps l fresh i t _ _ _ (
      Moves-beside l i t _ _ _ (in_pool i s.pool) _ _ (omega arith) (omega arith)
        (step-Managed l i op s.manager t w))

  register_acquired-Moves :
      (a : Result CoreError Sandbox) (s : Server) (t : Trace)
      → let (o, s', t') = register_acquired l r a s t in
        Moves l i t (in_server i s + of_answer i (some a)) t' (in_server i s')
  unfolding register_acquired after_register Manager.register
  register_acquired-Moves (err e) s t = same-Moves l i t t _ _ (omega arith) (omega arith)
  register_acquired-Moves (ok x) s t = elim (Bool-cases (at_limit s.manager)) [
    | inl full ↦ rw full (same-Moves l i t _ _ _ (destroy-Grows l x t) (omega arith))
    | inr room ↦ rw room (
        same-Moves l i t t _ _ (omega arith)
          (omega (arith, in_registry-insert i x.id x s.manager.sandboxes)))
  ]

  from_pool-Keeps :
      (o : Option SandboxPool) (s : Server) (t : Trace)
      → s.pool ≡ o
      → let (_, s', t') = from_pool l r o s t in
        Keeps l fresh i (in_server i s) t (in_server i s') t'
  unfolding from_pool
  from_pool-Keeps none s t e = λ k v. v
  from_pool-Keeps (some p) s t e =
      let (a, p', t') = acquire l p t in
      let held_back = in_registry i s.manager.sandboxes in
      Keeps-trans l fresh i t t' _ _ _ _
        (Moves-Keeps l fresh i t t' _ _ (
          Moves-beside l i t t' _ _ held_back _ _ (rw e (omega arith)) (omega arith)
            (acquire-Moves l i p t)))
        (Moves-Keeps l fresh i t' _ _ _
          (register_acquired-Moves a (record s { pool = some p' }) t'))

  from_cold_start-Keeps :
      (params : CreateSandboxParams) (s : Server) (t : Trace)
      → ServerKeeps s t (from_cold_start l r params s t)
  unfolding from_cold_start
  from_cold_start-Keeps params s t = by_config (build (requested s.config params))
    where
      by_config :
          (b : Result CoreError SandboxConfig)
          → ServerKeeps s t (elim b as (λ _. Outcome × Server × Trace) [
            | err e ↦
                (returned (error (lit "Invalid sandbox configuration: " ++ error_text l r e)), s, t)
            | ok c ↦
                let (id, m, t') = Manager.create l c s.manager t in
                (returned (created_result l r id), record s { manager = m }, t')
          ])
      by_config (err e) = λ k v. v
      by_config (ok c) = Moves-Keeps l fresh i t _ _ _ (
          Moves-beside l i t _ _ _ (in_pool i s.pool) _ _ (omega arith) (omega arith)
            (create-Managed l i c s.manager t))

  after_pool-Keeps :
      (params : CreateSandboxParams) (s : Server) (t : Trace) (x : Option Uuid × Server × Trace)
      → let (_, s', t') = x in
        Keeps l fresh i (in_server i s) t (in_server i s') t'
        → ServerKeeps s t (after_pool l r params x)
  unfolding after_pool
  after_pool-Keeps params s t (some id, s', t') h = h
  after_pool-Keeps params s t (none, s', t') h =
      Keeps-trans l fresh i t t' _ _ _ _ h (from_cold_start-Keeps params s' t')

  pub call_tool-Keeps :
      (name : Str) (args : Option r.Arguments) (s : Server) (t : Trace)
      → ServerKeeps s t (call_tool l r name args s t)
  call_tool-Keeps =
      call_tool-Related l r ServerKeeps (λ o s t k v. v) managed-Keeps
        (λ params s t.
          after_pool-Keeps params s t (from_pool l r s.pool s t) (from_pool-Keeps s.pool s t refl))
