-- ===== src/Mcp/Concurrent/Safe/Steps.antt =====
-- A step of a request until it starts cold, beside others that are past the check of the limit.
use petty.Shared.{
  ℕ, suc, ◌+◌, ◌-◌, ◌≤◌, ◌≡◌, refl, subst, ◌∙◌, List, Option, none, some, arith, if◌then◌else◌,
  Bool, true, false,
}
use petty.Shared.Result.{Result, ok, err}
use petty.Host.{Trace}
use petty.Core.Error.{CoreError}
use petty.Core.Config.{SandboxConfig}
use petty.Core.Sandbox.{Libraries}
use petty.Core.Manager.{ManagerConfig, at_limit}
use petty.Core.Manager.Race.{checked}
use petty.Core.Pool.{SandboxPool, PoolConfig, Task}
use petty.Core.Pool.Caller.{Caller, caller_step, answer}
use petty.Core.Pool.Schedule.Bounds.{caller_step-Lowers}
use petty.Core.Pool.Schedule.Ready.{CallerReady, caller_step-Kept}
use petty.Mcp.Types.{CreateSandboxParams}
use petty.Mcp.Server.{Server}
use petty.Mcp.Session.Calls.{Fine, PoolFine, Inv}
use petty.Mcp.Concurrent.{Request, acquiring, starting, creating, start_cold, acquire_step}
use petty.Mcp.Concurrent.Safe.Ready.{
  is_creating, creating_kept, KeptReady, answer-AnswerReady, after_acquire-KeptReady,
}

module _ (l : Libraries) (k : ℕ) (m : ManagerConfig) (c : PoolConfig) (ts : List Task) where
  -- The server may exceed its limit by the requests of `k` that are not creating yet: by none where all
  -- are.
  abbrev pub InvWith : ℕ → Server → Type 0
  InvWith n s = Inv (k - n) m c ts s

  pub InvWith-eq : (n n' : ℕ) (s : Server) → n ≡ n' → InvWith n s → InvWith n' s
  InvWith-eq n n' s e v = subst (λ i. InvWith i s) e v

  -- One step of a request beside `n` others that are creating.
  abbrev pub Stepped : Request → ℕ → Server → Option Request × Server × Trace → Type 0
  Stepped q n s (o, s', t') =
      is_creating q + n ≤ k
      → creating_kept o + n ≤ k
      → InvWith (is_creating q + n) s
      → InvWith (creating_kept o + n) s' × KeptReady o

  caller_step-Fine :
      (x : Caller) (p : SandboxPool) (t : Trace)
      → CallerReady x
      → Fine c ts p
      → Fine c ts (caller_step l x p t).1
  caller_step-Fine x p t h v =
      let (a, b, e) = caller_step-Lowers l x p t in
      record {
        config = a ∙ v.config;
        size = omega (arith, b, v.size);
        permits = omega (arith, e, v.permits);
        queue = (caller_step-Kept l x p t h v.queue).1;
        tasks = v.tasks;
      }

  pub acquire_step-Stepped :
      (params : CreateSandboxParams) (x : Caller) (n : ℕ) (o : Option SandboxPool) (s : Server)
      (t : Trace)
      → s.pool ≡ o
      → CallerReady x
      → Stepped (acquiring params x) n s (acquire_step l params x o s t)
  unfolding acquire_step
  acquire_step-Stepped params x n none s t e h a b v = (v, tt)
  acquire_step-Stepped params x n (some p) s t e h a b v =
      let fine : Fine c ts p = subst (PoolFine c ts) e v.pool in
      let (o, p', t') = caller_step l x p t in
      let (i, z) =
        after_acquire-KeptReady l params (answer l x p t) o (answer-AnswerReady l x p t h)
          (caller_step-Kept l x p t h fine.queue).0 in
      (
        InvWith-eq (0 + n) _ _ (omega (arith, z)) (record {
          manager = v.manager;
          config = v.config;
          pool = caller_step-Fine x p t h fine;
        }),
        i,
      )

  -- The manager after one more sandbox is past the check.
  pub below_limit :
      (n : ℕ) (s : Server)
      → at_limit s.manager ≡ false
      → suc n ≤ k
      → InvWith n s
      → InvWith (suc n) s
  unfolding at_limit
  below_limit n s room h v = record {
    manager = record { good = v.manager.good; bounded = λ p. ground arith };
    config = v.config;
    pool = v.pool;
  }

  pub start_cold-Stepped :
      (params : CreateSandboxParams) (n : ℕ) (b : Result CoreError SandboxConfig) (s : Server)
      (t : Trace)
      → Stepped (starting params) n s (start_cold b s.manager, s, t)
  unfolding start_cold
  start_cold-Stepped params n (err e) s t a b v = (v, tt)
  start_cold-Stepped params n (ok q) s t a b v = by_limit (at_limit s.manager) refl b
    where
      by_limit :
          (full : Bool)
          → at_limit s.manager ≡ full
          → let o : Option Request = if full then none else some (creating (checked q)) in
            creating_kept o + n ≤ k → InvWith (creating_kept o + n) s × KeptReady o
      by_limit true e h = (v, tt)
      by_limit false e h = (
        InvWith-eq (suc n) _ s (omega arith)
            (below_limit n s e (omega arith) (InvWith-eq (0 + n) n s (omega arith) v)),
        tt,
      )
