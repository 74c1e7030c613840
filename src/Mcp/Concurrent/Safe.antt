-- ===== src/Mcp/Concurrent/Safe.antt =====
-- What the server keeps to under concurrent requests.
pub mod Ready
pub mod Steps
pub mod Requests
use petty.Shared.{
  ℕ, zero, suc, ◌+◌, ◌-◌, ◌≤◌, ◌<◌, ◌≡◌, refl, sym, subst, ◌∙◌, ap, List, [], ◌∷◌, ◌++◌, Option,
  none, some, arith, length, inl, inr, if◌then◌else◌, ltb, Bool, true, false, Bool-cases, if_both,
  All, All-append, leb, length-append, ◌⊎◌,
}
use petty.Shared.Result.{Result, ok, err, ok-injective, some-injective}
use petty.Host.{Uuid, Trace}
use petty.Core.Error.{CoreError}
use petty.Core.Config.{SandboxConfig, build}
use petty.Core.Sandbox.{Sandbox, Libraries, ready}
use petty.Core.Sandbox
use petty.Core.Sandbox.Create.{create_ok}
use petty.Core.Manager.{SandboxManager, ManagerConfig, at_limit, insert, next_cid}
use petty.Core.Manager.Limit
use petty.Core.Manager.Limit.{insert-Inv}
use petty.Core.Manager.Registry.{Good, insert-Good, length-insert-le}
use petty.Core.Manager.Race.{Creator, checked, booted, advance, boot_end}
use petty.Core.Pool.{SandboxPool, PoolConfig, Task, cold_start}
use petty.Core.Pool.Caller.{Caller, trying, checking, caller_step, answer, answer_front}
use petty.Core.Pool.Schedule.Bounds.{caller_step-Lowers}
use petty.Core.Pool.Schedule.Ready.{
  IsReady, CallerReady, caller_step-Kept, OptionCallerReady, is_healthy-state,
}
use petty.Mcp.Types.{CreateSandboxParams}
use petty.Mcp.Tools.{Tools}
use petty.Mcp.Server.{Server}
use petty.Mcp.Server.Create.{requested}
use petty.Mcp.Session.{Session}
use petty.Mcp.Session
use petty.Mcp.Session.Calls.{Fine, PoolFine, Inv}
use petty.Mcp.Session.Bounds
use petty.Mcp.Concurrent.{
  Request, acquiring, registering, starting, creating, Hub, begin, after_acquire, start_cold, wrap,
  keep, acquire_step, request_step, request_at, Move, asks, goes, happens, move, run,
}
use petty.Mcp.Concurrent.Safe.Ready.{
  is_creating, creators, CreatorReady, RequestReady, creating_kept, KeptReady, AnswerReady,
  created-AnswerReady, answer-AnswerReady, after_acquire-KeptReady,
}
use petty.Mcp.Concurrent.Safe.Steps.{InvWith-eq}
use petty.Mcp.Concurrent.Safe.Requests.{request_at-Stepped}
use petty.Mcp.Config.{BouvetConfig}
use petty.Mcp.Server.{new, pool_of}
use petty.Mcp.Session.Bounds.{new-Inv, manager_config, opened}
use petty.Core.Pool.Schedule.Ready.{TaskReady}

abbrev larger : ℕ → ℕ → ℕ
larger a b = if ltb a b then b else a

module _ (l : Libraries) (r : Tools) where
  -- The most requests that were past the check at once, at the start and after each step.
  unfoldable pub busiest : List (Move l r) → Hub → ℕ
  busiest [] y = creators y.requests
  busiest (a ∷ as_) y = larger (creators y.requests) (busiest as_ (move l r a y))

  busiest-start : (as_ : List (Move l r)) (y : Hub) → creators y.requests ≤ busiest as_ y
  unfolding busiest
  busiest-start [] y = omega arith
  busiest-start (a ∷ as_) y = ground arith

  busiest-end :
      (as_ : List (Move l r)) (y : Hub) → creators (run l r as_ y).requests ≤ busiest as_ y
  unfolding busiest run
  busiest-end [] y = omega arith
  busiest-end (a ∷ as_) y = ground (arith, busiest-end as_ (move l r a y))

  module _ (k : ℕ) (m : ManagerConfig) (c : PoolConfig) where
    record HubInv (y : Hub) : Type 0 where
      server : Inv (k - creators y.requests) m c y.session.tasks y.session.server
      requests : All RequestReady y.requests

    creators-append : (q p : List Request) → creators (q ++ p) ≡ creators q + creators p
    creators-append [] p = omega arith
    creators-append (s ∷ q) p = omega (arith, creators-append q p)

    begin-ready :
        (params : CreateSandboxParams) (o : Option SandboxPool)
        → RequestReady (begin params o) × (is_creating (begin params o) ≡ 0)
    unfolding begin
    begin-ready params none = (tt, refl)
    begin-ready params (some p) = (tt, refl)

    move-HubInv :
        (a : Move l r) (y : Hub)
        → creators y.requests ≤ k
        → creators (move l r a y).requests ≤ k
        → HubInv y
        → HubInv (move l r a y)
    unfolding move
    move-HubInv (asks params) y b e v =
        let (z, n) = begin-ready params y.session.server.pool in
        record {
          server =
              InvWith-eq l k m c y.session.tasks _ _ y.session.server
                (omega
                  (arith, creators-append y.requests (begin params y.session.server.pool ∷ []), n))
                v.server;
          requests =
              All-append RequestReady y.requests (begin params y.session.server.pool ∷ [])
                v.requests (z, tt);
        }
    move-HubInv (goes i) y b e v =
        let (w, z) =
          request_at-Stepped l k m c y.session.tasks i y.requests 0 y.session.server y.session.trace
            v.requests (omega arith) (omega arith)
            (InvWith-eq l k m c y.session.tasks _ _ y.session.server (omega arith) v.server) in
        record { server = InvWith-eq l k m c y.session.tasks _ _ _ (omega arith) w; requests = z }
    move-HubInv (happens e) y b f v = record {
      server = Bounds.step-Inv l r (k - creators y.requests) m c e y.session v.server;
      requests = v.requests;
    }

    run-HubInv :
        (as_ : List (Move l r)) (y : Hub) → busiest as_ y ≤ k → HubInv y → HubInv (run l r as_ y)
    unfolding run busiest
    run-HubInv [] y b v = v
    run-HubInv (a ∷ as_) y b v =
        run-HubInv as_ (move l r a y) (ground arith)
          (move-HubInv a y (ground arith) (ground (arith, busiest-start as_ (move l r a y))) v)

-- What the server keeps to, with its requests in flight, where `busiest` of them were past the check
-- at once.
pub record Bounded (c : BouvetConfig) (n : ℕ) (y : Hub) : Type 0 where
  pub registry : Good y.session.server.manager.sandboxes
  pub limit : length y.session.server.manager.sandboxes + creators y.requests ≤ 100 + n
  pub pool :
      (p : SandboxPool)
      → y.session.server.pool ≡ some p
      → (length p.queue ≤ c.pool_min_size)
        × (p.permits + length y.session.tasks ≡ c.pool_max_boots)
        × All IsReady p.queue
        × All TaskReady y.session.tasks
  pub requests : All RequestReady y.requests

module _ (l : Libraries) (r : Tools) where
  -- From a server that `new` made, in any interleaving of the steps of any number of concurrent
  -- `create_sandbox` requests with other requests, the pool's tasks and the shutdown: every registered
  -- sandbox is ready and stands under its own identifier, no identifier stands twice, and every sandbox
  -- that a request holds is ready. Where at most n requests were at once past the check of the limit, the
  -- registered sandboxes and the requests that are past it are together at most 100 + n. Where there is
  -- a pool, it holds at most `pool_min_size` sandboxes, its free permits and creation tasks together are
  -- `pool_max_boots`, and each sandbox that it holds or that a task has booted is ready.
  pub concurrent-Bounded :
      (c : BouvetConfig) (s : Server) (as_ : List (Move l r)) (n : ℕ) (t : Trace)
      → new c ≡ some s
      → busiest l r as_ (record { session = opened s t; requests = [] }) ≤ n
      → Bounded c n (run l r as_ (record { session = opened s t; requests = [] }))
  concurrent-Bounded c s as_ n t h b =
      let (q, v) = new-Inv (n - 0) c s h in
      let y : Hub = run l r as_ (record { session = opened s t; requests = [] }) in
      let z : HubInv l r n (manager_config c) (pool_of c q).config y =
        run-HubInv l r n (manager_config c) (pool_of c q).config as_
          (record { session = opened s t; requests = [] }) b
          (record { server = v; requests = tt }) in
      let e : y.session.server.manager.config.max_sandboxes ≡ 100 =
        ap (λ x. x.max_sandboxes) z.server.config in
      record {
        registry = z.server.manager.good;
        limit = omega (
          arith,
          e,
          b,
          busiest-end l r as_ (record { session = opened s t; requests = [] }),
          z.server.manager.bounded (omega (arith, e)),
        );
        pool = λ p g.
            let w : Fine (pool_of c q).config y.session.tasks p =
              subst (PoolFine (pool_of c q).config y.session.tasks) g z.server.pool in
            (w.size, w.permits, w.queue, w.tasks);
        requests = z.requests;
      }
