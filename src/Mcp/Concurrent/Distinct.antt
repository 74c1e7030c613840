-- ===== src/Mcp/Concurrent/Distinct.antt =====
-- No sandbox has two holders under concurrent requests.
use petty.Shared.{
  ℕ, zero, suc, ◌+◌, ◌≤◌, ◌≡◌, refl, List, [], ◌∷◌, ◌++◌, Option, none, some, arith, inl, if_both,
}
use petty.Shared.Result.{Result, ok, err}
use petty.Host.{Uuid, Trace}
use petty.Core.Error.{CoreError}
use petty.Core.Config.{SandboxConfig, build}
use petty.Core.Sandbox.{Sandbox, Libraries}
use petty.Core.Sandbox
use petty.Core.Sandbox.Growth.{destroy-Grows}
use petty.Core.Sandbox.Owners.{
  one, of_answer, Moves, same-Moves, Moves-beside, Moves-below, created-Moves, Unrepeated, Owned-eq,
}
use petty.Core.Manager.{SandboxManager, at_limit, next_cid}
use petty.Core.Manager.Owners.{in_registry, in_registry-insert}
use petty.Core.Manager.Race.{Creator, checked, booted, advance, boot_end}
use petty.Core.Pool.{SandboxPool}
use petty.Core.Pool.Caller.{Caller, caller_step, answer}
use petty.Core.Pool.Owners.{of_caller, in_tasks}
use petty.Core.Pool.Owners.Moves.{caller_step-Moves, of_calls}
use petty.Mcp.Config.{BouvetConfig}
use petty.Mcp.Types.{CreateSandboxParams}
use petty.Mcp.Tools.{Tools}
use petty.Mcp.Server.{Server, new}
use petty.Mcp.Server.Create.{requested}
use petty.Mcp.Session.Bounds.{opened}
use petty.Mcp.Session.Owners.{in_server, Keeps, Moves-Keeps}
use petty.Mcp.Session.Distinct.{holders, step-Keeps, new-in_server}
use petty.Mcp.Concurrent.{
  Request, acquiring, registering, starting, creating, Hub, begin, after_acquire, start_cold, wrap,
  keep, acquire_step, request_step, request_at, Move, asks, goes, happens, move, run,
}

module _ (i : Uuid) where
  abbrev of_creator : Creator → ℕ
  of_creator (checked k) = 0
  of_creator (booted x) = one i x

  abbrev pub of_request : Request → ℕ
  of_request (acquiring params c) = of_caller i c
  of_request (registering params x) = one i x
  of_request (starting params) = 0
  of_request (creating x) = of_creator x

  abbrev pub in_requests : List Request → ℕ
  in_requests [] = 0
  in_requests (q ∷ qs) = of_request q + in_requests qs

  abbrev of_kept : Option Request → ℕ
  of_kept none = 0
  of_kept (some q) = of_request q

  in_requests-append : (q r : List Request) → in_requests (q ++ r) ≡ in_requests q + in_requests r
  in_requests-append [] r = omega arith
  in_requests-append (s ∷ q) r = omega (arith, in_requests-append q r)

-- How many places of the server, its pool and its requests hold a sandbox of this identifier.
abbrev pub all_holders : Uuid → Hub → ℕ
all_holders i y = holders i y.session + in_requests i y.requests

module _ (l : Libraries) (i : Uuid) where
  abbrev Stepped : Request → Server → Trace → Option Request × Server × Trace → Type 0
  Stepped q s t (o, s', t') =
      Moves l i t (of_request i q + in_server i s) t' (of_kept i o + in_server i s')

  after_acquire-of_kept :
      (params : CreateSandboxParams) (a : Option (Result CoreError Sandbox)) (o : Option Caller)
      → of_kept i (after_acquire params a o) ≤ of_calls i o + of_answer i a
  unfolding after_acquire
  after_acquire-of_kept params (some (ok x)) o = omega arith
  after_acquire-of_kept params (some (err e)) o = omega arith
  after_acquire-of_kept params none none = omega arith
  after_acquire-of_kept params none (some c) = omega arith

  acquire_step-Stepped :
      (params : CreateSandboxParams) (c : Caller) (o : Option SandboxPool) (s : Server) (t : Trace)
      → s.pool ≡ o
      → Stepped (acquiring params c) s t (acquire_step l params c o s t)
  unfolding acquire_step
  acquire_step-Stepped params c none s t e = same-Moves l i t t _ _ (omega arith) (omega arith)
  acquire_step-Stepped params c (some p) s t e =
      let (o, p', t') = caller_step l c p t in
      Moves-below l i t t' _ _ _ (omega (arith, after_acquire-of_kept params (answer l c p t) o)) (
        Moves-beside l i t t' _ _ (in_registry i s.manager.sandboxes) _ _ (rw e (omega arith)) refl
          (caller_step-Moves l i c p t))

  boot_end-Stepped :
      (m : SandboxManager) (t : Trace) (n : ℕ) (r : Result CoreError Sandbox × Trace)
      → Moves l i t n r.1 (n + of_answer i (some r.0))
      → let (o, m', t') = boot_end r m in
        (m'.sandboxes ≡ m.sandboxes) × Moves l i t n t' (n + of_kept i (wrap o))
  boot_end-Stepped m t n (ok x, u) h = (refl, h)
  boot_end-Stepped m t n (err e, u) h = (refl, h)

  start_cold-of_kept :
      (b : Result CoreError SandboxConfig) (m : SandboxManager) → of_kept i (start_cold b m) ≡ 0
  unfolding start_cold
  start_cold-of_kept (err e) m = refl
  start_cold-of_kept (ok k) m = ground arith

  request_step-Stepped :
      (q : Request) (s : Server) (t : Trace) → Stepped q s t (request_step l q s t)
  unfolding request_step advance
  request_step-Stepped (acquiring params c) s t = acquire_step-Stepped params c s.pool s t refl
  request_step-Stepped (registering params x) s t =
      if_both (Stepped (registering params x) s t) (at_limit s.manager) _
        (some (creating (booted x)), s, t)
        (same-Moves l i t _ _ _ (destroy-Grows l x t) (omega arith))
        (same-Moves l i t t _ _ (omega arith) (omega arith))
  request_step-Stepped (starting params) s t =
      same-Moves l i t t _ _ (omega arith)
        (omega (arith, start_cold-of_kept (build (requested s.config params)) s.manager))
  request_step-Stepped (creating (checked k)) s t =
      let (e, m) =
        boot_end-Stepped (record (s.manager) { cid_counter = next_cid s.manager.cid_counter }) t 0
          (Sandbox.create l (record k { vsock_cid = s.manager.cid_counter }) t)
          (created-Moves l i 0 (record k { vsock_cid = s.manager.cid_counter }) t) in
      Moves-beside l i t _ _ _ (in_server i s) _ _ (omega arith) (rw e (omega arith)) m
  request_step-Stepped (creating (booted x)) s t =
      same-Moves l i t t _ _ (omega arith)
        (omega (arith, in_registry-insert i x.id x s.manager.sandboxes))

  request_at-Moves :
      (k : ℕ) (qs : List Request) (s : Server) (t : Trace)
      → let (qs', s', t') = request_at l k qs s t in
        Moves l i t (in_requests i qs + in_server i s) t' (in_requests i qs' + in_server i s')
  unfolding request_at
  request_at-Moves k [] s t = same-Moves l i t t _ _ (omega arith) (omega arith)
  request_at-Moves zero (q ∷ qs) s t =
      Moves-beside l i t _ _ _ (in_requests i qs) _ _ (omega arith)
        (kept (request_step l q s t).0 (in_server i (request_step l q s t).1))
        (request_step-Stepped q s t)
    where
      kept :
          (o : Option Request) (n : ℕ)
          → (of_kept i o + n) + in_requests i qs ≡ in_requests i (keep o qs) + n
      kept none n = omega arith
      kept (some x) n = omega arith
  request_at-Moves (suc k) (q ∷ qs) s t =
      Moves-beside l i t _ _ _ (of_request i q) _ _ (omega arith) (omega arith)
        (request_at-Moves k qs s t)

  begin-of_request :
      (params : CreateSandboxParams) (o : Option SandboxPool) → of_request i (begin params o) ≡ 0
  unfolding begin
  begin-of_request params none = refl
  begin-of_request params (some p) = refl

module _ (l : Libraries) (r : Tools) (fresh : Unrepeated l) (i : Uuid) where
  move-Keeps :
      (a : Move l r) (y : Hub)
      → Keeps l fresh i
          (all_holders i y)
          y.session.trace
          (all_holders i (move l r a y))
          (move l r a y).session.trace
  unfolding move
  move-Keeps (asks params) y k v =
      Owned-eq l fresh i _ _ _
        (omega (
          arith,
          in_requests-append i y.requests (begin params y.session.server.pool ∷ []),
          begin-of_request l i params y.session.server.pool,
        ))
        v
  move-Keeps (goes j) y k v = Owned-eq l fresh i _ _ _ (omega arith) (
      Moves-Keeps l fresh i y.session.trace _ _ _
        (request_at-Moves l i j y.requests y.session.server y.session.trace)
        (k + in_tasks i y.session.tasks) (Owned-eq l fresh i _ _ _ (omega arith) v))
  move-Keeps (happens e) y k v = Owned-eq l fresh i _ _ _ (omega arith) (
      step-Keeps l r fresh i e y.session (k + in_requests i y.requests)
        (Owned-eq l fresh i _ _ _ (omega arith) v))

  run-Keeps :
      (as_ : List (Move l r)) (y : Hub)
      → Keeps l fresh i
          (all_holders i y)
          y.session.trace
          (all_holders i (run l r as_ y))
          (run l r as_ y).session.trace
  unfolding run
  run-Keeps [] y k v = v
  run-Keeps (a ∷ as_) y k v = run-Keeps as_ (move l r a y) k (move-Keeps a y k v)

  -- Where the host draws no identifier twice, from a server that `new` made and under every interleaving
  -- of the steps of concurrent `create_sandbox` requests with each other, with any other requests and
  -- with the pool's filler, creation tasks and shutdown: at most one of the registry's entries, the
  -- queue's places, the creation tasks and the requests holds a sandbox of a given identifier. So no two
  -- requests get the same sandbox, and none gets one that is still in the pool or registered already.
  pub concurrent_hold_once :
      (c : BouvetConfig) (s : Server) (as_ : List (Move l r)) (t : Trace)
      → new c ≡ some s
      → all_holders i (run l r as_ (record { session = opened s t; requests = [] })) ≤ 1
  concurrent_hold_once c s as_ t h =
      let e = new-in_server l r fresh i c s h in
      let (b, _) =
        run-Keeps as_ (record { session = opened s t; requests = [] }) 0
          (omega (arith, e), inl (omega (arith, e))) in
      omega (arith, b)
