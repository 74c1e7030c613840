-- ===== src/Mcp/Concurrent/Safe/Requests.antt =====
-- A step of one of the requests, beside the others.
use petty.Shared.{
  ℕ, zero, suc, ◌+◌, ◌-◌, ◌≤◌, ◌≡◌, refl, List, [], ◌∷◌, Option, none, some, arith, if◌then◌else◌,
  Bool, true, false, All,
}
use petty.Shared.Result.{Result, ok, err}
use petty.Host.{Trace}
use petty.Core.Error.{CoreError}
use petty.Core.Config.{SandboxConfig, build}
use petty.Core.Sandbox.{Sandbox, Libraries, ready}
use petty.Core.Sandbox
use petty.Core.Manager.{ManagerConfig, at_limit, next_cid}
use petty.Core.Manager.Limit
use petty.Core.Manager.Limit.{insert-Inv}
use petty.Core.Manager.Registry.{insert-Good, length-insert-le}
use petty.Core.Manager.Race.{checked, booted, advance, boot_end}
use petty.Core.Pool.{PoolConfig, Task}
use petty.Core.Pool.Schedule.Ready.{IsReady}
use petty.Mcp.Types.{CreateSandboxParams}
use petty.Mcp.Server.{Server}
use petty.Mcp.Server.Create.{requested}
use petty.Mcp.Concurrent.{
  Request, acquiring, registering, starting, creating, wrap, keep, request_step, request_at,
}
use petty.Mcp.Concurrent.Safe.Ready.{
  is_creating, creators, RequestReady, creating_kept, KeptReady, AnswerReady, created-AnswerReady,
}
use petty.Mcp.Concurrent.Safe.Steps.{
  InvWith, Stepped, InvWith-eq, acquire_step-Stepped, below_limit, start_cold-Stepped,
}

module _ (l : Libraries) (k : ℕ) (m : ManagerConfig) (c : PoolConfig) (ts : List Task) where
  abbrev Goes : Request → ℕ → Server → Option Request × Server × Trace → Type 0
  Goes = Stepped l k m c ts

  abbrev With : ℕ → Server → Type 0
  With = InvWith l k m c ts

  same : (n n' : ℕ) (s : Server) → n ≡ n' → With n s → With n' s
  same = InvWith-eq l k m c ts

  registering-Stepped :
      (params : CreateSandboxParams) (x : Sandbox) (n : ℕ) (s : Server) (t : Trace)
      → IsReady x
      → Goes (registering params x) n s (request_step l (registering params x) s t)
  unfolding request_step
  registering-Stepped params x n s t h a b v = by_limit (at_limit s.manager) refl b
    where
      by_limit :
          (full : Bool)
          → at_limit s.manager ≡ full
          → let (o, s', t') : Option Request × Server × Trace =
              if full
              then (some (starting params), s, (Sandbox.destroy l x t).1)
              else (some (creating (booted x)), s, t) in
            creating_kept o + n ≤ k → With (creating_kept o + n) s' × KeptReady o
      by_limit true e h' = (v, tt)
      by_limit false e h' = (
        same (suc n) _ s (omega arith)
            (below_limit l k m c ts n s e (omega arith) (same (0 + n) n s (omega arith) v)),
        h,
      )

  boot-Stepped :
      (q : SandboxConfig) (n : ℕ) (s : Server) (t : Trace)
      → Goes (creating (checked q)) n s (request_step l (creating (checked q)) s t)
  unfolding request_step advance
  boot-Stepped q n s t a b v =
      by_boot (Sandbox.create l (record q { vsock_cid = s.manager.cid_counter }) t)
        (created-AnswerReady l (record q { vsock_cid = s.manager.cid_counter }) t) b
    where
      counted :
          Limit.Inv
            (k - (1 + n))
            (record (s.manager) { cid_counter = next_cid s.manager.cid_counter })
      counted = record { good = v.manager.good; bounded = v.manager.bounded }

      by_boot :
          (r : Result CoreError Sandbox × Trace)
          → AnswerReady l (some r.0)
          → let (o, m', t') =
              boot_end r (record (s.manager) { cid_counter = next_cid s.manager.cid_counter }) in
            creating_kept (wrap o) + n ≤ k
            → With (creating_kept (wrap o) + n) (record s { manager = m' }) × KeptReady (wrap o)
      by_boot (ok x, u) h e = (record { manager = counted; config = v.config; pool = v.pool }, h)
      by_boot (err x, u) h e = (
        record {
          manager = record {
            good = v.manager.good;
            bounded = λ p. omega (arith, v.manager.bounded p);
          };
          config = v.config;
          pool = v.pool;
        },
        tt,
      )

  insert-Stepped :
      (x : Sandbox) (n : ℕ) (s : Server) (t : Trace)
      → IsReady x
      → Goes (creating (booted x)) n s (request_step l (creating (booted x)) s t)
  unfolding request_step advance
  insert-Stepped x n s t h a b v = (
    record {
      manager = record {
        good = insert-Good x s.manager.sandboxes h v.manager.good;
        bounded =
            λ p. omega (arith, v.manager.bounded p, length-insert-le x.id x s.manager.sandboxes);
      };
      config = v.config;
      pool = v.pool;
    },
    tt,
  )

  request_step-Stepped :
      (q : Request) (n : ℕ) (s : Server) (t : Trace)
      → RequestReady q
      → Goes q n s (request_step l q s t)
  unfolding request_step
  request_step-Stepped (acquiring params x) n s t h =
      acquire_step-Stepped l k m c ts params x n s.pool s t refl h
  request_step-Stepped (registering params x) n s t h = registering-Stepped params x n s t h
  request_step-Stepped (starting params) n s t h =
      start_cold-Stepped l k m c ts params n (build (requested s.config params)) s t
  request_step-Stepped (creating (checked q)) n s t h = boot-Stepped q n s t
  request_step-Stepped (creating (booted x)) n s t h = insert-Stepped x n s t h

  -- A step of one of the requests, beside `n` others.
  pub request_at-Stepped :
      (i : ℕ) (qs : List Request) (n : ℕ) (s : Server) (t : Trace)
      → All RequestReady qs
      → creators qs + n ≤ k
      → let (qs', s', t') = request_at l i qs s t in
        creators qs' + n ≤ k
        → With (creators qs + n) s
        → With (creators qs' + n) s' × All RequestReady qs'
  unfolding request_at
  request_at-Stepped i [] n s t h a b v = (v, tt)
  request_at-Stepped zero (q ∷ qs) n s t h a b v =
      kept (request_step l q s t) (request_step-Stepped q (creators qs + n) s t h.0 (omega arith)) b
    where
      kept :
          (o : Option Request × Server × Trace)
          → (creating_kept o.0 + (creators qs + n) ≤ k
              → With (is_creating q + (creators qs + n)) s
              → With (creating_kept o.0 + (creators qs + n)) o.1 × KeptReady o.0)
          → creators (keep o.0 qs) + n ≤ k
          → With (creators (keep o.0 qs) + n) o.1 × All RequestReady (keep o.0 qs)
      kept (none, s', t') g e =
          let (w, z) = g (omega arith) (same _ _ s (omega arith) v) in
          (same _ _ s' (omega arith) w, h.1)
      kept (some q', s', t') g e =
          let (w, z) = g (omega arith) (same _ _ s (omega arith) v) in
          (same _ _ s' (omega arith) w, (z, h.1))
  request_at-Stepped (suc i) (q ∷ qs) n s t h a b v =
      let (w, z) =
        request_at-Stepped i qs (is_creating q + n) s t h.1 (omega arith) (omega arith)
          (same _ _ s (omega arith) v) in
      (same _ _ _ (omega arith) w, (h.0, z))
