-- ===== src/Mcp/Concurrent.antt =====
-- Concurrent `create_sandbox` requests of crates/bouvet-mcp/src/server.rs, with the other requests
-- and the pool's tasks between their steps. The steps of one are those of `acquire` in pool.rs and of
-- `register` and `create` in manager.rs between which another task may run. The server's lock of its
-- pool, which keeps one `acquire` from another's steps, is left out: every order that it allows is here.
pub mod Distinct
pub mod Alone
pub mod Safe
use petty.Shared.{ℕ, zero, suc, List, [], ◌∷◌, ◌++◌, Option, none, some, if◌then◌else◌}
use petty.Shared.Result.{Result, ok, err}
use petty.Host.{Trace}
use petty.Core.Error.{CoreError}
use petty.Core.Config.{SandboxConfig, build}
use petty.Core.Sandbox.{Sandbox, Libraries}
use petty.Core.Sandbox
use petty.Core.Manager.{SandboxManager, at_limit}
use petty.Core.Manager.Race.{Creator, checked, booted, advance}
use petty.Core.Pool.{SandboxPool}
use petty.Core.Pool.Caller.{Caller, trying, caller_step, answer}
use petty.Mcp.Types.{CreateSandboxParams}
use petty.Mcp.Tools.{Tools}
use petty.Mcp.Server.{Server}
use petty.Mcp.Server.Create.{requested}
use petty.Mcp.Session.{Session}
use petty.Mcp.Session

-- A request: a caller of the pool's `acquire`, with a sandbox of the pool to register, about to start
-- one cold, or past the check of the manager's limit.
pub data Request : Type 0 where
  acquiring : CreateSandboxParams → Caller → Request
  registering : CreateSandboxParams → Sandbox → Request
  starting : CreateSandboxParams → Request
  creating : Creator → Request

pub record Hub : Type 0 where
  pub session : Session
  pub requests : List Request

-- The first step of a request.
unfoldable pub begin : CreateSandboxParams → Option SandboxPool → Request
begin params none = starting params
begin params (some p) = acquiring params trying

-- After a step of `acquire`: an error is logged, and a cold start follows.
unfoldable pub after_acquire :
    CreateSandboxParams → Option (Result CoreError Sandbox) → Option Caller → Option Request
after_acquire params (some (ok x)) o = some (registering params x)
after_acquire params (some (err e)) o = some (starting params)
after_acquire params none none = none
after_acquire params none (some c) = some (acquiring params c)

-- The check of the limit in `create`, after the configuration was built.
unfoldable pub start_cold : Result CoreError SandboxConfig → SandboxManager → Option Request
start_cold (err e) m = none
start_cold (ok k) m = if at_limit m then none else some (creating (checked k))

abbrev wrap : Option Creator → Option Request
wrap none = none
wrap (some x) = some (creating x)

abbrev pub keep : Option Request → List Request → List Request
keep none qs = qs
keep (some q) qs = q ∷ qs

module _ (l : Libraries) where
  abbrev RequestStep : Type 0
  RequestStep = Option Request × Server × Trace

  pub acquire_step :
      CreateSandboxParams → Caller → Option SandboxPool → Server → Trace → RequestStep
  unfolding after_acquire
  acquire_step params c none s t = (some (starting params), s, t)
  acquire_step params c (some p) s t =
      let (o, p', t') = caller_step l c p t in
      (after_acquire params (answer l c p t) o, record s { pool = some p' }, t')

  -- One step of a request. `none` says that it has been answered.
  unfoldable pub request_step : Request → Server → Trace → RequestStep
  unfolding acquire_step start_cold
  request_step (acquiring params c) s t = acquire_step params c s.pool s t
  request_step (registering params x) s t =
      if at_limit s.manager
      then (some (starting params), s, (Sandbox.destroy l x t).1)
      else (some (creating (booted x)), s, t)
  request_step (starting params) s t =
      (start_cold (build (requested s.config params)) s.manager, s, t)
  request_step (creating x) s t =
      let (o, m, t') = advance l x s.manager t in (wrap o, record s { manager = m }, t')

  unfoldable pub request_at : ℕ → List Request → Server → Trace → List Request × Server × Trace
  unfolding request_step
  request_at i [] s t = ([], s, t)
  request_at zero (q ∷ qs) s t = let (o, s', t') = request_step q s t in (keep o qs, s', t')
  request_at (suc i) (q ∷ qs) s t = let (qs', s', t') = request_at i qs s t in (q ∷ qs', s', t')

module _ (l : Libraries) (r : Tools) where
  -- What happens next: a request begins, the one in the given place goes on, or an event of the session:
  -- another request, a step of the pool's tasks, or a part of the shutdown.
  pub data Move : Type 0 where
    asks : CreateSandboxParams → Move
    goes : ℕ → Move
    happens : Session.Event l r → Move

  unfoldable pub move : Move → Hub → Hub
  unfolding begin request_at
  move (asks params) y = record y {
    requests = y.requests ++ begin params y.session.server.pool ∷ [];
  }
  move (goes i) y =
      let (qs, s, t) = request_at l i y.requests y.session.server y.session.trace in
      record { session = record (y.session) { server = s; trace = t }; requests = qs }
  move (happens e) y = record y { session = Session.step l r e y.session }

  unfoldable pub run : List Move → Hub → Hub
  run [] y = y
  run (a ∷ as_) y = run as_ (move a y)
