-- ===== src/Mcp/Main/Process/Emptied.antt =====
-- A process that is not disturbed while it cleans up leaves nothing.
use petty.Shared.{
  ◌≡◌, refl, subst, sym, ap, ◌∙◌, Bool, List, [], ◌∷◌, Option, none, some, true, false, All,
  if◌then◌else◌,
}
use petty.Text.{Str}
use petty.Host.{Trace}
use petty.Core.Sandbox.{Libraries}
use petty.Core.Manager
use petty.Core.Pool.{SandboxPool, finish_shutdown}
use petty.Core.Pool.Schedule
use petty.Core.Pool.Schedule.Shutdown.{Early}
use petty.Mcp.Config.{TransportMode}
use petty.Mcp.Tools.{Tools}
use petty.Mcp.Server.{Server}
use petty.Mcp.Session.{
  Session, calls, fills, works, signals, finishes, clears, filling, working, finishing,
}
use petty.Mcp.Session
use petty.Mcp.Session.Signalled.{
  IsSignalled, Shut, call_tool-Stays, on_pool-manager, on_pool-Shut, on_pool-cases,
}
use petty.Mcp.Main.Shutdown.{pooled}
use petty.Mcp.Main.Process.{
  Process, Phase, waiting, announced, flagged, drained, cleaned, failed, Act, requests, ends,
  fills_pool, works_at, interrupts, proceeds, fails, act, act_on, run, launch, handle_if, interrupt,
  fail, proceed, exit_if, is_over, is_live, by_http, by_stdio, of_side,
}
use petty.Mcp.Main.Process
use petty.Mcp.Main.Process.Exit.{signalled, step-IsSignalled}

-- What the cleanup has reached in each phase.
abbrev Reached : Phase → Session → Type 0
Reached flagged y = IsSignalled y.server.pool
Reached drained y = Shut y.server.pool y.tasks
Reached cleaned y = Shut y.server.pool y.tasks × (y.server.manager.sandboxes ≡ [])
Reached Process.exited y = Shut y.server.pool y.tasks × (y.server.manager.sandboxes ≡ [])
Reached _ y = Unit

Shut-IsSignalled : (y : Session) → Shut y.server.pool y.tasks → IsSignalled y.server.pool
Shut-IsSignalled y h = by_pool y.server.pool h
  where
    by_pool : (o : Option SandboxPool) → Shut o y.tasks → IsSignalled o
    by_pool none k = tt
    by_pool (some p) k = k.0

module _ (l : Libraries) (r : Tools) where
  -- When the pool is drained, no creation task is past its last look at the shutdown flag, and no
  -- transport serves a request after the manager's sandboxes were destroyed.
  abbrev pub Calm : Phase → Act l r → Process → Type 0
  Calm flagged proceeds y = All Early y.session.tasks
  Calm cleaned (requests side name args) y = is_live (of_side side y) ≡ false
  Calm _ _ y = Unit

  abbrev pub Undisturbed : List (Act l r) → Process → Type 0
  Undisturbed [] y = Unit
  Undisturbed (a ∷ as_) y = Calm y.phase a y × Undisturbed as_ (act l r a y)

  finishes-Shut :
      (y : Session)
      → All Early y.tasks
      → IsSignalled y.server.pool
      → let z = Session.step l r finishes y in Shut z.server.pool z.tasks
  unfolding Session.step finish_shutdown
  finishes-Shut y a h =
      on_pool-cases l r (finishing l r) y (λ z. Shut z.server.pool z.tasks)
        (λ e. subst (λ o. Shut o y.tasks) (sym e) tt) (λ p e. (subst IsSignalled e h, refl, a))

  -- A turn of the filler or a step of a task.
  pool-Reached :
      (e : Session.Event l r) (p : Phase) (y : Session)
      → (IsSignalled y.server.pool → IsSignalled (Session.step l r e y).server.pool)
      → (Shut y.server.pool y.tasks
          → Shut (Session.step l r e y).server.pool (Session.step l r e y).tasks)
      → (Session.step l r e y).server.manager ≡ y.server.manager
      → Reached p y
      → Reached p (Session.step l r e y)
  pool-Reached e flagged y f g m v = f v
  pool-Reached e drained y f g m v = g v
  pool-Reached e cleaned y f g m (v, w) = (g v, ap (λ x. x.sandboxes) m ∙ w)
  pool-Reached e Process.exited y f g m (v, w) = (g v, ap (λ x. x.sandboxes) m ∙ w)
  pool-Reached e waiting y f g m v = tt
  pool-Reached e announced y f g m v = tt
  pool-Reached e (failed x) y f g m v = tt

  abbrev Kept : Process → Type 0
  Kept y = Reached y.phase y.session

  proceed-Kept :
      (p : Phase) (y : Process)
      → y.phase ≡ p
      → Calm p proceeds y
      → Reached p y.session
      → Kept (proceed l r p y)
  unfolding proceed exit_if Session.step Manager.destroy_all
  proceed-Kept waiting y e c v = subst (λ p. Reached p y.session) (sym e) v
  proceed-Kept announced y e c v = signalled l r y.session
  proceed-Kept flagged y e c v = finishes-Shut y.session c v
  proceed-Kept drained y e c v = (v, refl)
  proceed-Kept cleaned y e c v = by_live (is_live y.http) (is_live y.stdio)
    where
      by_live : (a b : Bool) → Kept (exit_if l r a b y)
      by_live true b = subst (λ p. Reached p y.session) (sym e) v
      by_live false true = subst (λ p. Reached p y.session) (sym e) v
      by_live false false = v
  proceed-Kept Process.exited y e c v = subst (λ p. Reached p y.session) (sym e) v
  proceed-Kept (failed x) y e c v = subst (λ p. Reached p y.session) (sym e) v

  interrupt-Kept : (p : Phase) (y : Process) → y.phase ≡ p → Kept y → Kept (interrupt l r p y)
  unfolding interrupt
  interrupt-Kept waiting y e v = tt
  interrupt-Kept announced y e v = v
  interrupt-Kept flagged y e v = v
  interrupt-Kept drained y e v = v
  interrupt-Kept cleaned y e v = v
  interrupt-Kept Process.exited y e v = v
  interrupt-Kept (failed x) y e v = v

  fail-Kept : (p : Phase) (x : Str) (y : Process) → Kept y → Kept (fail l r p x y)
  unfolding fail
  fail-Kept waiting x y v = tt
  fail-Kept announced x y v = v
  fail-Kept flagged x y v = v
  fail-Kept drained x y v = v
  fail-Kept cleaned x y v = v
  fail-Kept Process.exited x y v = v
  fail-Kept (failed z) x y v = v

  request-Kept :
      (p : Phase) (side : Process.Side) (name : Str) (args : Option r.Arguments) (y : Process)
      → y.phase ≡ p
      → is_over p ≡ false
      → Calm p (requests side name args) y
      → Reached p y.session
      → Reached p (handle_if l r (is_live (of_side side y)) name args y).session
  unfolding handle_if Session.step
  request-Kept waiting side name args y e o c v = tt
  request-Kept announced side name args y e o c v = tt
  request-Kept flagged side name args y e o c v = by_live (is_live (of_side side y))
    where
      by_live : (b : Bool) → IsSignalled (handle_if l r b name args y).session.server.pool
      by_live true = (call_tool-Stays l r name args y.session.server y.session.trace).0 v
      by_live false = v
  request-Kept drained side name args y e o c v = by_live (is_live (of_side side y))
    where
      by_live :
          (b : Bool)
          → Shut
              (handle_if l r b name args y).session.server.pool
              (handle_if l r b name args y).session.tasks
      by_live true =
          (call_tool-Stays l r name args y.session.server y.session.trace).1 y.session.tasks v
      by_live false = v
  request-Kept cleaned side name args y e o c v = rw c v
  request-Kept Process.exited side name args y e o c v = absurd (cc o)
  request-Kept (failed x) side name args y e o c v = tt

  act_on-Kept :
      (a : Act l r) (y : Process)
      → is_over y.phase ≡ false
      → Calm y.phase a y
      → Kept y
      → Kept (act_on l r a y)
  unfolding act_on handle_if Session.step Schedule.step
  act_on-Kept (requests side name args) y o c v =
      by_live (is_live (of_side side y)) (request-Kept y.phase side name args y refl o c v)
    where
      by_live :
          (b : Bool)
          → Reached y.phase (handle_if l r b name args y).session
          → Kept (handle_if l r b name args y)
      by_live true h = h
      by_live false h = h
  act_on-Kept (ends by_http) y o c v = v
  act_on-Kept (ends by_stdio) y o c v = v
  act_on-Kept fills_pool y o c v =
      pool-Reached fills y.phase y.session (step-IsSignalled l r fills y.session)
        (on_pool-Shut l r Schedule.fills (filling l r) y.session (λ p ts t. (refl, refl)))
        (on_pool-manager l r (filling l r) y.session) v
  act_on-Kept (works_at i) y o c v =
      pool-Reached (works i) y.phase y.session (step-IsSignalled l r (works i) y.session)
        (on_pool-Shut l r (Schedule.works i) (working l r i) y.session (λ p ts t. (refl, refl)))
        (on_pool-manager l r (working l r i) y.session) v
  act_on-Kept interrupts y o c v = interrupt-Kept y.phase y refl v
  act_on-Kept proceeds y o c v = proceed-Kept y.phase y refl c v
  act_on-Kept (fails x) y o c v = fail-Kept y.phase x y v

  act-Kept : (a : Act l r) (y : Process) → Calm y.phase a y → Kept y → Kept (act l r a y)
  unfolding act
  act-Kept a y c v = by_over (is_over y.phase) refl
    where
      by_over : (b : Bool) → is_over y.phase ≡ b → Kept (if b then y else act_on l r a y)
      by_over true e = v
      by_over false e = act_on-Kept a y e c v

  run-Kept :
      (as_ : List (Act l r)) (y : Process) → Undisturbed as_ y → Kept y → Kept (run l r as_ y)
  unfolding run
  run-Kept [] y c v = v
  run-Kept (a ∷ as_) y c v = run-Kept as_ (act l r a y) c.1 (act-Kept a y c.0 v)

  -- From the launch under any configured mode, in whatever order its requests, its tasks and its own parts
  -- run: where `main` has returned without an error, no sandbox is registered and none is in the pool, if
  -- no creation task was past its last look at the shutdown flag when the pool was drained and no
  -- request was served after the manager's sandboxes were destroyed.
  pub run-launch-emptied :
      (as_ : List (Act l r)) (mode : TransportMode) (s : Server) (t : Trace)
      → Undisturbed as_ (launch mode s t)
      → (run l r as_ (launch mode s t)).phase ≡ Process.exited
      → let z = (run l r as_ (launch mode s t)).session.server in
        (z.manager.sandboxes ≡ []) × (pooled l z.pool ≡ [])
  unfolding launch
  run-launch-emptied as_ mode s t c e =
      let y = run l r as_ (launch mode s t) in
      let v = subst (λ p. Reached p y.session) e (run-Kept as_ (launch mode s t) c tt) in
      (v.1, by_pool y.session.server.pool v.0)
    where
      by_pool :
          (o : Option SandboxPool)
          → Shut o (run l r as_ (launch mode s t)).session.tasks
          → pooled l o ≡ []
      by_pool none h = refl
      by_pool (some p) h = h.1
