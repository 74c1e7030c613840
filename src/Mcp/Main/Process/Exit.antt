-- ===== src/Mcp/Main/Process/Exit.antt =====
-- The end of the process: what has been done when `main` returns, and what is left.
use petty.Shared.{
  ◌≡◌, refl, subst, sym, Bool, List, [], ◌∷◌, Option, none, some, true, false, arith, if_both,
}
use petty.Text.{Str}
use petty.Host.{Trace}
use petty.Core.Sandbox.{Libraries}
use petty.Core.Pool.{SandboxPool, start, signal_shutdown, finish_shutdown}
use petty.Core.Pool.Schedule.Flag.{filler_turn-shutdown, work-shutdown}
use petty.Mcp.Config.{TransportMode}
use petty.Mcp.Tools.{Tools}
use petty.Mcp.Server.{Server, start_pool}
use petty.Mcp.Session.{
  Session, calls, fills, works, signals, finishes, clears, on_pool, filling, working, signalling,
  finishing,
}
use petty.Mcp.Session
use petty.Mcp.Session.Signalled.{IsSignalled, call_tool-Stays, on_pool-IsSignalled, on_pool-cases}
use petty.Mcp.Main.Process.{
  Process, Phase, waiting, announced, flagged, drained, cleaned, failed, Act, requests, ends,
  fills_pool, works_at, interrupts, proceeds, fails, act, act_on, run, launch, handle_if, interrupt,
  fail, proceed, exit_if, is_over, is_live, by_http, by_stdio, of_side, Transport, finish, close,
  Side,
}
use petty.Mcp.Main.Process

-- Once `main` is past the shutdown's signal, the pool has it.
abbrev Told : Phase → Option SandboxPool → Type 0
Told flagged o = IsSignalled o
Told drained o = IsSignalled o
Told cleaned o = IsSignalled o
Told Process.exited o = IsSignalled o
Told _ o = Unit

abbrev Over : Phase → Transport → Transport → Type 0
Over Process.exited h s = (is_live h ≡ false) × (is_live s ≡ false)
Over _ h s = Unit

record Ordered (y : Process) : Type 0 where
  told : Told y.phase y.session.server.pool
  over : Over y.phase y.http y.stdio

Told-map :
    (p : Phase) (o o' : Option SandboxPool)
    → (IsSignalled o → IsSignalled o')
    → Told p o
    → Told p o'
Told-map flagged o o' f h = f h
Told-map drained o o' f h = f h
Told-map cleaned o o' f h = f h
Told-map Process.exited o o' f h = f h
Told-map waiting o o' f h = tt
Told-map announced o o' f h = tt
Told-map (failed e) o o' f h = tt

finish-is_live : (x : Transport) → is_live (finish x) ≡ false
finish-is_live x = ground arith

Over-map :
    (p : Phase) (h h' s s' : Transport)
    → (is_live h ≡ false → is_live h' ≡ false)
    → (is_live s ≡ false → is_live s' ≡ false)
    → Over p h s
    → Over p h' s'
Over-map Process.exited h h' s s' f g (a, b) = (f a, g b)
Over-map waiting h h' s s' f g v = tt
Over-map announced h h' s s' f g v = tt
Over-map flagged h h' s s' f g v = tt
Over-map drained h h' s s' f g v = tt
Over-map cleaned h h' s s' f g v = tt
Over-map (failed e) h h' s s' f g v = tt

module _ (l : Libraries) (r : Tools) where
  pub signalled : (y : Session) → IsSignalled (Session.step l r signals y).server.pool
  unfolding Session.step signal_shutdown
  signalled y =
      on_pool-cases l r (signalling l r) y (λ z. IsSignalled z.server.pool)
        (λ e. subst IsSignalled (sym e) tt) (λ p e. refl)

  -- The pool stays signalled under each event that may come later.
  pub step-IsSignalled :
      (e : Session.Event l r) (y : Session)
      → IsSignalled y.server.pool
      → IsSignalled (Session.step l r e y).server.pool
  unfolding Session.step finish_shutdown start_pool start
  step-IsSignalled (calls name args) y h = (call_tool-Stays l r name args y.server y.trace).0 h
  step-IsSignalled Session.starts y h = by_pool y.server.pool h
    where
      by_pool :
          (q : Option SandboxPool)
          → IsSignalled q
          → IsSignalled
              (elim q as (λ _. Option SandboxPool) [ none ↦ none | some p ↦ some (start p) ])
      by_pool none k = tt
      by_pool (some p) k = k
  step-IsSignalled fills y h =
      on_pool-IsSignalled l r (filling l r) y (λ p ts t k. filler_turn-shutdown l p ts k) h
  step-IsSignalled (works i) y h =
      on_pool-IsSignalled l r (working l r i) y
        (λ p ts t k. subst (λ b. b ≡ true) (sym (work-shutdown l i ts p t)) k) h
  step-IsSignalled signals y h = signalled y
  step-IsSignalled finishes y h = on_pool-IsSignalled l r (finishing l r) y (λ p ts t k. k) h
  step-IsSignalled clears y h = h

  in_session-Ordered :
      (e : Session.Event l r) (y : Process)
      → Ordered y
      → Ordered (record y { session = Session.step l r e y.session })
  in_session-Ordered e y v = record {
    told = Told-map y.phase _ _ (step-IsSignalled e y.session) v.told;
    over = v.over;
  }

  proceed-Ordered : (p : Phase) (y : Process) → y.phase ≡ p → Ordered y → Ordered (proceed l r p y)
  unfolding proceed exit_if
  proceed-Ordered waiting y e v = v
  proceed-Ordered announced y e v = record { told = signalled y.session; over = tt }
  proceed-Ordered flagged y e v = record {
    told = step-IsSignalled finishes y.session (subst (λ p. Told p y.session.server.pool) e v.told);
    over = tt;
  }
  proceed-Ordered drained y e v = record {
    told = step-IsSignalled clears y.session (subst (λ p. Told p y.session.server.pool) e v.told);
    over = tt;
  }
  proceed-Ordered cleaned y e v = by_live (is_live y.http) (is_live y.stdio) refl refl
    where
      by_live :
          (a b : Bool) → is_live y.http ≡ a → is_live y.stdio ≡ b → Ordered (exit_if l r a b y)
      by_live true b h k = v
      by_live false true h k = v
      by_live false false h k = record {
        told = subst (λ p. Told p y.session.server.pool) e v.told;
        over = (h, k);
      }
  proceed-Ordered Process.exited y e v = v
  proceed-Ordered (failed x) y e v = v

  interrupt-Ordered : (p : Phase) (y : Process) → Ordered y → Ordered (interrupt l r p y)
  unfolding interrupt
  interrupt-Ordered waiting y v = record { told = tt; over = tt }
  interrupt-Ordered announced y v = v
  interrupt-Ordered flagged y v = v
  interrupt-Ordered drained y v = v
  interrupt-Ordered cleaned y v = v
  interrupt-Ordered Process.exited y v = v
  interrupt-Ordered (failed x) y v = v

  fail-Ordered : (p : Phase) (x : Str) (y : Process) → Ordered y → Ordered (fail l r p x y)
  unfolding fail
  fail-Ordered waiting x y v = record { told = tt; over = tt }
  fail-Ordered announced x y v = v
  fail-Ordered flagged x y v = v
  fail-Ordered drained x y v = v
  fail-Ordered cleaned x y v = v
  fail-Ordered Process.exited x y v = v
  fail-Ordered (failed z) x y v = v

  act_on-Ordered : (a : Act l r) (y : Process) → Ordered y → Ordered (act_on l r a y)
  unfolding act_on handle_if
  act_on-Ordered (requests side name args) y v = by_live (is_live (of_side side y))
    where
      by_live : (b : Bool) → Ordered (handle_if l r b name args y)
      by_live true = in_session-Ordered (calls name args) y v
      by_live false = v
  act_on-Ordered (ends by_http) y v = record {
    told = v.told;
    over = Over-map y.phase _ _ y.stdio _ (λ h. finish-is_live y.http) (λ h. h) v.over;
  }
  act_on-Ordered (ends by_stdio) y v = record {
    told = v.told;
    over = Over-map y.phase y.http _ _ _ (λ h. h) (λ h. finish-is_live y.stdio) v.over;
  }
  act_on-Ordered fills_pool y v = in_session-Ordered fills y v
  act_on-Ordered (works_at i) y v = in_session-Ordered (works i) y v
  act_on-Ordered interrupts y v = interrupt-Ordered y.phase y v
  act_on-Ordered proceeds y v = proceed-Ordered y.phase y refl v
  act_on-Ordered (fails x) y v = fail-Ordered y.phase x y v

  run-Ordered : (as_ : List (Act l r)) (y : Process) → Ordered y → Ordered (run l r as_ y)
  unfolding run act
  run-Ordered [] y v = v
  run-Ordered (a ∷ as_) y v =
      run-Ordered as_ _
        (if_both Ordered (is_over y.phase) y (act_on l r a y) v (act_on-Ordered a y v))

  -- From the launch under any configured mode, in whatever order its requests, its tasks and its own parts
  -- run: where `main` has returned without an error, neither transport's task runs any more, and the pool,
  -- if there is one, has been told to shut down.
  pub run-launch-exited :
      (as_ : List (Act l r)) (mode : TransportMode) (s : Server) (t : Trace)
      → (run l r as_ (launch mode s t)).phase ≡ Process.exited
      → let y = run l r as_ (launch mode s t) in
        (is_live y.http ≡ false) × (is_live y.stdio ≡ false) × IsSignalled y.session.server.pool
  unfolding launch
  run-launch-exited as_ mode s t e =
      let y = run l r as_ (launch mode s t) in
      let v = run-Ordered as_ (launch mode s t) (record { told = tt; over = tt }) in
      let (h, k) = subst (λ p. Over p y.http y.stdio) e v.over in
      (h, k, subst (λ p. Told p y.session.server.pool) e v.told)
