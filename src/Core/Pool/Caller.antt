-- ===== src/Core/Pool/Caller.antt =====
-- `acquire` of the warm pool as its callers run it, between two points where one may be suspended.
pub mod Alone
use petty.Shared.{ℕ, zero, suc, List, [], ◌∷◌, Option, none, some, if◌then◌else◌}
use petty.Shared.Result.{Result, ok}
use petty.Host.{Trace}
use petty.Core.Error.{CoreError}
use petty.Core.Sandbox.{Sandbox, Libraries}
use petty.Core.Sandbox
use petty.Core.Pool.{SandboxPool, cold_start, count_destroyed, discard, add_u64}

-- A caller is about to take the front of the queue, or holds what it took and asks for its health.
pub data Caller : Type 0 where
  trying : Caller
  checking : Sandbox → Caller

abbrev pub count_hit : SandboxPool → SandboxPool
count_hit p = record p { stats = record (p.stats) { warm_hits = add_u64 p.stats.warm_hits 1 } }

module _ (l : Libraries) where
  abbrev CallerStep : Type 0
  CallerStep = Option Caller × SandboxPool × Trace

  -- The pool is empty: a cold start, which ends the call.
  unfoldable pub take_front : List Sandbox → SandboxPool → Trace → CallerStep
  take_front [] p t = let (_, p', t') = cold_start l p t in (none, p', t')
  take_front (s ∷ rest) p t = (some (checking s), record p { queue = rest }, t)

  -- One step of a caller. `none` says that its call has ended.
  unfoldable pub caller_step : Caller → SandboxPool → Trace → CallerStep
  unfolding take_front
  caller_step trying p t = take_front p.queue p t
  caller_step (checking s) p t =
      let (healthy, s', t') = Sandbox.is_healthy l s t in
      if healthy then (none, count_hit p, t') else (some trying, count_destroyed p, discard l s' t')

  -- What a step returns to its caller, where it ends the call.
  unfoldable pub answer_front :
      List Sandbox → SandboxPool → Trace → Option (Result CoreError Sandbox)
  answer_front [] p t = some (cold_start l p t).0
  answer_front (s ∷ rest) p t = none

  unfoldable pub answer : Caller → SandboxPool → Trace → Option (Result CoreError Sandbox)
  unfolding answer_front
  answer trying p t = answer_front p.queue p t
  answer (checking s) p t =
      let (healthy, s', t') = Sandbox.is_healthy l s t in if healthy then some (ok s') else none

  abbrev pub stay : Option Caller → List Caller → List Caller
  stay none cs = cs
  stay (some c) cs = c ∷ cs

  -- One step of the caller in place `i`.
  unfoldable pub ask : ℕ → List Caller → SandboxPool → Trace → List Caller × SandboxPool × Trace
  unfolding caller_step
  ask i [] p t = ([], p, t)
  ask zero (c ∷ cs) p t = let (o, p', t') = caller_step c p t in (stay o cs, p', t')
  ask (suc i) (c ∷ cs) p t = let (cs', p', t') = ask i cs p t in (c ∷ cs', p', t')

  -- What that step returns to this caller.
  unfoldable pub answer_at :
      ℕ → List Caller → SandboxPool → Trace → Option (Result CoreError Sandbox)
  unfolding answer
  answer_at i [] p t = none
  answer_at zero (c ∷ cs) p t = answer c p t
  answer_at (suc i) (c ∷ cs) p t = answer_at i cs p t
