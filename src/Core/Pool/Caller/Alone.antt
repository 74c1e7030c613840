-- ===== src/Core/Pool/Caller/Alone.antt =====
-- A caller that runs with no other between its steps, against the whole of `acquire`.
use petty.Shared.{
  ℕ, zero, suc, ◌≡◌, refl, Bool, true, false, List, [], ◌∷◌, Option, none, some, if◌then◌else◌,
}
use petty.Shared.Result.{Result, ok}
use petty.Host.{Trace}
use petty.Core.Error.{CoreError}
use petty.Core.Sandbox.{Sandbox, Libraries}
use petty.Core.Sandbox
use petty.Core.Pool.{
  SandboxPool, acquire, acquire_from, cold_start, warm_hit, count_destroyed, discard,
}
use petty.Core.Pool.Caller.{Caller, trying, caller_step, count_hit, answer}

-- A call that has ended, without its result.
abbrev pub ended :
    Result CoreError Sandbox × SandboxPool × Trace → Option Caller × SandboxPool × Trace
ended (r, p, t) = (none, p, t)

module _ (l : Libraries) where
  -- Up to so many steps of one caller.
  pub steps : ℕ → Option Caller → SandboxPool → Trace → Option Caller × SandboxPool × Trace
  unfolding caller_step
  steps zero o p t = (o, p, t)
  steps (suc n) none p t = (none, p, t)
  steps (suc n) (some c) p t = let (o, p', t') = caller_step l c p t in steps n o p' t'

  abbrev steps_from : ℕ → Option Caller × SandboxPool × Trace → Option Caller × SandboxPool × Trace
  steps_from n (o, p, t) = steps n o p t

  steps-none : (n : ℕ) (p : SandboxPool) (t : Trace) → steps n none p t ≡ (none, p, t)
  unfolding steps
  steps-none zero p t = refl
  steps-none (suc n) p t = refl

  -- Each sandbox of the queue is taken and checked, and one step more ends the call.
  abbrev pub enough : List Sandbox → ℕ
  enough [] = 1
  enough (s ∷ r) = suc (suc (enough r))

  steps-acquire_from :
      (q : List Sandbox) (p : SandboxPool) (t : Trace)
      → steps (enough q) (some trying) (record p { queue = q }) t ≡ ended (acquire_from l q p t)
  unfolding steps acquire_from cold_start
  steps-acquire_from [] p t = refl
  steps-acquire_from (s ∷ r) p t =
      let (healthy, s', t') = Sandbox.is_healthy l s t in
      by_health healthy s' t' (steps-acquire_from r (count_destroyed p) (discard l s' t'))
    where
      by_health :
          (healthy : Bool) (s' : Sandbox) (t' : Trace)
          → steps
              (enough r)
              (some trying)
              (record (count_destroyed p) { queue = r })
              (discard l s' t')
            ≡ ended (acquire_from l r (count_destroyed p) (discard l s' t'))
          → steps_from (enough r) (
              if healthy
              then (none, count_hit (record p { queue = r }), t')
              else (some trying, count_destroyed (record p { queue = r }), discard l s' t'))
            ≡ ended (
                if healthy
                then warm_hit l s' r p t'
                else acquire_from l r (count_destroyed p) (discard l s' t'))
      by_health true s' t' h = steps-none (enough r) (count_hit (record p { queue = r })) t'
      by_health false s' t' h = h

  abbrev first_of :
      Option (Result CoreError Sandbox)
      → Option (Result CoreError Sandbox)
      → Option (Result CoreError Sandbox)
  first_of none o = o
  first_of (some a) o = some a

  -- What the caller is returned in these steps.
  pub returned : ℕ → Option Caller → SandboxPool → Trace → Option (Result CoreError Sandbox)
  unfolding caller_step answer
  returned zero o p t = none
  returned (suc n) none p t = none
  returned (suc n) (some c) p t =
      let (o, p', t') = caller_step l c p t in first_of (answer l c p t) (returned n o p' t')

  abbrev returned_from :
      Option (Result CoreError Sandbox)
      → ℕ
      → Option Caller × SandboxPool × Trace
      → Option (Result CoreError Sandbox)
  returned_from a n (o, p, t) = first_of a (returned n o p t)

  warm_hit_result :
      (s : Sandbox) (r : List Sandbox) (p : SandboxPool) (t : Trace)
      → some (ok s) ≡ some (warm_hit l s r p t).0
  unfolding warm_hit
  warm_hit_result s r p t = refl

  returned-acquire_from :
      (q : List Sandbox) (p : SandboxPool) (t : Trace)
      → returned (enough q) (some trying) (record p { queue = q }) t ≡ some (acquire_from l q p t).0
  unfolding returned acquire_from cold_start
  returned-acquire_from [] p t = refl
  returned-acquire_from (s ∷ r) p t =
      let (healthy, s', t') = Sandbox.is_healthy l s t in
      by_health healthy s' t' (returned-acquire_from r (count_destroyed p) (discard l s' t'))
    where
      by_health :
          (healthy : Bool) (s' : Sandbox) (t' : Trace)
          → returned
              (enough r)
              (some trying)
              (record (count_destroyed p) { queue = r })
              (discard l s' t')
            ≡ some (acquire_from l r (count_destroyed p) (discard l s' t')).0
          → returned_from (if healthy then some (ok s') else none) (enough r) (
              if healthy
              then (none, count_hit (record p { queue = r }), t')
              else (some trying, count_destroyed (record p { queue = r }), discard l s' t'))
            ≡ some
                (if healthy
                  then warm_hit l s' r p t'
                  else acquire_from l r (count_destroyed p) (discard l s' t')).0
      by_health true s' t' h = warm_hit_result s' r p t'
      by_health false s' t' h = h

  -- A caller of `acquire` that runs with nothing else between its steps ends, is returned what the
  -- whole `acquire` returns, and leaves the pool and the host as it does.
  steps-acquire :
      (p : SandboxPool) (t : Trace)
      → (steps (enough p.queue) (some trying) p t ≡ ended (acquire l p t))
        × (returned (enough p.queue) (some trying) p t ≡ some (acquire l p t).0)
  unfolding acquire
  steps-acquire p t = (steps-acquire_from p.queue p t, returned-acquire_from p.queue p t)
