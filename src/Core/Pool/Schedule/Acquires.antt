-- ===== src/Core/Pool/Schedule/Acquires.antt =====
-- What a whole `acquire` keeps of the bounds, and what it gives away.
use petty.Shared.{◌≤◌, ◌≡◌, refl, ◌∙◌, ap, sym, List, [], ◌∷◌, arith, All, length, if_both}
use petty.Shared.Result.{Result, ok, ok-injective}
use petty.Host.{Trace}
use petty.Core.Error.{CoreError}
use petty.Core.Sandbox.{Sandbox, Libraries}
use petty.Core.Sandbox
use petty.Core.Sandbox.Create.{create_ok}
use petty.Core.Pool.{
  SandboxPool, acquire, acquire_from, cold_start, warm_hit, count_destroyed, discard,
}
use petty.Core.Pool.Schedule.Bounds.{Lowers}
use petty.Core.Pool.Schedule.Ready.{IsReady, is_healthy-state}

module _ (l : Libraries) where
  -- What `acquire` gives is ready where the queue is.
  abbrev pub Given : Result CoreError Sandbox × SandboxPool × Trace → Type 0
  Given (r, p', t') = ((s : Sandbox) → r ≡ ok s → IsReady s) × All IsReady p'.queue

  cold_start-Given :
      (p : SandboxPool) (t : Trace) → Given (cold_start l (record p { queue = [] }) t)
  unfolding cold_start
  cold_start-Given p t = (
    λ s h.
        let (r, u) =
          Sandbox.create l (record (p.config.sandbox_config) { vsock_cid = p.cid_counter }) t in
        let (_, _, q, _) = create_ok l _ t u s (ap (λ x. (x, u)) h) in q,
    tt,
  )

  acquire_from-Given :
      (q : List Sandbox) (p : SandboxPool) (t : Trace)
      → All IsReady q
      → Given (acquire_from l q p t)
  unfolding acquire_from warm_hit
  acquire_from-Given [] p t a = cold_start-Given p t
  acquire_from-Given (s ∷ rest) p t a =
      let (healthy, s', t') = Sandbox.is_healthy l s t in
      if_both Given healthy _ (acquire_from l rest (count_destroyed p) (discard l s' t'))
        (λ x h. ap (λ y. y.state) (sym (ok-injective h)) ∙ (is_healthy-state l s t ∙ a.0), a.1)
        (acquire_from-Given rest (count_destroyed p) (discard l s' t') a.1)

  pub acquire-Given : (p : SandboxPool) (t : Trace) → All IsReady p.queue → Given (acquire l p t)
  unfolding acquire
  acquire-Given p t a = acquire_from-Given p.queue p t a

  -- The whole `acquire` keeps the configuration and the permits, and no sandbox enters the queue.
  abbrev Shortens : List Sandbox → SandboxPool → SandboxPool → Type 0
  Shortens q p p' = (p'.config ≡ p.config) × (length p'.queue ≤ length q) × (p'.permits ≡ p.permits)

  acquire_from-Shortens :
      (q : List Sandbox) (p : SandboxPool) (t : Trace) → Shortens q p (acquire_from l q p t).1
  unfolding acquire_from warm_hit cold_start
  acquire_from-Shortens [] p t = (refl, omega arith, refl)
  acquire_from-Shortens (s ∷ rest) p t =
      let (healthy, s', t') = Sandbox.is_healthy l s t in
      let (a, b, c) = acquire_from-Shortens rest (count_destroyed p) (discard l s' t') in
      if_both (λ x. Shortens (s ∷ rest) p x.1) healthy _
        (acquire_from l rest (count_destroyed p) (discard l s' t')) (refl, omega arith, refl)
        (a, omega (arith, b), c)

  pub acquire-Lowers : (p : SandboxPool) (t : Trace) → Lowers p (acquire l p t).1
  unfolding acquire
  acquire-Lowers p t = acquire_from-Shortens p.queue p t
