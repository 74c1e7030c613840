-- ===== src/Mcp/Main/Shutdown.antt =====
-- What the cleanup leaves.
use petty.Shared.{◌≡◌, refl, subst, List, [], ◌∷◌, Option, none, some, All, All-map}
use petty.Host.{Call, Trace, drop_machine}
use petty.Core.Sandbox.{Sandbox, Libraries}
use petty.Core.Manager.{count, destroy_each}
use petty.Core.Manager
use petty.Core.Manager.Destroy.{
  Occurs, Occurs-drop, Occurs-destroy, destroy_all_drops, Occurs-destroy_each,
}
use petty.Core.Pool.{SandboxPool, signal_shutdown, finish_shutdown, drain, discard}
use petty.Mcp.Server.{Server}
use petty.Mcp.Session.Signalled.{IsSignalled}
use petty.Mcp.Main.{clean_up, shutdown_pool, shutdown_with}

module _ (l : Libraries) where
  abbrev pub Dropped : Trace → Sandbox → Type 0
  Dropped t x = Occurs (drop_machine x.machine.id) t

  Occurs-drain : (c : Call) (q : List Sandbox) (t : Trace) → Occurs c t → Occurs c (drain l q t)
  unfolding drain
  Occurs-drain c [] t o = o
  Occurs-drain c (s ∷ q) t o = Occurs-drain c q (discard l s t) (Occurs-destroy l c s t o)

  drain-Dropped : (q : List Sandbox) (t : Trace) → All (Dropped (drain l q t)) q
  unfolding drain
  drain-Dropped [] t = tt
  drain-Dropped (s ∷ q) t =
      (Occurs-drain _ q (discard l s t) (Occurs-drop l s t), drain-Dropped q (discard l s t))

  abbrev pub pooled : Option SandboxPool → List Sandbox
  pooled none = []
  pooled (some p) = p.queue

  abbrev After : Server → Option SandboxPool → Server × Trace → Type 0
  After s o (s', t') =
      (s'.manager ≡ s.manager)
      × (pooled s'.pool ≡ [])
      × IsSignalled s'.pool
      × All (Dropped t') (pooled o)

  shutdown_with-After :
      (o : Option SandboxPool) (s : Server) (t : Trace)
      → s.pool ≡ o
      → After s o (shutdown_with l o s t)
  unfolding shutdown_with finish_shutdown signal_shutdown
  shutdown_with-After none s t e = (refl, rw e refl, rw e tt, tt)
  shutdown_with-After (some p) s t e = (refl, refl, refl, drain-Dropped p.queue t)

  -- The cleanup, where no request, no turn of the filler and no step of a creation task comes between its
  -- parts, leaves no sandbox in the pool, whose filler and tasks it has told to stop, and none in the
  -- registry, and each sandbox that was in either has its machine dropped, whichever destructions fail.
  pub clean_up_drops :
      (s : Server) (t : Trace)
      → let (s', t') = clean_up l s t in
        (pooled s'.pool ≡ [])
        × IsSignalled s'.pool
        × (count s'.manager ≡ 0)
        × All (Dropped t') (pooled s.pool)
        × All (λ e. Dropped t' e.1) s.manager.sandboxes
  unfolding clean_up shutdown_pool Manager.destroy_all
  clean_up_drops s t =
      let (e, q, f, d) = shutdown_with-After s.pool s t refl in
      let t' = (shutdown_pool l s t).1 in
      let (_, n, a) = destroy_all_drops l (shutdown_pool l s t).0.manager t' in
      (
        q,
        f,
        n,
        All-map (λ x o. Occurs-destroy_each l _ (shutdown_pool l s t).0.manager.sandboxes t' o)
            (pooled s.pool) d,
        subst (λ m. All (λ x. Dropped (clean_up l s t).1 x.1) m.sandboxes) e a,
      )
