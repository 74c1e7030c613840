-- ===== src/Core/Pool/Owners/Distinct.antt =====
-- No sandbox has two holders, and none is returned twice.
use petty.Shared.{ℕ, ◌+◌, ◌≤◌, inl, List, [], ◌∷◌, arith}
use petty.Host.{Uuid, Trace}
use petty.Core.Sandbox.{Libraries}
use petty.Core.Sandbox.Owners.{Unrepeated, Owned, Moves-Owned, Owned-eq}
use petty.Core.Pool.{PoolConfig}
use petty.Core.Pool.Schedule.{System, Turn, step, run}
use petty.Core.Pool.Schedule.Bounds.{initial}
use petty.Core.Pool.Owners.{held, given, handed_out}
use petty.Core.Pool.Owners.Moves.{step-Moves}

module _ (l : Libraries) (fresh : Unrepeated l) (i : Uuid) where
  run-Owned :
      (os : List Turn) (y : System) (k : ℕ)
      → Owned l i (k + held i y) y.trace
      → Owned l i (k + (handed_out i l os y + held i (run l os y))) (run l os y).trace
  unfolding run handed_out
  run-Owned [] y k v = Owned-eq l fresh i _ _ _ (omega arith) v
  run-Owned (o ∷ os) y k v =
      let w =
        Moves-Owned l fresh i y.trace (step l o y).trace (held i y) _ k (step-Moves l i o y) v in
      let (b, d) =
        run-Owned os (step l o y) (k + given i l o y) (Owned-eq l fresh i _ _ _ (omega arith) w) in
      Owned-eq l fresh i _ _ _ (omega arith) (b, d)

  -- Where the host draws no identifier twice, under every interleaving from a new pool: the times that
  -- `acquire` has returned a sandbox of a given identifier and the places that hold one, of the queue,
  -- the creation tasks and the callers' health checks, are together at most one. So no two callers get
  -- the same sandbox, and none gets one that the pool still holds.
  pub handed_out_once :
      (c : PoolConfig) (os : List Turn) (t : Trace)
      → handed_out i l os (initial c t) + held i (run l os (initial c t)) ≤ 1
  handed_out_once c os t =
      let (b, _) = run-Owned os (initial c t) 0 (omega arith, inl (omega arith)) in omega (arith, b)
