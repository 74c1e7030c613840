-- ===== src/Core/Pool/Owners/Acquires.antt =====
-- The whole of `acquire` as one move, for a caller that nothing interrupts.
use petty.Shared.{
  ◌+◌, ◌≤◌, ◌≡◌, List, [], ◌∷◌, some, if◌then◌else◌, length, Bool, true, false, arith, ℕ,
}
use petty.Shared.Result.{Result}
use petty.Host.{Uuid, Trace}
use petty.Core.Error.{CoreError}
use petty.Core.Sandbox.{Sandbox, Libraries}
use petty.Core.Sandbox
use petty.Core.Sandbox.Growth.{destroy-Grows, is_healthy-Grows}
use petty.Core.Sandbox.Owners.{of_answer, Moves, same-Moves, Moves-after, created-Moves}
use petty.Core.Pool.{
  SandboxPool, acquire, acquire_from, cold_start, warm_hit, count_destroyed, discard,
}
use petty.Core.Pool.Acquire.{is_healthy_same}
use petty.Core.Pool.Owners.{in_queue}

module _ (l : Libraries) (i : Uuid) where
  abbrev Acquired : ℕ → Trace → Result CoreError Sandbox × SandboxPool × Trace → Type 0
  Acquired n t (r, p', t') = Moves l i t n t' (in_queue i p'.queue + of_answer i (some r))

  cold_start-Acquired :
      (p : SandboxPool) (t : Trace) → Acquired 0 t (cold_start l (record p { queue = [] }) t)
  unfolding cold_start
  cold_start-Acquired p t =
      created-Moves l i 0 (record (p.config.sandbox_config) { vsock_cid = p.cid_counter }) t

  acquire_from-Acquired :
      (q : List Sandbox) (p : SandboxPool) (t : Trace)
      → Acquired (in_queue i q) t (acquire_from l q p t)
  unfolding acquire_from warm_hit
  acquire_from-Acquired [] p t = cold_start-Acquired p t
  acquire_from-Acquired (s ∷ rest) p t =
      let (healthy, s', t') = Sandbox.is_healthy l s t in
      by_health healthy s' t' (is_healthy_same l s t).0 (is_healthy-Grows l s t)
        (acquire_from-Acquired rest (count_destroyed p) (discard l s' t'))
    where
      by_health :
          (healthy : Bool) (s' : Sandbox) (t' : Trace)
          → s'.id ≡ s.id
          → length t ≤ length t'
          → Acquired
              (in_queue i rest)
              (discard l s' t')
              (acquire_from l rest (count_destroyed p) (discard l s' t'))
          → Acquired (in_queue i (s ∷ rest)) t (
              if healthy
              then warm_hit l s' rest p t'
              else acquire_from l rest (count_destroyed p) (discard l s' t'))
      by_health true s' t' e g h = same-Moves l i t t' _ _ g (ground arith)
      by_health false s' t' e g h =
          Moves-after l i t (discard l s' t') _ _ _ _ (omega (arith, g, destroy-Grows l s' t'))
            (omega arith) h

  pub acquire-Moves :
      (p : SandboxPool) (t : Trace) → Acquired (in_queue i p.queue) t (acquire l p t)
  unfolding acquire
  acquire-Moves p t = acquire_from-Acquired p.queue p t
