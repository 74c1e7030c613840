-- ===== src/Core/Manager/Race/Bounds.antt =====
-- How far concurrent calls may exceed the manager's limit.
use petty.Shared.{
  ℕ, zero, suc, ◌+◌, ◌≤◌, ◌<◌, ◌≡◌, refl, ◌∙◌, ap, Option-cases, List, [], ◌∷◌, arith, length,
  length-append, Bool-cases, inl, inr, ltb, if◌then◌else◌,
}
use petty.Shared.Result.{Result, ok, err}
use petty.Host.{Uuid, Trace}
use petty.Core.Error.{CoreError}
use petty.Core.Sandbox.{Sandbox, Libraries}
use petty.Core.Sandbox
use petty.Core.Manager.{SandboxManager, ManagerConfig, new, at_limit, insert, get, next_cid}
use petty.Core.Manager
use petty.Core.Manager.Registry.{length-insert-le, length-remove-le}
use petty.Core.Manager.Race.{
  Race, Creator, checked, booted, boot_end, Step, creates, registers, continues, destroys, enter,
  step, run, continue_at, advance, left,
}
use petty.Core.Manager.Race.Alone.{calm}

abbrev larger : ℕ → ℕ → ℕ
larger a b = if ltb a b then b else a

record Inv (c : ManagerConfig) (k : ℕ) (y : Race) : Type 0 where
  config : y.manager.config ≡ c
  below : length y.manager.sandboxes + length y.creators < c.max_sandboxes + k

enter-Inv :
    (c : ManagerConfig) (k : ℕ) (x : Creator) (y : Race)
    → 0 < c.max_sandboxes
    → length (enter x y).creators ≤ k
    → Inv c k y
    → Inv c k (enter x y)
unfolding enter at_limit
enter-Inv c k x y p h v = elim (Bool-cases (at_limit y.manager)) [
  | inl full ↦ rw (full, enter) v
  | inr room ↦
      let e : y.manager.config.max_sandboxes ≡ c.max_sandboxes =
        ap (λ z. z.max_sandboxes) v.config in
      rw (room, enter)
        (record { config = v.config; below = ground (arith, e, length-append y.creators (x ∷ [])) })
]

module _ (l : Libraries) where
  -- The most calls that were past the limit at once, at the start and after each step.
  pub busiest : List Step → Race → ℕ
  busiest [] y = length y.creators
  busiest (o ∷ os) y = larger (length y.creators) (busiest os (step l o y))

  busiest-start : (os : List Step) (y : Race) → length y.creators ≤ busiest os y
  unfolding busiest
  busiest-start [] y = omega arith
  busiest-start (o ∷ os) y = ground arith

  -- The registry with the calls does not grow, and the configuration stays.
  abbrev Bounded : SandboxManager → ℕ → ℕ → SandboxManager → Type 0
  Bounded m before after m' =
      (m'.config ≡ m.config) × (length m'.sandboxes + after ≤ length m.sandboxes + before)

  advance-Bounded :
      (x : Creator) (cs : List Creator) (m : SandboxManager) (t : Trace)
      → let (o, m', _) = advance l x m t in Bounded m (suc (length cs)) (length (left o cs)) m'
  unfolding advance
  advance-Bounded (checked c) cs m t =
      by_result (Sandbox.create l (record c { vsock_cid = m.cid_counter }) t)
    where
      by_result :
          (r : Result CoreError Sandbox × Trace)
          → let (o, m', _) = boot_end r (record m { cid_counter = next_cid m.cid_counter }) in
            Bounded m (suc (length cs)) (length (left o cs)) m'
      by_result (ok s, u) = (refl, omega arith)
      by_result (err e, u) = (refl, omega arith)
  advance-Bounded (booted s) cs m t = (refl, omega (arith, length-insert-le s.id s m.sandboxes))

  continue_at-Bounded :
      (i : ℕ) (cs : List Creator) (m : SandboxManager) (t : Trace)
      → let (cs', m', _) = continue_at l i cs m t in Bounded m (length cs) (length cs') m'
  unfolding continue_at
  continue_at-Bounded i [] m t = (refl, omega arith)
  continue_at-Bounded zero (x ∷ cs) m t = advance-Bounded x cs m t
  continue_at-Bounded (suc i) (x ∷ cs) m t =
      let (a, b) = continue_at-Bounded i cs m t in (a, omega (arith, b))

  destroy-Bounded :
      (id : Uuid) (m : SandboxManager) (t : Trace) (n : ℕ)
      → Bounded m n n (Manager.destroy l id m t).1
  unfolding Manager.destroy
  destroy-Bounded id m t n = elim (Option-cases (get id m.sandboxes)) [
    | inl h ↦ rw (h, Manager.destroy) (refl, omega arith)
    | inr (s, h) ↦ rw (h, Manager.destroy) (refl, omega (arith, length-remove-le id m.sandboxes))
  ]

  step-Inv :
      (c : ManagerConfig) (k : ℕ) (o : Step) (y : Race)
      → 0 < c.max_sandboxes
      → length (step l o y).creators ≤ k
      → Inv c k y
      → Inv c k (step l o y)
  unfolding step
  step-Inv c k (creates x) y p h v = enter-Inv c k (checked x) y p h v
  step-Inv c k (registers x) y p h v = enter-Inv c k (booted x) y p h v
  step-Inv c k (continues i) y p h v =
      let (a, b) = continue_at-Bounded i y.creators y.manager y.trace in
      record { config = a ∙ v.config; below = omega (arith, b, v.below) }
  step-Inv c k (destroys id) y p h v =
      let (a, b) = destroy-Bounded id y.manager y.trace (length y.creators) in
      record { config = a ∙ v.config; below = omega (arith, b, v.below) }

  run-Inv :
      (c : ManagerConfig) (k : ℕ) (os : List Step) (y : Race)
      → 0 < c.max_sandboxes
      → busiest os y ≤ k
      → Inv c k y
      → Inv c k (run l os y)
  unfolding run busiest
  run-Inv c k [] y p h v = v
  run-Inv c k (o ∷ os) y p h v =
      run-Inv c k os (step l o y) p (ground arith)
        (step-Inv c k o y p (ground (arith, busiest-start os (step l o y))) v)

  -- However calls of `create` and `register` interleave with each other and with destructions, the
  -- registry exceeds a limit by less than the number of calls that were past the check at once: it
  -- stays under the limit and this number together.
  pub run-calm-below :
      (c : ManagerConfig) (os : List Step) (t : Trace)
      → 0 < c.max_sandboxes
      → length (run l os (calm (new c) t)).manager.sandboxes
        < c.max_sandboxes + busiest os (calm (new c) t)
  run-calm-below c os t p =
      let v =
        run-Inv c (busiest os (calm (new c) t)) os (calm (new c) t) p (omega arith)
          (record { config = refl; below = omega (arith, p) }) in
      omega (arith, v.below)
