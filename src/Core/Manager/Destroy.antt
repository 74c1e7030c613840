-- ===== src/Core/Manager/Destroy.antt =====
-- Destroying one sandbox and all of them.
use petty.Shared.{
  ◌≡◌, refl, ◌≢◌, ◌⊎◌, inl, inr, Bool, [], ◌∷◌, none, arith, ◌==◌, if◌then◌else◌, Option-cases, All,
}
use petty.Shared.Result.{ok, err}
use petty.Host.{Uuid, Call, Trace, perform, drop_machine}
use petty.Vm.Machine.{running, destroy_vm}
use petty.Vm.Machine.Life.{destroy_vm-calls}
use petty.Core.Error.{not_found}
use petty.Core.Sandbox.{Sandbox, Libraries, sandbox_dir, remove_dir}
use petty.Core.Sandbox
use petty.Core.Manager.{Registry, SandboxManager, get, remove, exists, destroy_each, count}
use petty.Core.Manager
use petty.Core.Manager.Registry.{Good, get-remove}

-- The call was made at some point of the trace.
abbrev pub Occurs : Call → Trace → Type 0
Occurs c [] = ⊥
Occurs c (ev ∷ t) = (ev.call ≡ c) ⊎ Occurs c t

module _ (l : Libraries) where
  -- What a sandbox's destruction leaves on the trace.
  pub destroy_result : (s : Sandbox) (t : Trace) → (Sandbox.destroy l s t).0 ≡ ok tt
  unfolding Sandbox.destroy
  destroy_result s t = ground (arith, (destroy_vm-calls l.env s.machine t).0)

  destroy_trace :
      (s : Sandbox) (t : Trace)
      → (Sandbox.destroy l s t).1
        ≡ remove_dir l.env (sandbox_dir l.env s.id s.config) (destroy_vm l.env s.machine t).1
  unfolding Sandbox.destroy
  destroy_trace s t = ground (arith, (destroy_vm-calls l.env s.machine t).0)

  -- Where identifiers are unique, destroying succeeds exactly for a sandbox of the registry, and
  -- otherwise reports that it is not there. Afterwards it is not in the registry, and every other
  -- sandbox is there as before.
  pub destroy_removes :
      (id j : Uuid) (m : SandboxManager) (t : Trace)
      → Good m.sandboxes
      → ((Manager.destroy l id m t).0 ≡ (if exists m id then ok tt else err (not_found id)))
        × (get j (Manager.destroy l id m t).1.sandboxes
            ≡ (if id == j then none else get j m.sandboxes))
  unfolding Manager.destroy exists
  destroy_removes id j m t g = elim (Option-cases (get id m.sandboxes)) [
    | inl h ↦ rw (h, Manager.destroy) (refl, ground (arith, h))
    | inr (s, h) ↦ rw (h, Manager.destroy) (destroy_result s t, get-remove id j m.sandboxes g)
  ]

  pub Occurs-destroy :
      (c : Call) (s : Sandbox) (t : Trace) → Occurs c t → Occurs c (Sandbox.destroy l s t).1
  unfolding perform
  Occurs-destroy c s t o =
      let (_, (u, p, q)) = destroy_vm-calls l.env s.machine t in
      rw (destroy_trace s t) (rw p (inr (inr (under u q))))
    where
      under :
          (u : Trace)
          → ((s.machine.state ≡ running)
              × ((b : Bool) × (u
                    ≡ record { call = Call.kill_machine s.machine.id; succeeded = b } ∷ t)))
            ⊎ ((s.machine.state ≢ running) × (u ≡ t))
          → Occurs c u
      under u (inl (_, (b, p))) = rw p (inr o)
      under u (inr (_, p)) = rw p o

  pub Occurs-drop :
      (s : Sandbox) (t : Trace) → Occurs (drop_machine s.machine.id) (Sandbox.destroy l s t).1
  unfolding perform
  Occurs-drop s t =
      let (_, (u, p, _)) = destroy_vm-calls l.env s.machine t in
      rw (destroy_trace s t) (rw p (inr (inl refl)))

  pub Occurs-destroy_each :
      (c : Call) (r : Registry) (t : Trace) → Occurs c t → Occurs c (destroy_each l r t)
  unfolding destroy_each
  Occurs-destroy_each c [] t o = o
  Occurs-destroy_each c ((k, s) ∷ r) t o =
      Occurs-destroy_each c r (Sandbox.destroy l s t).1 (Occurs-destroy c s t o)

  drops_each :
      (r : Registry) (t : Trace)
      → All (λ e. Occurs (drop_machine e.1.machine.id) (destroy_each l r t)) r
  unfolding destroy_each
  drops_each [] t = tt
  drops_each ((k, s) ∷ r) t = (
    Occurs-destroy_each _ r (Sandbox.destroy l s t).1 (Occurs-drop s t),
    drops_each r (Sandbox.destroy l s t).1,
  )

  -- `destroy_all` succeeds, empties the registry, and drops the machine of each sandbox that was in
  -- it, whichever of their destructions fail.
  pub destroy_all_drops :
      (m : SandboxManager) (t : Trace)
      → let (r, m', t') = Manager.destroy_all l m t in
        (r ≡ ok tt)
        × (count m' ≡ 0)
        × All (λ e. Occurs (drop_machine e.1.machine.id) t') m.sandboxes
  unfolding Manager.destroy_all count
  destroy_all_drops m t = (refl, refl, drops_each m.sandboxes t)
