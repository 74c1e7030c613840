-- ===== src/Core/Sandbox/Failed.antt =====
-- What a failed `Sandbox::create` leaves behind.
use petty.Shared.{◌≡◌, refl, subst, inl, inr, ◌⊎◌, ◌∷◌, Option, none, some}
use petty.Shared.Result.{Result, ok, err, then_with}
use petty.Text.FilePath.{FilePath, parent}
use petty.Host.{Uuid, Trace, Env, perform}
use petty.Vm.Error.{VmError}
use petty.Vm.Config.{MachineConfig, for_vm}
use petty.Vm.Machine.{VirtualMachine}
use petty.Vm.Machine.Boot.{
  Booted, create_with_id-Booted, Extends, Extends-refl, Extends-trans, Extends-one, drop_event,
}
use petty.Core.Error.{CoreError}
use petty.Core.Config.{SandboxConfig}
use petty.Core.Client.{AgentClient}
use petty.Core.Sandbox.{
  Sandbox, Libraries, ready, machine_config, create_as, create, create_machine_in, clean_up, finish,
  sandbox_dir, remove_dir, dropping, connect_agent, ensure_vsock_dir,
}

-- A failure started no machine, or its last call drops the machine.
abbrev Left : {A : Type 0} → Env → Uuid → Trace → Result CoreError A × Trace → Type 0
Left e id t (ok a, t') = Unit
Left e id t (err x, t') = Extends t t' ⊎ ((u : Trace) × (t' ≡ drop_event e id u ∷ u))

remove_dir-Extends : (e : Env) (dir : FilePath) (t : Trace) → Extends t (remove_dir e dir t)
unfolding perform
remove_dir-Extends e dir t = Extends-one t _ (λ k. absurd (cc k))

drop-Extends : (e : Env) (id : Uuid) (t u : Trace) → Extends t u → Extends t (drop_event e id u ∷ u)
drop-Extends e id t u a = Extends-trans t u _ a (Extends-one u _ (λ k. absurd (cc k)))

Booted-Extends :
    (e : Env) (id : Uuid) (m : MachineConfig) (t t' : Trace) (x : VmError)
    → Booted e id m t (err x, t')
    → Extends t t'
Booted-Extends e id m t t' x (inl (_, p)) = rw p (Extends-refl t)
Booted-Extends e id m t t' x (inr (u, a, p)) = rw p (drop-Extends e id t u a)

module _ (l : Libraries) (id : Uuid) (c : SandboxConfig) where
  finish-Left :
      (v : VirtualMachine) (t : Trace)
      → v.id ≡ id
      → (s : Trace) → Left l.env id s (finish l id c v t)
  unfolding finish perform
  finish-Left v t i s = by_client (connect_agent l v t)
    where
      by_client :
          (r : Result CoreError AgentClient × Trace)
          → Left {A = Sandbox} l.env id s (
              then_with
                (λ client u. (
                  ok (record {
                    id = id;
                    machine = v;
                    client = client;
                    config = c;
                    state = ready;
                    created_at = l.env.now u;
                  }),
                  u,
                ))
                (dropping l.env v.id r))
      by_client (ok k, u) = tt
      by_client (err x, u) = inr (u, rw i refl)

  from_machine-Left :
      (t : Trace) (r : Result VmError VirtualMachine × Trace)
      → Booted l.env id (machine_config l.env id c) t r
      → (s : Trace) → Extends s t
      → Left l.env id s (then_with (finish l id c) (clean_up l.env (sandbox_dir l.env id c) r))
  from_machine-Left t (ok v, u) (fp, _, p, _) s a = finish-Left v u (rw p refl) s
  from_machine-Left t (err x, u) b s a = inl (
      Extends-trans s t _ a (
        Extends-trans t u _ (Booted-Extends l.env id (machine_config l.env id c) t u x b)
          (remove_dir-Extends l.env (sandbox_dir l.env id c) u)))

  from_dir-Left :
      (s : Trace) (r : Result CoreError (Unit {0}) × Trace)
      → Extends s r.1
      → Left l.env id s
          (then_with (λ _ u. then_with (finish l id c) (create_machine_in l.env id c u)) r)
  unfolding create_machine_in
  from_dir-Left s (ok _, u) a =
      from_machine-Left u _ (create_with_id-Booted l.env id (machine_config l.env id c) u) s a
  from_dir-Left s (err x, u) a = inl a

  ensure_vsock_dir-Extends :
      (o : Option FilePath) (t : Trace) → Extends t (ensure_vsock_dir l.env o t).1
  unfolding ensure_vsock_dir perform
  ensure_vsock_dir-Extends none t = Extends-refl t
  ensure_vsock_dir-Extends (some dir) t = Extends-one t _ (λ k. absurd (cc k))

  create_as-Left : (t : Trace) → Left l.env id t (create_as l id c t)
  unfolding create_as
  create_as-Left t = from_dir-Left t _ (
      ensure_vsock_dir-Extends
        (parent (for_vm c.vsock_cid c.chroot_path (l.env.uuid_string id)).uds_path) t)

-- A creation that fails has started no machine, or the last thing that it does is to drop its
-- machine's handle.
pub create_err :
    (l : Libraries) (c : SandboxConfig) (t t' : Trace) (x : CoreError)
    → create l c t ≡ (err x, t')
    → Extends t t' ⊎ ((u : Trace) × (t' ≡ drop_event l.env (l.env.new_uuid t) u ∷ u))
unfolding create
create_err l c t t' x h =
    subst (Left l.env (l.env.new_uuid t) t) h (create_as-Left l (l.env.new_uuid t) c t)
