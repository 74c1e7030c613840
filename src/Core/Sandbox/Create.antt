-- ===== src/Core/Sandbox/Create.antt =====
-- What `Sandbox::create` makes: its result where it succeeds, and the limits that it is under.
use petty.Shared.{◌≤◌, ◌≡◌, ◌↔◌, ap, sym, arith}
use petty.Shared.Result.{Result, ok, err, then_with}
use petty.Host.{Uuid, Trace, Env}
use petty.Vm.Machine.{VirtualMachine, running, create_with_id}
use petty.Vm.Config
use petty.Vm.Config.{MachineConfig, for_vm}
use petty.Vm.Config.Valid.{validate_iff}
use petty.Vm.Error.{VmError}
use petty.Vm.Machine.Boot.{Booted, create_with_id-Booted}
use petty.Text.FilePath.{FilePath}
use petty.Core.Error.{CoreError}
use petty.Core.Config.{SandboxConfig}
use petty.Core.Client.{AgentClient}
use petty.Core.Sandbox.{
  Sandbox, Libraries, ready, machine_config, create_as, create, create_machine_in, clean_up, finish,
  sandbox_dir, dropping_on_error,
}

finish_ok :
    (l : Libraries) (id : Uuid) (c : SandboxConfig) (v : VirtualMachine) (t t' : Trace)
    (s : Sandbox)
    → finish l id c v t ≡ (ok s, t')
    → (s.id ≡ id) × (s.config ≡ c) × (s.state ≡ ready) × (s.machine ≡ v)
unfolding finish
finish_ok l id c v t t' s h = by_client (dropping_on_error l v t) h
  where
    by_client :
        (r : Result CoreError AgentClient × Trace)
        → then_with
            (λ client u. (
              ok (record {
                id = id;
                machine = v;
                client = client;
                config = c;
                state = ready;
                created_at = l.env.now u;
              }),
              u,
            ))
            r
          ≡ (ok s, t')
        → (s.id ≡ id) × (s.config ≡ c) × (s.state ≡ ready) × (s.machine ≡ v)
    by_client (ok k, u) h = ground arith
    by_client (err x, u) h = absurd (ground arith)

boot_and_finish_ok :
    (l : Libraries) (id : Uuid) (c : SandboxConfig) (r : Result CoreError VirtualMachine × Trace)
    (t' : Trace) (s : Sandbox)
    → then_with (finish l id c) r ≡ (ok s, t')
    → (s.id ≡ id) × (s.config ≡ c) × (s.state ≡ ready) × (r.0 ≡ ok s.machine)
boot_and_finish_ok l id c (ok v, u) t' s h =
    let (i, k, m, n) = finish_ok l id c v u t' s h in (i, k, m, ap ok (sym n))
boot_and_finish_ok l id c (err x, u) t' s h = absurd (cc (ap (λ p. p.0) h))

machine_ok :
    (e : Env) (id : Uuid) (m : MachineConfig) (dir : FilePath) (t : Trace) (v : VirtualMachine)
    (r : Result VmError VirtualMachine × Trace)
    → Booted e id m t r
    → (clean_up e dir r).0 ≡ ok v
    → (v.id ≡ id) × (v.config ≡ m) × (v.state ≡ running)
machine_ok e id m dir t v (ok w, u) (fp, _, p, _) h = ground arith
machine_ok e id m dir t v (err x, u) b h = absurd (cc h)

from_dir :
    (l : Libraries) (id : Uuid) (c : SandboxConfig) (t' : Trace) (s : Sandbox)
    (r : Result CoreError (Unit {0}) × Trace)
    → then_with (λ _ u. then_with (finish l id c) (create_machine_in l.env id c u)) r ≡ (ok s, t')
    → (s.id ≡ id)
      × (s.config ≡ c)
      × (s.state ≡ ready)
      × ((s.machine.id ≡ id)
          × (s.machine.config ≡ machine_config l.env id c)
          × (s.machine.state ≡ running))
unfolding create_machine_in
from_dir l id c t' s (ok _, u) h =
    let (i, k, m, n) = boot_and_finish_ok l id c (create_machine_in l.env id c u) t' s h in
    (
      i,
      k,
      m,
      machine_ok l.env id (machine_config l.env id c) (sandbox_dir l.env id c) u s.machine
          (create_with_id l.env id (machine_config l.env id c) u)
          (create_with_id-Booted l.env id (machine_config l.env id c) u) n,
    )
from_dir l id c t' s (err x, u) h = absurd (cc (ap (λ p. p.0) h))

-- A created sandbox is ready, under the identifier drawn for it and the configuration given, and
-- its machine runs under the same identifier with the machine configuration made from these.
pub create_ok :
    (l : Libraries) (c : SandboxConfig) (t t' : Trace) (s : Sandbox)
    → create l c t ≡ (ok s, t')
    → (s.id ≡ l.env.new_uuid t)
      × (s.config ≡ c)
      × (s.state ≡ ready)
      × ((s.machine.id ≡ s.id)
          × (s.machine.config ≡ machine_config l.env s.id c)
          × (s.machine.state ≡ running))
unfolding create create_as
create_ok l c t t' s h =
    let (i, k, m, (x, y, z)) = from_dir l (l.env.new_uuid t) c t' s _ h in
    (i, k, m, (rw i x, rw i y, z))

abbrev pub VmLimits : SandboxConfig → Type 0
VmLimits c =
    (1 ≤ c.vcpu_count)
    × (c.vcpu_count ≤ 32)
    × (128 ≤ c.memory_mib)
    × (c.memory_mib ≤ 32768)
    × (3 ≤ c.vsock_cid)

-- The VM accepts the configuration that a sandbox is given exactly within limits that are narrower
-- than those of `SandboxConfig::validate`: up to 32 vCPUs, and from 128 to 32768 MiB.
pub machine_config_valid :
    (e : Env) (id : Uuid) (c : SandboxConfig)
    → (Config.validate (machine_config e id c) ≡ ok tt) ↔ VmLimits c
unfolding machine_config for_vm
machine_config_valid e id c = (
  λ h.
      let v = (validate_iff (machine_config e id c)).0 h in
      (v.vcpus.0, v.vcpus.1, v.memory.0, v.memory.1, v.cid),
  λ h.
      (validate_iff (machine_config e id c)).1
        (record { vcpus = (h.0, h.1); memory = (h.2, h.3); cid = h.4; drives = (tt, tt) }),
)
