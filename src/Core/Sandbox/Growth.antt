-- ===== src/Core/Sandbox/Growth.antt =====
-- The life of a sandbox only adds to the host's trace, and a creation that succeeds adds calls.
use petty.Shared.{
  ◌≤◌, ◌≡◌, ◌<◌, arith, length, length-append, Option, none, some, ℕ, inl, inr, subst,
}
use petty.Shared.Result.{Result, ok, err, then_with}
use petty.Text.FilePath.{FilePath, parent}
use petty.Host.{Uuid, Trace, Env, perform, drop_machine, remove_dir_all}
use petty.Host.Growth.{Grows, perform-length}
use petty.Vm.Error.{VmError}
use petty.Vm.Config.{MachineConfig, for_vm}
use petty.Vm.Machine.{VirtualMachine, create_with_id}
use petty.Vm.Machine.Life.{destroy_vm-calls}
use petty.Vm.Machine.Boot.{Booted, create_with_id-Booted, Extends, boot_events}
use petty.Core.Error.{CoreError}
use petty.Core.Config.{SandboxConfig}
use petty.Core.Client.{AgentClient, connect}
use petty.Core.Client.Growth.{connect-Grows, ping-Grows}
use petty.Core.Client.Methods.{ClientMethod}
use petty.Core.Sandbox.{
  when_ready, ensure_ready, with_client, Sandbox, Libraries, machine_config, create_as, create,
  create_machine_in, clean_up, finish, sandbox_dir, dropping, connect_agent, ensure_vsock_dir,
  destroy, is_healthy, vsock_path, ping_agent, ready,
}

-- Longer where the action succeeds, and never shorter.
abbrev Adds : {E A : Type 0} → ℕ → Result E A × Trace → Type 0
Adds n (ok a, t) = n < length t
Adds n (err x, t) = n ≤ length t

Adds-le : {E A : Type 0} (m n : ℕ) (r : Result E A × Trace) → m ≤ n → Adds n r → Adds m r
Adds-le m n (ok a, t) h a' = omega arith
Adds-le m n (err x, t) h a' = omega arith

Adds-weaken : {E A : Type 0} (n : ℕ) (r : Result E A × Trace) → Adds n r → n ≤ length r.1
Adds-weaken n (ok a, t) h = omega arith
Adds-weaken n (err x, t) h = h

Extends-length : (t u : Trace) → Extends t u → length t ≤ length u
Extends-length t u (new, p, _) = rw p (omega (arith, length-append new t))

Booted-Adds :
    (e : Env) (id : Uuid) (c : MachineConfig) (t : Trace)
    (r : Result VmError VirtualMachine × Trace)
    → Booted e id c t r
    → Adds (length t) r
Booted-Adds e id c t (ok v, u) (fp, _, _, p) =
    rw p (omega (arith, length-append (boot_events e id c fp) t))
Booted-Adds e id c t (err x, u) (inl (_, p)) = rw p (omega arith)
Booted-Adds e id c t (err x, u) (inr (v, a, p)) = rw p (omega (arith, Extends-length t v a))

module _ (l : Libraries) where
  connect_agent-Grows : (v : VirtualMachine) → Grows (connect_agent l v)
  unfolding connect_agent ping_agent
  connect_agent-Grows v t = by_path (vsock_path v)
    where
      by_client :
          (r : Result CoreError AgentClient × Trace)
          → length t ≤ length r.1
          → length t ≤ length (then_with (ping_agent l) r).1
      by_client (ok c, u) h = ground (arith, ping-Grows l.serde l.env l.decoders c u)
      by_client (err x, u) h = h

      by_path :
          (p : Result CoreError FilePath)
          → length t
            ≤ length
                (then_with (λ path u. then_with (ping_agent l) (connect l.env path u)) (p, t)).1
      by_path (ok path) = by_client (connect l.env path t) (connect-Grows l.env path t)
      by_path (err x) = omega arith

  finish-Adds :
      (id : Uuid) (c : SandboxConfig) (n : ℕ) (v : VirtualMachine) (t : Trace)
      → n < length t
      → Adds n (finish l id c v t)
  unfolding finish
  finish-Adds id c n v t h = by_client (connect_agent l v t) (connect_agent-Grows v t)
    where
      by_client :
          (r : Result CoreError AgentClient × Trace)
          → length t ≤ length r.1
          → Adds {E = CoreError} {A = Sandbox} n (
              then_with
                (λ client u. (
                  ok (record {
                    id = id;
                    machine = v;
                    client = client;
                    config = c;
                    state = ready;
                    created_at = l.env.now u;
                  }),
                  u,
                ))
                (dropping l.env v.id r))
      by_client (ok k, u) g = omega arith
      by_client (err x, u) g = omega (arith, perform-length l.env (drop_machine v.id) u)

  from_machine-Adds :
      (id : Uuid) (c : SandboxConfig) (n : ℕ) (r : Result VmError VirtualMachine × Trace)
      → Adds n r
      → Adds n (then_with (finish l id c) (clean_up l.env (sandbox_dir l.env id c) r))
  from_machine-Adds id c n (ok v, u) h = finish-Adds id c n v u h
  from_machine-Adds id c n (err x, u) h =
      omega (arith, perform-length l.env (remove_dir_all (sandbox_dir l.env id c)) u)

  from_dir-Adds :
      (id : Uuid) (c : SandboxConfig) (n : ℕ) (r : Result CoreError (Unit {0}) × Trace)
      → n ≤ length r.1
      → Adds n (then_with (λ _ u. then_with (finish l id c) (create_machine_in l.env id c u)) r)
  unfolding create_machine_in
  from_dir-Adds id c n (ok _, u) h =
      from_machine-Adds id c n (create_with_id l.env id (machine_config l.env id c) u) (
        Adds-le n (length u) (create_with_id l.env id (machine_config l.env id c) u) h (
          Booted-Adds l.env id (machine_config l.env id c) u _
            (create_with_id-Booted l.env id (machine_config l.env id c) u)))
  from_dir-Adds id c n (err x, u) h = h

  ensure_vsock_dir-Grows : (o : Option FilePath) → Grows (ensure_vsock_dir l.env o)
  unfolding ensure_vsock_dir perform
  ensure_vsock_dir-Grows none t = omega arith
  ensure_vsock_dir-Grows (some dir) t = ground arith

  create-Adds : (c : SandboxConfig) (t : Trace) → Adds (length t) (create l c t)
  unfolding create create_as
  create-Adds c t =
      let id = l.env.new_uuid t in
      from_dir-Adds id c (length t) _ (
        ensure_vsock_dir-Grows
          (parent (for_vm c.vsock_cid c.chroot_path (l.env.uuid_string id)).uds_path) t)

  pub create-Grows : (c : SandboxConfig) → Grows (create l c)
  create-Grows c t = Adds-weaken (length t) (create l c t) (create-Adds c t)

  pub create-longer :
      (c : SandboxConfig) (t t' : Trace) (s : Sandbox)
      → create l c t ≡ (ok s, t')
      → length t < length t'
  create-longer c t t' s h = subst (Adds (length t)) h (create-Adds c t)

  pub destroy-Grows : (s : Sandbox) → Grows (destroy l s)
  unfolding destroy perform
  destroy-Grows s t =
      let (_, (u, p, q)) = destroy_vm-calls l.env s.machine t in
      elim q [ inl (_, (b, k)) ↦ ground arith | inr (_, k) ↦ ground arith ]

  pub is_healthy-Grows : (s : Sandbox) (t : Trace) → length t ≤ length (is_healthy l s t).2
  unfolding is_healthy
  is_healthy-Grows s t = ground (arith, ping-Grows l.serde l.env l.decoders s.client t)

pub when_ready-Grows :
    {R : Type 0} (f : ClientMethod R) (s : Sandbox) (t : Trace)
    → length t ≤ length (f s.client t).2
    → length t ≤ length (when_ready f s t).2
unfolding when_ready ensure_ready with_client
when_ready-Grows f s t h = ground arith
