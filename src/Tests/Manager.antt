-- ===== src/Tests/Manager.antt =====
-- The theorems on sandboxes and their manager at a concrete registry.
use petty.Shared.{
  if◌then◌else◌, ◌==◌, arith, ◌≤◌, ◌<◌, ℕ, ◌≡◌, refl, ◌↔◌, ◌⊎◌, Option, some, List, [], ◌∷◌, none,
}
use petty.Shared.Result.{ok, err}
use petty.Shared.Int.{as_i32}
use petty.Text.{Str, lit, starts_with, strip_prefix, eq_str}
use petty.Text.Decimal.{decimal}
use petty.Text.FilePath.{path_from, join, parent, path_string}
use petty.Host.{Trace, Call, create_dir_all, perform, send_put, is_success, read_reply}
use petty.Vm.Api.{configure_machine, put_request, configure_vsock}
use petty.Vm.Config
use petty.Vm.Config.{MachineConfig, validate, for_vm}
use petty.Vm.Machine
use petty.Vm.Machine.{VmState, api_socket, create_with_id, build_fp_config}
use petty.Core.Client.{connect, try_connect, call, interpret}
use petty.Core.Client.Methods.{ping}
use petty.Core.Error.{connection, not_found}
use petty.Core.Sandbox.{Sandbox, Libraries, ready, machine_config, create}
use petty.Vm.Machine.Boot.{Extends, drop_event}
use petty.Core.Sandbox.Failed.{create_err}
use petty.Core.Sandbox.Create.{create_ok, machine_config_valid, VmLimits}
use petty.Core.Manager
use petty.Core.Manager.{SandboxManager, ManagerConfig, new_config, new, get, exists}
use petty.Core.Manager.Registry.{Good}
use petty.Core.Manager.Cids.{with_cid, run-new-with_cid}
use petty.Core.Manager.Limit.{Op, Inv, Allowed, run, run-new-Inv}
use petty.Core.Manager.Limit
use petty.Core.Manager.Destroy.{destroy_removes}
use petty.Tests.{host, libraries, sandbox_config}

abbrev pub sandbox_of : ℕ → Sandbox
sandbox_of id = record {
  id = id;
  machine = record {
    id = id;
    config = machine_config host id sandbox_config;
    state = Machine.running;
    socket_path = api_socket host id (machine_config host id sandbox_config);
  };
  client = record { next_id = 2 };
  config = sandbox_config;
  state = ready;
  created_at = 0;
}

pub creates :
    create libraries sandbox_config [] ≡ (ok (sandbox_of 7), (create libraries sandbox_config []).1)
unfolding create parent for_vm join path_from lit decimal perform create_with_id validate
    configure_machine put_request send_put is_success configure_vsock connect try_connect read_reply
    machine_config as_i32 path_string starts_with strip_prefix build_fp_config ping call interpret
    eq_str
creates = refl

create_ok_example :
    let s = sandbox_of 7 in
    (s.id ≡ libraries.env.new_uuid [])
    × (s.config ≡ sandbox_config)
    × (s.state ≡ ready)
    × ((s.machine.id ≡ s.id)
        × (s.machine.config ≡ machine_config libraries.env s.id sandbox_config)
        × (s.machine.state ≡ Machine.running))
create_ok_example =
    create_ok libraries sandbox_config [] (create libraries sandbox_config []).1 (sandbox_of 7)
      creates

machine_config_valid_example :
    (Config.validate (machine_config host 7 sandbox_config) ≡ ok tt) ↔ VmLimits sandbox_config
machine_config_valid_example = machine_config_valid host 7 sandbox_config

abbrev pub manager_config : ManagerConfig
manager_config =
    record (new_config (path_from (lit "/images/vmlinux")) (path_from (lit "/images/debian.ext4"))
      (path_from (lit "/usr/bin/firecracker")) (path_from (lit "/tmp/bouvet"))) {
        max_sandboxes = 2;
      }

abbrev operations : List Op
operations =
    Limit.create_default
    ∷ Limit.register (sandbox_of 3)
    ∷ Limit.create_default
    ∷ Limit.execute 3 (lit "ls")
    ∷ Limit.destroy 3
    ∷ []

run-new-Inv_example :
    Inv 0 (run libraries operations (new manager_config) []).0
    × ((run libraries operations (new manager_config) []).0.config ≡ manager_config)
run-new-Inv_example =
    run-new-Inv libraries manager_config operations [] (tt, (refl, (tt, (tt, (tt, tt)))))

-- The second sandbox that is created draws the CID 4.
run-new-with_cid_example :
    (with_cid 4 (run libraries operations (new manager_config) []).0.sandboxes ≤ 1)
    × (4 < 3 → with_cid 4 (run libraries operations (new manager_config) []).0.sandboxes ≡ 0)
run-new-with_cid_example =
    run-new-with_cid 4 libraries manager_config operations [] (tt, (refl, (tt, (tt, (tt, tt)))))
      (omega arith)

abbrev pub two : SandboxManager
two = record (new manager_config) { sandboxes = (3, sandbox_of 3) ∷ (4, sandbox_of 4) ∷ [] }

pub two-Good : Good two.sandboxes
unfolding get
two-Good = (refl, refl, refl, (refl, refl, refl, tt))

destroy_removes_example :
    ((Manager.destroy libraries 3 two []).0 ≡ (if exists two 3 then ok tt else err (not_found 3)))
    × (get 4 (Manager.destroy libraries 3 two []).1.sandboxes
        ≡ (if 3 == 4 then none else get 4 two.sandboxes))
destroy_removes_example = destroy_removes libraries 3 4 two [] two-Good

-- A host that creates no directory.
abbrev refuses_dirs : Call → Option Str
refuses_dirs (create_dir_all dir) = some (lit "denied")
refuses_dirs _ = none

abbrev denying : Libraries
denying = record libraries { env = record host { respond = λ t c. refuses_dirs c } }

denied : create denying sandbox_config [] ≡ (
  err (connection (lit "Failed to create vsock directory: denied")),
  (create denying sandbox_config []).1,
)
unfolding create parent for_vm join path_from lit perform
denied = refl

create_err_example :
    Extends [] (create denying sandbox_config []).1
    ⊎ ((u : Trace) × ((create denying sandbox_config []).1 ≡ drop_event denying.env 7 u ∷ u))
create_err_example =
    create_err denying sandbox_config [] (create denying sandbox_config []).1
      (connection (lit "Failed to create vsock directory: denied")) denied
