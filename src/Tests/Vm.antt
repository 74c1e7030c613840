-- ===== src/Tests/Vm.antt =====
-- The theorems on the virtual machine at a concrete configuration.
use petty.Shared.{◌≡◌, refl, ◌↔◌, [], ◌∷◌, some}
use petty.Shared.Result.{ok}
use petty.Text.{lit, eq_str}
use petty.Text.FilePath.{path_from, join}
use petty.Host.{Trace, perform, send_put, is_success}
use petty.Vm.Config.{MachineConfig, default_machine, default_vsock, default_drive, validate}
use petty.Vm.Api.{configure_machine, configure_vsock, put_request}
use petty.Vm.Config.Valid.{validate_iff, IsValid}
use petty.Vm.Machine.{VirtualMachine, running, create_with_id, api_socket}
use petty.Vm.Machine.Boot.{Booted, create_with_id-Booted}
use petty.Vm.Machine.Life.{run, host_state, run_follows_host, call_op, destroy_vm-calls}
use petty.Vm.Machine.Life
use petty.Tests.{host}

abbrev machine : MachineConfig
machine = record default_machine {
  vsock = some default_vsock;
  extra_drives = record default_drive { drive_id = 100 ∷ [] } ∷ [];
}

abbrev booted : VirtualMachine
booted = record {
  id = 7;
  config = machine;
  state = running;
  socket_path = api_socket host 7 machine;
}

abbrev boot_trace : Trace
boot_trace = (create_with_id host 7 machine []).1

boots : create_with_id host 7 machine [] ≡ (ok booted, boot_trace)
unfolding create_with_id validate eq_str perform send_put is_success lit path_from join
    configure_machine put_request configure_vsock
boots = refl

create_with_id-Booted_example : Booted host 7 machine [] (create_with_id host 7 machine [])
create_with_id-Booted_example = create_with_id-Booted host 7 machine []

run_follows_host_example :
    let (v, u) = run host (Life.stop ∷ Life.start ∷ Life.kill ∷ []) booted boot_trace in
    (v.state ≡ host_state 7 u) × (v.id ≡ 7) × (v.config ≡ machine)
run_follows_host_example =
    run_follows_host host 7 machine [] booted boot_trace (Life.stop ∷ Life.start ∷ Life.kill ∷ [])
      boots

validate_iff_example : (validate machine ≡ ok tt) ↔ IsValid machine
validate_iff_example = validate_iff machine
