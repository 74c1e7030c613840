-- ===== src/Vm/Machine.antt =====
-- crates/bouvet-vm/src/machine.rs: booting a microVM through firepilot, and its life afterwards.
-- firepilot's `Machine` is the calls made to it. Its handle is dropped at the end of its scope,
-- which is a call too: after an error in `create_with_id`, and in `destroy`.
pub mod Boot
pub mod Life
use petty.Shared.{ℕ, Bool, true, false, List, [], ◌∷◌, ◌++◌, map, Option, none, some, if◌then◌else◌}
use petty.Shared.Result.{
  Result, ok, err, map_err, and_then, failing, Action, ◌>>=◌, ◌>>◌, pure, throw, lift,
}
use petty.Text.{Str, lit}
use petty.Text.FilePath.{FilePath, path_from, join, path_string}
use petty.Host.{
  Uuid, FpDrive, FpInterface, FpConfig, Event, Trace, Env, perform, create_machine, start_machine,
  stop_machine, kill_machine, drop_machine, Call,
}
use petty.Vm.Error.{VmError, create, start, stop, invalid_state}
use petty.Vm.Config.{DriveConfig, NetworkConfig, VsockConfig, MachineConfig, validate}
use petty.Vm.Api.{configure_machine, configure_vsock}

pub data VmState : Type 0 where
  creating running paused stopped : VmState

-- The `Debug` text of a state, and its `Display` text.
debug_state : VmState → Str
debug_state creating = lit "Creating"
debug_state running = lit "Running"
debug_state paused = lit "Paused"
debug_state stopped = lit "Stopped"

display_state : VmState → Str
display_state creating = lit "creating"
display_state running = lit "running"
display_state paused = lit "paused"
display_state stopped = lit "stopped"

pub record VirtualMachine : Type 0 where
  pub id : Uuid
  pub config : MachineConfig
  pub state : VmState
  pub socket_path : FilePath

abbrev pub drive_builder : DriveConfig → FpDrive
drive_builder d = record {
  drive_id = d.drive_id;
  path_on_host = d.path_on_host;
  root_device = if d.is_root_device then true else false;
  read_only = if d.is_read_only then true else false;
}

abbrev pub net_builder : NetworkConfig → FpInterface
net_builder n = record {
  iface_id = n.iface_id;
  host_dev_name = n.host_dev_name;
  guest_mac = n.guest_mac;
}

-- `try_build` of a drive, with the prefix of its error.
try_drive : Env → Str → DriveConfig → Result VmError FpDrive
try_drive e prefix d = elim (e.drive_error (drive_builder d)) [
  | none ↦ ok (drive_builder d)
  | some x ↦ err (VmError.config (prefix ++ x))
]

-- The loop over the extra drives.
try_extra_drives : Env → List DriveConfig → Result VmError (List FpDrive)
unfolding try_drive
try_extra_drives e [] = ok []
try_extra_drives e (d ∷ ds) =
    let rest = try_extra_drives e ds in
    and_then (try_drive e (lit "extra drive config: ") d) λ x. and_then rest λ xs. ok (x ∷ xs)

try_interfaces : Env → Option NetworkConfig → Result VmError (List FpInterface)
try_interfaces e none = ok []
try_interfaces e (some n) = elim (e.interface_error (net_builder n)) [
  | none ↦ ok (net_builder n ∷ [])
  | some x ↦ err (VmError.config (lit "network config: " ++ x))
]

-- The first half of `create_with_id`, which calls nothing on the host.
unfoldable pub build_fp_config : Env → Uuid → MachineConfig → Result VmError FpConfig
unfolding try_drive try_extra_drives try_interfaces
build_fp_config e id c =
    let kernel_image = path_string c.kernel_path in
    let chroot = path_string c.chroot_path in
    and_then (validate c) λ _.
      and_then
        (map_err (λ x. VmError.config (lit "kernel config: " ++ x))
          (failing (e.kernel_error kernel_image c.boot_args)))
        λ _. and_then (try_drive e (lit "drive config: ") c.root_drive) λ drive.
          and_then
            (map_err (λ x. VmError.config (lit "executor config: " ++ x))
              (failing (e.executor_error chroot c.firecracker_path)))
            λ _. and_then (try_extra_drives e c.extra_drives) λ extras.
              and_then (try_interfaces e c.network) λ interfaces. ok (record {
                vm_id = e.uuid_string id;
                kernel_image_path = kernel_image;
                boot_args = c.boot_args;
                chroot = chroot;
                exec_binary = c.firecracker_path;
                drives = drive ∷ extras;
                interfaces = interfaces;
              })

-- A call to firepilot, with the error that its failure becomes.
call_machine : Env → Call → (Str → VmError) → Action Trace VmError (Unit {0})
call_machine e c wrap t = let (r, t') = perform e c t in (map_err wrap r, t')

-- `chroot_path / id / firecracker.socket`.
abbrev pub api_socket : Env → Uuid → MachineConfig → FilePath
api_socket e id c =
    join (join c.chroot_path (path_from (e.uuid_string id))) (path_from (lit "firecracker.socket"))

configure_vsock_if : Env → FilePath → Option VsockConfig → Action Trace VmError (Unit {0})
configure_vsock_if e socket none = pure tt
configure_vsock_if e socket (some v) = configure_vsock e socket v

-- The second half of `create_with_id`, up to the start.
boot : Env → Uuid → MachineConfig → FpConfig → Action Trace VmError (Unit {0})
unfolding call_machine configure_vsock_if
boot e id c fp = do
  call_machine e (create_machine fp) create
  configure_machine e (api_socket e id c) c.vcpu_count c.memory_mib
  configure_vsock_if e (api_socket e id c) c.vsock
  call_machine e (start_machine id) start

-- The handle goes out of scope: the host is told, and nothing can fail.
abbrev pub drop_handle : Env → Uuid → Trace → Trace
drop_handle e id t = (perform e (drop_machine id) t).1

abbrev pub finish_create :
    Env
    → Uuid
    → MachineConfig
    → Result VmError (Unit {0}) × Trace
    → Result VmError VirtualMachine × Trace
finish_create e id c (ok _, t) =
    (ok (record { id = id; config = c; state = running; socket_path = api_socket e id c }), t)
finish_create e id c (err x, t) = (err x, drop_handle e id t)

create_from :
    Env → Uuid → MachineConfig → Result VmError FpConfig → Action Trace VmError VirtualMachine
unfolding boot
create_from e id c (ok fp) t = finish_create e id c (boot e id c fp t)
create_from e id c (err x) t = (err x, t)

unfoldable pub create_with_id : Env → Uuid → MachineConfig → Action Trace VmError VirtualMachine
unfolding create_from build_fp_config
create_with_id e id c t = create_from e id c (build_fp_config e id c) t

-- `VirtualMachine::create`: the identifier is a new one.
unfoldable pub create_new : Env → MachineConfig → Action Trace VmError VirtualMachine
unfolding create_with_id
create_new e c t = create_with_id e (e.new_uuid t) c t

abbrev pub vsock_uds_path : VirtualMachine → Option FilePath
vsock_uds_path vm = elim (vm.config.vsock) [ none ↦ none | some v ↦ some (v.uds_path) ]

abbrev pub vsock_cid : VirtualMachine → Option ℕ
vsock_cid vm = elim (vm.config.vsock) [ none ↦ none | some v ↦ some (v.guest_cid) ]

-- A method on `&mut self` gives its result, the machine afterwards and the trace.
abbrev pub Method : Type 0
Method = VirtualMachine → Trace → Result VmError (Unit {0}) × VirtualMachine × Trace

abbrev enter :
    VmState
    → VirtualMachine
    → Result VmError (Unit {0}) × Trace
    → Result VmError (Unit {0}) × VirtualMachine × Trace
enter s vm (ok _, t) = (ok tt, record vm { state = s }, t)
enter s vm (err x, t) = (err x, vm, t)

cannot_start : Str → Result VmError (Unit {0})
cannot_start actual = err (invalid_state (lit "stopped or paused") actual)

start_in : Env → VmState → Method
unfolding call_machine cannot_start
start_in e running vm t = (cannot_start (lit "running"), vm, t)
start_in e creating vm t = (cannot_start (lit "creating"), vm, t)
start_in e _ vm t = enter running vm (call_machine e (start_machine vm.id) start t)

-- `VirtualMachine::start`.
unfoldable pub start_vm : Env → Method
unfolding start_in
start_vm e vm t = start_in e vm.state vm t

stop_in : Env → VmState → Method
unfolding call_machine debug_state
stop_in e running vm t = enter stopped vm (call_machine e (stop_machine vm.id) stop t)
stop_in e s vm t = (err (invalid_state (lit "running") (debug_state s)), vm, t)

-- `VirtualMachine::stop`.
unfoldable pub stop_vm : Env → Method
unfolding stop_in
stop_vm e vm t = stop_in e vm.state vm t

-- `VirtualMachine::kill`, in any state.
unfoldable pub kill_vm : Env → Method
unfolding call_machine
kill_vm e vm t =
    enter stopped vm (call_machine e (kill_machine vm.id) (λ x. stop (lit "kill failed: " ++ x)) t)

kill_if_running : Env → VmState → VirtualMachine → Trace → Trace
unfolding kill_vm
kill_if_running e running vm t = (kill_vm e vm t).2
kill_if_running e _ vm t = t

-- `VirtualMachine::destroy`: the result of the kill is ignored, and the handle is dropped.
unfoldable pub destroy_vm : Env → VirtualMachine → Action Trace VmError (Unit {0})
unfolding kill_if_running
destroy_vm e vm t = (ok tt, drop_handle e vm.id (kill_if_running e vm.state vm t))
