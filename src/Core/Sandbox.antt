-- ===== src/Core/Sandbox.antt =====
-- crates/bouvet-core/src/sandbox.rs: a running microVM with a connected agent.
pub mod Create
pub mod Failed
pub mod Growth
pub mod Owners
use petty.Shared.{ℕ, Bool, true, false, ◌++◌, Option, none, some, if◌then◌else◌, List}
use petty.Shared.Result.{Result, ok, err, map_err, Action, ◌>>=◌, ◌>>◌, pure, throw, lift, failing}
use petty.Text.{Str, lit}
use petty.Text.FilePath.{FilePath, path_from, join, parent}
use petty.Host.{Uuid, Trace, Env, perform, create_dir_all, remove_dir_all, is_ok}
use petty.Host.Json.{SerdeJson}
use petty.Vm.Error.{VmError}
use petty.Vm.Config.{VsockConfig, MachineConfig, for_vm}
use petty.Vm.Builder
use petty.Vm.Machine.{VirtualMachine, create_with_id, destroy_vm, vsock_uds_path, drop_handle}
use petty.Core.Error.{CoreError, vm, connection, invalid_state}
use petty.Core.Config.{SandboxConfig}
use petty.Core.Client.{AgentClient, connect, on_host}
use petty.Core.Client.Methods.{Decoders, ExecResult, FileEntry, ClientMethod}
use petty.Core.Client.Methods

pub data SandboxState : Type 0 where
  creating ready destroyed : SandboxState

-- The `Display` and the derived `Debug` text, which are the same.
unfoldable pub state_text : SandboxState → Str
state_text creating = lit "Creating"
state_text ready = lit "Ready"
state_text destroyed = lit "Destroyed"

pub record Sandbox : Type 0 where
  pub id : Uuid
  pub machine : VirtualMachine
  pub client : AgentClient
  pub config : SandboxConfig
  pub state : SandboxState
  pub created_at : ℕ

-- What `Sandbox::create` and the clients need of the libraries around them.
pub record Libraries : Type 1 where
  pub env : Env
  pub serde : SerdeJson
  pub decoders : Decoders serde

-- The configuration that `create` hands to the VM.
unfoldable pub machine_config : Env → Uuid → SandboxConfig → MachineConfig
machine_config e id c = Builder.build_config (
    Builder.with_vsock_config
      (Builder.chroot_path
        (Builder.rootfs
          (Builder.kernel (Builder.memory_mib (Builder.vcpus Builder.new c.vcpu_count) c.memory_mib)
            c.kernel_path)
          c.rootfs_path)
        c.chroot_path)
      (for_vm c.vsock_cid c.chroot_path (e.uuid_string id)))

-- The directory of a sandbox, removed when it is destroyed or its VM cannot be created.
abbrev pub sandbox_dir : Env → Uuid → SandboxConfig → FilePath
sandbox_dir e id c = join c.chroot_path (path_from (e.uuid_string id))

ensure_vsock_dir : Env → Option FilePath → Action Trace CoreError (Unit {0})
ensure_vsock_dir e none = pure tt
ensure_vsock_dir e (some dir) =
    on_host (λ x. connection (lit "Failed to create vsock directory: " ++ x))
      (perform e (create_dir_all dir))

-- `let _ = remove_dir_all(..)`.
abbrev pub remove_dir : Env → FilePath → Trace → Trace
remove_dir e dir t = (perform e (remove_dir_all dir) t).1

abbrev pub clean_up :
    Env → FilePath → Result VmError VirtualMachine × Trace → Result CoreError VirtualMachine × Trace
clean_up e dir (ok v, t) = (ok v, t)
clean_up e dir (err x, t) = (err (vm x), remove_dir e dir t)

create_machine_in : Env → Uuid → SandboxConfig → Action Trace CoreError VirtualMachine
unfolding machine_config
create_machine_in e id c t =
    clean_up e (sandbox_dir e id c) (create_with_id e id (machine_config e id c) t)

-- An error after the VM was created drops the machine's handle, and nothing else.
abbrev pub dropping :
    {A : Type 0} → Env → Uuid → Result CoreError A × Trace → Result CoreError A × Trace
dropping e id (ok a, t) = (ok a, t)
dropping e id (err x, t) = (err x, drop_handle e id t)

vsock_path : VirtualMachine → Result CoreError FilePath
vsock_path v = elim (vsock_uds_path v) [
  | none ↦ err (connection (lit "vsock not configured"))
  | some p ↦ ok p
]

-- Mutable methods of the client read as actions on the client.
abbrev after_ping :
    {A : Type 0}
    → (AgentClient → A)
    → Result CoreError (Unit {0}) × AgentClient × Trace
    → Result CoreError A × Trace
after_ping f (ok _, c, t) = (ok (f c), t)
after_ping f (err x, c, t) = (err x, t)

module _ (l : Libraries) where
  ping_agent : AgentClient → Action Trace CoreError AgentClient
  ping_agent c t = after_ping (λ c'. c') (Methods.ping l.serde l.decoders l.env c t)

  -- From the booted VM to a client whose agent has answered.
  pub connect_agent : VirtualMachine → Action Trace CoreError AgentClient
  unfolding vsock_path ping_agent
  connect_agent v = do path ← lift (vsock_path v); client ← connect l.env path; ping_agent client

  abbrev pub dropping_on_error : VirtualMachine → Action Trace CoreError AgentClient
  dropping_on_error v t = dropping l.env v.id (connect_agent v t)

  -- The last part of `create`: the sandbox is ready once its agent has answered.
  finish : Uuid → SandboxConfig → VirtualMachine → Action Trace CoreError Sandbox
  unfolding connect_agent
  finish id c v = do
    client ← dropping_on_error v
    λ t. (
      ok (record {
        id = id;
        machine = v;
        client = client;
        config = c;
        state = ready;
        created_at = l.env.now t;
      }),
      t,
    )

  -- The identifier is drawn first.
  create_as : Uuid → SandboxConfig → Action Trace CoreError Sandbox
  unfolding ensure_vsock_dir create_machine_in finish
  create_as id c = do
    ensure_vsock_dir l.env
        (parent (for_vm c.vsock_cid c.chroot_path (l.env.uuid_string id)).uds_path)
    v ← create_machine_in l.env id c
    finish id c v

  -- `Sandbox::create`.
  unfoldable pub create : SandboxConfig → Action Trace CoreError Sandbox
  unfolding create_as
  create c t = create_as (l.env.new_uuid t) c t

  -- `Sandbox::destroy`: an error of the VM would leave the directory, and an error of the removal is
  -- logged.
  unfoldable pub destroy : Sandbox → Action Trace CoreError (Unit {0})
  destroy s t =
      let (r, t') = destroy_vm l.env s.machine t in
      elim r [
        | ok _ ↦ (ok tt, remove_dir l.env (sandbox_dir l.env s.id s.config) t')
        | err x ↦ (err (vm x), t')
      ]

abbrev is_ready : SandboxState → Bool
is_ready ready = true
is_ready _ = false

-- `Sandbox::ensure_ready`.
unfoldable pub ensure_ready : Sandbox → Result CoreError (Unit {0})
unfolding state_text
ensure_ready s =
    if is_ready s.state then ok tt else err (invalid_state (lit "Ready") (state_text s.state))

-- An operation on the sandbox's client, under `ensure_ready`.
abbrev pub SandboxMethod : Type 0 → Type 0
SandboxMethod R = Sandbox → Trace → Result CoreError R × Sandbox × Trace

with_client : {R : Type 0} → ClientMethod R → SandboxMethod R
with_client m s t = let (r, c, t') = m s.client t in (r, record s { client = c }, t')

unfoldable pub when_ready : {R : Type 0} → ClientMethod R → SandboxMethod R
unfolding ensure_ready with_client
when_ready m s t = elim (ensure_ready s) [ ok _ ↦ with_client m s t | err x ↦ (err x, s, t) ]

module _ (l : Libraries) where
  unfoldable pub execute : Str → SandboxMethod ExecResult
  execute cmd = when_ready (Methods.exec l.serde l.decoders l.env cmd)

  unfoldable pub execute_code : Str → Str → SandboxMethod ExecResult
  execute_code lang code = when_ready (Methods.exec_code l.serde l.decoders l.env lang code)

  unfoldable pub read_file : Str → SandboxMethod Str
  read_file path = when_ready (Methods.read_file l.serde l.decoders l.env path)

  unfoldable pub write_file : Str → Str → SandboxMethod (Unit {0})
  write_file path content = when_ready (Methods.write_file l.serde l.decoders l.env path content)

  unfoldable pub list_dir : Str → SandboxMethod (List FileEntry)
  list_dir path = when_ready (Methods.list_dir l.serde l.decoders l.env path)

  health : Result CoreError (Unit {0}) × AgentClient × Trace → Sandbox → Bool × Sandbox × Trace
  health (r, c, t) s = (is_ok r, record s { client = c }, t)

  -- `Sandbox::is_healthy`. The host says whether another task holds the client's lock.
  unfoldable pub is_healthy : Sandbox → Trace → Bool × Sandbox × Trace
  unfolding health
  is_healthy s t =
      if is_ready s.state
      then if l.env.client_busy t s.id
        then (true, s, t)
        else health (Methods.ping l.serde l.decoders l.env s.client t) s
      else (false, s, t)
