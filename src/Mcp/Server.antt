-- ===== src/Mcp/Server.antt =====
-- crates/bouvet-mcp/src/server.rs: the server and its tools. A tool runs with no other tool between its
-- steps.
pub mod Create
pub mod Handlers
pub mod Listed
pub mod Cases
pub mod Creation
pub mod Full
pub mod Listing
pub mod Sizes
pub mod Destroyed
use petty.Shared.{
  ℕ, ◌+◌, Bool, true, false, ◌&&◌, not, List, [], ◌∷◌, ◌++◌, map, Option, none, some, leb, ltb,
  length, take, if◌then◌else◌,
}
use petty.Shared.Result.{Result, ok, err}
use petty.Text.{Str, lit, eq_str}
use petty.Text.Decimal.{decimal}
use petty.Host.{Uuid, Trace, Env}
use petty.Agent.Exec.{is_char_boundary}
use petty.Core.Error.{CoreError, core_error_text}
use petty.Core.Config.{
  SandboxConfig, SandboxConfigBuilder, builder, kernel, rootfs, memory_mib, vcpu_count, build,
}
use petty.Core.Client.Methods.{ExecResult, FileEntry}
use petty.Core.Sandbox.{Sandbox, Libraries, state_text}
use petty.Core.Sandbox
use petty.Core.Manager.{SandboxManager, new_config, with_sandbox, ManagerMethod}
use petty.Core.Manager
use petty.Core.Pool.{
  PoolConfig, SandboxPool, default_pool, start, signal_shutdown, finish_shutdown, acquire,
}
use petty.Core.Pool
use petty.Mcp.Config.{BouvetConfig, max_input_size_bytes, max_command_length}
use petty.Mcp.Types.{
  CreateSandboxParams, default_params, SandboxInfo, ToolResult, created, destroyed, listed,
  executed, file_read, file_written, directory_listed, FileEntryResponse,
}
use petty.Mcp.Tools.{Tools, CallToolResult, success, error, Outcome, returned, panicked}

pub record Server : Type 0 where
  pub manager : SandboxManager
  pub config : BouvetConfig
  pub pool : Option SandboxPool

-- The template that the pool's sandboxes are made of.
abbrev pub pool_template : BouvetConfig → SandboxConfigBuilder
pool_template c = rootfs (kernel builder c.kernel_path) c.rootfs_path

abbrev pub pool_of : BouvetConfig → SandboxConfig → SandboxPool
pool_of c template = Pool.new (record default_pool {
  min_size = c.pool_min_size;
  max_concurrent_boots = c.pool_max_boots;
  sandbox_config = template;
})

abbrev pub server_with : BouvetConfig → Option SandboxPool → Server
server_with c pool = record {
  manager = Manager.new (new_config c.kernel_path c.rootfs_path c.firecracker_path c.chroot_path);
  config = c;
  pool = pool;
}

-- `BouvetServer::new`: nothing where the `expect` on the pool's template panics.
unfoldable pub new : BouvetConfig → Option Server
new c =
    if c.pool_enabled
    then elim (build (pool_template c)) [
      | ok template ↦ some (server_with c (some (pool_of c template)))
      | err e ↦ none
    ]
    else some (server_with c none)

-- `start_pool` and `shutdown_pool`.
abbrev pub with_pool : (SandboxPool → SandboxPool) → Server → Server
with_pool f s = record s { pool = elim (s.pool) [ none ↦ none | some p ↦ some (f p) ] }

unfoldable pub start_pool : Server → Server
start_pool s = with_pool start s

-- `truncate_for_log`: nothing where the slice panics.
unfoldable pub truncate_for_log : Str → ℕ → Option Str
unfolding is_char_boundary
truncate_for_log s max_len =
    if leb (length s) max_len
    then some s
    else if is_char_boundary s max_len
    then some (take max_len s ++ lit "... (" ++ decimal (length s) ++ lit " bytes total)")
    else none

unfoldable pub validate_size : Str → ℕ → Str → Result Str (Unit {0})
validate_size content max_bytes field_name =
    if ltb max_bytes (length content)
    then err (
        field_name
        ++ lit " exceeds maximum size ("
        ++ decimal (length content)
        ++ lit " bytes > "
        ++ decimal max_bytes
        ++ lit " bytes)")
    else ok tt

-- `args.map(from_value).transpose()`, of which only parameters that can be read are used.
unfoldable pub required {ℓ} : {A : Type ℓ} {P : Type 0} → (A → Result Str P) → Option A → Option P
required f none = none
required f (some a) = elim (f a) [ ok p ↦ some p | err e ↦ none ]

abbrev pub Tool : Type 0
Tool = Server → Trace → Outcome × Server × Trace

unfoldable pub refuse : Str → Tool
refuse message s t = (returned (error message), s, t)

module _ (l : Libraries) (r : Tools) where
  open r use {Arguments}

  -- `json_result` and `error_result`.
  unfoldable pub json_result : ToolResult → CallToolResult
  json_result data_ = elim (r.to_string_pretty data_) [
    | ok json ↦ success json
    | err e ↦ error (lit "JSON serialization error: " ++ e)
  ]

  abbrev pub error_text : CoreError → Str
  error_text e = core_error_text l.env.uuid_string e

  -- `parse_sandbox_id`.
  unfoldable pub parse_sandbox_id : Str → Result Str Uuid
  parse_sandbox_id id = elim (r.parse_uuid id) [
    | none ↦ err (lit "Sandbox not found or invalid ID")
    | some u ↦ ok u
  ]
