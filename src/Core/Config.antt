-- ===== src/Core/Config.antt =====
-- crates/bouvet-core/src/config.rs: the configuration of a sandbox, its builder and its validation.
pub mod Valid
use petty.Shared.{ℕ, Bool, Option, none, some, leb, ltb, ◌==◌, if◌then◌else◌, []}
use petty.Shared.Result.{Result, ok, err, and_then}
use petty.Text.{lit}
use petty.Text.FilePath.{FilePath, path_from, is_empty}
use petty.Core.Error.{CoreError, connection}

pub record SandboxConfig : Type 0 where
  pub kernel_path : FilePath
  pub rootfs_path : FilePath
  pub chroot_path : FilePath
  pub memory_mib : ℕ  -- u32
  pub vcpu_count : ℕ  -- u8
  pub timeout : Option ℕ
  pub vsock_cid : ℕ  -- u32

abbrev pub default_config : SandboxConfig
default_config = record {
  kernel_path = path_from [];
  rootfs_path = path_from [];
  chroot_path = path_from (lit "/tmp/bouvet");
  memory_mib = 256;
  vcpu_count = 2;
  timeout = none;
  vsock_cid = 3;
}

-- `SandboxConfig::validate`.
unfoldable pub validate : SandboxConfig → Result CoreError (Unit {0})
validate c =
    if is_empty c.kernel_path
    then err (connection (lit "kernel_path is required"))
    else if is_empty c.rootfs_path
    then err (connection (lit "rootfs_path is required"))
    else if c.memory_mib == 0
    then err (connection (lit "memory_mib must be > 0"))
    else if c.vcpu_count == 0
    then err (connection (lit "vcpu_count must be > 0"))
    else if ltb c.vsock_cid 3
    then err (connection (lit "vsock_cid must be >= 3"))
    else ok tt

pub record SandboxConfigBuilder : Type 0 where
  pub config : SandboxConfig

abbrev pub builder : SandboxConfigBuilder
builder = record { config = default_config }

module _ (b : SandboxConfigBuilder) where
  abbrev pub kernel : FilePath → SandboxConfigBuilder
  kernel path = record { config = record (b.config) { kernel_path = path } }

  abbrev pub rootfs : FilePath → SandboxConfigBuilder
  rootfs path = record { config = record (b.config) { rootfs_path = path } }

  abbrev pub memory_mib : ℕ → SandboxConfigBuilder
  memory_mib mib = record { config = record (b.config) { memory_mib = mib } }

  abbrev pub vcpu_count : ℕ → SandboxConfigBuilder
  vcpu_count count = record { config = record (b.config) { vcpu_count = count } }

  abbrev pub timeout : ℕ → SandboxConfigBuilder
  timeout time = record { config = record (b.config) { timeout = some time } }

  abbrev pub vsock_cid : ℕ → SandboxConfigBuilder
  vsock_cid cid = record { config = record (b.config) { vsock_cid = cid } }

  abbrev pub chroot_path : FilePath → SandboxConfigBuilder
  chroot_path path = record { config = record (b.config) { chroot_path = path } }

  -- `SandboxConfigBuilder::build`.
  unfoldable pub build : Result CoreError SandboxConfig
  unfolding validate
  build = and_then (validate b.config) λ _. ok b.config
