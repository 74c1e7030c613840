-- ===== src/Core/Config/Valid.antt =====
-- What `SandboxConfig::validate` accepts.
use petty.Shared.{◌≤◌, ◌≡◌, ◌↔◌, false, arith}
use petty.Shared.Result.{ok}
use petty.Text.FilePath.{is_empty}
use petty.Core.Config.{SandboxConfig, SandboxConfigBuilder, validate, build}

-- Both paths are there, and the numbers are not too small.
pub record IsValid (c : SandboxConfig) : Type 0 where
  pub kernel : is_empty c.kernel_path ≡ false
  pub rootfs : is_empty c.rootfs_path ≡ false
  pub memory : 1 ≤ c.memory_mib
  pub vcpus : 1 ≤ c.vcpu_count
  pub cid : 3 ≤ c.vsock_cid

validate→ : (c : SandboxConfig) → validate c ≡ ok tt → IsValid c
unfolding validate
validate→ c h = ground arith

validate← : (c : SandboxConfig) → IsValid c → validate c ≡ ok tt
unfolding validate
validate← c v = ground arith

pub validate_iff : (c : SandboxConfig) → (validate c ≡ ok tt) ↔ IsValid c
validate_iff c = (validate→ c, validate← c)

-- The builder gives a configuration exactly when the one that it holds is valid, and then that one.
pub build_iff :
    (b : SandboxConfigBuilder) (c : SandboxConfig) → (build b ≡ ok c) ↔ (IsValid c × (b.config ≡ c))
unfolding build
build_iff b c = (
  λ h. (ground (arith, (validate_iff b.config).0), ground arith),
  λ h. ground (arith, (validate_iff c).1 h.0),
)
