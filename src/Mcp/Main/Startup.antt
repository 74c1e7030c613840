-- ===== src/Mcp/Main/Startup.antt =====
-- Where the start of the server panics.
use petty.Shared.{◌≡◌, refl, ◌↔◌, ◌⊎◌, true, none, arith}
use petty.Text.FilePath.{is_empty}
use petty.Core.Config.{build, validate}
use petty.Mcp.Config.{BouvetConfig, Environment, from_env}
use petty.Mcp.Server.{new}
use petty.Mcp.Main.{start_up}

-- The server's `new` panics.
new-none :
    (c : BouvetConfig)
    → (new c ≡ none) ↔ (
        (c.pool_enabled ≡ true)
        × ((is_empty c.kernel_path ≡ true) ⊎ (is_empty c.rootfs_path ≡ true)))
unfolding new build validate
new-none c = (λ h. ground arith, λ h. ground arith)

-- The server starts unless the pool is enabled and the environment gives an empty path of the kernel
-- or of the root file system; then the start panics.
start_up-none :
    (var : Environment)
    → let c = from_env var in
      (start_up var ≡ none) ↔ (
        (c.pool_enabled ≡ true)
        × ((is_empty c.kernel_path ≡ true) ⊎ (is_empty c.rootfs_path ≡ true)))
unfolding start_up
start_up-none var = (
  λ h. (new-none (from_env var)).0 (ground arith),
  λ h. rw ((new-none (from_env var)).1 h, start_up) refl,
)
