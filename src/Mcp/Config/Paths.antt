-- ===== src/Mcp/Config/Paths.antt =====
-- What the environment gives, and what `validate` accepts.
use petty.Shared.{ℕ, ◌≤◌, ◌≡◌, refl, ap, ◌↔◌, Bool, true, Option, none, some, arith, ◌∙◌}
use petty.Shared.Result.{ok}
use petty.Text.{lit}
use petty.Text.Decimal.{parse_unsigned, parse_unsigned-decimal, decimal, u16_max, usize_max}
use petty.Text.FilePath.{FilePath, parent}
use petty.Mcp.Config.{BouvetConfig, Environment, from_env, validate, check_chroot, parsed_or}

-- The chroot's parent is there, where the chroot has one.
abbrev ParentExists : (FilePath → Bool) → Option FilePath → Type 0
ParentExists exists none = Unit
ParentExists exists (some dir) = exists dir ≡ true

-- The three files and the parent of the chroot directory are there.
pub record AllExist (exists : FilePath → Bool) (c : BouvetConfig) : Type 0 where
  pub kernel : exists c.kernel_path ≡ true
  pub rootfs : exists c.rootfs_path ≡ true
  pub firecracker : exists c.firecracker_path ≡ true
  pub chroot : ParentExists exists (parent c.chroot_path)

check_chroot_iff :
    (exists : FilePath → Bool) (chroot : FilePath) (o : Option FilePath)
    → (check_chroot exists chroot o ≡ ok tt) ↔ ParentExists exists o
unfolding check_chroot
check_chroot_iff exists chroot none = (λ _. tt, λ _. refl)
check_chroot_iff exists chroot (some dir) = (λ h. ground arith, λ h. ground arith)

validate-AllExist :
    (exists : FilePath → Bool) (c : BouvetConfig) → validate exists c ≡ ok tt → AllExist exists c
unfolding validate
validate-AllExist exists c h = record {
  kernel = ground arith;
  rootfs = ground arith;
  firecracker = ground arith;
  chroot = (check_chroot_iff exists c.chroot_path (parent c.chroot_path)).0 (ground arith);
}

-- `validate` accepts a configuration exactly where its kernel, its root file system, its Firecracker
-- and the parent of its chroot directory, if it has one, exist.
pub validate-iff-AllExist :
    (exists : FilePath → Bool) (c : BouvetConfig) → (validate exists c ≡ ok tt) ↔ AllExist exists c
unfolding validate
validate-iff-AllExist exists c = (
  validate-AllExist exists c,
  λ v. ground (
    arith,
    v.kernel,
    v.rootfs,
    v.firecracker,
    (check_chroot_iff exists c.chroot_path (parent c.chroot_path)).1 v.chroot,
  ),
)

parsed_or-decimal :
    (default max n : ℕ) → n ≤ max → parsed_or default (parse_unsigned max) (some (decimal n)) ≡ n
parsed_or-decimal default max n h = rw (parse_unsigned-decimal max n h) refl

-- The pool's numbers and the port are read back from their decimal text, up to the largest value of
-- their types.
pub from_env-decimal :
    (var : Environment) (min_size max_boots port : ℕ)
    → min_size ≤ usize_max
    → max_boots ≤ usize_max
    → port ≤ u16_max
    → var (lit "BOUVET_POOL_MIN_SIZE") ≡ some (decimal min_size)
    → var (lit "BOUVET_POOL_MAX_BOOTS") ≡ some (decimal max_boots)
    → var (lit "BOUVET_HTTP_PORT") ≡ some (decimal port)
    → ((from_env var).pool_min_size ≡ min_size)
      × ((from_env var).pool_max_boots ≡ max_boots)
      × ((from_env var).http_addr.port ≡ port)
unfolding from_env
from_env-decimal var min_size max_boots port a b c x y z = (
  ap (parsed_or 3 (parse_unsigned usize_max)) x ∙ parsed_or-decimal 3 usize_max min_size a,
  ap (parsed_or 2 (parse_unsigned usize_max)) y ∙ parsed_or-decimal 2 usize_max max_boots b,
  ap (parsed_or 8080 (parse_unsigned u16_max)) z ∙ parsed_or-decimal 8080 u16_max port c,
)
