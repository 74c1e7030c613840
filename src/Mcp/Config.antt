-- ===== src/Mcp/Config.antt =====
-- crates/bouvet-mcp/src/config.rs: the server's configuration, from the environment.
pub mod Paths
use petty.Shared.{
  ℕ, Bool, true, false, not, ◌&&◌, ◌||◌, List, Option, none, some, ◌≡◌, refl, map, if◌then◌else◌,
}
use petty.Shared.Result.{Result, ok, err}
use petty.Text.{Str, lit, eq_str, lower}
use petty.Text.Decimal.{parse_unsigned, u16_max, usize_max}
use petty.Text.FilePath.{FilePath, path_from, parent}
use petty.Text.IpAddr.{IpAddr, v4, parse_ip}

abbrev pub max_input_size_bytes : ℕ
max_input_size_bytes = 10485760

abbrev pub max_command_length : ℕ
max_command_length = 1048576

pub data TransportMode : Type 0 where
  stdio http both : TransportMode

-- `TransportMode::parse`.
parse_lower : Str → TransportMode
parse_lower s =
    if eq_str s (lit "stdio")
    then stdio
    else if eq_str s (lit "http") || eq_str s (lit "sse") || eq_str s (lit "remote")
    then http
    else both

unfoldable pub parse_mode : Str → TransportMode
unfolding parse_lower
parse_mode s = parse_lower (map lower s)

abbrev pub stdio_enabled : TransportMode → Bool
stdio_enabled http = false
stdio_enabled stdio = true
stdio_enabled both = true

abbrev pub http_enabled : TransportMode → Bool
http_enabled stdio = false
http_enabled http = true
http_enabled both = true

pub record SocketAddr : Type 0 where
  pub ip : IpAddr
  pub port : ℕ  -- u16

pub record BouvetConfig : Type 0 where
  pub kernel_path : FilePath
  pub rootfs_path : FilePath
  pub firecracker_path : FilePath
  pub chroot_path : FilePath
  pub pool_enabled : Bool
  pub pool_min_size : ℕ
  pub pool_max_boots : ℕ
  pub transport_mode : TransportMode
  pub http_addr : SocketAddr

pub data ConfigError : Type 0 where
  missing_kernel missing_rootfs missing_firecracker invalid_chroot : FilePath → ConfigError

unfoldable pub default_bouvet : BouvetConfig
default_bouvet = record {
  kernel_path = path_from (lit "/var/lib/bouvet/vmlinux");
  rootfs_path = path_from (lit "/var/lib/bouvet/debian-devbox.ext4");
  firecracker_path = path_from (lit "/usr/local/bin/firecracker");
  chroot_path = path_from (lit "/tmp/bouvet");
  pool_enabled = true;
  pool_min_size = 3;
  pool_max_boots = 2;
  transport_mode = both;
  http_addr = record { ip = v4 0 0 0 0; port = 8080 };
}

-- `std::env::var(..)`, where a variable that is missing or no Unicode is an error.
abbrev pub Environment : Type 0
Environment = Str → Option Str

-- `.map(f).unwrap_or(default)`, and `.ok().and_then(f).unwrap_or(default)`.
abbrev pub map_or : {A : Type 0} → A → (Str → A) → Option Str → A
map_or default f none = default
map_or default f (some v) = f v

abbrev unwrap_or : {A : Type 0} → A → Option A → A
unwrap_or default none = default
unwrap_or default (some a) = a

abbrev pub parsed_or : {A : Type 0} → A → (Str → Option A) → Option Str → A
parsed_or default f none = default
parsed_or default f (some v) = unwrap_or default (f v)

-- `BouvetConfig::from_env`.
unfoldable pub from_env : Environment → BouvetConfig
unfolding default_bouvet
from_env var = record {
  kernel_path = map_or default_bouvet.kernel_path path_from (var (lit "BOUVET_KERNEL"));
  rootfs_path = map_or default_bouvet.rootfs_path path_from (var (lit "BOUVET_ROOTFS"));
  firecracker_path =
      map_or default_bouvet.firecracker_path path_from (var (lit "BOUVET_FIRECRACKER"));
  chroot_path = map_or default_bouvet.chroot_path path_from (var (lit "BOUVET_CHROOT"));
  pool_enabled =
      map_or default_bouvet.pool_enabled
        (λ v. not (eq_str v (lit "false")) && not (eq_str v (lit "0")))
        (var (lit "BOUVET_POOL_ENABLED"));
  pool_min_size =
      parsed_or default_bouvet.pool_min_size (parse_unsigned usize_max)
        (var (lit "BOUVET_POOL_MIN_SIZE"));
  pool_max_boots =
      parsed_or default_bouvet.pool_max_boots (parse_unsigned usize_max)
        (var (lit "BOUVET_POOL_MAX_BOOTS"));
  transport_mode = map_or default_bouvet.transport_mode parse_mode (var (lit "BOUVET_TRANSPORT"));
  http_addr = record {
    ip = parsed_or (v4 0 0 0 0) parse_ip (var (lit "BOUVET_HTTP_HOST"));
    port = parsed_or 8080 (parse_unsigned u16_max) (var (lit "BOUVET_HTTP_PORT"));
  };
}

check_chroot : (FilePath → Bool) → FilePath → Option FilePath → Result ConfigError (Unit {0})
check_chroot exists chroot none = ok tt
check_chroot exists chroot (some dir) = if exists dir then ok tt else err (invalid_chroot chroot)

-- `BouvetConfig::validate`, by what exists.
unfoldable pub validate : (FilePath → Bool) → BouvetConfig → Result ConfigError (Unit {0})
unfolding check_chroot
validate exists c =
    if not (exists c.kernel_path)
    then err (missing_kernel c.kernel_path)
    else if not (exists c.rootfs_path)
    then err (missing_rootfs c.rootfs_path)
    else if not (exists c.firecracker_path)
    then err (missing_firecracker c.firecracker_path)
    else check_chroot exists c.chroot_path (parent c.chroot_path)
