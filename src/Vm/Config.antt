-- ===== src/Vm/Config.antt =====
-- crates/bouvet-vm/src/config.rs: the configuration of a microVM and its validation.
pub mod Valid
use petty.Shared.{
  ℕ, Bool, true, false, ◌||◌, ◌++◌, List, [], ◌∷◌, Option, none, some, leb, ltb, ◌==◌,
  if◌then◌else◌,
}
use petty.Shared.Result.{Result, ok, err, and_then}
use petty.Text.{Str, lit, eq_str}
use petty.Text.Decimal.{decimal}
use petty.Text.FilePath.{FilePath, path_from, join}
use petty.Vm.Error.{VmError, config}

pub record DriveConfig : Type 0 where
  pub drive_id : Str
  pub path_on_host : FilePath
  pub is_root_device : Bool
  pub is_read_only : Bool

pub record NetworkConfig : Type 0 where
  pub iface_id : Str
  pub host_dev_name : Str
  pub guest_mac : Option Str

pub record VsockConfig : Type 0 where
  pub guest_cid : ℕ  -- u32
  pub uds_path : FilePath

pub record MachineConfig : Type 0 where
  pub vcpu_count : ℕ  -- u8
  pub memory_mib : ℕ  -- u32
  pub kernel_path : FilePath
  pub boot_args : Str
  pub root_drive : DriveConfig
  pub extra_drives : List DriveConfig
  pub network : Option NetworkConfig
  pub vsock : Option VsockConfig
  pub firecracker_path : FilePath
  pub chroot_path : FilePath

abbrev pub default_drive : DriveConfig
default_drive = record {
  drive_id = lit "rootfs";
  path_on_host = path_from (lit "/var/lib/bouvet/images/debian.ext4");
  is_root_device = true;
  is_read_only = false;
}

abbrev pub default_network : NetworkConfig
default_network = record { iface_id = lit "eth0"; host_dev_name = lit "tap0"; guest_mac = none }

abbrev pub default_vsock : VsockConfig
default_vsock = record { guest_cid = 3; uds_path = path_from (lit "/tmp/bouvet-vsock.sock") }

abbrev pub default_machine : MachineConfig
default_machine = record {
  vcpu_count = 2;
  memory_mib = 256;
  kernel_path = path_from (lit "/var/lib/bouvet/kernel/vmlinux");
  boot_args = lit "console=ttyS0 reboot=k panic=1 pci=off";
  root_drive = default_drive;
  extra_drives = [];
  network = none;
  vsock = none;
  firecracker_path = path_from (lit "/usr/local/bin/firecracker");
  chroot_path = path_from (lit "/tmp/bouvet");
}

-- `VsockConfig::for_vm`.
unfoldable pub for_vm : ℕ → FilePath → Str → VsockConfig
for_vm cid chroot_path vm_id = record {
  guest_cid = cid;
  uds_path = join (join chroot_path (path_from vm_id)) (path_from (lit "v.sock"));
}

-- `Vec::contains`.
pub contains : List Str → Str → Bool
contains [] s = false
contains (t ∷ ts) s = eq_str t s || contains ts s

-- The loop over the extra drives, with the drive ids seen so far.
pub check_drive_ids : List Str → List DriveConfig → Result VmError (Unit {0})
unfolding contains
check_drive_ids seen [] = ok tt
check_drive_ids seen (extra ∷ rest) =
    let checked = check_drive_ids (seen ++ extra.drive_id ∷ []) rest in
    if contains seen extra.drive_id
    then err (config (lit "duplicate drive_id: " ++ extra.drive_id))
    else checked

check_vsock : Option VsockConfig → Result VmError (Unit {0})
check_vsock none = ok tt
check_vsock (some v) =
    if leb v.guest_cid 2
    then err (config (lit "vsock guest_cid must be > 2, got " ++ decimal v.guest_cid))
    else ok tt

-- `MachineConfig::validate`.
unfoldable pub validate : MachineConfig → Result VmError (Unit {0})
unfolding check_vsock check_drive_ids
validate c =
    if c.vcpu_count == 0 || ltb 32 c.vcpu_count
    then err (config (lit "vcpu_count must be 1-32, got " ++ decimal c.vcpu_count))
    else if ltb c.memory_mib 128
    then err (config (lit "memory_mib must be at least 128, got " ++ decimal c.memory_mib))
    else if ltb 32768 c.memory_mib
    then err
        (config (lit "memory_mib must be at most 32768 (32 GiB), got " ++ decimal c.memory_mib))
    else and_then (check_vsock c.vsock)
        (λ _. check_drive_ids (c.root_drive.drive_id ∷ []) c.extra_drives)
