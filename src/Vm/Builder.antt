-- ===== src/Vm/Builder.antt =====
-- crates/bouvet-vm/src/builder.rs: `VmBuilder`, whose setters each replace a part of the
-- configuration that they build.
use petty.Shared.{ℕ, [], ◌∷◌, ◌++◌, some, true, false}
use petty.Text.{Str}
use petty.Text.FilePath.{FilePath}
use petty.Vm.Config.{
  DriveConfig, NetworkConfig, VsockConfig, MachineConfig, default_machine, default_network,
  default_vsock,
}

pub record VmBuilder : Type 0 where
  pub config : MachineConfig

abbrev pub new : VmBuilder
new = record { config = default_machine }

module _ (b : VmBuilder) where
  abbrev pub vcpus : ℕ → VmBuilder
  vcpus count = record { config = record (b.config) { vcpu_count = count } }

  abbrev pub memory_mib : ℕ → VmBuilder
  memory_mib mib = record { config = record (b.config) { memory_mib = mib } }

  abbrev pub kernel : FilePath → VmBuilder
  kernel path = record { config = record (b.config) { kernel_path = path } }

  abbrev pub boot_args : Str → VmBuilder
  boot_args args = record { config = record (b.config) { boot_args = args } }

  abbrev pub rootfs : FilePath → VmBuilder
  rootfs path = record {
    config = record (b.config) {
      root_drive = record (b.config.root_drive) { path_on_host = path };
    };
  }

  abbrev pub rootfs_read_only : VmBuilder
  rootfs_read_only = record {
    config = record (b.config) {
      root_drive = record (b.config.root_drive) { is_read_only = true };
    };
  }

  abbrev extra_drive : Str → FilePath → DriveConfig
  extra_drive drive_id path = record {
    drive_id = drive_id;
    path_on_host = path;
    is_root_device = false;
    is_read_only = false;
  }

  abbrev pub with_drive : Str → FilePath → VmBuilder
  with_drive drive_id path = record {
    config = record (b.config) {
      extra_drives = b.config.extra_drives ++ extra_drive drive_id path ∷ [];
    };
  }

  abbrev pub with_network : Str → VmBuilder
  with_network host_dev = record {
    config = record (b.config) {
      network = some (record default_network { host_dev_name = host_dev });
    };
  }

  abbrev pub with_network_config : NetworkConfig → VmBuilder
  with_network_config c = record { config = record (b.config) { network = some c } }

  abbrev pub with_vsock : ℕ → VmBuilder
  with_vsock cid = record {
    config = record (b.config) { vsock = some (record default_vsock { guest_cid = cid }) };
  }

  abbrev pub with_vsock_config : VsockConfig → VmBuilder
  with_vsock_config c = record { config = record (b.config) { vsock = some c } }

  abbrev pub firecracker_path : FilePath → VmBuilder
  firecracker_path path = record { config = record (b.config) { firecracker_path = path } }

  abbrev pub chroot_path : FilePath → VmBuilder
  chroot_path path = record { config = record (b.config) { chroot_path = path } }

  abbrev pub build_config : MachineConfig
  build_config = b.config
