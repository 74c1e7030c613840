-- ===== src/Vm.antt =====
-- crates/bouvet-vm: the library over Firecracker.
pub mod Error
pub mod Config
pub mod Builder
pub mod Api
pub mod Machine
