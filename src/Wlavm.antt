-- ===== src/Wlavm.antt =====
-- Package wlavm: what the agent does when libvirt prepares, starts and stops a VM.
pub mod Volume
pub mod Image
pub mod QemuImg
pub mod Prepare
pub mod Start
pub mod Stop
