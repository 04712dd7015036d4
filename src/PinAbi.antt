-- ===== src/PinAbi.antt =====
-- apps/agent-ebpf-sensor/src/pin_abi.rs: which pinned maps an agent finds when it starts, and how it
-- moves a deny list of the old layout aside before the maps of the new layout are loaded.
pub mod Disk
pub mod Names
pub mod Staging
pub mod Prepare
pub mod Changes
pub mod Selection
pub mod Layouts
pub mod ProcessMaps
pub mod Apart
pub mod Phases
pub mod Resume
pub mod Recovery
pub mod Assess
pub mod Boots
pub mod States
pub mod Reused
pub mod Freed
pub mod Safe
