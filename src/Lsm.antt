-- ===== src/Lsm.antt =====
-- apps/agent-ebpf-sensor/ebpf/src/main.rs: the LSM program `nm_lsm_bprm`. `Maps` has its state and
-- the kernel's answers, `Match` the matching loops, `Emit` the telemetry and `Hook` the decision;
-- the other children prove what these do.
pub mod Maps
pub mod Match
pub mod Emit
pub mod Hook
pub mod Scan
pub mod Decision
pub mod Telemetry
