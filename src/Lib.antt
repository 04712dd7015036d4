-- ===== src/Lib.antt =====
-- Neuromesh: the enforcement of path denials and identity exceptions by the eBPF sensor.
--
-- The agent (apps/agent-ebpf-sensor) loads an LSM program (apps/agent-ebpf-sensor/ebpf) that denies
-- executions below a list of path prefixes. Three parts of user space write the maps that it reads:
-- the deny list writer, the policy sync, which takes a signed bundle from the policy engine, and the
-- identity correlator, which allows the cgroups of pods whose identity is on the engine's allowlist.
--
-- Which file models which part:
--   DenyEntry       packages/neuromesh-common/src/lib.rs: the entry that user space and the kernel
--                   program share (from_prefix, matches, widen)
--   ExecRecord      packages/neuromesh-common/src/lib.rs: the record of an execution
--   Lsm             apps/agent-ebpf-sensor/ebpf/src/main.rs: Maps (the BPF maps, and a call's data),
--                   Match (is_blacklisted_path, path_starts_with, identity_exception_allows), Emit (the
--                   record of a denial), Hook (nm_lsm_bprm); Scan, Decision and Telemetry prove
--   PathDeny        apps/agent-ebpf-sensor/src/path_deny.rs: apply_deny_entries, bootstrap_deny_maps;
--                   Apply, Refresh, Armed, Bootstrap and Enforced prove, the last against
--                   the kernel program
--   PinAbi          apps/agent-ebpf-sensor/src/pin_abi.rs: Disk (PinAbiIo over a model of the pin
--                   directory), Names, Staging, Prepare (assess_pin_abi, prepare_pin_root_for_load);
--                   Changes and Selection hold the laws, Phases to Boots follow an interrupted
--                   migration, States to Safe what the loader meets
--   LsmPin          apps/agent-ebpf-sensor/src/lsm_pin.rs: classify_enforcement_pins, the seed plan, and
--                   the handoff of the link in attach_and_pin_lsm_fail_closed
--   LsmDecision     apps/agent-ebpf-sensor/src/lsm_decision.rs: the mirror of the hook
--   IdentityAllow   apps/agent-ebpf-sensor/src/identity_allow.rs: the bundle's identity section and the
--                   two exception maps
--   PolicySync      apps/agent-ebpf-sensor/src/policy_sync.rs: fetch, verify, apply, and a tick of the
--                   loop; the state is World, what a round meets is Round
--   SideTable       apps/agent-ebpf-sensor/src/identity_correlator/side_table.rs and invalidate.rs
--   Correlator      apps/agent-ebpf-sensor/src/identity_correlator/mod.rs, reconcile.rs and the small
--                   modules beside them: the handlers, as functions of State, and sequences of events,
--                   in each of which the kernel may answer otherwise; Handlers and Events prove;
--                   Seeds, Seeded and Start are the seeds by hand of startup.rs
--   CgroupPath      apps/agent-ebpf-sensor/src/identity_correlator/path_parse.rs: parse_cgroup_path;
--                   Kubelet has the names of the kubelet's directories, Cgroupfs, Systemd and Roundtrip
--                   prove for its two drivers
--   Teardown        apps/agent-ebpf-sensor/src/identity_correlator/teardown_watch.rs: the watcher's
--                   tables and the drain of events; Worker is inotify_worker_loop of mod.rs. Tables
--                   and Watching hold the laws of the tables, Operations and Rearm the effect of the
--                   commands, Reports and Drained that of events, Loop that of rounds
--   Prelude, Bytes, Text, HashTable
--                   tests and lists over the native numbers, results, byte strings, characters,
--                   and hash maps as association lists
--   Tests           the theorems at concrete inputs
--
-- Stateful code is a function from the state to the new state and a result; a failure keeps what was
-- written before it. A function of the kernel program that indexes an array is in Option, where none
-- is a panic. Rust's loops with a literal bound (32 compares, 64 slots) are recursion on the rounds
-- left, with exactly that bound, and so is the search for a free staging name (1025 names), so no
-- fuel is chosen; all others are recursion on a list.
-- Casts to u32 and 64-bit pointer sums keep their wrap-around. A SystemTime is the nanoseconds since
-- the earliest one, and checked_add ends where the 64-bit seconds end.
--
-- Parameters: the kernel's helpers in a call of the hook, which map updates the kernel accepts, the
-- HTTP reply, the JSON and RFC 3339 readers, the Cosign signature check, the cgroup file system, what
-- the kernel tells of a pinned map, which changes of the pin directory go through, and inotify's
-- descriptors and events. The watcher's paths are lists of components, as Rust compares paths; the
-- side table compares paths as bytes.
--
-- Not modelled: BTF offsets, bytecode attestation, the startup sequence but for the manual seeds, the
-- monitoring and ingestion pipeline, observability, and the programs in C, Go, TypeScript and Python.
pub mod Prelude
pub mod Bytes
pub mod HashTable
pub mod DenyEntry
pub mod ExecRecord
pub mod Lsm
pub mod PathDeny
pub mod PinAbi
pub mod LsmDecision
pub mod LsmPin
pub mod SideTable
pub mod Text
pub mod IdentityAllow
pub mod PolicySync
pub mod CgroupPath
pub mod Correlator
pub mod Teardown
pub mod Tests
