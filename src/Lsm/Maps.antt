-- ===== src/Lsm/Maps.antt =====
-- apps/agent-ebpf-sensor/ebpf/src/main.rs: the BPF maps of the LSM program as a record of lists, and
-- what the kernel's helpers return in one call of the hook, which is a parameter of the model.
use neuromesh.Prelude.{ℕ, ◌+◌, ◌%◌, ◌^◌, Bool, List}
use neuromesh.Prelude.Int.{ℤ, pos, negsuc}
use neuromesh.Prelude.Result.{Result}
use neuromesh.Bytes.{Bytes, codes}
use neuromesh.DenyEntry.{PathDenyEntry}
use neuromesh.ExecRecord.{ExecEvent}

abbrev pub lsm_allow : ℤ
lsm_allow = pos 0

abbrev pub lsm_deny : ℤ
lsm_deny = negsuc 0

abbrev pub identity_exception_scope_prefix : Bytes
identity_exception_scope_prefix = codes "/tmp/"

abbrev pub identity_allow_value : ℕ
identity_allow_value = 1

abbrev pub identity_exceptions_valid_fresh : ℕ
identity_exceptions_valid_fresh = 1

pub record TelemetryHealthStats : Type 0 where
  pub events_processed : ℕ
  pub lost_events_count : ℕ

-- The maps of the program. `telem_ringbuf` holds the submitted records, oldest first.
pub record Maps : Type 0 where
  pub path_deny_list : List PathDenyEntry
  pub path_deny_count : List ℕ
  pub id_allow_cgroup : List (ℕ × ℕ)
  pub id_except_valid : List ℕ
  pub telemetry_stats : List TelemetryHealthStats
  pub telem_ringbuf : List ExecEvent

-- Kernel memory as `bpf_probe_read_kernel` and `bpf_probe_read_kernel_str_bytes` show it.
pub record Memory : Type 0 where
  pub read_ptr : ℕ → Result ℤ ℕ
  pub read_window : ℕ → Result ℤ Bytes
  pub read_u32 : ℕ → Result ℤ ℕ
  pub read_str : ℕ → Result ℤ Bytes

-- The statics that the loader patches.
pub record Offsets : Type 0 where
  pub bprm_filename_offset : ℕ
  pub task_real_parent_offset : ℕ
  pub task_tgid_offset : ℕ

-- One call of the hook: its argument and the helpers' results. Memory is read again for the
-- telemetry, when it may have changed.
pub record Call : Type 0 where
  pub bprm : ℕ
  pub memory : Memory
  pub later_memory : Memory
  pub task : ℕ
  pub pid_tgid : ℕ
  pub uid_gid : ℕ
  pub cgroup_id : ℕ
  pub comm : Result ℤ Bytes
  pub ktime_ns : ℕ
  pub can_reserve : Bool

-- `ptr.add(offset)` on 64-bit pointers.
abbrev pub ptr_add : ℕ → ℕ → ℕ
ptr_add p offset = (p + offset) % 2 ^ 64
