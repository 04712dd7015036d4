-- ===== src/ExecRecord.antt =====
-- packages/neuromesh-common/src/lib.rs: `ExecEvent`, the record that the kernel programs submit,
-- with its constants and header checks. Array fields are lists; a value of the program keeps their
-- lengths, which `HasLayout` states.
use Prim.Native.Nat.{bit_and}
use neuromesh.Prelude.{ℕ, ◌^◌, ◌≡◌, Bool, not, ◌&&◌, ◌==◌, length, replicate}
use neuromesh.Bytes.{Bytes, codes}

abbrev pub max_filename_len : ℕ
max_filename_len = 256

abbrev pub max_comm_len : ℕ
max_comm_len = 16

abbrev pub max_container_id_len : ℕ
max_container_id_len = 64

abbrev pub max_argv_len : ℕ
max_argv_len = 256

abbrev pub max_env_len : ℕ
max_env_len = 256

abbrev pub exec_event_schema_version : ℕ
exec_event_schema_version = 3

abbrev pub exec_event_type_execve : ℕ
exec_event_type_execve = 1

abbrev pub exec_event_struct_size : ℕ
exec_event_struct_size = 932

abbrev pub enforcement_allowed : ℕ
enforcement_allowed = 0

abbrev pub enforcement_blocked : ℕ
enforcement_blocked = 1

abbrev pub capture_ppid : ℕ
capture_ppid = 2 ^ 1

abbrev pub capture_euid : ℕ
capture_euid = 2 ^ 4

abbrev pub capture_comm : ℕ
capture_comm = 2 ^ 6

abbrev pub capture_filename : ℕ
capture_filename = 2 ^ 7

abbrev pub capture_container_id : ℕ
capture_container_id = 2 ^ 9

abbrev pub capture_namespace_id : ℕ
capture_namespace_id = 2 ^ 10

abbrev pub unknown_sentinel : Bytes
unknown_sentinel = codes "UNKNOWN"

pub record ExecEvent : Type 0 where
  pub schema_version : ℕ
  pub event_type : ℕ
  pub flags : ℕ
  pub struct_size : ℕ
  pub pid : ℕ
  pub ppid : ℕ
  pub tgid : ℕ
  pub uid : ℕ
  pub euid : ℕ
  pub gid : ℕ
  pub comm : Bytes
  pub filename : Bytes
  pub args_count : ℕ
  pub argv_len : ℕ
  pub argv_trunc_mask : ℕ
  pub argv_flags : ℕ
  pub argv : Bytes
  pub env_len : ℕ
  pub env_trunc_mask : ℕ
  pub env_flags : ℕ
  pub env_ptr_count : ℕ
  pub env : Bytes
  pub container_id : Bytes
  pub namespace_id : ℕ
  pub timestamp_ns : ℕ
  pub enforcement_action : ℕ
  pub capture_status : ℕ

-- `ExecEvent::default()`; the reserved and padding fields are left out.
abbrev pub default_event : ExecEvent
default_event = record {
  schema_version = exec_event_schema_version;
  event_type = exec_event_type_execve;
  flags = 0;
  struct_size = exec_event_struct_size;
  pid = 0;
  ppid = 0;
  tgid = 0;
  uid = 0;
  euid = 0;
  gid = 0;
  comm = replicate max_comm_len 0;
  filename = replicate max_filename_len 0;
  args_count = 0;
  argv_len = 0;
  argv_trunc_mask = 0;
  argv_flags = 0;
  argv = replicate max_argv_len 0;
  env_len = 0;
  env_trunc_mask = 0;
  env_flags = 0;
  env_ptr_count = 0;
  env = replicate max_env_len 0;
  container_id = replicate max_container_id_len 0;
  namespace_id = 0;
  timestamp_ns = 0;
  enforcement_action = enforcement_allowed;
  capture_status = 0;
}

unfoldable pub is_valid : ExecEvent → Bool
is_valid e =
    (e.schema_version == exec_event_schema_version)
    && (e.event_type == exec_event_type_execve)
    && (e.struct_size == exec_event_struct_size)

unfoldable pub field_unknown : ExecEvent → ℕ → Bool
field_unknown e field = not (bit_and e.capture_status field == 0)

pub record HasLayout (e : ExecEvent) : Type 0 where
  pub comm : length e.comm ≡ max_comm_len
  pub filename : length e.filename ≡ max_filename_len
  pub argv : length e.argv ≡ max_argv_len
  pub env : length e.env ≡ max_env_len
  pub container_id : length e.container_id ≡ max_container_id_len
