-- ===== src/Lsm/Emit.antt =====
-- apps/agent-ebpf-sensor/ebpf/src/main.rs: reading the path, and the record of a blocked execution.
use Prim.Native.Nat.{bit_or}
use neuromesh.Prelude.{
  ℕ, ◌+◌, ◌-◌, ◌/◌, ◌%◌, ◌^◌, min, none, some, [], ◌∷◌, ◌++◌, ltb, ◌==◌, if◌then◌else◌, length,
  get_elem?, set, take, replicate, copy_prefix,
}
use neuromesh.Prelude.Int.{ℤ}
use neuromesh.Prelude.Result.{Result, ok, err, ◌>>=◌}
use neuromesh.Bytes.{Bytes}
use neuromesh.ExecRecord.{
  ExecEvent, default_event, enforcement_blocked, exec_event_schema_version, max_comm_len,
  max_filename_len, unknown_sentinel, capture_ppid, capture_euid, capture_comm, capture_filename,
  capture_container_id, capture_namespace_id,
}
use neuromesh.Lsm.Maps.{Maps, Memory, Offsets, Call, ptr_add}

-- The new bytes of a field and the new `capture_status`.
unfoldable pub mark_unknown : Bytes → ℕ → ℕ → Bytes × ℕ
mark_unknown bytes status bit = (
  copy_prefix bytes (take (min (length unknown_sentinel) (length bytes)) unknown_sentinel),
  bit_or status bit,
)

unfoldable pub init_exec_event : ℕ → ExecEvent
init_exec_event action = record default_event { schema_version = 0; enforcement_action = action }

-- `stats.field.saturating_add(1)` on a `u64`.
abbrev pub saturating_inc : ℕ → ℕ
saturating_inc n = if ltb n (2 ^ 64 - 1) then n + 1 else 2 ^ 64 - 1

-- Slot `TELEMETRY_STATS_INDEX`, which is 0.
unfoldable pub record_event_submitted : Maps → Maps
record_event_submitted m = elim (get_elem? m.telemetry_stats 0) [
  | none ↦ m
  | some s ↦ record m {
    telemetry_stats =
        set m.telemetry_stats 0 (record s { events_processed = saturating_inc s.events_processed });
  }
]

unfoldable pub record_event_lost : Maps → Maps
record_event_lost m = elim (get_elem? m.telemetry_stats 0) [
  | none ↦ m
  | some s ↦ record m {
    telemetry_stats =
        set m.telemetry_stats 0
          (record s { lost_events_count = saturating_inc s.lost_events_count });
  }
]

-- The name of the task, or the mark that it is unknown.
unfoldable pub comm_field : Call → Bytes → ℕ → Bytes × ℕ
comm_field call comm status = elim call.comm [
  | ok name ↦ (copy_prefix comm (take (min (length name) max_comm_len) name), status)
  | err _ ↦ mark_unknown comm status capture_comm
]

module _ (offsets : Offsets) where
  unfoldable pub read_bprm_filename_ptr : Memory → Call → Result ℤ ℕ
  read_bprm_filename_ptr mem call = mem.read_ptr (ptr_add call.bprm offsets.bprm_filename_offset)

  unfoldable pub read_bprm_path_prefix : Call → Result ℤ Bytes
  unfolding read_bprm_filename_ptr
  read_bprm_path_prefix call = do
    filename_ptr ← read_bprm_filename_ptr call.memory call
    call.memory.read_window filename_ptr

  -- The parent's id and the new `capture_status`.
  unfoldable pub read_ppid_best_effort : Call → ℕ → ℕ × ℕ
  read_ppid_best_effort call status =
      let fault : ℕ × ℕ = (0, bit_or status capture_ppid) in
      if call.task == 0
      then fault
      else elim (call.later_memory.read_ptr (ptr_add call.task offsets.task_real_parent_offset)) [
        | err _ ↦ fault
        | ok parent_ptr ↦
            if parent_ptr == 0
            then fault
            else elim (call.later_memory.read_u32 (ptr_add parent_ptr offsets.task_tgid_offset)) [
              | err _ ↦ fault
              | ok ppid ↦ (ppid, status)
            ]
      ]

  unfoldable pub populate_lineage : Call → ExecEvent → ExecEvent
  unfolding read_ppid_best_effort mark_unknown comm_field
  populate_lineage call e =
      let (container_id, status) =
        mark_unknown e.container_id (bit_or e.capture_status capture_euid) capture_container_id in
      let (ppid, status') = read_ppid_best_effort call status in
      let (comm, status'') = comm_field call e.comm status' in
      record e {
        pid = call.pid_tgid / 2 ^ 32 % 2 ^ 32;
        tgid = call.pid_tgid % 2 ^ 32;
        uid = call.uid_gid % 2 ^ 32;
        gid = call.uid_gid / 2 ^ 32 % 2 ^ 32;
        euid = call.uid_gid % 2 ^ 32;
        container_id = container_id;
        ppid = ppid;
        comm = comm;
        capture_status = status'';
      }

  -- The path of the blocked binary, or the mark that it is unknown.
  unfoldable pub filename_field : Call → ℕ → Bytes × ℕ
  filename_field call status =
      let zeros : Bytes = replicate max_filename_len 0 in
      elim (read_bprm_filename_ptr call.later_memory call) [
        | err _ ↦ mark_unknown zeros status capture_filename
        | ok filename_ptr ↦ elim (call.later_memory.read_str filename_ptr) [
          | err _ ↦ mark_unknown zeros status capture_filename
          | ok path ↦ (copy_prefix zeros (take max_filename_len path), status)
        ]
      ]

  -- The record that is submitted.
  unfoldable pub blocked_event : Call → ExecEvent
  unfolding init_exec_event populate_lineage filename_field read_bprm_filename_ptr
  blocked_event call =
      let e = populate_lineage call (init_exec_event enforcement_blocked) in
      let (filename, status) = filename_field call e.capture_status in
      record e {
        filename = filename;
        namespace_id = 0;
        capture_status = bit_or status capture_namespace_id;
        timestamp_ns = call.ktime_ns;
        schema_version = exec_event_schema_version;
      }

  unfoldable pub emit_blocked_exec_event : Call → Maps → Maps
  emit_blocked_exec_event call m =
      if call.can_reserve
      then record_event_submitted
          (record m { telem_ringbuf = m.telem_ringbuf ++ blocked_event call ∷ [] })
      else record_event_lost m
