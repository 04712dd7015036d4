-- ===== src/Lsm/Telemetry.antt =====
-- What a denial leaves in the telemetry maps: one well-formed record, or one count of a lost one.
use Prim.Native.Nat.{bit_or}
use neuromesh.Prelude.{
  ℕ, ◌≤◌, ◌≡◌, refl, ◌∙◌, inl, inr, Bool-cases, All, true, false, some, List, [], ◌∷◌, ◌++◌, arith,
  min, length, get_elem?, set, take, drop, replicate, copy_prefix, if◌then◌else◌, length-append,
  length-drop, length-take,
}
use neuromesh.Prelude.Result.{ok, Result-cases}
use neuromesh.Bytes.{Bytes}
use neuromesh.ExecRecord.{
  ExecEvent, is_valid, HasLayout, enforcement_blocked, max_comm_len, max_filename_len,
  max_container_id_len, unknown_sentinel, capture_comm, capture_filename, capture_euid,
  capture_container_id,
}
use neuromesh.Lsm.Hook.{nm_lsm_bprm}
use neuromesh.Lsm.Scan.{IsFull}
use neuromesh.Lsm.Decision.{run_read, decide-cases}
use neuromesh.Lsm.Maps.{lsm_deny, Maps, Offsets, Call, TelemetryHealthStats}
use neuromesh.Lsm.Emit.{
  mark_unknown, read_bprm_path_prefix, read_bprm_filename_ptr, comm_field, filename_field,
  blocked_event, emit_blocked_exec_event, saturating_inc, record_event_submitted, record_event_lost,
}

length-copy_prefix :
    (dst src : Bytes) → length src ≤ length dst → length (copy_prefix dst src) ≡ length dst
length-copy_prefix dst src h =
    omega (arith, length-append src (drop (length src) dst), length-drop (length src) dst)

length-mark_unknown :
    (bytes : Bytes) (status bit : ℕ) → length (mark_unknown bytes status bit).0 ≡ length bytes
unfolding mark_unknown
length-mark_unknown bytes status bit =
    length-copy_prefix bytes _ (omega (arith, length-take (min 7 (length bytes)) unknown_sentinel))

length-copy_capped :
    (dst src : Bytes) (n : ℕ) → length dst ≡ n → length (copy_prefix dst (take n src)) ≡ n
length-copy_capped dst src n h =
    omega (arith, length-copy_prefix dst (take n src) (omega (arith, length-take n src)))

set_head :
    (l : List TelemetryHealthStats) (s v : TelemetryHealthStats)
    → get_elem? l 0 ≡ some s
    → get_elem? (set l 0 v) 0 ≡ some v
set_head [] s v h = absurd (cc h)
set_head (x ∷ l) s v h = refl

submitted-counts :
    (m : Maps) (s : TelemetryHealthStats)
    → get_elem? m.telemetry_stats 0 ≡ some s
    → get_elem? (record_event_submitted m).telemetry_stats 0
      ≡ some (record s { events_processed = saturating_inc s.events_processed })
unfolding record_event_submitted
submitted-counts m s found =
    rw (found, record_event_submitted) (set_head m.telemetry_stats s _ found)

lost-counts :
    (m : Maps) (s : TelemetryHealthStats)
    → get_elem? m.telemetry_stats 0 ≡ some s
    → get_elem? (record_event_lost m).telemetry_stats 0
      ≡ some (record s { lost_events_count = saturating_inc s.lost_events_count })
unfolding record_event_lost
lost-counts m s found = rw (found, record_event_lost) (set_head m.telemetry_stats s _ found)

length-comm_field :
    (call : Call) (comm : Bytes) (status : ℕ)
    → length comm ≡ max_comm_len
    → length (comm_field call comm status).0 ≡ max_comm_len
unfolding comm_field
length-comm_field call comm status h = elim (Result-cases call.comm) [
  | inl (name, read) ↦ rw read (
      omega (
        arith,
        length-copy_prefix comm (take (min (length name) max_comm_len) name)
            (omega (arith, length-take (min (length name) max_comm_len) name)),
      ))
  | inr (e, unread) ↦ rw unread (length-mark_unknown comm status capture_comm ∙ h)
]

module _ (offsets : Offsets) (call : Call) where
  length-filename_field :
      (status : ℕ) → length (filename_field offsets call status).0 ≡ max_filename_len
  unfolding filename_field
  length-filename_field status =
      let zeros : Bytes = replicate max_filename_len 0 in
      elim (Result-cases (read_bprm_filename_ptr offsets call.later_memory call)) [
        | inr (e, unread) ↦
            rw (unread, filename_field) (length-mark_unknown zeros status capture_filename)
        | inl (ptr, read) ↦ elim (Result-cases (call.later_memory.read_str ptr)) [
          | inr (e, unread) ↦
              rw (read, filename_field, unread) (length-mark_unknown zeros status capture_filename)
          | inl (path, text) ↦
              rw (read, filename_field, text) (length-copy_capped zeros path max_filename_len refl)
        ]
      ]

  -- The submitted record passes the header check of the user-space decoder, says that the
  -- execution was blocked, and keeps the layout of the packed struct.
  blocked_event-IsWellFormed :
      (is_valid (blocked_event offsets call) ≡ true)
      × ((blocked_event offsets call).enforcement_action ≡ enforcement_blocked)
      × HasLayout (blocked_event offsets call)
  unfolding blocked_event is_valid
  blocked_event-IsWellFormed = (
    refl,
    refl,
    record {
      comm = length-comm_field call (replicate max_comm_len 0) _ refl;
      filename = length-filename_field _;
      argv = refl;
      env = refl;
      container_id =
          length-mark_unknown (replicate max_container_id_len 0) (bit_or 0 capture_euid)
            capture_container_id;
    },
  )

  -- What a denial by the list leaves in the maps `m'`, from `m`.
  pub record Emitted (m m' : Maps) : Type 0 where
    pub submitted :
        call.can_reserve ≡ true
        → (e : ExecEvent) × (m'.telem_ringbuf ≡ m.telem_ringbuf ++ e ∷ [])
          × (is_valid e ≡ true)
          × (e.enforcement_action ≡ enforcement_blocked)
          × HasLayout e
    pub lost : call.can_reserve ≡ false → m'.telem_ringbuf ≡ m.telem_ringbuf
    pub counted :
        (s : TelemetryHealthStats)
        → get_elem? m.telemetry_stats 0 ≡ some s
        → get_elem? m'.telemetry_stats 0
          ≡ some (
              if call.can_reserve
              then record s { events_processed = saturating_inc s.events_processed }
              else record s { lost_events_count = saturating_inc s.lost_events_count })
    pub same_list : m'.path_deny_list ≡ m.path_deny_list
    pub same_count : m'.path_deny_count ≡ m.path_deny_count
    pub same_cgroups : m'.id_allow_cgroup ≡ m.id_allow_cgroup
    pub same_valid : m'.id_except_valid ≡ m.id_except_valid

  emit_blocked_exec_event-Emitted : (m : Maps) → Emitted m (emit_blocked_exec_event offsets call m)
  unfolding emit_blocked_exec_event record_event_submitted record_event_lost
  emit_blocked_exec_event-Emitted m = record {
    submitted = λ can.
        let (v, blocked, layout) = blocked_event-IsWellFormed in
        (blocked_event offsets call, ground arith, v, blocked, layout);
    lost = λ full. ground arith;
    counted = λ s found. elim (Bool-cases call.can_reserve) [
      | inl can ↦ rw (can, emit_blocked_exec_event) (submitted-counts _ s found)
      | inr full ↦ rw (full, emit_blocked_exec_event) (lost-counts m s found)
    ];
    same_list = ground arith;
    same_count = ground arith;
    same_cgroups = ground arith;
    same_valid = ground arith;
  }

-- If every stored entry has its 32 bytes: a denial of a path that was read submits one valid
-- record marked as blocked, or counts one lost event, and changes none of the maps that decide.
pub nm_lsm_bprm-Emitted :
    (offsets : Offsets) (call : Call) (m m' : Maps) (path : Bytes)
    → All IsFull m.path_deny_list
    → read_bprm_path_prefix offsets call ≡ ok path
    → nm_lsm_bprm offsets call m ≡ some (m', lsm_deny)
    → Emitted offsets call m m'
nm_lsm_bprm-Emitted offsets call m m' path full read runs =
    let same : m' ≡ emit_blocked_exec_event offsets call m =
      ground
        (arith, run_read offsets call m full path read, decide-cases offsets call m path full) in
    rw same (emit_blocked_exec_event-Emitted offsets call m)
