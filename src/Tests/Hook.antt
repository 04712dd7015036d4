-- ===== src/Tests/Hook.antt =====
-- One call of the hook.
use neuromesh.Prelude.{◌≡◌, refl, true, false, some, [], ◌∷◌, arith, any, take, replicate}
use neuromesh.Prelude.Int.{ℤ, negsuc}
use neuromesh.Prelude.Result.{ok, err}
use neuromesh.Bytes.{starts_with}
use neuromesh.DenyEntry.{matches, empty_entry}
use neuromesh.Lsm.Maps.{Maps, Memory, Offsets, Call, lsm_deny}
use neuromesh.Lsm.Match.{
  path_starts_with, is_blacklisted_path, active_count, identity_exception_allows, scan_loop,
  entry_hits, compare_loop,
}
use neuromesh.Lsm.Emit.{read_bprm_path_prefix, read_bprm_filename_ptr, emit_blocked_exec_event}
use neuromesh.Lsm.Hook.{nm_lsm_bprm, try_nm_lsm_bprm, decide}
use neuromesh.Lsm.Scan.{is_blacklisted_path-any, path_starts_with-starts_with}
use neuromesh.Lsm.Decision.{Decided, nm_lsm_bprm_decided}
use neuromesh.Lsm.Telemetry.{Emitted, nm_lsm_bprm-Emitted}
use neuromesh.PathDeny.{PathDenyMaps}
use neuromesh.PathDeny.Apply.{Applied}
use neuromesh.PathDeny.Enforced.{with_deny_list}
use neuromesh.LsmDecision.{
  decision_from_path_capture, capture_of, nm_lsm_bprm-decision_from_path_capture,
}
use neuromesh.Tests.{tmp_path, tmp_entry}

abbrev armed_maps : Maps
armed_maps = record {
  path_deny_list = tmp_entry ∷ [];
  path_deny_count = 1 ∷ [];
  id_allow_cgroup = [];
  id_except_valid = 0 ∷ [];
  telemetry_stats = record { events_processed = 0; lost_events_count = 0 } ∷ [];
  telem_ringbuf = [];
}

abbrev some_offsets : Offsets
some_offsets = record {
  bprm_filename_offset = 96;
  task_real_parent_offset = 1;
  task_tgid_offset = 2;
}

-- A process starts `/tmp/payload`.
abbrev tmp_memory : Memory
tmp_memory = record {
  read_ptr = λ p. ok 4096;
  read_window = λ p. ok tmp_path;
  read_u32 = λ p. ok 1;
  read_str = λ p. ok tmp_path;
}

abbrev tmp_call : Call
tmp_call = record {
  bprm = 8192;
  memory = tmp_memory;
  later_memory = tmp_memory;
  task = 100;
  pid_tgid = 7;
  uid_gid = 0;
  cgroup_id = 5;
  comm = err (negsuc 0);
  ktime_ns = 1;
  can_reserve = true;
}

nm_lsm_bprm_decided_example :
    (m' : Maps) × (v : ℤ) × (nm_lsm_bprm some_offsets tmp_call armed_maps ≡ some (m', v))
    × Decided some_offsets tmp_call armed_maps m' v
nm_lsm_bprm_decided_example = nm_lsm_bprm_decided some_offsets tmp_call armed_maps (refl, tt)

is_blacklisted_path-any_example :
    is_blacklisted_path armed_maps tmp_path
    ≡ some (any (λ e. matches e tmp_path) (take (active_count (1 ∷ [])) (tmp_entry ∷ [])))
is_blacklisted_path-any_example = is_blacklisted_path-any armed_maps tmp_path (refl, tt)

path_starts_with-starts_with_example :
    path_starts_with tmp_path tmp_entry.bytes 5
    ≡ some (starts_with tmp_path (take 5 tmp_entry.bytes))
path_starts_with-starts_with_example =
    path_starts_with-starts_with tmp_path tmp_entry.bytes 5 (omega arith) (omega arith)
      (omega arith)

abbrev after_denial : Maps
after_denial = emit_blocked_exec_event some_offsets tmp_call armed_maps

tmp_denied : nm_lsm_bprm some_offsets tmp_call armed_maps ≡ some (after_denial, lsm_deny)
unfolding nm_lsm_bprm try_nm_lsm_bprm decide read_bprm_path_prefix read_bprm_filename_ptr
    is_blacklisted_path scan_loop entry_hits path_starts_with compare_loop identity_exception_allows
tmp_denied = refl

tmp_read : read_bprm_path_prefix some_offsets tmp_call ≡ ok tmp_path
unfolding read_bprm_path_prefix read_bprm_filename_ptr
tmp_read = refl

nm_lsm_bprm-Emitted_example : Emitted some_offsets tmp_call armed_maps after_denial
nm_lsm_bprm-Emitted_example =
    nm_lsm_bprm-Emitted some_offsets tmp_call armed_maps after_denial tmp_path (refl, tt) tmp_read
      tmp_denied

abbrev written : PathDenyMaps
written = record { list = tmp_entry ∷ replicate 63 empty_entry; count = 1 ∷ [] }

written-Applied : Applied (tmp_entry ∷ []) written
written-Applied = record {
  list = refl;
  count = refl;
  nonempty = omega arith;
  bounded = omega arith;
  usable = ((omega arith, omega arith), tt);
}

not_excepted : identity_exception_allows (with_deny_list armed_maps written) tmp_call ≡ false
unfolding identity_exception_allows
not_excepted = refl

nm_lsm_bprm-decision_from_path_capture_example :
    (m' : Maps) × (nm_lsm_bprm some_offsets tmp_call (with_deny_list armed_maps written)
      ≡ some (m', decision_from_path_capture (capture_of some_offsets tmp_call) (tmp_entry ∷ [])))
nm_lsm_bprm-decision_from_path_capture_example =
    nm_lsm_bprm-decision_from_path_capture some_offsets tmp_call armed_maps (tmp_entry ∷ []) written
      (refl, tt) written-Applied not_excepted
