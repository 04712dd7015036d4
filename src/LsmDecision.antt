-- ===== src/LsmDecision.antt =====
-- apps/agent-ebpf-sensor/src/lsm_decision.rs: the user-space mirror of the hook's decision, and that
-- it is one.
use neuromesh.Prelude.{
  ℕ, ◌≡◌, refl, ap, ◌∙◌, inl, inr, false, some, List, arith, Bool-cases, if◌then◌else◌, any, All,
}
use neuromesh.Prelude.Int.{ℤ}
use neuromesh.Prelude.Result.{Result, ok, err, Result-cases}
use neuromesh.Bytes.{Bytes}
use neuromesh.DenyEntry.{PathDenyEntry, matches}
use neuromesh.Lsm.Maps.{Maps, Offsets, Call, lsm_allow, lsm_deny}
use neuromesh.Lsm.Match.{identity_exception_allows}
use neuromesh.Lsm.Emit.{read_bprm_filename_ptr, read_bprm_path_prefix, emit_blocked_exec_event}
use neuromesh.Lsm.Hook.{decide, nm_lsm_bprm}
use neuromesh.Lsm.Scan.{IsFull}
use neuromesh.Lsm.Decision.{run_read, unreadable, decide-cases, blacklisted}
use neuromesh.PathDeny.{PathDenyMaps, map_backed_is_blacklisted}
use neuromesh.PathDeny.Apply.{Applied}
use neuromesh.PathDeny.Enforced.{with_deny_list, Applied-IsFull, Applied-active}

pub data PathCapture : Type 0 where
  captured : Bytes → PathCapture
  filename_pointer_unreadable path_bytes_unreadable : PathCapture

unfoldable pub decision_from_path_capture : PathCapture → List PathDenyEntry → ℤ
decision_from_path_capture filename_pointer_unreadable deny_entries = lsm_deny
decision_from_path_capture path_bytes_unreadable deny_entries = lsm_deny
decision_from_path_capture (captured prefix) deny_entries =
    if map_backed_is_blacklisted prefix deny_entries then lsm_deny else lsm_allow

unfoldable pub lsm_hook_result : Result ℤ ℤ → ℤ
lsm_hook_result (ok ret) = ret
lsm_hook_result (err _) = lsm_deny

-- The capture that the reads of a call amount to.
abbrev pub capture_of : Offsets → Call → PathCapture
capture_of offsets call = elim (read_bprm_filename_ptr offsets call.memory call) [
  | err _ ↦ filename_pointer_unreadable
  | ok ptr ↦ elim (call.memory.read_window ptr) [
    | err _ ↦ path_bytes_unreadable
    | ok path ↦ captured path
  ]
]

module _ (offsets : Offsets) (call : Call) (m : Maps) (entries : List PathDenyEntry)
    (d : PathDenyMaps) (full : All IsFull entries) (a : Applied entries d)
    (no_exception : identity_exception_allows (with_deny_list m d) call ≡ false) where
  -- The verdict on a path that was read.
  decide-verdict :
      (path : Bytes)
      → (m' : Maps) × (decide offsets call (with_deny_list m d) path
          ≡ some (m', decision_from_path_capture (captured path) entries))
  unfolding decision_from_path_capture map_backed_is_blacklisted
  decide-verdict path =
      let n = with_deny_list m d in
      let cases = decide-cases offsets call n path (Applied-IsFull m entries d full a) in
      let shown : blacklisted n path ≡ map_backed_is_blacklisted path entries =
        ap (any (λ e. matches e path)) (Applied-active m entries d a) in
      elim (Bool-cases (blacklisted n path)) [
        | inl hit ↦ (emit_blocked_exec_event offsets call n, ground (arith, cases, shown))
        | inr miss ↦ (n, ground (arith, cases, shown))
      ]

  abbrev n : Maps
  n = with_deny_list m d

  deny_list-IsFull : All IsFull n.path_deny_list
  deny_list-IsFull = Applied-IsFull m entries d full a

  unreadable_lem :
      (e : ℤ)
      → read_bprm_path_prefix offsets call ≡ err e
      → nm_lsm_bprm offsets call n ≡ some (n, lsm_deny)
  unreadable_lem e unread =
      let (runs, _) = unreadable offsets call n deny_list-IsFull e unread in runs

  -- The two reads of `read_bprm_path_prefix`.
  ptr_unread :
      (e : ℤ)
      → read_bprm_filename_ptr offsets call.memory call ≡ err e
      → read_bprm_path_prefix offsets call ≡ err e
  unfolding read_bprm_path_prefix
  ptr_unread e unread = ground arith

  window_read_lem :
      (ptr : ℕ)
      → read_bprm_filename_ptr offsets call.memory call ≡ ok ptr
      → read_bprm_path_prefix offsets call ≡ call.memory.read_window ptr
  unfolding read_bprm_path_prefix
  window_read_lem ptr found = ground arith

  -- With 32-byte entries written and no identity exception, the hook's verdict is that of the
  -- mirror, on every outcome of the two reads.
  pub nm_lsm_bprm-decision_from_path_capture :
      (m' : Maps) × (nm_lsm_bprm offsets call (with_deny_list m d)
        ≡ some (m', decision_from_path_capture (capture_of offsets call) entries))
  unfolding decision_from_path_capture
  nm_lsm_bprm-decision_from_path_capture =
      elim (Result-cases (read_bprm_filename_ptr offsets call.memory call)) [
        | inr (e, unread) ↦
            let shown : capture_of offsets call ≡ filename_pointer_unreadable = ground arith in
            (n, unreadable_lem e (ptr_unread e unread) ∙ rw shown refl)
        | inl (ptr, found) ↦ elim (Result-cases (call.memory.read_window ptr)) [
          | inr (e, unread) ↦
              let shown : capture_of offsets call ≡ path_bytes_unreadable = ground arith in
              (n, unreadable_lem e (window_read_lem ptr found ∙ unread) ∙ rw shown refl)
          | inl (path, read) ↦
              let (m', decides) = decide-verdict path in
              let shown : capture_of offsets call ≡ captured path = ground arith in
              (
                m',
                run_read offsets call n deny_list-IsFull path (window_read_lem ptr found ∙ read)
                    ∙ rw shown decides,
              )
        ]
      ]
