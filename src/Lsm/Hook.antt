-- ===== src/Lsm/Hook.antt =====
-- apps/agent-ebpf-sensor/ebpf/src/main.rs: the decision of the hook. The outer `Option` is a panic,
-- the `Result` inside is the source's.
use neuromesh.Prelude.{true, false, ◌&&◌, Option, none, some, if◌then◌else◌, length}
use neuromesh.Prelude.Int.{ℤ}
use neuromesh.Prelude.Result.{Result, ok, err}
use neuromesh.Bytes.{Bytes}
use neuromesh.Lsm.Maps.{Maps, Offsets, Call, lsm_allow, lsm_deny, identity_exception_scope_prefix}
use neuromesh.Lsm.Match.{path_starts_with, is_blacklisted_path, identity_exception_allows}
use neuromesh.Lsm.Emit.{read_bprm_path_prefix, emit_blocked_exec_event}

module _ (offsets : Offsets) where
  -- `try_nm_lsm_bprm` once the path is read.
  unfoldable pub decide : Call → Maps → Bytes → Option (Maps × ℤ)
  decide call m prefix = elim (is_blacklisted_path m prefix) [
    | none ↦ none
    | some false ↦ some (m, lsm_allow)
    | some true ↦
        elim (path_starts_with prefix identity_exception_scope_prefix
          (length identity_exception_scope_prefix)) [
            | none ↦ none
            | some in_scope ↦
                if in_scope && identity_exception_allows m call
                then some (m, lsm_allow)
                else some (emit_blocked_exec_event offsets call m, lsm_deny)
          ]
  ]

  unfoldable pub try_nm_lsm_bprm : Call → Maps → Option (Result ℤ (Maps × ℤ))
  unfolding decide
  try_nm_lsm_bprm call m = elim (read_bprm_path_prefix offsets call) [
    | err e ↦ some (err e)
    | ok prefix ↦ elim (decide call m prefix) [ none ↦ none | some r ↦ some (ok r) ]
  ]

  unfoldable pub nm_lsm_bprm : Call → Maps → Option (Maps × ℤ)
  unfolding try_nm_lsm_bprm
  nm_lsm_bprm call m = elim (try_nm_lsm_bprm call m) [
    | none ↦ none
    | some (ok r) ↦ some r
    | some (err _) ↦ some (m, lsm_deny)
  ]
