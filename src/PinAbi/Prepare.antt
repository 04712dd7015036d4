-- ===== src/PinAbi/Prepare.antt =====
-- apps/agent-ebpf-sensor/src/pin_abi.rs: `assess_pin_abi`, and `prepare_pin_root_for_load`, which
-- runs before the maps are loaded and says with which entries the deny list is to be filled.
use neuromesh.Prelude.{
  ℕ, Bool, true, false, not, ◌&&◌, none, some, List, [], ◌∷◌, ◌++◌, ◌==◌, if◌then◌else◌, is_empty,
}
use neuromesh.Prelude.Result.{Result, ok, err}
use neuromesh.Bytes.{Bytes}
use neuromesh.DenyEntry.{PathDenyEntry, bootstrap_path_deny_prefixes}
use neuromesh.PathDeny.{build_entries}
use neuromesh.PinAbi.Disk.{
  top, under, Nodes, Kernel, PinError, not_empty, incompatible, bootstrap_invalid, M, ◌>>=◌, ◌>>◌,
  pure, bail, read, exists, remove_file, map_info, read_deny_count, read_legacy_deny_entries_at,
}
use neuromesh.PinAbi.Names.{
  path_deny_list_map, path_deny_count_map, process_events_map, rate_limit_bucket_map,
  is_legacy_path_deny_list,
}
use neuromesh.PinAbi.Staging.{
  select_deny_legacy_dir, resolve_deny_pin_locations, has_expected_layout,
  complete_interrupted_deny_stage, stage_legacy_deny_pins, recreate_mismatched_process_maps,
}

pub data PinAbiState : Type 0 where
  cold : PinAbiState
  compatible : PinAbiState
  legacy_migratable : PinAbiState
  migration_in_progress : Bytes → PinAbiState
  not_compatible : Bytes → PinAbiState

pub data DenySeedOverride : Type 0 where
  bootstrap : DenySeedOverride
  resume_pinned : DenySeedOverride
  migrated_entries : List PathDenyEntry → Bool → DenySeedOverride

pub data MigrationResult : Type 0 where
  was_compatible : MigrationResult
  migrated : MigrationResult
  resumed_migration : MigrationResult
  bootstrap_fallback : MigrationResult
  process_map_recreated : MigrationResult

abbrev pub Prepared : Type 0
Prepared = DenySeedOverride × List MigrationResult

unfoldable pub bootstrap_entries_fallback : Result PinError (List PathDenyEntry)
bootstrap_entries_fallback = elim (build_entries bootstrap_path_deny_prefixes) [
  | err e ↦ err bootstrap_invalid
  | ok out ↦ if is_empty out then err bootstrap_invalid else ok out
]

-- An ABI mismatch of a process map is only logged here, but its layout must be readable.
abbrev pub checked_process_map : Kernel → Bytes → Nodes → Result PinError (Unit {0})
checked_process_map kernel name nodes =
    if exists (top name) nodes
    then (elim (map_info kernel (top name) nodes) [ err e ↦ err e | ok info ↦ ok tt ])
    else ok tt

module _ (kernel : Kernel) where
  -- After both deny pins were found to have the expected layout.
  unfoldable pub assess_current : Nodes → Result PinError PinAbiState
  assess_current nodes = elim (checked_process_map kernel process_events_map nodes) [
    | err e ↦ err e
    | ok _ ↦ elim (checked_process_map kernel rate_limit_bucket_map nodes) [
      | err e ↦ err e
      | ok _ ↦ elim (select_deny_legacy_dir nodes) [
        | none ↦ ok compatible
        | some d ↦ elim (read_deny_count kernel (top path_deny_count_map) nodes) [
          | err e ↦ err e
          | ok active ↦ if active == 0 then ok (migration_in_progress d) else ok compatible
        ]
      ]
    ]
  ]

  -- When both deny pins are there.
  unfoldable pub assess_layout : Nodes → Result PinError PinAbiState
  unfolding assess_current
  assess_layout nodes = elim (map_info kernel (top path_deny_list_map) nodes) [
    | err e ↦ err e
    | ok list_info ↦ elim (has_expected_layout kernel path_deny_count_map nodes) [
      | err e ↦ err e
      | ok count_fits ↦
          if is_legacy_path_deny_list list_info && count_fits
          then ok legacy_migratable
          else (elim (has_expected_layout kernel path_deny_list_map nodes) [
            | err e ↦ err e
            | ok false ↦ ok (not_compatible path_deny_list_map)
            | ok true ↦
                if count_fits then assess_current nodes else ok (not_compatible path_deny_count_map)
          ])
    ]
  ]

  abbrev pub assess_pins : Bool → Bool → Nodes → Result PinError PinAbiState
  assess_pins false false nodes = ok cold
  assess_pins true false nodes = ok (not_compatible path_deny_list_map)
  assess_pins false true nodes = ok (not_compatible path_deny_count_map)
  assess_pins true true nodes = assess_layout nodes

  unfoldable pub assess_pin_abi : Nodes → Result PinError PinAbiState
  unfolding assess_layout
  assess_pin_abi nodes =
      let list_exists = exists (top path_deny_list_map) nodes in
      let count_exists = exists (top path_deny_count_map) nodes in
      elim (select_deny_legacy_dir nodes) [
        | none ↦ assess_pins list_exists count_exists nodes
        | some d ↦
            if not (list_exists && count_exists)
            then ok (migration_in_progress d)
            else assess_pins list_exists count_exists nodes
      ]

abbrev pub both_exist : Bytes → Bytes → Nodes → Bool
both_exist d name nodes = exists (top name) nodes && exists (under d name) nodes

module _ (allows : ℕ → Bool) where
  -- The canonical pin goes if a staged copy exists.
  unfoldable pub free_name : Bytes → Bytes → M (Unit {0})
  free_name d name s =
      if both_exist d name s.nodes then remove_file allows (top name) s else pure tt s

  abbrev pub free_names : Bytes → M (Unit {0})
  free_names d = free_name d path_deny_list_map >> free_name d path_deny_count_map

-- The count of a canonical map beside a staged one; 0 where there are not both.
unfoldable pub canonical_count : Kernel → Bytes → Nodes → Result PinError ℕ
canonical_count kernel d nodes =
    if both_exist d path_deny_count_map nodes
    then read_deny_count kernel (top path_deny_count_map) nodes
    else ok 0

module _ (kernel : Kernel) (allows : ℕ → Bool) where
  -- The names are freed after the entries were read.
  unfoldable pub resume_read : Bytes → List PathDenyEntry → M Prepared
  unfolding free_name
  resume_read d entries = do
    active ← read (canonical_count kernel d)
    if active == 0 then free_names allows d else bail (not_empty active)
    pure (migrated_entries entries true, resumed_migration ∷ [])

  unfoldable pub resume_fallback : Bytes → M Prepared
  unfolding free_name
  resume_fallback d = do
    active ← read (canonical_count kernel d)
    if active == 0 then free_names allows d else pure tt
    entries ← read (λ _. bootstrap_entries_fallback)
    pure (migrated_entries entries false, bootstrap_fallback ∷ [])

  unfoldable pub resume : Bytes → M Prepared
  unfolding resume_read resume_fallback
  resume d = do
    complete_interrupted_deny_stage allows d
    locations ← read (resolve_deny_pin_locations d)
    λ s. elim (read_legacy_deny_entries_at kernel locations.list locations.count s.nodes) [
      | ok entries ↦ resume_read d entries s
      | err e ↦ resume_fallback d s
    ]

  abbrev pub recreated : List Bytes → List MigrationResult
  recreated removed = if is_empty removed then [] else process_map_recreated ∷ []

  -- The process maps come before the last result, or after it on a resumed migration.
  abbrev pub after_recreate : DenySeedOverride → List MigrationResult → M Prepared
  after_recreate seed results = do
    removed ← recreate_mismatched_process_maps allows kernel
    pure (seed, recreated removed ++ results)

  unfoldable pub migrate : M Prepared
  migrate s =
      elim (read_legacy_deny_entries_at kernel (top path_deny_list_map) (top path_deny_count_map)
        s.nodes) [
          | err e ↦
              (do
                _ ← stage_legacy_deny_pins allows
                removed ← recreate_mismatched_process_maps allows kernel
                entries ← read (λ _. bootstrap_entries_fallback)
                pure (
                  migrated_entries entries false,
                  recreated removed ++ (bootstrap_fallback ∷ []),
                ))
                s
          | ok entries ↦
              (do
                _ ← stage_legacy_deny_pins allows
                after_recreate (migrated_entries entries true) (migrated ∷ []))
                s
        ]

  abbrev pub prepare_state : PinAbiState → M Prepared
  prepare_state (not_compatible name) = bail (incompatible name)
  prepare_state cold = after_recreate bootstrap []
  prepare_state compatible = after_recreate resume_pinned (was_compatible ∷ [])
  prepare_state legacy_migratable = migrate
  prepare_state (migration_in_progress d) = do
    (seed, results) ← resume d
    removed ← recreate_mismatched_process_maps allows kernel
    pure (seed, results ++ recreated removed)

  unfoldable pub prepare_pin_root_for_load : M Prepared
  unfolding resume migrate
  prepare_pin_root_for_load s = elim (assess_pin_abi kernel s.nodes) [
    | err e ↦ (s, err e)
    | ok state ↦ prepare_state state s
  ]
